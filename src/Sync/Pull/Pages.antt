-- ===== src/Sync/Pull/Pages.antt =====
-- The pages of a pull, one after the other, are the log.
use tasktips_cloud.Base.{
  ℕ, zero, suc, ◌≤◌, ◌≡◌, refl, ap, ◌∙◌, inl, inr, false, ◌&&◌, List, [], ◌∷◌, ◌++◌, ◌==◌, ltb,
  length, arith, if◌then◌else◌, find_by, delete_where, Bool-cases, Option-cases, pos,
}
use tasktips_cloud.Store.Errors.{ok, steps_of_ok}
use tasktips_cloud.Store.Schema.{Db, Revision, Change}
use tasktips_cloud.Store.Transaction.{commit_ok-eq-ok}
use tasktips_cloud.Sync.Push.{project_state}
use tasktips_cloud.Sync.Pull.{
  SyncRecord, PullPage, log_records, order_records, take, pop, last_sequence, page_of, Puller,
  ensure_generation, ensure_sequence, read_page, pull_page,
}
use tasktips_cloud.Sync.Pull.Order.{
  up_to, order_later, Ascending, Distinct, insert_record-Ascending, any_by-order_records,
  log_records_new,
}

order-Ascending :
    (project after : ℕ) (revisions : List Revision) (cs : List Change)
    → Distinct cs
    → Ascending after (order_records (log_records project after revisions cs))
unfolding order_records log_records
order-Ascending project after revisions [] distinct = tt
order-Ascending project after revisions (c ∷ cs) distinct =
    let rest = order-Ascending project after revisions cs distinct.1 in
    elim (Bool-cases (c.project == project && ltb after c.sequence)) [
      | inr passed ↦ rw passed rest
      | inl counted ↦ elim (Option-cases (find_by (λ r. r.id == c.revision_id) revisions)) [
        | inl missing ↦ rw (counted, missing) rest
        | inr (r, found) ↦
            let same : c.project ≡ project = ground arith in
            let fresh =
              log_records_new project after c.sequence revisions cs (rw same at distinct.0) in
            rw (counted, found)
              (insert_record-Ascending after _ _ (ground arith)
                (any_by-order_records c.sequence (log_records project after revisions cs) ∙ fresh)
                rest)
      ]
    ]

last_sequence_ge :
    (low n : ℕ) (xs : List SyncRecord) → Ascending low xs → low ≤ last_sequence low (take n xs)
unfolding last_sequence take
last_sequence_ge low zero xs up = omega arith
last_sequence_ge low (suc n) [] up = omega arith
last_sequence_ge low (suc n) (x ∷ xs) up =
    let less = up.0 in let rest = last_sequence_ge x.change_sequence n xs up.1 in omega arith

delete_where_low :
    (n low : ℕ) (xs : List SyncRecord) → n ≤ low → Ascending low xs → delete_where (up_to n) xs ≡ xs
unfolding delete_where
delete_where_low n low [] le up = refl
delete_where_low n low (x ∷ xs) le up =
    let less = up.0 in
    let rest = delete_where_low n x.change_sequence xs (omega arith) up.1 in ground arith

-- A page and what comes after its last record.
take_then_later :
    (low n : ℕ) (xs : List SyncRecord)
    → Ascending low xs
    → take n xs ++ delete_where (up_to (last_sequence low (take n xs))) xs ≡ xs
unfolding take last_sequence delete_where
take_then_later low zero xs up = delete_where_low low low xs (omega arith) up
take_then_later low (suc n) [] up = refl
take_then_later low (suc n) (x ∷ xs) up =
    let ge = last_sequence_ge x.change_sequence n xs up.1 in
    let rest = take_then_later x.change_sequence n xs up.1 in ground arith

pub take_nil : (n : ℕ) → take {A = SyncRecord} n [] ≡ []
unfolding take
take_nil zero = refl
take_nil (suc n) = refl

pub pop-take :
    (n : ℕ) (xs : List SyncRecord)
    → (if ltb n (length (take (suc n) xs)) then pop (take (suc n) xs) else take (suc n) xs)
      ≡ take n xs
unfolding take pop
pop-take zero [] = refl
pop-take zero (x ∷ xs) = refl
pop-take (suc n) [] = ground arith
pop-take (suc n) (x ∷ []) = ground (arith, take_nil n)
pop-take (suc n) (x ∷ y ∷ ys) = let rest = pop-take n (y ∷ ys) in ground arith

length-take_le : (n : ℕ) (xs : List SyncRecord) → length (take n xs) ≤ n
unfolding take
length-take_le zero xs = omega arith
length-take_le (suc n) [] = omega arith
length-take_le (suc n) (x ∷ xs) = omega (arith, length-take_le n xs)

-- A fetch that gets no more than the limit gets everything.
pub take_all :
    (n : ℕ) (xs : List SyncRecord) → ltb n (length (take (suc n) xs)) ≡ false → take n xs ≡ xs
unfolding take
take_all n [] e = take_nil n
take_all zero (x ∷ xs) e = absurd (cc)
take_all (suc n) (x ∷ xs) e = ap (λ ys. x ∷ ys) (take_all n xs (ground arith))

-- The project's log after a sequence, in its order.
abbrev pub log_after : ℕ → ℕ → Db → List SyncRecord
log_after project n db = order_records (log_records project n db.revisions db.changes)

-- What a page promises.
pub record IsPage (project after limit : ℕ) (db : Db) (page : PullPage) : Type 0 where
  pub bounded : length page.records ≤ limit
  pub continues :
      page.records ++ log_after project page.next_sequence db ≡ log_after project after db
  pub complete : (page.has_more ≡ false) → page.records ≡ log_after project after db

page_of-IsPage :
    (project generation after limit : ℕ) (db : Db)
    → Distinct db.changes
    → IsPage project after limit db (page_of generation after limit (log_after project after db))
unfolding page_of
page_of-IsPage project generation after limit db distinct =
    let all = log_after project after db in
    let up = order-Ascending project after db.revisions db.changes distinct in
    let popped = pop-take limit all in
    record {
      bounded = rw popped (length-take_le limit all);
      continues = rw popped (
          rw
            (order_later project after (last_sequence after (take limit all)) db.revisions
              db.changes (last_sequence_ge after limit all up))
            (take_then_later after limit all up));
      complete = λ e. popped ∙ take_all limit all e;
    }

read_page-page_of :
    (by : Puller) (expected after limit : ℕ) (db db' : Db) (page : PullPage)
    → read_page by expected (pos after) limit db ≡ ok (page, db')
    → (generation : ℕ) × (page ≡ page_of generation after limit (log_after by.project after db))
unfolding read_page
read_page-page_of by expected after limit db db' page e =
    let ((generation, current), e₁, state) =
      steps_of_ok (project_state by.user by.project db) _ e in
    let (s, e₂, same) = steps_of_ok (ensure_generation expected generation) _ e₁ in
    let (r, e₃, reached) = steps_of_ok (ensure_sequence (pos after) current) _ e₂ in
    (generation, cc)

-- A page that a pull returns has at most the limit of records; with the log after its next sequence
-- behind it, it is the log after the sequence that was asked for, so that pulling on from there
-- misses nothing and repeats nothing; and when there is no more, it is that whole log. The sequences
-- of the project's log are a primary key.
pub pull_page-IsPage :
    (by : Puller) (expected after limit : ℕ) (db db' : Db) (page : PullPage)
    → Distinct db.changes
    → pull_page by expected (pos after) limit db ≡ (ok page, db')
    → IsPage by.project after limit db page
unfolding pull_page
pull_page-IsPage by expected after limit db db' page distinct e =
    let (generation, same) =
      read_page-page_of by expected after limit db db' page (commit_ok-eq-ok db db' _ page e) in
    rw same (page_of-IsPage by.project generation after limit db distinct)
