-- ===== src/Sync/Pull/Order.antt =====
-- The order of the records of a page.
use tasktips_cloud.Base.{
  ℕ, ◌≤◌, ◌<◌, ◌≡◌, refl, ap, ◌∙◌, inl, inr, Bool, true, false, ◌&&◌, ◌||◌, List, [], ◌∷◌, ◌==◌,
  leb, arith, if◌then◌else◌, find_by, any_by, delete_where, Bool-cases, Option-cases,
}
use tasktips_cloud.Store.Schema.{Revision, Change}
use tasktips_cloud.Sync.Pull.{SyncRecord, log_records, insert_record, order_records}

abbrev pub up_to : ℕ → SyncRecord → Bool
up_to n r = leb r.change_sequence n

-- The records after a later sequence are those after an earlier one without the ones in between.
log_records_later :
    (project after later : ℕ) (revisions : List Revision) (cs : List Change)
    → after ≤ later
    → log_records project later revisions cs
      ≡ delete_where (up_to later) (log_records project after revisions cs)
unfolding log_records delete_where
log_records_later project after later revisions [] le = refl
log_records_later project after later revisions (c ∷ cs) le =
    elim (Option-cases (find_by (λ r. r.id == c.revision_id) revisions)) [
      | inl missing ↦
          rw missing (ground (arith, log_records_later project after later revisions cs le))
      | inr (r, found) ↦
          rw found (ground (arith, log_records_later project after later revisions cs le))
    ]

delete_where-insert_record :
    (n : ℕ) (x : SyncRecord) (ys : List SyncRecord)
    → delete_where (up_to n) (insert_record x ys) ≡ (
        if up_to n x
        then delete_where (up_to n) ys
        else insert_record x (delete_where (up_to n) ys))
unfolding delete_where insert_record
delete_where-insert_record n x [] = ground arith
delete_where-insert_record n x (y ∷ ys) = ground (arith, delete_where-insert_record n x ys)

order_records-delete_where :
    (n : ℕ) (xs : List SyncRecord)
    → order_records (delete_where (up_to n) xs) ≡ delete_where (up_to n) (order_records xs)
unfolding delete_where order_records
order_records-delete_where n [] = refl
order_records-delete_where n (x ∷ xs) =
    ground
      (arith, delete_where-insert_record n x (order_records xs), order_records-delete_where n xs)

pub order_later :
    (project after later : ℕ) (revisions : List Revision) (cs : List Change)
    → after ≤ later
    → order_records (log_records project later revisions cs)
      ≡ delete_where (up_to later) (order_records (log_records project after revisions cs))
order_later project after later revisions cs le =
    ap order_records (log_records_later project after later revisions cs le)
    ∙ order_records-delete_where later (log_records project after revisions cs)

-- The sequences go up, all above a bound.
abbrev pub Ascending : ℕ → List SyncRecord → Type 0
Ascending low [] = Unit
Ascending low (x ∷ xs) = (low < x.change_sequence) × Ascending x.change_sequence xs

abbrev has_sequence : ℕ → SyncRecord → Bool
has_sequence s r = r.change_sequence == s

any_by-insert_record :
    (s : ℕ) (x : SyncRecord) (ys : List SyncRecord)
    → any_by (has_sequence s) (insert_record x ys)
      ≡ (has_sequence s x || any_by (has_sequence s) ys)
unfolding any_by insert_record
any_by-insert_record s x [] = ground arith
any_by-insert_record s x (y ∷ ys) = ground (arith, any_by-insert_record s x ys)

pub any_by-order_records :
    (s : ℕ) (xs : List SyncRecord)
    → any_by (has_sequence s) (order_records xs) ≡ any_by (has_sequence s) xs
unfolding any_by order_records
any_by-order_records s [] = refl
any_by-order_records s (x ∷ xs) =
    any_by-insert_record s x (order_records xs)
    ∙ ap (λ b. has_sequence s x || b) (any_by-order_records s xs)

first_above :
    (x y : SyncRecord)
    → leb x.change_sequence y.change_sequence ≡ true
    → has_sequence x.change_sequence y ≡ false
    → x.change_sequence < y.change_sequence
first_above x y le ne = ground arith

pub insert_record-Ascending :
    (low : ℕ) (x : SyncRecord) (ys : List SyncRecord)
    → low < x.change_sequence
    → any_by (has_sequence x.change_sequence) ys ≡ false
    → Ascending low ys
    → Ascending low (insert_record x ys)
unfolding any_by insert_record
insert_record-Ascending low x [] less new up = (less, tt)
insert_record-Ascending low x (y ∷ ys) less new up =
    elim (Bool-cases (leb x.change_sequence y.change_sequence)) [
      | inl first ↦ rw first (less, (first_above x y first (ground arith), up.1))
      | inr later ↦
          rw later (
            up.0,
            insert_record-Ascending y.change_sequence x ys (ground arith) (ground arith) up.1,
          )
    ]

-- `PRIMARY KEY (project_id, sequence)`
abbrev pub Distinct : List Change → Type 0
Distinct [] = Unit
Distinct (c ∷ cs) =
    (any_by (λ d. d.project == c.project && d.sequence == c.sequence) cs ≡ false) × Distinct cs

pub log_records_new :
    (project after s : ℕ) (revisions : List Revision) (cs : List Change)
    → any_by (λ d. d.project == project && d.sequence == s) cs ≡ false
    → any_by (has_sequence s) (log_records project after revisions cs) ≡ false
unfolding any_by log_records
log_records_new project after s revisions [] new = refl
log_records_new project after s revisions (c ∷ cs) new =
    elim (Option-cases (find_by (λ r. r.id == c.revision_id) revisions)) [
      | inl missing ↦ rw missing (ground (arith, log_records_new project after s revisions cs))
      | inr (r, found) ↦ rw found (ground (arith, log_records_new project after s revisions cs))
    ]
