-- ===== src/Restore/Appended.antt =====
-- The loop of a restore appends an entry for each item that it writes, and counts it.
use tasktips_cloud.Base.{
  ℕ, ◌+◌, ◌≡◌, refl, sym, ap, ◌∙◌, inl, inr, Bool, not, Bool-cases, some, List, [], ◌∷◌, ◌++◌, map,
  arith, if◌then◌else◌, find_by, count_by, length, upsert, subst,
}
use tasktips_cloud.Store.Errors.{ok, steps_of_ok}
use tasktips_cloud.Store.Schema.{Db, Project, Revision, Change, Head}
use tasktips_cloud.Sync.Item.{is_head}
use tasktips_cloud.Restore.Manifest.{ManifestRow, ManifestItem}
use tasktips_cloud.Restore.Execute.{
  Restorer, restore_item, is_item_of, differs, revision_or_zero, restore_items,
}
use tasktips_cloud.Restore.Counted.{row_of_project, restored_project, ok_db}
use tasktips_cloud.Restore.Logged.{
  Entries, AreNext, heads_after, is_deletion, is_object, Logged, logged_item,
}

length-append_one {ℓ} : {A : Type ℓ} (xs : List A) (x : A) → length (xs ++ (x ∷ [])) ≡ length xs + 1
length-append_one [] x = refl
length-append_one (y ∷ xs) x = omega (arith, length-append_one xs x)

append_next :
    (project last : ℕ) (es : Entries) (r : Revision) (c : Change)
    → AreNext project (last + 1) es
    → AreNext project last ((r, c) ∷ [])
    → AreNext project last (es ++ ((r, c) ∷ []))
append_next project last [] r c later first = first
append_next project last ((r', c') ∷ es) r c (a, b, d, n, later) first =
    let more = length-append_one es (r, c) in
    (a, b, d, n ∙ omega (arith, more), append_next project last es r c later first)

append_logged {ℓ κ} :
    {A : Type ℓ} {B : Type κ} (f : A → B) (es : List A) (e : A) (rest : List B)
    → map f es ++ (f e ∷ rest) ≡ map f (es ++ (e ∷ [])) ++ rest
append_logged f [] e rest = refl
append_logged f (x ∷ es) e rest = ap (λ ys. f x ∷ ys) (append_logged f es e rest)

append_heads :
    (es : Entries) (e : Revision × Change) (heads : List Head)
    → heads_after es (heads_after (e ∷ []) heads) ≡ heads_after (es ++ (e ∷ [])) heads
unfolding heads_after
append_heads [] e heads = refl
append_heads ((r, c) ∷ es) e heads =
    ap
      (upsert (is_head r.project r.kind r.object_id)
        (λ h. record h { revision = r.revision; revision_id = r.id })
        (record {
          project = r.project;
          owner = r.owner;
          kind = r.kind;
          object_id = r.object_id;
          revision = r.revision;
          revision_id = r.id;
        }))
      (append_heads es e heads)

count_append {ℓ} :
    {A : Type ℓ} (test : A → Bool) (xs : List A) (x : A)
    → count_by test (xs ++ (x ∷ [])) ≡ count_by test xs + (if test x then 1 else 0)
unfolding count_by
count_append test [] x = ground arith
count_append test (y ∷ xs) x = ground (arith, count_append test xs x)

-- What the loop writes, with its counts.
pub record Written (project last objects tombstones o t : ℕ) (db db' : Db) : Type 0 where
  pub log : Logged project last db db'
  pub live : objects + count_by is_object log.entries ≡ o
  pub dead : tombstones + count_by is_deletion log.entries ≡ t

no_entry-Written :
    (project last objects tombstones o t : ℕ) (db db' : Db)
    → objects ≡ o
    → tombstones ≡ t
    → db ≡ db'
    → Written project last objects tombstones o t db db'
unfolding heads_after count_by
no_entry-Written project last objects tombstones o t db db' a b same = record {
  log = record {
    entries = [];
    numbered = tt;
    changes = ap (λ d. d.changes) (sym same);
    revisions = ap (λ d. d.revisions) (sym same);
    heads = ap (λ d. d.heads) (sym same);
  };
  live = omega (arith, a);
  dead = omega (arith, b);
}

-- One entry and then the rest.
first_entry-Written :
    (project last objects tombstones objects' tombstones' o t : ℕ) (db db₁ db' : Db)
    (e : Revision × Change)
    → AreNext project last (e ∷ [])
    → db₁.changes ≡ e.1 ∷ db.changes
    → db₁.revisions ≡ e.0 ∷ db.revisions
    → db₁.heads ≡ heads_after (e ∷ []) db.heads
    → objects' ≡ objects + (if is_object e then 1 else 0)
    → tombstones' ≡ tombstones + (if is_deletion e then 1 else 0)
    → Written project (last + 1) objects' tombstones' o t db₁ db'
    → Written project last objects tombstones o t db db'
first_entry-Written project last objects tombstones objects' tombstones' o t db db₁ db' (r, c) next
      changes revisions heads more_objects more_tombstones rest =
    let log = rest.log in
    let es = log.entries in
    record {
      log = record {
        entries = es ++ ((r, c) ∷ []);
        numbered = append_next project last es r c log.numbered next;
        changes =
            log.changes
            ∙ ap (λ cs. map (λ (e : Revision × Change). e.1) es ++ cs) changes
            ∙ append_logged (λ (e : Revision × Change). e.1) es (r, c) db.changes;
        revisions =
            log.revisions
            ∙ ap (λ rs. map (λ (e : Revision × Change). e.0) es ++ rs) revisions
            ∙ append_logged (λ (e : Revision × Change). e.0) es (r, c) db.revisions;
        heads = log.heads ∙ ap (heads_after es) heads ∙ append_heads es (r, c) db.heads;
      };
      live = omega (arith, rest.live, more_objects, count_append is_object es (r, c));
      dead = omega (arith, rest.dead, more_tombstones, count_append is_deletion es (r, c));
    }

tally : (n : ℕ) (a b : Bool) → a ≡ b → (if b then n + 1 else n) ≡ n + (if a then 1 else 0)
tally n a b same = rw same (ground arith)

pub restore_items-Written :
    (by : Restorer) (ids : ℕ → ℕ) (current : List ManifestRow) (target : List ManifestItem)
    (objects tombstones o t : ℕ) (p : Project) (db db' : Db)
    → row_of_project by.project db ≡ some p
    → restore_items by ids current target objects tombstones db ≡ ok (o, t, db')
    → Written by.project p.change_seq objects tombstones o t db db'
unfolding restore_items
restore_items-Written by ids current [] objects tombstones o t p db db' found e =
    let o_eq : objects ≡ o = cc in
    let t_eq : tombstones ≡ t = cc in
    let same : db ≡ db' = cc in
    no_entry-Written by.project p.change_seq objects tombstones o t db db' o_eq t_eq same
restore_items-Written by ids current (item ∷ target) objects tombstones o t p db db' found e =
    let existing = find_by (λ row. is_item_of row item) current in
    let (db₁, e₁, wrote) =
      steps_of_ok
        (if differs existing item
          then restore_item by (ids 0) item (revision_or_zero existing) db
          else ok db)
        _ e in
    elim (Bool-cases (differs existing item)) [
      | inr same ↦
          let kept : db ≡ db₁ = ok_db db db₁ (rw same at wrote) in
          subst (λ d. Written by.project p.change_seq objects tombstones o t d db') (sym kept)
            (restore_items-Written by (λ n. ids (n + 1)) current target objects tombstones o t p db₁
              db' (ap (row_of_project by.project) (sym kept) ∙ found) (rw same at e₁))
      | inl changes ↦
          let did = rw changes at wrote in
          let moved =
            restored_project by (ids 0) item (revision_or_zero existing) p db db₁ found did in
          let (entry, deletes, next, log, revisions, heads) =
            logged_item by (ids 0) item (revision_or_zero existing) p db db₁ found did in
          first_entry-Written by.project p.change_seq objects tombstones
            (if not item.tombstone then objects + 1 else objects)
            (if item.tombstone then tombstones + 1 else tombstones) o t db db₁ db' entry next log
            revisions heads (tally objects (is_object entry) (not item.tombstone) (ap not deletes))
            (tally tombstones (is_deletion entry) item.tombstone deletes)
            (restore_items-Written by (λ n. ids (n + 1)) current target _ _ o t _ db₁ db' moved
              (rw changes at e₁))
    ]
