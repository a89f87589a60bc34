-- ===== src/Restore/Counted.antt =====
-- How the log of a project grows by the items of a restore.
use tasktips_cloud.Base.{
  ℕ, ◌+◌, ◌≡◌, refl, sym, ap, ◌∙◌, inl, inr, Option, some, List, [], ◌∷◌, ◌==◌, arith,
  if◌then◌else◌, find_by, find_by-update_where_self, map_found, update_where, Bool-cases,
}
use tasktips_cloud.Store.Errors.{Result, ok, steps_of_ok}
use tasktips_cloud.Store.Schema.{Db, Project, Revision, Change, Head}
use tasktips_cloud.Sync.Item.{
  advance_sequence, insert_revision, upsert_head, insert_change, next_i64,
}
use tasktips_cloud.Restore.Manifest.{ManifestRow, ManifestItem}
use tasktips_cloud.Restore.Execute.{
  Restorer, payload_of, cast_kind, restored_revision, restored_head, restored_change, restore_item,
  is_item_of, differs, revision_or_zero, restore_items,
}

abbrev pub row_of_project : ℕ → Db → Option Project
row_of_project project db = find_by (λ p. p.id == project) db.projects

advanced_project :
    (now project sequence : ℕ) (p : Project) (db db' : Db)
    → row_of_project project db ≡ some p
    → advance_sequence now project db ≡ ok (sequence, db')
    → row_of_project project db'
      ≡ some (record p { change_seq = p.change_seq + 1; updated_at = now })
unfolding advance_sequence next_i64
advanced_project now project sequence p db db' found e =
    let same : db'.projects
        ≡ update_where (λ q. q.id == project)
            (λ q. record q { change_seq = p.change_seq + 1; updated_at = now }) db.projects =
      ground arith in
    let updated =
      find_by-update_where_self (λ q. q.id == project)
        (λ q. record q { change_seq = p.change_seq + 1; updated_at = now }) db.projects
        (λ x h. h) in
    ap (find_by (λ q. q.id == project)) same
    ∙ updated
    ∙ ap (map_found (λ q. record q { change_seq = p.change_seq + 1; updated_at = now })) found

insert_revision_projects :
    (r : Revision) (db db' : Db) → insert_revision r db ≡ ok db' → db'.projects ≡ db.projects
unfolding insert_revision
insert_revision_projects r db db' e = ground arith

insert_change_projects :
    (c : Change) (db db' : Db) → insert_change c db ≡ ok db' → db'.projects ≡ db.projects
unfolding insert_change
insert_change_projects c db db' e = ground arith

upsert_head_projects : (h : Head) (db : Db) → (upsert_head h db).projects ≡ db.projects
unfolding upsert_head
upsert_head_projects h db = refl

pub restored_project :
    (by : Restorer) (id : ℕ) (item : ManifestItem) (actual : ℕ) (p : Project) (db db' : Db)
    → row_of_project by.project db ≡ some p
    → restore_item by id item actual db ≡ ok db'
    → row_of_project by.project db'
      ≡ some (record p { change_seq = p.change_seq + 1; updated_at = by.now })
unfolding restore_item
restored_project by id item actual p db db' found e =
    let (payload, e₁, a) = steps_of_ok (payload_of by.project item db) _ e in
    let ((sequence, db₁), e₂, b) = steps_of_ok (advance_sequence by.now by.project db) _ e₁ in
    let (next, e₃, c) = steps_of_ok (next_i64 actual) _ e₂ in
    let (kind, e₄, d) = steps_of_ok (cast_kind item.kind) _ e₃ in
    let (db₂, e₅, f) =
      steps_of_ok (insert_revision (restored_revision by id kind item actual next payload) db₁) _
        e₄ in
    let head = restored_head by id kind item next in
    let same =
      insert_change_projects (restored_change by id sequence) (upsert_head head db₂) db' e₅
      ∙ upsert_head_projects head db₂
      ∙ insert_revision_projects (restored_revision by id kind item actual next payload) db₁ db₂
          f in
    ap (find_by (λ p. p.id == by.project)) same
    ∙ advanced_project by.now by.project sequence p db db₁ found b

-- The log grows by the items that are written, and each of them is counted.
pub record Counted (project objects tombstones o t : ℕ) (p : Project) (db' : Db) : Type 0 where
  pub row : Project
  pub found : row_of_project project db' ≡ some row
  pub grown : row.change_seq + (objects + tombstones) ≡ p.change_seq + (o + t)
  pub generation : row.generation ≡ p.generation

pub ok_db : (db db' : Db) → ◌≡◌ {A = Result Db} (ok db) (ok db') → db ≡ db'
ok_db db db' e = cc

pub restore_items-Counted :
    (by : Restorer) (ids : ℕ → ℕ) (current : List ManifestRow) (target : List ManifestItem)
    (objects tombstones o t : ℕ) (p : Project) (db db' : Db)
    → row_of_project by.project db ≡ some p
    → restore_items by ids current target objects tombstones db ≡ ok (o, t, db')
    → Counted by.project objects tombstones o t p db'
unfolding restore_items
restore_items-Counted by ids current [] objects tombstones o t p db db' found e =
    let o_eq : objects ≡ o = cc in
    let t_eq : tombstones ≡ t = cc in
    let same : db ≡ db' = cc in
    record {
      row = p;
      found = ap (row_of_project by.project) (sym same) ∙ found;
      grown = omega arith;
      generation = refl;
    }
restore_items-Counted by ids current (item ∷ target) objects tombstones o t p db db' found e =
    let existing = find_by (λ row. is_item_of row item) current in
    let (db₁, e₁, wrote) =
      steps_of_ok
        (if differs existing item
          then restore_item by (ids 0) item (revision_or_zero existing) db
          else ok db)
        _ e in
    elim (Bool-cases (differs existing item)) [
      | inr same ↦
          let kept : db ≡ db₁ = ok_db db db₁ (rw same at wrote) in
          restore_items-Counted by (λ n. ids (n + 1)) current target objects tombstones o t p db₁
            db' (ap (row_of_project by.project) (sym kept) ∙ found) (rw same at e₁)
      | inl changes ↦
          let moved =
            restored_project by (ids 0) item (revision_or_zero existing) p db db₁ found
              (rw changes at wrote) in
          elim (Bool-cases item.tombstone) [
            | inl deleted ↦
                let rest =
                  restore_items-Counted by (λ n. ids (n + 1)) current target objects
                    (tombstones + 1) o t _ db₁ db' moved (rw (changes, deleted) at e₁) in
                let grown = rest.grown in
                record {
                  row = rest.row;
                  found = rest.found;
                  grown = omega arith;
                  generation = rest.generation;
                }
            | inr live ↦
                let rest =
                  restore_items-Counted by (λ n. ids (n + 1)) current target (objects + 1)
                    tombstones o t _ db₁ db' moved (rw (changes, live) at e₁) in
                let grown = rest.grown in
                record {
                  row = rest.row;
                  found = rest.found;
                  grown = omega arith;
                  generation = rest.generation;
                }
          ]
    ]
