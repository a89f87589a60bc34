-- ===== src/Restore/Logged.antt =====
-- The entries that a restore appends to the log of a project, with their revisions and heads.
use tasktips_cloud.Base.{
  ℕ, suc, ◌+◌, ◌≡◌, refl, ap, ◌∙◌, Bool, not, some, List, [], ◌∷◌, ◌++◌, map, arith, length, upsert,
}
use tasktips_cloud.Store.Errors.{ok, steps_of_ok}
use tasktips_cloud.Store.Schema.{Db, Project, Revision, Change, Head}
use tasktips_cloud.Sync.Item.{
  is_head, advance_sequence, insert_revision, upsert_head, insert_change, next_i64,
}
use tasktips_cloud.Restore.Manifest.{ManifestItem}
use tasktips_cloud.Restore.Execute.{
  Restorer, payload_of, cast_kind, restored_revision, restored_head, restored_change, restore_item,
}
use tasktips_cloud.Restore.Counted.{row_of_project}

-- Revisions with their entries in the log, the newest in front.
abbrev pub Entries : Type 0
Entries = List (Revision × Change)

-- Each entry is of the project and its revision, and the sequences go on from the last one by one.
abbrev pub AreNext : ℕ → ℕ → Entries → Type 0
AreNext project last [] = Unit
AreNext project last ((r, c) ∷ es) =
    (r.project ≡ project)
    × (c.project ≡ project)
    × (c.revision_id ≡ r.id)
    × (c.sequence ≡ last + suc (length es))
    × AreNext project last es

-- The heads after the entries: each moves the head of its object to its revision.
unfoldable pub heads_after : Entries → List Head → List Head
heads_after [] heads = heads
heads_after ((r, c) ∷ es) heads =
    upsert (is_head r.project r.kind r.object_id)
      (λ h. record h { revision = r.revision; revision_id = r.id })
      (record {
        project = r.project;
        owner = r.owner;
        kind = r.kind;
        object_id = r.object_id;
        revision = r.revision;
        revision_id = r.id;
      })
      (heads_after es heads)

abbrev pub is_deletion : Revision × Change → Bool
is_deletion (r, c) = r.tombstone

abbrev pub is_object : Revision × Change → Bool
is_object e = not (is_deletion e)

-- What is behind the last sequence in the second state, and was not in the first.
pub record Logged (project last : ℕ) (db db' : Db) : Type 0 where
  pub entries : Entries
  pub numbered : AreNext project last entries
  pub changes : db'.changes ≡ map (λ (e : Revision × Change). e.1) entries ++ db.changes
  pub revisions : db'.revisions ≡ map (λ (e : Revision × Change). e.0) entries ++ db.revisions
  pub heads : db'.heads ≡ heads_after entries db.heads

advanced_sequence :
    (now project sequence : ℕ) (p : Project) (db db' : Db)
    → row_of_project project db ≡ some p
    → advance_sequence now project db ≡ ok (sequence, db')
    → (sequence ≡ p.change_seq + 1)
      × (db'.changes ≡ db.changes)
      × (db'.revisions ≡ db.revisions)
      × (db'.heads ≡ db.heads)
unfolding advance_sequence next_i64
advanced_sequence now project sequence p db db' found e =
    (ground arith, ground arith, ground arith, ground arith)

insert_revision-eq-ok :
    (r : Revision) (db db' : Db)
    → insert_revision r db ≡ ok db'
    → db' ≡ record db { revisions = r ∷ db.revisions }
unfolding insert_revision
insert_revision-eq-ok r db db' e = ground arith

insert_change-eq-ok :
    (c : Change) (db db' : Db)
    → insert_change c db ≡ ok db'
    → db' ≡ record db { changes = c ∷ db.changes }
unfolding insert_change
insert_change-eq-ok c db db' e = ground arith

-- The writes of one item.
pub logged_item :
    (by : Restorer) (id : ℕ) (item : ManifestItem) (actual : ℕ) (p : Project) (db db' : Db)
    → row_of_project by.project db ≡ some p
    → restore_item by id item actual db ≡ ok db'
    → (e : Revision × Change) × (e.0.tombstone ≡ item.tombstone)
      × AreNext by.project p.change_seq (e ∷ [])
      × (db'.changes ≡ e.1 ∷ db.changes)
      × (db'.revisions ≡ e.0 ∷ db.revisions)
      × (db'.heads ≡ heads_after (e ∷ []) db.heads)
unfolding restore_item heads_after upsert_head
logged_item by id item actual p db db' found e =
    let (payload, e₁, a) = steps_of_ok (payload_of by.project item db) _ e in
    let ((sequence, db₁), e₂, b) = steps_of_ok (advance_sequence by.now by.project db) _ e₁ in
    let (next, e₃, c) = steps_of_ok (next_i64 actual) _ e₂ in
    let (kind, e₄, d) = steps_of_ok (cast_kind item.kind) _ e₃ in
    let (db₂, e₅, f) =
      steps_of_ok (insert_revision (restored_revision by id kind item actual next payload) db₁) _
        e₄ in
    let new = restored_revision by id kind item actual next payload in
    let change = restored_change by id sequence in
    let (numbered, changes, revisions, heads) =
      advanced_sequence by.now by.project sequence p db db₁ found b in
    let last =
      insert_change-eq-ok change (upsert_head (restored_head by id kind item next) db₂) db' e₅ in
    let before = insert_revision-eq-ok new db₁ db₂ f in
    (
      (new, change),
      refl,
      (refl, refl, refl, numbered, tt),
      ap (λ d. d.changes) last
          ∙ ap (λ d. change ∷ d.changes) before
          ∙ ap (λ cs. change ∷ cs) changes,
      ap (λ d. d.revisions) last ∙ ap (λ d. d.revisions) before ∙ ap (λ rs. new ∷ rs) revisions,
      ap (λ d. d.heads) last
          ∙ ap (λ d. (upsert_head (restored_head by id kind item next) d).heads) before
          ∙ ap (λ hs. heads_after ((new, change) ∷ []) hs) heads,
    )
