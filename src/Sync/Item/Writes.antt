-- ===== src/Sync/Item/Writes.antt =====
-- The state that an accepted item leaves, in one piece, and when the writes succeed.
use tasktips_cloud.Base.{
  ℕ, ◌+◌, ◌<◌, ◌≡◌, ap, ◌∙◌, true, false, Option, some, List, ◌∷◌, ◌==◌, unwrap_or, find_by, any_by,
  update_where, upsert, arith, Option-cases, inl, inr,
}
use tasktips_cloud.Store.Errors.{ok, steps_of_ok}
use tasktips_cloud.Store.Schema.{Db, Project, Head, Change}
use tasktips_cloud.Sync.Response.{PushItemResult, applied}
use tasktips_cloud.Sync.Item.{
  i64_max, NewSyncRevision, is_head, revision_checks, same_revision, is_device, same_change, Pusher,
  revision_row, apply_item, push_item, push_items,
}

module _ (by : Pusher) (id : ℕ) (r : NewSyncRevision) where
  abbrev pub head_row : ℕ → Head
  head_row next = record {
    project = by.project;
    owner = by.user;
    kind = r.kind;
    object_id = r.id;
    revision = next;
    revision_id = id;
  }

  abbrev pub change_row : ℕ → Change
  change_row sequence = record {
    project = by.project;
    owner = by.user;
    sequence = sequence;
    revision_id = id;
  }

  -- The four writes at once.
  abbrev pub written : ℕ → ℕ → Option ℕ → Db → Db
  written next sequence payload db = record db {
    projects =
        update_where (λ q. q.id == by.project)
          (λ q. record q { change_seq = sequence; updated_at = by.now }) db.projects;
    revisions = revision_row by id r next payload ∷ db.revisions;
    heads =
        upsert (is_head by.project r.kind r.id)
          (λ h. record h { revision = next; revision_id = id }) (head_row next) db.heads;
    changes = change_row sequence ∷ db.changes;
  }

  pub apply_item-eq-ok :
      (actual payload : Option ℕ) (db : Db) (answer : PushItemResult) (db' : Db)
      → apply_item by id r actual payload db ≡ ok (answer, db')
      → (p : Project) × (find_by (λ q. q.id == by.project) db.projects ≡ some p)
        × (answer ≡ applied r.kind r.id (unwrap_or actual 0 + 1) (p.change_seq + 1) r.changed_at)
        × (db' ≡ written (unwrap_or actual 0 + 1) (p.change_seq + 1) payload db)
  unfolding apply_item
  apply_item-eq-ok actual payload db answer db' e =
      elim (Option-cases (find_by (λ q. q.id == by.project) db.projects)) [
        | inl missing ↦ absurd (ground arith)
        | inr (p, found) ↦ (p, found, ground arith, ground arith)
      ]

  -- The constraints of the tables let the writes through.
  pub apply_item_total :
      (actual payload : Option ℕ) (db : Db) (p : Project)
      → find_by (λ q. q.id == by.project) db.projects ≡ some p
      → unwrap_or actual 0 < i64_max
      → p.change_seq < i64_max
      → revision_checks (revision_row by id r (unwrap_or actual 0 + 1) payload) ≡ true
      → any_by (same_revision (revision_row by id r (unwrap_or actual 0 + 1) payload)) db.revisions
        ≡ false
      → any_by (is_device by.device by.user) db.devices ≡ true
      → any_by (same_change (change_row (p.change_seq + 1))) db.changes ≡ false
      → apply_item by id r actual payload db
        ≡ ok (
          applied r.kind r.id (unwrap_or actual 0 + 1) (p.change_seq + 1) r.changed_at,
          written (unwrap_or actual 0 + 1) (p.change_seq + 1) payload db,
        )
  unfolding apply_item
  apply_item_total actual payload db p found a b c d e f = ground arith

-- A push that is answered, taken apart at its first item.
pub push_items-cons :
    (by : Pusher) (ids : ℕ → ℕ) (r : NewSyncRevision) (rs : List NewSyncRevision) (db : Db)
    (answers : List PushItemResult) (db' : Db)
    → push_items by ids (r ∷ rs) db ≡ ok (answers, db')
    → (first : PushItemResult) × (mid : Db) × (rest : List PushItemResult) × (push_item by
          (ids 0)
          r
          db
        ≡ ok (first, mid))
      × (push_items by (λ n. ids (n + 1)) rs mid ≡ ok (rest, db'))
      × (answers ≡ first ∷ rest)
unfolding push_items
push_items-cons by ids r rs db answers db' e =
    let ((first, mid), e₁, here) = steps_of_ok (push_item by (ids 0) r db) _ e in
    let ((rest, last), e₂, there) = steps_of_ok (push_items by (λ n. ids (n + 1)) rs mid) _ e₁ in
    let same : last ≡ db' = cc in (first, mid, rest, here, there ∙ ap (λ d. ok (rest, d)) same, cc)
