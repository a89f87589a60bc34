-- ===== src/Sync/Item/Cas.antt =====
-- Compare-and-swap: what one item of a push does to the head of its object, to the sequence of its
-- project and to the log, on every branch.
use tasktips_cloud.Base.{
  ℕ, ◌+◌, ◌≡◌, refl, ◌≢◌, ap, ◌∙◌, sym, true, false, String, Option, none, some, ◌∷◌, ◌==◌, leb,
  opt_eq, opt_eq_iff, unwrap_or, find_by, arith, Option-cases, Bool-cases, inl, inr, eq_refl,
  upserted, map_found, find_by-upsert_self, find_by-update_where_self,
}
use tasktips_cloud.Domain.{ObjectKind, kind_eq, max_payload_bytes}
use tasktips_cloud.Store.Errors.{ok}
use tasktips_cloud.Store.Schema.{Db, Project, Payload, Head}
use tasktips_cloud.Sync.Response.{PushItemResult, applied, conflict, rejected}
use tasktips_cloud.Sync.Item.{
  NewSyncRevision, is_head, head_revision, found_revision, Checked, fits, refused, check_stored,
  check_hash, check_payload, push_checked, is_payload, valid_media_type, Pusher, apply_item,
  push_item,
}
use tasktips_cloud.Sync.Item.Writes.{head_row, change_row, written, apply_item-eq-ok}

abbrev pub found_sequence : Option Project → Option ℕ
found_sequence none = none
found_sequence (some p) = some p.change_seq

-- The change sequence of a project.
unfoldable pub sequence_of : ℕ → Db → Option ℕ
sequence_of project db = found_sequence (find_by (λ q. q.id == project) db.projects)

pub sequence_of_found :
    (project : ℕ) (db : Db) (p : Project)
    → find_by (λ q. q.id == project) db.projects ≡ some p
    → sequence_of project db ≡ some p.change_seq
unfolding sequence_of
sequence_of_found project db p found = ap found_sequence found

-- A refusal is a rejection of the item, which is no tombstone.
abbrev IsRejection : NewSyncRevision → Checked → Type 0
IsRejection r (fits payload) = Unit
IsRejection r (refused (rejected kind id code message details)) =
    (kind ≡ r.kind) × (id ≡ r.id) × (r.tombstone ≡ false)
IsRejection r (refused _) = ⊥

check_stored-IsRejection :
    (r : NewSyncRevision) (p : Payload) → r.tombstone ≡ false → IsRejection r (check_stored r p)
unfolding check_stored
check_stored-IsRejection r p h = elim (Bool-cases (leb p.size (max_payload_bytes r.kind))) [
  | inl small ↦ elim (Bool-cases (valid_media_type r.kind p.media_type)) [
    | inl valid ↦ rw (small, valid) tt
    | inr invalid ↦ rw (small, invalid) (refl, refl, h)
  ]
  | inr large ↦ rw large (refl, refl, h)
]

check_hash-IsRejection :
    (project : ℕ) (r : NewSyncRevision) (db : Db)
    → r.tombstone ≡ false
    → (hash : Option String) → IsRejection r (check_hash project r db hash)
check_hash-IsRejection project r db live none = (refl, refl, live)
check_hash-IsRejection project r db live (some hash) =
    elim (Option-cases (find_by (is_payload project hash) db.payloads)) [
      | inl missing ↦ rw missing (refl, refl, live)
      | inr (p, found) ↦ rw found (check_stored-IsRejection r p live)
    ]

check_payload-IsRejection :
    (project : ℕ) (r : NewSyncRevision) (db : Db) → IsRejection r (check_payload project r db)
unfolding check_payload
check_payload-IsRejection project r db = elim (Bool-cases r.tombstone) [
  | inl dead ↦ simp dead tt
  | inr live ↦ simp live (check_hash-IsRejection project r db live r.content_hash)
]

pub kind_eq_refl : (k : ObjectKind) → kind_eq k k ≡ true
kind_eq_refl ObjectKind.todo = refl
kind_eq_refl ObjectKind.classification = refl
kind_eq_refl ObjectKind.index = refl
kind_eq_refl ObjectKind.image = refl

pub kind_eq_sound : (k l : ObjectKind) → kind_eq k l ≡ true → k ≡ l
kind_eq_sound k l h = ground arith

module _ (by : Pusher) (id : ℕ) (r : NewSyncRevision) where
  pub is_head_self : (next : ℕ) → is_head by.project r.kind r.id (head_row by id r next) ≡ true
  is_head_self next = ground (arith, kind_eq_refl r.kind, eq_refl r.id)

  -- The head of the object after the writes.
  pub head_revision-written :
      (next sequence : ℕ) (payload : Option ℕ) (db : Db)
      → head_revision by.project r.kind r.id (written by id r next sequence payload db) ≡ some next
  unfolding head_revision
  head_revision-written next sequence payload db =
      ap found_revision (
        find_by-upsert_self (is_head by.project r.kind r.id)
          (λ h. record h { revision = next; revision_id = id }) (head_row by id r next) db.heads
          (λ h t. t) (ground (arith, kind_eq_refl r.kind, eq_refl r.id)))
      ∙ both (find_by (is_head by.project r.kind r.id) db.heads)
    where
      both :
          (o : Option Head)
          → some
              (upserted
                (λ h. record h { revision = next; revision_id = id })
                (head_row by id r next)
                o).revision
            ≡ some next
      both none = refl
      both (some h) = refl

  pub sequence_of-written :
      (next sequence : ℕ) (payload : Option ℕ) (db : Db) (p : Project)
      → find_by (λ q. q.id == by.project) db.projects ≡ some p
      → sequence_of by.project (written by id r next sequence payload db) ≡ some sequence
  unfolding sequence_of
  sequence_of-written next sequence payload db p found =
      ap found_sequence (
        find_by-update_where_self (λ q. q.id == by.project)
          (λ q. record q { change_seq = sequence; updated_at = by.now }) db.projects (λ q t. t))
      ∙ ap
          (λ o.
            found_sequence
              (map_found (λ q. record q { change_seq = sequence; updated_at = by.now }) o))
          found

  -- What an answer says about the states before and after, and about the request.
  abbrev pub Meets : Db → PushItemResult × Db → Type 0
  Meets db (applied kind key revision sequence at, db') =
      (kind ≡ r.kind)
      × (key ≡ r.id)
      × (at ≡ r.changed_at)
      × (head_revision by.project r.kind r.id db ≡ r.base_revision)
      × (revision ≡ unwrap_or r.base_revision 0 + 1)
      × (head_revision by.project r.kind r.id db' ≡ some revision)
      × ((s : ℕ) × (sequence_of by.project db ≡ some s) × (sequence ≡ s + 1))
      × (sequence_of by.project db' ≡ some sequence)
      × (db'.changes ≡ change_row by id r sequence ∷ db.changes)
  Meets db (conflict kind key expected actual, db') =
      (kind ≡ r.kind)
      × (key ≡ r.id)
      × (db' ≡ db)
      × (expected ≡ r.base_revision)
      × (actual ≡ head_revision by.project r.kind r.id db)
      × (expected ≢ actual)
  Meets db (rejected kind key code message details, db') =
      (kind ≡ r.kind)
      × (key ≡ r.id)
      × (db' ≡ db)
      × (r.tombstone ≡ false)
      × (head_revision by.project r.kind r.id db ≡ r.base_revision)

  apply_item-Meets :
      (actual payload : Option ℕ) (db : Db) (answer : PushItemResult) (db' : Db)
      → actual ≡ head_revision by.project r.kind r.id db
      → r.base_revision ≡ actual
      → apply_item by id r actual payload db ≡ ok (answer, db')
      → Meets db (answer, db')
  apply_item-Meets actual payload db answer db' same base e =
      let (p, found, answer_eq, db_eq) = apply_item-eq-ok by id r actual payload db answer db' e in
      let next = unwrap_or actual 0 + 1 in
      rw (answer_eq, db_eq)
        (
          refl,
          refl,
          refl,
          sym (base ∙ same),
          rw base,
          head_revision-written next (p.change_seq + 1) payload db,
          (p.change_seq, sequence_of_found by.project db p found, refl),
          sequence_of-written next (p.change_seq + 1) payload db p found,
          refl,
        )

  push_checked-Meets :
      (c : Checked) (db : Db) (answer : PushItemResult) (db' : Db)
      → IsRejection r c
      → r.base_revision ≡ head_revision by.project r.kind r.id db
      → push_checked by id r (head_revision by.project r.kind r.id db) db c ≡ ok (answer, db')
      → Meets db (answer, db')
  unfolding push_checked
  push_checked-Meets (fits payload) db answer db' why base e =
      apply_item-Meets (head_revision by.project r.kind r.id db) payload db answer db' refl base e
  push_checked-Meets (refused (rejected kind key code message details)) db answer db' why base e =
      let answer_eq : answer ≡ rejected kind key code message details = cc in
      let db_eq : db' ≡ db = cc in rw (answer_eq, db_eq) (why.0, why.1, refl, why.2, sym base)
  push_checked-Meets (refused _) db answer db' why base e = absurd why

  -- Of every item that is answered: if it is applied, its base revision was the head's revision,
  -- which has grown by one, as has the project's sequence, and the log has one entry more; if it
  -- conflicts, the two differed, and if it is rejected, they agreed and the item is no tombstone,
  -- and in both cases nothing has changed.
  pub push_item-Meets :
      (db : Db) (answer : PushItemResult) (db' : Db)
      → push_item by id r db ≡ ok (answer, db')
      → Meets db (answer, db')
  unfolding push_item
  push_item-Meets db answer db' e =
      elim (Bool-cases (opt_eq r.base_revision (head_revision by.project r.kind r.id db))) [
        | inl same ↦
            push_checked-Meets (check_payload by.project r db) db answer db'
              (check_payload-IsRejection by.project r db) ((opt_eq_iff _ _).0 same) (rw same at e)
        | inr other ↦
            let f = rw other at e in
            let answer_eq : answer
                ≡ conflict r.kind r.id r.base_revision (head_revision by.project r.kind r.id db) =
              cc in
            let db_eq : db' ≡ db = cc in
            rw (answer_eq, db_eq)
              (refl, refl, refl, refl, refl, λ t. cc (other, (opt_eq_iff _ _).1 t))
      ]
