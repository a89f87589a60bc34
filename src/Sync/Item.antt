-- ===== src/Sync/Item.antt =====
-- One item of a push, as the loop of `push_with_outcome` in crates/persistence/src/lib.rs treats
-- it: the comparison with the head, the checks of the payload, and the four writes.
pub mod Writes
pub mod Cas
pub mod Log
pub mod Frame
use tasktips_cloud.Base.{
  ℕ, ◌+◌, Bool, not, ◌&&◌, ◌||◌, String, Option, none, some, List, [], ◌∷◌, ◌==◌, ltb, leb, str_eq,
  opt_eq, is_some, is_none, unwrap_or, if◌then◌else◌, find_by, any_by, update_where, upsert,
  code_points, codes_eq, has_prefix, trim, to_ascii_lowercase, before,
}
use tasktips_cloud.Domain.{ObjectKind, kind_eq, kind_str, max_payload_bytes}
use tasktips_cloud.Json.{num, str, object}
use tasktips_cloud.Store.Errors.{database, Result, ok, err, ◌>>=◌}
use tasktips_cloud.Store.Schema.{Db, Payload, Revision, Head, Change, Device}
use tasktips_cloud.Sync.Response.{PushItemResult, applied, conflict, rejected}

-- The largest `i64`, which is also the largest `bigint`.
abbrev pub i64_max : ℕ
i64_max = 9223372036854775807

-- `n + 1`: for a `bigint` past the range the statement fails. A Rust `i64` panics there or turns
-- negative, and then the CHECK on the row fails: the transaction does not commit either.
unfoldable pub next_i64 : ℕ → Result ℕ
next_i64 n = if ltb n i64_max then ok (n + 1) else err database

-- `NewSyncRevision`
pub record NewSyncRevision : Type 0 where
  pub kind : ObjectKind
  pub id : String
  pub schema_version : Option ℕ
  pub base_revision : Option ℕ
  pub content_hash : Option String
  pub changed_at : ℕ
  pub tombstone : Bool

-- `WHERE project_id = $1 AND kind = $2 AND object_id = $3`
abbrev pub is_head : ℕ → ObjectKind → String → Head → Bool
is_head project kind id h = h.project == project && kind_eq h.kind kind && str_eq h.object_id id

abbrev pub found_revision : Option Head → Option ℕ
found_revision none = none
found_revision (some h) = some h.revision

-- The revision of an object's head.
unfoldable pub head_revision : ℕ → ObjectKind → String → Db → Option ℕ
head_revision project kind id db = found_revision (find_by (is_head project kind id) db.heads)

unfoldable pub valid_media_type : ObjectKind → String → Bool
unfolding codes_eq has_prefix trim to_ascii_lowercase before
valid_media_type kind media_type =
    let essence = to_ascii_lowercase (trim (before b';' (code_points media_type))) in
    elim kind [
      | ObjectKind.todo ↦
          codes_eq essence (code_points "text/markdown")
          || codes_eq essence (code_points "text/plain")
      | ObjectKind.image ↦
          has_prefix essence (code_points "image/")
          || codes_eq essence (code_points "application/octet-stream")
      | _ ↦ codes_eq essence (code_points "application/json")
    ]

-- What the checks of the payload find: the payload's id, none for a tombstone, or the answer.
pub data Checked : Type 0 where
  fits : Option ℕ → Checked
  refused : PushItemResult → Checked

abbrev pub payload_missing : NewSyncRevision → PushItemResult
payload_missing r = rejected r.kind r.id "PAYLOAD_NOT_FOUND" "payload 不存在" none

-- The size and the media type of the payload that was found.
unfoldable pub check_stored : NewSyncRevision → Payload → Checked
check_stored r p =
    if leb p.size (max_payload_bytes r.kind)
    then if valid_media_type r.kind p.media_type
      then fits (some p.id)
      else refused (rejected r.kind r.id "INVALID_REQUEST" "payload 媒体类型与对象类型不兼容" none)
    else refused (
        rejected r.kind r.id "PAYLOAD_TOO_LARGE" "payload 超过对象类型限制" (
          some (
            object (
              ("kind", str (kind_str r.kind))
              ∷ ("maxBytes", num (max_payload_bytes r.kind))
              ∷ ("actualBytes", num p.size)
              ∷ []))))

abbrev pub is_payload : ℕ → String → Payload → Bool
is_payload project hash p = p.project == project && str_eq p.content_hash hash

abbrev pub check_found : NewSyncRevision → Option Payload → Checked
check_found r none = refused (payload_missing r)
check_found r (some p) = check_stored r p

abbrev pub check_hash : ℕ → NewSyncRevision → Db → Option String → Checked
check_hash project r db none = refused (payload_missing r)
check_hash project r db (some hash) = check_found r (find_by (is_payload project hash) db.payloads)

unfoldable pub check_payload : ℕ → NewSyncRevision → Db → Checked
unfolding check_stored
check_payload project r db =
    if r.tombstone then fits none else check_hash project r db r.content_hash

-- `UPDATE projects SET change_seq = change_seq + 1, … RETURNING change_seq`
unfoldable pub advance_sequence : ℕ → ℕ → Db → Result (ℕ × Db)
unfolding next_i64
advance_sequence now project db = elim (find_by (λ p. p.id == project) db.projects) [
  | none ↦ err database
  | some p ↦ do
    sequence ← next_i64 p.change_seq
    ok (
      sequence,
      record db {
        projects =
            update_where (λ q. q.id == project)
              (λ q. record q { change_seq = sequence; updated_at = now }) db.projects;
      },
    )
]

-- The CHECKs on a row of `object_revisions`.
unfoldable pub revision_checks : Revision → Bool
revision_checks r =
    ltb 0 r.revision
    && ltb 0 (unwrap_or r.base_revision 1)
    && ltb 0 (unwrap_or r.schema_version 1)
    && (if r.tombstone
        then is_none r.payload && is_none r.content_hash && is_none r.schema_version
        else is_some r.payload && is_some r.content_hash && is_some r.schema_version)

-- Its primary key and `UNIQUE (project_id, kind, object_id, revision)`.
abbrev pub same_revision : Revision → Revision → Bool
same_revision r s =
    s.id == r.id
    || (s.project == r.project
        && kind_eq s.kind r.kind
        && str_eq s.object_id r.object_id
        && s.revision == r.revision)

-- Its foreign key to the devices of the owner.
abbrev pub is_device : ℕ → ℕ → Device → Bool
is_device device owner d = d.id == device && d.owner == owner

unfoldable pub insert_revision : Revision → Db → Result Db
unfolding revision_checks
insert_revision r db =
    if revision_checks r
      && not (any_by (same_revision r) db.revisions)
      && any_by (is_device r.device r.owner) db.devices
    then ok (record db { revisions = r ∷ db.revisions })
    else err database

-- `INSERT INTO object_heads … ON CONFLICT (project_id, kind, object_id) DO UPDATE`
unfoldable pub upsert_head : Head → Db → Db
upsert_head row db = record db {
  heads =
      upsert (is_head row.project row.kind row.object_id)
        (λ h. record h { revision = row.revision; revision_id = row.revision_id }) row db.heads;
}

-- `PRIMARY KEY (project_id, sequence)` and `UNIQUE (revision_id)` of `change_log`.
abbrev pub same_change : Change → Change → Bool
same_change c d =
    (d.project == c.project && d.sequence == c.sequence) || d.revision_id == c.revision_id

unfoldable pub insert_change : Change → Db → Result Db
insert_change c db =
    if any_by (same_change c) db.changes
    then err database
    else ok (record db { changes = c ∷ db.changes })

-- Who pushes: the user, the device, the project, and the transaction's time.
pub record Pusher : Type 0 where
  pub user : ℕ
  pub device : ℕ
  pub project : ℕ
  pub now : ℕ

abbrev pub revision_row : Pusher → ℕ → NewSyncRevision → ℕ → Option ℕ → Revision
revision_row by id r next payload = record {
  id = id;
  project = by.project;
  owner = by.user;
  kind = r.kind;
  object_id = r.id;
  revision = next;
  base_revision = r.base_revision;
  schema_version = r.schema_version;
  payload = payload;
  content_hash = r.content_hash;
  tombstone = r.tombstone;
  changed_at = r.changed_at;
  device = by.device;
}

-- The writes for an accepted item; `id` is the UUID that the database generates for the revision.
unfoldable pub apply_item :
    Pusher → ℕ → NewSyncRevision → Option ℕ → Option ℕ → Db → Result (PushItemResult × Db)
unfolding next_i64 advance_sequence insert_revision upsert_head insert_change
apply_item by id r actual payload db = do
  next ← next_i64 (unwrap_or actual 0)
  (sequence, db₁) ← advance_sequence by.now by.project db
  db₂ ← insert_revision (revision_row by id r next payload) db₁
  let db₃ =
      upsert_head
        (record {
          project = by.project;
          owner = by.user;
          kind = r.kind;
          object_id = r.id;
          revision = next;
          revision_id = id;
        })
        db₂
  db₄ ←
      insert_change
        (record { project = by.project; owner = by.user; sequence = sequence; revision_id = id })
        db₃
  ok (applied r.kind r.id next sequence r.changed_at, db₄)

-- The branches behind the checks of the payload.
unfoldable pub push_checked :
    Pusher → ℕ → NewSyncRevision → Option ℕ → Db → Checked → Result (PushItemResult × Db)
unfolding apply_item
push_checked by id r actual db (refused answer) = ok (answer, db)
push_checked by id r actual db (fits payload) = apply_item by id r actual payload db

unfoldable pub push_item : Pusher → ℕ → NewSyncRevision → Db → Result (PushItemResult × Db)
unfolding head_revision check_payload push_checked
push_item by id r db =
    let actual = head_revision by.project r.kind r.id db in
    if opt_eq r.base_revision actual
    then push_checked by id r actual db (check_payload by.project r db)
    else ok (conflict r.kind r.id r.base_revision actual, db)

-- The loop over the items; `ids n` is the UUID that is generated for item `n`.
unfoldable pub push_items :
    Pusher → (ℕ → ℕ) → List NewSyncRevision → Db → Result (List PushItemResult × Db)
unfolding push_item
push_items by ids [] db = ok ([], db)
push_items by ids (r ∷ rs) db = do
  (answer, db') ← push_item by (ids 0) r db
  (answers, db'') ← push_items by (λ n. ids (n + 1)) rs db'
  ok (answer ∷ answers, db'')
