-- ===== src/Restore/Execute.antt =====
-- `execute_restore_with_lease`: the restore appends revisions, and the project gets a new generation.
use tasktips_cloud.Base.{
  ℕ, ◌+◌, Bool, true, not, ◌&&◌, String, Option, none, some, List, [], ◌∷◌, ◌++◌, ◌==◌, ltb, str_eq,
  if◌then◌else◌, find_by, any_by, map, update_where,
}
use tasktips_cloud.Domain.{ObjectKind, ProjectStatus}
use tasktips_cloud.Json.{num, object}
use tasktips_cloud.Store.Errors.{
  database, conflict, not_found, project_maintenance, payload_not_found, invalid_payload,
  invalid_restore_target, Result, ok, err, ◌>>=◌,
}
use tasktips_cloud.Store.Schema.{
  Db, Project, Payload, Revision, Head, Change, RestoreJob, succeeded, Snapshot,
}
use tasktips_cloud.Store.Transaction.{commit_ok, done}
use tasktips_cloud.Auth.Rows.{insert_audit}
use tasktips_cloud.Sync.Item.{
  next_i64, is_payload, advance_sequence, insert_revision, upsert_head, insert_change,
}
use tasktips_cloud.Restore.Jobs.{is_running, is_maintenance, is_leased, update_jobs}
use tasktips_cloud.Restore.Requests.{is_ready_snapshot}
use tasktips_cloud.Restore.Worker.{leased}
use tasktips_cloud.Restore.Snapshot.{ensure_wanted}
use tasktips_cloud.Restore.Manifest.{
  ManifestRow, ManifestItem, manifest_item_from_row, manifest_items, same_manifest_state,
  current_rows, rows_at,
}

abbrev pub kept_manifest : Option Snapshot → Result (List ManifestItem)
kept_manifest none = err not_found
kept_manifest (some s) = manifest_items s.manifest

-- The items to restore, by the mode of the job.
abbrev pub wanted_items : RestoreJob → Db → Option ℕ → Option ℕ → Result (List ManifestItem)
wanted_items j db (some snapshot) _ =
    kept_manifest (find_by (is_ready_snapshot snapshot j.project) db.snapshots)
wanted_items j db none (some sequence) =
    ok (map manifest_item_from_row (rows_at j.project sequence db))
wanted_items j db none none = err invalid_restore_target

abbrev pub is_item_of : ManifestRow → ManifestItem → Bool
is_item_of row item = str_eq item.kind row.kind && str_eq item.id row.id

abbrev pub deletion : ManifestRow → ManifestItem
deletion row = record {
  kind = row.kind;
  id = row.id;
  schema_version = none;
  revision = 0;
  content_hash = none;
  device = row.device;
  tombstone = true;
}

-- An object that the target does not have is deleted.
unfoldable pub with_deletions : List ManifestRow → List ManifestItem → List ManifestItem
with_deletions [] target = target
with_deletions (row ∷ rows) target =
    with_deletions rows
      (if any_by (is_item_of row) target then target else target ++ (deletion row ∷ []))

-- The cast of a text to `sync_object_kind`.
unfoldable pub cast_kind : String → Result ObjectKind
cast_kind s =
    if str_eq s "todo"
    then ok ObjectKind.todo
    else if str_eq s "classification"
    then ok ObjectKind.classification
    else if str_eq s "index"
    then ok ObjectKind.index
    else if str_eq s "image"
    then ok ObjectKind.image
    else err database

abbrev pub found_payload : Option Payload → Result (Option ℕ)
found_payload none = err payload_not_found
found_payload (some p) = ok (some p.id)

abbrev pub payload_by_hash : ℕ → Db → Option String → Result (Option ℕ)
payload_by_hash project db none = err invalid_payload
payload_by_hash project db (some hash) =
    found_payload (find_by (is_payload project hash) db.payloads)

unfoldable pub payload_of : ℕ → ManifestItem → Db → Result (Option ℕ)
payload_of project item db =
    if item.tombstone then ok none else payload_by_hash project db item.content_hash

abbrev pub revision_or_zero : Option ManifestRow → ℕ
revision_or_zero none = 0
revision_or_zero (some row) = row.revision

-- `(actual_revision > 0).then_some(actual_revision)`
abbrev pub base_of : ℕ → Option ℕ
base_of actual = if ltb 0 actual then some actual else none

-- The project of the job, its owner, and the instant of the transaction.
pub record Restorer : Type 0 where
  pub project : ℕ
  pub owner : ℕ
  pub now : ℕ

abbrev pub restored_revision :
    Restorer → ℕ → ObjectKind → ManifestItem → ℕ → ℕ → Option ℕ → Revision
restored_revision by id kind item actual next payload = record {
  id = id;
  project = by.project;
  owner = by.owner;
  kind = kind;
  object_id = item.id;
  revision = next;
  base_revision = base_of actual;
  schema_version = item.schema_version;
  payload = payload;
  content_hash = item.content_hash;
  tombstone = item.tombstone;
  changed_at = by.now;
  device = item.device;
}

abbrev pub restored_head : Restorer → ℕ → ObjectKind → ManifestItem → ℕ → Head
restored_head by id kind item next = record {
  project = by.project;
  owner = by.owner;
  kind = kind;
  object_id = item.id;
  revision = next;
  revision_id = id;
}

abbrev pub restored_change : Restorer → ℕ → ℕ → Change
restored_change by id sequence = record {
  project = by.project;
  owner = by.owner;
  sequence = sequence;
  revision_id = id;
}

-- The writes for one item that differs; `id` is the UUID of the revision.
unfoldable pub restore_item : Restorer → ℕ → ManifestItem → ℕ → Db → Result Db
unfolding next_i64 advance_sequence insert_revision upsert_head insert_change payload_of cast_kind
restore_item by id item actual db = do
  payload ← payload_of by.project item db
  (sequence, db₁) ← advance_sequence by.now by.project db
  next ← next_i64 actual
  kind ← cast_kind item.kind
  db₂ ← insert_revision (restored_revision by id kind item actual next payload) db₁
  insert_change (restored_change by id sequence)
      (upsert_head (restored_head by id kind item next) db₂)

abbrev pub differs : Option ManifestRow → ManifestItem → Bool
differs none item = true
differs (some row) item = not (same_manifest_state row item)

-- The loop: the counts of objects and tombstones, and the state. `ids n` is the UUID for item `n`.
unfoldable pub restore_items :
    Restorer → (ℕ → ℕ) → List ManifestRow → List ManifestItem → ℕ → ℕ → Db → Result (ℕ × ℕ × Db)
unfolding restore_item same_manifest_state
restore_items by ids current [] objects tombstones db = ok (objects, tombstones, db)
restore_items by ids current (item ∷ target) objects tombstones db = do
  let existing = find_by (λ row. is_item_of row item) current
  let changes = differs existing item
  db' ← (if changes then restore_item by (ids 0) item (revision_or_zero existing) db else ok db)
  restore_items by (λ n. ids (n + 1)) current target
      (if changes && not item.tombstone then objects + 1 else objects)
      (if changes && item.tombstone then tombstones + 1 else tombstones) db'

abbrev pub closed_project : ℕ → Option Project → Result Project
closed_project project none = err project_maintenance
closed_project project (some p) = ok p

abbrev pub finished_job : ℕ → ℕ → ℕ → ℕ → RestoreJob → RestoreJob
finished_job now generation objects tombstones j = record j {
  status = succeeded;
  generation_after = some generation;
  restored_objects = objects;
  restored_tombstones = tombstones;
  lease_token = none;
  lease_expires_at = none;
  finished_at = some now;
}

-- `SET generation = $2, status = 'active', …`
unfoldable pub open_generation : ℕ → ℕ → ℕ → Db → Db
open_generation now project generation db = record db {
  projects =
      update_where (λ p. p.id == project)
        (λ p. record p { generation = generation; status = ProjectStatus.active; updated_at = now })
        db.projects;
}

unfoldable pub run_restore : ℕ → (ℕ → ℕ) → ℕ → ℕ → Db → Result Db
unfolding restore_items with_deletions current_rows rows_at manifest_items
run_restore now ids job lease db = do
  j ← leased (find_by (is_leased job lease) db.restores)
  wanted ← ensure_wanted j.cancel_requested
  p ←
      closed_project j.project
        (find_by (λ p. p.id == j.project && is_maintenance p.status) db.projects)
  target ← wanted_items j db j.snapshot j.target_sequence
  let current = current_rows j.project db
  (objects, tombstones, db₁) ←
      restore_items (record { project = j.project; owner = p.owner; now = now }) ids current
        (with_deletions current target) 0 0 db
  generation ← next_i64 p.generation
  insert_audit j.requested_by (some j.requested_by) "restore.completed"
      (object (
        ("restoreId", num job)
        ∷ ("generation", num generation)
        ∷ ("objects", num objects)
        ∷ ("tombstones", num tombstones)
        ∷ []))
      ""
      (update_jobs (is_leased job lease) (finished_job now generation objects tombstones)
        (open_generation now j.project generation db₁))

unfoldable pub execute_restore_with_lease : ℕ → (ℕ → ℕ) → ℕ → ℕ → Db → Result (Unit {0}) × Db
unfolding run_restore
execute_restore_with_lease now ids job lease db =
    commit_ok db (done (run_restore now ids job lease db))

abbrev pub held_lease : Option RestoreJob → Option ℕ
held_lease none = none
held_lease (some j) = j.lease_token

abbrev pub execute_held : ℕ → (ℕ → ℕ) → ℕ → Db → Option ℕ → Result (Unit {0}) × Db
execute_held now ids job db none = (err conflict, db)
execute_held now ids job db (some lease) = execute_restore_with_lease now ids job lease db

unfoldable pub execute_restore : ℕ → (ℕ → ℕ) → ℕ → Db → Result (Unit {0}) × Db
unfolding execute_restore_with_lease
execute_restore now ids job db =
    execute_held now ids job db
      (held_lease (find_by (λ j. j.id == job && is_running j.status) db.restores))
