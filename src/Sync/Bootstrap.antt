-- ===== src/Sync/Bootstrap.antt =====
-- The bootstrap of crates/persistence/src/lib.rs: a device reads all objects of a project, from a
-- manifest that is stored for it or from the log, before it may push.
pub mod Manifests
pub mod Records
pub mod Slices
pub mod Pages
pub mod Whole
pub mod Agree
use tasktips_cloud.Base.{
  ℕ, zero, suc, Bool, true, false, not, ◌&&◌, ◌||◌, String, Option, none, some, List, [], ◌∷◌, map,
  ◌==◌, ltb, length, if◌then◌else◌, find_by, any_by, update_where, ℤ, below, above, to_natural, ◌+◌,
}
use tasktips_cloud.Json.{Json, num, arr, obj, object, items}
use tasktips_cloud.Store.Errors.{
  database, conflict, not_found, generation_mismatch, Result, ok, err, ◌>>=◌,
}
use tasktips_cloud.Store.Schema.{Db, Change, Device, Completion, Bootstrap}
use tasktips_cloud.Store.Transaction.{commit_ok, done}
use tasktips_cloud.Sync.Push.{project_state, is_own_project}
use tasktips_cloud.Sync.Pull.{SyncRecord, Puller, take, pop, ensure_generation}
use tasktips_cloud.Sync.Records.{InstantFormat, record_json, records_of_json, records_of_items}
use tasktips_cloud.Catalog.{order_by}
use tasktips_cloud.Purge.Rows.{select_where}
use tasktips_cloud.Restore.Manifest.{ManifestRow, lookup, rows_at}

pub record BootstrapPage : Type 0 where
  pub manifest_id : ℕ
  pub generation : ℕ
  pub snapshot_sequence : ℕ
  pub records : List SyncRecord
  pub has_more : Bool

-- The bytes and their hash are made by other crates, and only the object store reads them.
pub record BootstrapManifest : Type 0 where
  pub id : ℕ
  pub generation : ℕ
  pub snapshot_sequence : ℕ
  pub records : List SyncRecord

-- What the database and the crate time do: the order of texts in `ORDER BY kind, id`, and the JSON of
-- an instant.
pub record BootstrapFormat : Type 0 where
  pub le : SyncRecord → SyncRecord → Bool
  pub instant : InstantFormat

abbrev pub record_of_row : ManifestRow → SyncRecord
record_of_row r = record {
  kind = r.kind;
  id = r.id;
  schema_version = r.schema_version;
  revision = r.revision;
  base_revision = r.base_revision;
  content_hash = r.content_hash;
  changed_at = r.changed_at;
  device = r.device;
  tombstone = r.tombstone;
  change_sequence = r.change_sequence;
}

-- The join's `c.project_id = r.project_id`, which the query of the restore does not have.
abbrev pub own_log : ℕ → Db → Db
own_log project db = record db {
  changes = select_where (λ (c : Change). c.project == project) db.changes;
}

-- The objects of the project as they were at the sequence.
unfoldable pub records_at : BootstrapFormat → ℕ → ℕ → Db → List SyncRecord
unfolding rows_at order_by select_where
records_at fmt project sequence db =
    order_by fmt.le (map record_of_row (rows_at project sequence (own_log project db)))

-- `skip`, and `OFFSET`
unfoldable pub skip {ℓ} : {A : Type ℓ} → ℕ → List A → List A
skip zero xs = xs
skip (suc n) [] = []
skip (suc n) (x ∷ xs) = skip n xs

abbrev pub is_completed : Puller → ℕ → Completion → Bool
is_completed by generation c =
    c.project == by.project && c.device == by.device && c.generation == generation

abbrev pub is_device_of : Puller → Device → Bool
is_device_of by d = d.id == by.device && d.owner == by.user

-- The insert of the completion, whose foreign key leads to the devices of the owner.
unfoldable pub complete_bootstrap : Puller → ℕ → ℕ → Db → Result Db
complete_bootstrap by generation sequence db =
    if any_by (is_completed by generation) db.completions
    then ok (record db {
      completions =
          update_where (is_completed by generation) (λ c. record c { change_sequence = sequence })
            db.completions;
    })
    else if any_by (is_device_of by) db.devices
    then ok (record db {
      completions =
          record {
            project = by.project;
            owner = by.user;
            device = by.device;
            generation = generation;
            change_sequence = sequence;
          }
          ∷ db.completions;
    })
    else err database

abbrev pub complete_last : Puller → ℕ → ℕ → Bool → Db → Result Db
complete_last by generation sequence has_more db =
    if has_more then ok db else complete_bootstrap by generation sequence db

abbrev pub ensure_expected : Option ℕ → ℕ → Result (Unit {0})
ensure_expected none generation = ok tt
ensure_expected (some expected) generation = ensure_generation expected generation

-- The sequence that was asked for, or the current one.
abbrev pub ensure_snapshot : Option ℤ → ℕ → ℕ → Result ℕ
ensure_snapshot none generation current = ok current
ensure_snapshot (some sequence) generation current =
    if above sequence current || below sequence 0
    then err (generation_mismatch generation generation)
    else ok (to_natural sequence)

-- One record more than the page has tells whether others follow.
unfoldable pub fetched : ℕ → ℕ → List SyncRecord → List SyncRecord
unfolding take skip
fetched offset limit all = take (suc limit) (skip offset all)

abbrev pub has_next : ℕ → List SyncRecord → Bool
has_next limit found = ltb limit (length found)

abbrev pub popped : ℕ → List SyncRecord → List SyncRecord
popped limit found = if has_next limit found then pop found else found

abbrev pub cut : ℕ → List SyncRecord → List SyncRecord
cut limit found = if has_next limit found then take limit found else found

-- The routes bound `offset` and `limit`.
unfoldable pub read_bootstrap :
    BootstrapFormat → Puller → Option ℕ → Option ℤ → ℕ → ℕ → Db → Result (BootstrapPage × Db)
unfolding records_at fetched take pop complete_bootstrap project_state
read_bootstrap fmt by expected snapshot offset limit db = do
  (generation, current) ← project_state by.user by.project db
  same ← ensure_expected expected generation
  sequence ← ensure_snapshot snapshot generation current
  db₁ ←
      complete_last by generation sequence
        (has_next limit (fetched offset limit (records_at fmt by.project sequence db))) db
  ok (
    record {
      manifest_id = 0;
      generation = generation;
      snapshot_sequence = sequence;
      records = popped limit (fetched offset limit (records_at fmt by.project sequence db));
      has_more = has_next limit (fetched offset limit (records_at fmt by.project sequence db));
    },
    db₁,
  )

unfoldable pub bootstrap_page :
    BootstrapFormat → Puller → Option ℕ → Option ℤ → ℕ → ℕ → Db → Result BootstrapPage × Db
unfolding read_bootstrap
bootstrap_page fmt by expected snapshot offset limit db =
    commit_ok db (read_bootstrap fmt by expected snapshot offset limit db)
