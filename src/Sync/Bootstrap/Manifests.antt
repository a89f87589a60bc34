-- ===== src/Sync/Bootstrap/Manifests.antt =====
-- The bootstrap by a stored manifest: prepare_bootstrap_manifest, record_bootstrap_manifest and
-- bootstrap_manifest_page of crates/persistence/src/lib.rs.
use tasktips_cloud.Base.{
  ℕ, Bool, ◌&&◌, ◌||◌, String, Option, none, some, [], ◌∷◌, map, ◌==◌, ltb, if◌then◌else◌, find_by,
  any_by, ℤ, below, to_natural, ◌+◌,
}
use tasktips_cloud.Json.{Json, num, arr, obj, object, items}
use tasktips_cloud.Store.Errors.{database, conflict, not_found, Result, ok, err, ◌>>=◌}
use tasktips_cloud.Store.Schema.{Db, Bootstrap}
use tasktips_cloud.Store.Transaction.{commit_ok, done}
use tasktips_cloud.Sync.Push.{project_state, is_own_project}
use tasktips_cloud.Sync.Pull.{Puller, take, ensure_generation}
use tasktips_cloud.Sync.Records.{record_json, records_of_json, records_of_items}
use tasktips_cloud.Restore.Manifest.{lookup}
use tasktips_cloud.Sync.Bootstrap.{
  records_at, complete_bootstrap, complete_last, fetched, has_next, cut, BootstrapPage,
  BootstrapManifest, BootstrapFormat,
}

-- Nothing is written.
unfoldable pub prepare_bootstrap_manifest :
    BootstrapFormat → Puller → ℕ → Db → Result BootstrapManifest
unfolding records_at project_state
prepare_bootstrap_manifest fmt by id db = do
  (generation, sequence) ← project_state by.user by.project db
  ok (record {
    id = id;
    generation = generation;
    snapshot_sequence = sequence;
    records = records_at fmt by.project sequence db;
  })

abbrev pub bootstrap_json : BootstrapFormat → ℕ → BootstrapManifest → Json
bootstrap_json fmt project m = object (
    ("version", num 1)
    ∷ ("manifestId", num m.id)
    ∷ ("projectId", num project)
    ∷ ("generation", num m.generation)
    ∷ ("changeSequence", num m.snapshot_sequence)
    ∷ ("items", arr (items (map (record_json fmt.instant) m.records)))
    ∷ [])

-- `CURRENT_TIMESTAMP + INTERVAL '24 hours'`, in nanoseconds.
abbrev pub hours_24 : ℕ
hours_24 = 86400000000000

abbrev pub bootstrap_row : BootstrapFormat → Puller → BootstrapManifest → String → Bootstrap
bootstrap_row fmt by m key = record {
  id = m.id;
  project = by.project;
  owner = by.user;
  generation = m.generation;
  change_sequence = m.snapshot_sequence;
  key = key;
  manifest = bootstrap_json fmt by.project m;
  expires_at = by.now + hours_24;
}

-- A second row of the same identifier is a conflict, and the foreign key leads to a project of the
-- owner. The hash is as new as the identifier, which the hashed text has.
unfoldable pub insert_bootstrap :
    BootstrapFormat → Puller → BootstrapManifest → String → Db → Result Db
unfolding record_json
insert_bootstrap fmt by m key db =
    if any_by (λ (b : Bootstrap). b.id == m.id) db.bootstraps
    then err conflict
    else if any_by (is_own_project by.user by.project) db.projects
    then ok (record db { bootstraps = bootstrap_row fmt by m key ∷ db.bootstraps })
    else err database

unfoldable pub record_bootstrap_manifest :
    BootstrapFormat → Puller → BootstrapManifest → String → Db → Result (Unit {0}) × Db
unfolding insert_bootstrap
record_bootstrap_manifest fmt by m key db = commit_ok db (done (insert_bootstrap fmt by m key db))

abbrev pub is_live_manifest : Puller → ℕ → Bootstrap → Bool
is_live_manifest by id b =
    b.id == id && b.project == by.project && b.owner == by.user && ltb by.now b.expires_at

abbrev pub found_manifest : Option Bootstrap → Result Bootstrap
found_manifest none = err not_found
found_manifest (some b) = ok b

abbrev pub ensure_within : ℤ → ℕ → ℕ → Result (Unit {0})
ensure_within offset sequence current =
    if ltb current sequence || below offset 0 then err not_found else ok tt

-- `manifest->'items'`, where a missing field is a NULL that does not decode.
abbrev pub decoded : Option Json → Result Json
decoded none = err database
decoded (some v) = ok v

abbrev pub stored_items : Json → Result Json
stored_items (obj fs) = decoded (lookup "items" fs)
stored_items _ = err database

unfoldable pub read_manifest_page :
    BootstrapFormat → Puller → ℕ → ℤ → ℕ → Db → Result (BootstrapPage × Db)
unfolding fetched take complete_bootstrap project_state lookup records_of_items
read_manifest_page fmt by id offset limit db = do
  (generation, current) ← project_state by.user by.project db
  b ← found_manifest (find_by (is_live_manifest by id) db.bootstraps)
  stored ← stored_items b.manifest
  same ← ensure_generation b.generation generation
  within ← ensure_within offset b.change_sequence current
  all ← records_of_json fmt.instant stored
  db₁ ←
      complete_last by generation b.change_sequence
        (has_next limit (fetched (to_natural offset) limit all)) db
  ok (
    record {
      manifest_id = id;
      generation = generation;
      snapshot_sequence = b.change_sequence;
      records = cut limit (fetched (to_natural offset) limit all);
      has_more = has_next limit (fetched (to_natural offset) limit all);
    },
    db₁,
  )

unfoldable pub bootstrap_manifest_page :
    BootstrapFormat → Puller → ℕ → ℤ → ℕ → Db → Result BootstrapPage × Db
unfolding read_manifest_page
bootstrap_manifest_page fmt by id offset limit db =
    commit_ok db (read_manifest_page fmt by id offset limit db)
