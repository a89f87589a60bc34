-- ===== src/Restore/Snapshot.antt =====
-- `create_pre_restore_snapshot`: the manifest of the heads, stored before any head changes.
use tasktips_cloud.Base.{
  ℕ, Bool, true, false, ◌&&◌, String, Option, some, List, [], ◌∷◌, ◌==◌, if◌then◌else◌, find_by,
  any_by, map,
}
use tasktips_cloud.Json.{Json, num, arr, object, items}
use tasktips_cloud.Store.Errors.{conflict, not_found, restore_cancelled, Result, ok, err, ◌>>=◌}
use tasktips_cloud.Store.Schema.{Db, Project, RestoreJob, SnapshotStatus, Snapshot}
use tasktips_cloud.Store.Transaction.{commit_ok}
use tasktips_cloud.Restore.Jobs.{is_running, update_jobs}
use tasktips_cloud.Restore.Manifest.{ManifestRow, manifest_item_json, current_rows}

-- `ORDER BY kind, object_id` as an insertion sort; `le` is the order of the database.
unfoldable pub insert_row :
    (ManifestRow → ManifestRow → Bool) → ManifestRow → List ManifestRow → List ManifestRow
insert_row le row [] = row ∷ []
insert_row le row (x ∷ xs) =
    let rest = insert_row le row xs in if le row x then row ∷ x ∷ xs else x ∷ rest

unfoldable pub order_rows : (ManifestRow → ManifestRow → Bool) → List ManifestRow → List ManifestRow
unfolding insert_row
order_rows le [] = []
order_rows le (x ∷ xs) = insert_row le x (order_rows le xs)

-- `lease_token = $3`, which a missing token on either side does not satisfy.
abbrev pub same_lease : Option ℕ → Option ℕ → Bool
same_lease (some a) (some b) = a == b
same_lease _ _ = false

abbrev pub is_job_leased : RestoreJob → RestoreJob → Bool
is_job_leased job j =
    j.id == job.id
    && j.project == job.project
    && is_running j.status
    && same_lease j.lease_token job.lease_token

-- What the module leaves to others: the JSON of an instant, the order of the database, the key that
-- the code formats from the UUIDs of the owner, the project and the snapshot.
pub record Formats : Type 0 where
  pub instant : ℕ → Json
  pub le : ManifestRow → ManifestRow → Bool
  pub manifest_key : ℕ → ℕ → ℕ → String

abbrev pub joined : Option RestoreJob → Option Project → Result (RestoreJob × Project)
joined (some j) (some p) = ok (j, p)
joined _ _ = err not_found

abbrev pub ensure_wanted : Bool → Result (Unit {0})
ensure_wanted true = err restore_cancelled
ensure_wanted false = ok tt

abbrev pub manifest_json : Formats → ℕ → ℕ → ℕ → List ManifestRow → Json
manifest_json fmt snapshot generation sequence rows = object (
    ("version", num 1)
    ∷ ("snapshotId", num snapshot)
    ∷ ("generation", num generation)
    ∷ ("changeSequence", num sequence)
    ∷ ("items", arr (items (map (manifest_item_json fmt.instant) rows)))
    ∷ [])

-- `map_sqlx_conflict` turns a second row of the same key into a conflict.
unfoldable pub insert_snapshot : Snapshot → Db → Result Db
insert_snapshot s db =
    if any_by (λ x. x.id == s.id) db.snapshots
    then err conflict
    else ok (record db { snapshots = s ∷ db.snapshots })

-- `id` is the new UUID of the snapshot; the manifest stands for its bytes.
unfoldable pub prepare_snapshot : Formats → ℕ → RestoreJob → Db → Result ((ℕ × ℕ × Json) × Db)
unfolding manifest_item_json current_rows order_rows
prepare_snapshot fmt id job db = do
  (j, p) ←
      joined (find_by (is_job_leased job) db.restores)
        (find_by (λ p. p.id == job.project) db.projects)
  wanted ← ensure_wanted j.cancel_requested
  let manifest =
      manifest_json fmt id p.generation p.change_seq
        (order_rows fmt.le (current_rows job.project db))
  db₁ ←
      insert_snapshot
        (record {
          id = id;
          project = job.project;
          owner = p.owner;
          generation = p.generation;
          change_sequence = p.change_seq;
          bucket = "pending";
          key = fmt.manifest_key p.owner job.project id;
          manifest = manifest;
          status = SnapshotStatus.pending;
        })
        db
  ok (
    (id, p.owner, manifest),
    update_jobs (is_job_leased job) (λ j. record j { pre_restore_snapshot = some id }) db₁,
  )

unfoldable pub create_pre_restore_snapshot :
    Formats → ℕ → RestoreJob → Db → Result (ℕ × ℕ × Json) × Db
unfolding prepare_snapshot
create_pre_restore_snapshot fmt id job db = commit_ok db (prepare_snapshot fmt id job db)
