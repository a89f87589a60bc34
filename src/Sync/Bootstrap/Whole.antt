-- ===== src/Sync/Bootstrap/Whole.antt =====
-- The pages of a manifest that was prepared and recorded are the objects of the project as they were
-- when it was prepared.
use tasktips_cloud.Base.{
  ℕ, ◌+◌, ◌≤◌, ◌<◌, ◌≡◌, refl, ap, ◌∙◌, true, String, some, ◌∷◌, arith, All, length, map, find_by,
  any_by,
}
use tasktips_cloud.Json.{arr, items}
use tasktips_cloud.Store.Errors.{ok, steps_of_ok}
use tasktips_cloud.Store.Schema.{Db}
use tasktips_cloud.Sync.Push.{project_state}
use tasktips_cloud.Sync.Pull.{Puller}
use tasktips_cloud.Sync.Records.{record_json}
use tasktips_cloud.Restore.Manifest.{lookup}
use tasktips_cloud.Sync.Bootstrap.{
  BootstrapManifest, BootstrapFormat, records_at, skip, is_completed, is_device_of,
}
use tasktips_cloud.Sync.Bootstrap.Manifests.{
  bootstrap_row, hours_24, insert_bootstrap, prepare_bootstrap_manifest, record_bootstrap_manifest,
}
use tasktips_cloud.Sync.Bootstrap.Records.{FitsColumns, records_of_items-map}
use tasktips_cloud.Sync.Bootstrap.Pages.{whole, download, Readable, at_time, download-Ends}

prepared_records :
    (fmt : BootstrapFormat) (by : Puller) (id : ℕ) (db : Db) (m : BootstrapManifest)
    → prepare_bootstrap_manifest fmt by id db ≡ ok m
    → m.records ≡ records_at fmt by.project m.snapshot_sequence db
unfolding prepare_bootstrap_manifest
prepared_records fmt by id db m e =
    let ((generation, sequence), made, _) = steps_of_ok (project_state by.user by.project db) _ e in
    cc (made)

recorded_row :
    (fmt : BootstrapFormat) (by : Puller) (m : BootstrapManifest) (key : String) (db db' : Db)
    → record_bootstrap_manifest fmt by m key db ≡ (ok tt, db')
    → db' ≡ record db { bootstraps = bootstrap_row fmt by m key ∷ db.bootstraps }
unfolding record_bootstrap_manifest insert_bootstrap
recorded_row fmt by m key db db' e = ground arith

-- The state behind the record.
module _ (fmt : BootstrapFormat) (by : Puller) (m : BootstrapManifest) (key : String) (db : Db)
    (current device t : ℕ) (reads : (n : ℕ) → fmt.instant.read (fmt.instant.write n) ≡ some n)
    (fits : All FitsColumns m.records)
    (state : project_state by.user by.project db ≡ ok (m.generation, current))
    (within : m.snapshot_sequence ≤ current) (early : t < by.now + hours_24) where
  recorded-Readable :
      Readable fmt
        (at_time (record by { device = device }) t)
        m.id
        m.generation
        m.snapshot_sequence
        m.records
        (record db { bootstraps = bootstrap_row fmt by m key ∷ db.bootstraps })
  unfolding find_by lookup project_state
  recorded-Readable = record {
    manifest = bootstrap_row fmt by m key;
    stored = arr (items (map (record_json fmt.instant) m.records));
    current = current;
    found = ground (arith, early);
    in_generation = refl;
    at_sequence = refl;
    has_items = refl;
    reads = records_of_items-map fmt.instant m.records reads fits;
    state = state;
    within = within;
  }

-- Where a manifest was prepared in one state and recorded in a later one, in which the project is
-- active in the same generation and its sequence has not gone back, a device of the account that
-- follows the pages, each of them within 24 hours of the record and of at least one record, is given
-- exactly the objects of the project as they were at the manifest's sequence when it was prepared;
-- as many pages as there are records and one are enough; and the device has then completed the
-- bootstrap of the generation. The JSON of an instant is read back as it was written, and the numbers
-- of the records fit their columns.
pub download_is_whole :
    (fmt : BootstrapFormat) (by : Puller) (id : ℕ) (key : String) (db db₁ db₂ : Db)
    (m : BootstrapManifest) (current device limit fuel : ℕ) (times : ℕ → ℕ)
    → ((n : ℕ) → fmt.instant.read (fmt.instant.write n) ≡ some n)
    → prepare_bootstrap_manifest fmt by id db ≡ ok m
    → All FitsColumns m.records
    → record_bootstrap_manifest fmt by m key db₁ ≡ (ok tt, db₂)
    → project_state by.user by.project db₁ ≡ ok (m.generation, current)
    → m.snapshot_sequence ≤ current
    → any_by (is_device_of (record by { device = device })) db₁.devices ≡ true
    → ((k : ℕ) → times k < by.now + hours_24)
    → 0 < limit
    → length m.records < fuel
    → ((download fmt
          (λ k. at_time (record by { device = device }) (times k))
          m.id
          limit
          fuel
          0
          db₂).0
        ≡ whole (records_at fmt by.project m.snapshot_sequence db))
      × (any_by
            (is_completed (record by { device = device }) m.generation)
            (download fmt
              (λ k. at_time (record by { device = device }) (times k))
              m.id
              limit
              fuel
              0
              db₂).1.completions
          ≡ true)
unfolding skip
download_is_whole fmt by id key db db₁ db₂ m current device limit fuel times reads prepared fits
      recorded state within known early some_room enough =
    let row = recorded_row fmt by m key db₁ db₂ recorded in
    let (result, completed) =
      download-Ends fmt (record by { device = device }) times m.id m.generation m.snapshot_sequence
        m.records limit some_room
        (record db₁ { bootstraps = bootstrap_row fmt by m key ∷ db₁.bootstraps })
        (λ k.
          recorded-Readable fmt by m key db₁ current device (times k) reads fits state within
            (early k))
        known fuel 0 enough in
    rw row (result ∙ ap whole (prepared_records fmt by id db m prepared), completed)
