-- ===== src/Tests/Bootstrap.antt =====
-- A bootstrap of two pages on a small state.
use tasktips_cloud.Base.{
  ℕ, ◌≡◌, refl, true, Option, none, some, ◌∷◌, arith, All, map, pos, find_by, any_by, update_where,
  upsert,
}
use tasktips_cloud.Json.{Json, num, arr, items}
use tasktips_cloud.Store.Schema.{Db}
use tasktips_cloud.Sync.Item.Writes.{written}
use tasktips_cloud.Sync.Push.{project_state}
use tasktips_cloud.Sync.Pull.{Puller, take, pop}
use tasktips_cloud.Sync.Records.{record_json, record_of_fields, records_of_items}
use tasktips_cloud.Catalog.{insert_by, order_by}
use tasktips_cloud.Purge.Rows.{select_where}
use tasktips_cloud.Restore.Manifest.{lookup, logged_rows, latest, rows_at}
use tasktips_cloud.Sync.Bootstrap.{
  BootstrapManifest, BootstrapFormat, records_at, skip, fetched, is_completed, complete_bootstrap,
  read_bootstrap, bootstrap_page,
}
use tasktips_cloud.Sync.Bootstrap.Manifests.{
  bootstrap_row, prepare_bootstrap_manifest, insert_bootstrap, record_bootstrap_manifest,
  read_manifest_page, bootstrap_manifest_page,
}
use tasktips_cloud.Sync.Bootstrap.Records.{FitsColumns}
use tasktips_cloud.Sync.Bootstrap.Pages.{whole, download, at_time, Readable}
use tasktips_cloud.Sync.Bootstrap.Agree.{unnamed, bootstrap_page-eq-manifest_page}
use tasktips_cloud.Sync.Bootstrap.Whole.{download_is_whole}
use tasktips_cloud.Tests.Data.{start, device_row, pusher, create}

run : Unit {0}
unfolding record_json record_of_fields records_of_items insert_by order_by select_where lookup
    logged_rows latest rows_at records_at take pop skip fetched complete_bootstrap read_bootstrap
    bootstrap_page prepare_bootstrap_manifest insert_bootstrap record_bootstrap_manifest
    read_manifest_page bootstrap_manifest_page download project_state find_by any_by update_where
    upsert
run = tt

-- Two objects in the log, and a second device of the account.
abbrev logged : Db
logged =
    written pusher 501 (record create { id = "B" }) 1 2 (some 40)
      (written pusher 500 create 1 1 (some 40)
        (record start { devices = device_row 5 1 ∷ start.devices }))

abbrev by : Puller
by = record { user = 1; device = 2; project = 3; now = 700 }

abbrev read_num : Json → Option ℕ
read_num (num n) = some n
read_num _ = none

abbrev format : BootstrapFormat
format = record { le = λ a b. true; instant = record { write = num; read = read_num } }

abbrev manifest : BootstrapManifest
manifest = record {
  id = 900;
  generation = 1;
  snapshot_sequence = 2;
  records = records_at format 3 2 logged;
}

-- The state with the manifest.
abbrev recorded : Db
recorded = (record_bootstrap_manifest format by manifest "key" logged).1

fields_fit : All FitsColumns manifest.records
unfolding run
fields_fit = (
  record {
    schema_version = omega arith;
    revision = omega arith;
    base_revision = omega arith;
    change_sequence = omega arith;
  },
  (
    record {
      schema_version = omega arith;
      revision = omega arith;
      base_revision = omega arith;
      change_sequence = omega arith;
    },
    tt,
  ),
)

count_run :
    (download format (λ k. at_time (record by { device = 5 }) 800) 900 1 3 0 recorded).0
    ≡ whole manifest.records
unfolding run
count_run = refl

download_is_whole_example :
    ((download format (λ k. at_time (record by { device = 5 }) 800) 900 1 3 0 recorded).0
      ≡ whole (records_at format 3 2 logged))
    × (any_by
          (is_completed (record by { device = 5 }) 1)
          (download format
            (λ k. at_time (record by { device = 5 }) 800)
            900
            1
            3
            0
            recorded).1.completions
        ≡ true)
unfolding run
download_is_whole_example =
    download_is_whole format by 900 "key" logged logged recorded manifest 2 5 1 3 (λ k. 800)
      (λ n. refl) refl fields_fit refl refl (omega arith) refl (λ k. omega arith) (omega arith)
      (omega arith)

readable : Readable format by 900 1 2 (records_at format 3 2 recorded) recorded
unfolding run
readable = record {
  manifest = bootstrap_row format by manifest "key";
  stored = arr (items (map (record_json format.instant) manifest.records));
  current = 2;
  found = refl;
  in_generation = refl;
  at_sequence = refl;
  has_items = refl;
  reads = refl;
  state = refl;
  within = omega arith;
}

bootstrap_page-eq-manifest_page_example :
    bootstrap_page format by (some 1) (some (pos 2)) 1 1 recorded
    ≡ unnamed (bootstrap_manifest_page format by 900 (pos 1) 1 recorded)
bootstrap_page-eq-manifest_page_example =
    bootstrap_page-eq-manifest_page format by 900 1 2 1 1 recorded readable
