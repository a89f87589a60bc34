-- ===== src/Sync/Bootstrap/Records.antt =====
-- The records of a stored bootstrap manifest are read back as they were written.
use tasktips_cloud.Base.{ℕ, ◌≤◌, ◌≡◌, refl, some, List, [], ◌∷◌, arith, map, All, unwrap_or}
use tasktips_cloud.Json.{items}
use tasktips_cloud.Store.Errors.{ok}
use tasktips_cloud.Sync.Item.{i64_max}
use tasktips_cloud.Sync.Pull.{SyncRecord}
use tasktips_cloud.Sync.Records.{
  InstantFormat, record_json, record_of_fields, record_of_json, records_of_items,
}
use tasktips_cloud.Restore.Manifest.{lookup, i32_max}
use tasktips_cloud.Restore.RoundTrip.{as_opt_num-opt_num, as_opt_str-opt_str}

-- A record whose numbers fit the types of the columns.
pub record FitsColumns (r : SyncRecord) : Type 0 where
  pub schema_version : unwrap_or r.schema_version 0 ≤ i32_max
  pub revision : r.revision ≤ i64_max
  pub base_revision : unwrap_or r.base_revision 0 ≤ i64_max
  pub change_sequence : r.change_sequence ≤ i64_max

record_of_json-record_json :
    (fmt : InstantFormat) (r : SyncRecord)
    → ((t : ℕ) → fmt.read (fmt.write t) ≡ some t)
    → FitsColumns r
    → record_of_json fmt (record_json fmt r) ≡ ok r
unfolding record_of_fields record_json lookup
record_of_json-record_json fmt r reads fits =
    rw
      (
        as_opt_num-opt_num i32_max r.schema_version fits.schema_version,
        as_opt_num-opt_num i64_max r.base_revision fits.base_revision,
        as_opt_str-opt_str r.content_hash,
        reads r.changed_at,
      )
      (ground (arith, fits.revision, fits.change_sequence))

pub records_of_items-map :
    (fmt : InstantFormat) (rs : List SyncRecord)
    → ((t : ℕ) → fmt.read (fmt.write t) ≡ some t)
    → All FitsColumns rs
    → records_of_items fmt (items (map (record_json fmt) rs)) ≡ ok rs
unfolding records_of_items
records_of_items-map fmt [] reads fits = refl
records_of_items-map fmt (r ∷ rs) reads fits =
    rw (record_of_json-record_json fmt r reads fits.0, records_of_items-map fmt rs reads fits.1)
      refl
