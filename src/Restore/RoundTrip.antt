-- ===== src/Restore/RoundTrip.antt =====
-- The manifest that a worker stores before a restore can be read back by a later one.
use tasktips_cloud.Base.{
  ℕ, ◌≤◌, ◌≡◌, refl, Option, none, some, List, [], ◌∷◌, arith, map, All, unwrap_or,
}
use tasktips_cloud.Json.{Json, items, opt_num}
use tasktips_cloud.Store.Errors.{ok}
use tasktips_cloud.Sync.Item.{i64_max}
use tasktips_cloud.Restore.Manifest.{
  ManifestRow, manifest_item_json, manifest_item_from_row, lookup, i32_max, as_opt_num, as_opt_str,
  opt_str, item_of_fields, item_of_json, items_of_json, manifest_items,
}
use tasktips_cloud.Restore.Snapshot.{Formats, manifest_json}

-- A row whose numbers fit the types of the columns.
abbrev pub InRange : ManifestRow → Type 0
InRange row = (unwrap_or row.schema_version 0 ≤ i32_max) × (row.revision ≤ i64_max)

pub as_opt_num-opt_num :
    (limit : ℕ) (o : Option ℕ) → unwrap_or o 0 ≤ limit → as_opt_num limit (some (opt_num o)) ≡ ok o
as_opt_num-opt_num limit none h = refl
as_opt_num-opt_num limit (some n) h = ground arith

pub as_opt_str-opt_str : (o : Option _) → as_opt_str (some (opt_str o)) ≡ ok o
as_opt_str-opt_str none = refl
as_opt_str-opt_str (some s) = refl

item_of_json-manifest_item_json :
    (instant : ℕ → Json) (row : ManifestRow)
    → InRange row
    → item_of_json (manifest_item_json instant row) ≡ ok (manifest_item_from_row row)
unfolding item_of_fields manifest_item_json manifest_item_from_row lookup
item_of_json-manifest_item_json instant row fits =
    rw (as_opt_num-opt_num i32_max row.schema_version fits.0, as_opt_str-opt_str row.content_hash)
      (ground arith)

items_of_json-map :
    (instant : ℕ → Json) (rows : List ManifestRow)
    → All InRange rows
    → items_of_json (items (map (manifest_item_json instant) rows))
      ≡ ok (map manifest_item_from_row rows)
unfolding items_of_json
items_of_json-map instant [] fits = refl
items_of_json-map instant (row ∷ rows) fits =
    rw (item_of_json-manifest_item_json instant row fits.0, items_of_json-map instant rows fits.1)

-- Reading the items of a stored manifest gives back the rows that it was made from, each without its
-- base revision, time and sequence, where the numbers of the rows fit their columns.
pub manifest_items-manifest_json :
    (fmt : Formats) (snapshot generation sequence : ℕ) (rows : List ManifestRow)
    → All InRange rows
    → manifest_items (manifest_json fmt snapshot generation sequence rows)
      ≡ ok (map manifest_item_from_row rows)
unfolding manifest_items lookup
manifest_items-manifest_json fmt snapshot generation sequence rows fits =
    items_of_json-map fmt.instant rows fits
