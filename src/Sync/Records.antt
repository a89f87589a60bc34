-- ===== src/Sync/Records.antt =====
-- The JSON of `SyncRecord` of crates/persistence/src/lib.rs, by its derived `Serialize` and
-- `Deserialize`.
use tasktips_cloud.Base.{ℕ, Option, none, some, List, [], ◌∷◌}
use tasktips_cloud.Json.{Json, Items, Fields, num, str, bool, arr, obj, nil, cons, object, opt_num}
use tasktips_cloud.Store.Errors.{invalid_payload, Result, ok, err, ◌>>=◌}
use tasktips_cloud.Sync.Item.{i64_max}
use tasktips_cloud.Sync.Pull.{SyncRecord}
use tasktips_cloud.Restore.Manifest.{
  lookup, as_str, as_bool, as_num, as_opt_num, as_opt_str, as_uuid, i32_max, opt_str,
}

-- `time::serde::rfc3339`
pub record InstantFormat : Type 0 where
  pub write : ℕ → Json
  pub read : Json → Option ℕ

unfoldable pub record_json : InstantFormat → SyncRecord → Json
record_json fmt r = object (
    ("kind", str r.kind)
    ∷ ("id", str r.id)
    ∷ ("schemaVersion", opt_num r.schema_version)
    ∷ ("revision", num r.revision)
    ∷ ("baseRevision", opt_num r.base_revision)
    ∷ ("contentHash", opt_str r.content_hash)
    ∷ ("changedAt", fmt.write r.changed_at)
    ∷ ("deviceId", num r.device)
    ∷ ("tombstone", bool r.tombstone)
    ∷ ("changeSequence", num r.change_sequence)
    ∷ [])

abbrev pub read_instant : Option ℕ → Result ℕ
read_instant none = err invalid_payload
read_instant (some t) = ok t

abbrev pub as_instant : InstantFormat → Option Json → Result ℕ
as_instant fmt none = err invalid_payload
as_instant fmt (some v) = read_instant (fmt.read v)

unfoldable pub record_of_fields : InstantFormat → Fields → Result SyncRecord
unfolding lookup
record_of_fields fmt fs = do
  kind ← as_str (lookup "kind" fs)
  id ← as_str (lookup "id" fs)
  schema_version ← as_opt_num i32_max (lookup "schemaVersion" fs)
  revision ← as_num i64_max (lookup "revision" fs)
  base_revision ← as_opt_num i64_max (lookup "baseRevision" fs)
  content_hash ← as_opt_str (lookup "contentHash" fs)
  changed_at ← as_instant fmt (lookup "changedAt" fs)
  device ← as_uuid (lookup "deviceId" fs)
  tombstone ← as_bool (lookup "tombstone" fs)
  change_sequence ← as_num i64_max (lookup "changeSequence" fs)
  ok (record {
    kind = kind;
    id = id;
    schema_version = schema_version;
    revision = revision;
    base_revision = base_revision;
    content_hash = content_hash;
    changed_at = changed_at;
    device = device;
    tombstone = tombstone;
    change_sequence = change_sequence;
  })

abbrev pub record_of_json : InstantFormat → Json → Result SyncRecord
record_of_json fmt (obj fs) = record_of_fields fmt fs
record_of_json fmt _ = err invalid_payload

unfoldable pub records_of_items : InstantFormat → Items → Result (List SyncRecord)
unfolding record_of_fields
records_of_items fmt nil = ok []
records_of_items fmt (cons v vs) = do
  r ← record_of_json fmt v
  rest ← records_of_items fmt vs
  ok (r ∷ rest)

-- `Vec<SyncRecord>`
abbrev pub records_of_json : InstantFormat → Json → Result (List SyncRecord)
records_of_json fmt (arr vs) = records_of_items fmt vs
records_of_json fmt _ = err invalid_payload
