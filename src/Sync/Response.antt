-- ===== src/Sync/Response.antt =====
-- What a push answers for each item (`PushItemResult`), the response that is built from these, and
-- the format of stored responses (`migrate_stored_push_response`).
pub mod Stored
pub mod Legacy
use Prim.Native.Char.{code}
use tasktips_cloud.Base.{
  ℕ, ◌≡◌, Bool, true, String, Option, none, some, List, [], ◌∷◌, ◌==◌, str_eq, if◌then◌else◌,
}
use tasktips_cloud.Domain.{ObjectKind, kind_str}
use tasktips_cloud.Json.{
  Json, num, str, arr, obj, Items, nil, cons, Fields, end, field, fields, object, opt_num,
}

-- RFC 3339 instants, by the crate `time`: a text that it writes is one that it reads.
pub record TimeFormat : Type 0 where
  pub format : ℕ → String
  pub parses : String → Bool
  pub parses-format : (t : ℕ) → parses (format t) ≡ true

pub data PushItemResult : Type 0 where
  applied :
      (kind : ObjectKind) (id : String) (revision change_sequence changed_at : ℕ) → PushItemResult
  conflict : (kind : ObjectKind) (id : String) (expected actual : Option ℕ) → PushItemResult
  rejected : (kind : ObjectKind) (id code message : String) (details : Option Json) → PushItemResult

abbrev pub details_field : Option Json → Fields
details_field none = end
details_field (some v) = field "details" v end

-- The derived `Serialize`, with `tag = "status"` and names in camel case.
unfoldable pub result_fields : TimeFormat → PushItemResult → Fields
result_fields fmt (applied kind id revision change_sequence changed_at) = fields (
    ("status", str "applied")
    ∷ ("kind", str (kind_str kind))
    ∷ ("id", str id)
    ∷ ("revision", num revision)
    ∷ ("changeSequence", num change_sequence)
    ∷ ("changedAt", str (fmt.format changed_at))
    ∷ [])
result_fields fmt (conflict kind id expected actual) = fields (
    ("status", str "conflict")
    ∷ ("kind", str (kind_str kind))
    ∷ ("id", str id)
    ∷ ("expectedRevision", opt_num expected)
    ∷ ("actualRevision", opt_num actual)
    ∷ [])
result_fields fmt (rejected kind id code message details) = field "status" (str "rejected") (
    field "kind" (str (kind_str kind)) (
      field "id" (str id)
        (field "code" (str code) (field "message" (str message) (details_field details)))))

unfoldable pub results_json : TimeFormat → List PushItemResult → Items
results_json fmt [] = nil
results_json fmt (r ∷ rs) = cons (obj (result_fields fmt r)) (results_json fmt rs)

-- `json!({"generation": generation, "results": results})`
unfoldable pub response_json : TimeFormat → ℕ → List PushItemResult → Json
response_json fmt generation results =
    object (("generation", num generation) ∷ ("results", arr (results_json fmt results)) ∷ [])

-- `Map::insert`: the value of a key that is there is replaced.
unfoldable pub insert_field : String → Json → Fields → Fields
insert_field k v end = field k v end
insert_field k v (field j w fs) =
    if str_eq j k then field k v fs else field j w (insert_field k v fs)

-- `value.get(key)`
unfoldable pub get_field : String → Fields → Option Json
get_field k end = none
get_field k (field j w fs) = if str_eq j k then some w else get_field k fs

-- `rsplit_once(' ')`
unfoldable pub rsplit_space : String → Option (String × String)
rsplit_space String.[] = none
rsplit_space (String.◌∷◌ c s) = elim (rsplit_space s) [
  | some (a, b) ↦ some (String.◌∷◌ c a, b)
  | none ↦ if code c == b' ' then some ("", s) else none
]

-- `replacen(' ', "T", 1) + "Z"`
unfoldable pub join_stamp : String → String
join_stamp String.[] = "Z"
join_stamp (String.◌∷◌ c s) =
    if code c == b' '
    then Prim.Native.String.◌++◌ "T" (Prim.Native.String.◌++◌ s "Z")
    else String.◌∷◌ c (join_stamp s)

unfoldable pub migrate_text : TimeFormat → String → String
migrate_text fmt raw = if fmt.parses raw then raw else elim (rsplit_space raw) [
  | none ↦ raw
  | some (stamp, offset) ↦
      let candidate = join_stamp stamp in
      if str_eq offset "+00:00:00" then if fmt.parses candidate then candidate else raw else raw
]

unfoldable pub migrate_legacy_timestamp : TimeFormat → Json → Json
migrate_legacy_timestamp fmt (str raw) = str (migrate_text fmt raw)
migrate_legacy_timestamp fmt v = v

abbrev pub migrate_entry : TimeFormat → String → Json → Fields → Fields
migrate_entry fmt key value rest =
    if str_eq key "change_sequence"
    then insert_field "changeSequence" value rest
    else if str_eq key "expected_revision"
    then insert_field "expectedRevision" value rest
    else if str_eq key "actual_revision"
    then insert_field "actualRevision" value rest
    else if str_eq key "changed_at"
    then insert_field "changedAt" (migrate_legacy_timestamp fmt value) rest
    else insert_field key value rest

-- The loop of `migrate_result_object`, with the map that it builds.
unfoldable pub migrate_fields : TimeFormat → Fields → Fields → Fields
migrate_fields fmt migrated end = migrated
migrate_fields fmt migrated (field key value fs) =
    migrate_fields fmt (migrate_entry fmt key value migrated) fs

unfoldable pub migrate_items : TimeFormat → Items → Items
migrate_items fmt nil = nil
migrate_items fmt (cons (obj fs) vs) = cons (obj (migrate_fields fmt end fs)) (migrate_items fmt vs)
migrate_items fmt (cons v vs) = cons v (migrate_items fmt vs)

-- The branches on `response.get("results").and_then(as_array)`.
unfoldable pub migrate_results : TimeFormat → Fields → Option Json → Json
migrate_results fmt fs (some (arr vs)) =
    obj (insert_field "results" (arr (migrate_items fmt vs)) fs)
migrate_results fmt fs _ = obj fs

unfoldable pub migrate_stored_push_response : TimeFormat → Json → Json
unfolding migrate_results
migrate_stored_push_response fmt (obj fs) = migrate_results fmt fs (get_field "results" fs)
migrate_stored_push_response fmt v = v
