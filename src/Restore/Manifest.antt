-- ===== src/Restore/Manifest.antt =====
-- The manifest of a project: the rows of its heads, their JSON, and the items read back.
use tasktips_cloud.Base.{
  ℕ, Bool, true, false, not, ◌&&◌, String, Option, none, some, List, [], ◌∷◌, ◌==◌, leb, ltb,
  str_eq, opt_eq, if◌then◌else◌, find_by, any_by,
}
use tasktips_cloud.Domain.{kind_str}
use tasktips_cloud.Json.{
  Json, Items, Fields, nil, cons, end, field, null, bool, num, str, arr, obj, object, opt_num,
}
use tasktips_cloud.Store.Errors.{invalid_payload, Result, ok, err, ◌>>=◌}
use tasktips_cloud.Store.Schema.{Db, Revision, Head, Change}
use tasktips_cloud.Sync.Item.{i64_max}

-- `ManifestRow`
pub record ManifestRow : Type 0 where
  pub kind : String
  pub id : String
  pub schema_version : Option ℕ
  pub revision : ℕ
  pub base_revision : Option ℕ
  pub content_hash : Option String
  pub changed_at : ℕ
  pub device : ℕ
  pub tombstone : Bool
  pub change_sequence : ℕ

-- `ManifestItem`
pub record ManifestItem : Type 0 where
  pub kind : String
  pub id : String
  pub schema_version : Option ℕ
  pub revision : ℕ
  pub content_hash : Option String
  pub device : ℕ
  pub tombstone : Bool

abbrev pub opt_str : Option String → Json
opt_str none = null
opt_str (some s) = str s

-- `instant` is the JSON of an `OffsetDateTime`.
unfoldable pub manifest_item_json : (ℕ → Json) → ManifestRow → Json
manifest_item_json instant row = object (
    ("kind", str row.kind)
    ∷ ("id", str row.id)
    ∷ ("schemaVersion", opt_num row.schema_version)
    ∷ ("revision", num row.revision)
    ∷ ("baseRevision", opt_num row.base_revision)
    ∷ ("contentHash", opt_str row.content_hash)
    ∷ ("changedAt", instant row.changed_at)
    ∷ ("deviceId", num row.device)
    ∷ ("tombstone", bool row.tombstone)
    ∷ ("changeSequence", num row.change_sequence)
    ∷ [])

unfoldable pub manifest_item_from_row : ManifestRow → ManifestItem
manifest_item_from_row row = record {
  kind = row.kind;
  id = row.id;
  schema_version = row.schema_version;
  revision = row.revision;
  content_hash = row.content_hash;
  device = row.device;
  tombstone = row.tombstone;
}

-- The field of an object, `None` when it is missing.
unfoldable pub lookup : String → Fields → Option Json
lookup key end = none
lookup key (field k v rest) = if str_eq k key then some v else lookup key rest

abbrev pub as_str : Option Json → Result String
as_str (some (str s)) = ok s
as_str _ = err invalid_payload

abbrev pub as_bool : Option Json → Result Bool
as_bool (some (bool b)) = ok b
as_bool _ = err invalid_payload

-- A number up to a limit, `i64::MAX` or `i32::MAX`.
abbrev pub as_num : ℕ → Option Json → Result ℕ
as_num limit (some (num n)) = if leb n limit then ok n else err invalid_payload
as_num limit _ = err invalid_payload

abbrev pub as_opt_num : ℕ → Option Json → Result (Option ℕ)
as_opt_num limit none = ok none
as_opt_num limit (some null) = ok none
as_opt_num limit (some (num n)) = if leb n limit then ok (some n) else err invalid_payload
as_opt_num limit _ = err invalid_payload

abbrev pub as_opt_str : Option Json → Result (Option String)
as_opt_str none = ok none
as_opt_str (some null) = ok none
as_opt_str (some (str s)) = ok (some s)
as_opt_str _ = err invalid_payload

-- A UUID is a number, and every number stands for one.
abbrev pub as_uuid : Option Json → Result ℕ
as_uuid (some (num n)) = ok n
as_uuid _ = err invalid_payload

abbrev pub i32_max : ℕ
i32_max = 2147483647

-- The derived `Deserialize` with `rename_all = "camelCase"`, which passes over other fields.
unfoldable pub item_of_fields : Fields → Result ManifestItem
unfolding lookup
item_of_fields fs = do
  kind ← as_str (lookup "kind" fs)
  id ← as_str (lookup "id" fs)
  schema_version ← as_opt_num i32_max (lookup "schemaVersion" fs)
  revision ← as_num i64_max (lookup "revision" fs)
  content_hash ← as_opt_str (lookup "contentHash" fs)
  device ← as_uuid (lookup "deviceId" fs)
  tombstone ← as_bool (lookup "tombstone" fs)
  ok (record {
    kind = kind;
    id = id;
    schema_version = schema_version;
    revision = revision;
    content_hash = content_hash;
    device = device;
    tombstone = tombstone;
  })

abbrev pub item_of_json : Json → Result ManifestItem
item_of_json (obj fs) = item_of_fields fs
item_of_json _ = err invalid_payload

unfoldable pub items_of_json : Items → Result (List ManifestItem)
unfolding item_of_fields
items_of_json nil = ok []
items_of_json (cons v vs) = do item ← item_of_json v; rest ← items_of_json vs; ok (item ∷ rest)

abbrev pub items_of_value : Option Json → Result (List ManifestItem)
items_of_value (some (arr vs)) = items_of_json vs
items_of_value _ = err invalid_payload

-- `manifest.get("items")` of a value that is no object is `None`.
unfoldable pub manifest_items : Json → Result (List ManifestItem)
unfolding items_of_json lookup
manifest_items (obj fs) = items_of_value (lookup "items" fs)
manifest_items _ = err invalid_payload

abbrev bool_eq : Bool → Bool → Bool
bool_eq true b = b
bool_eq false b = not b

abbrev opt_str_eq : Option String → Option String → Bool
opt_str_eq none none = true
opt_str_eq (some a) (some b) = str_eq a b
opt_str_eq _ _ = false

unfoldable pub same_manifest_state : ManifestRow → ManifestItem → Bool
same_manifest_state row item =
    str_eq row.kind item.kind
    && str_eq row.id item.id
    && bool_eq row.tombstone item.tombstone
    && opt_eq row.schema_version item.schema_version
    && opt_str_eq row.content_hash item.content_hash
    && row.revision == item.revision

abbrev pub row_of : Revision → Change → ManifestRow
row_of r c = record {
  kind = kind_str r.kind;
  id = r.object_id;
  schema_version = r.schema_version;
  revision = r.revision;
  base_revision = r.base_revision;
  content_hash = r.content_hash;
  changed_at = r.changed_at;
  device = r.device;
  tombstone = r.tombstone;
  change_sequence = c.sequence;
}

abbrev pub add_row : Option Revision → Option Change → List ManifestRow → List ManifestRow
add_row (some r) (some c) rows = row_of r c ∷ rows
add_row _ _ rows = rows

-- The join of the heads with their revisions and with the changes of the project. A revision has one
-- row in `object_revisions` and at most one in `change_log`.
unfoldable pub head_rows : ℕ → Db → List Head → List ManifestRow
head_rows project db [] = []
head_rows project db (h ∷ hs) =
    let rest = head_rows project db hs in
    if h.project == project
    then add_row (find_by (λ r. r.id == h.revision_id) db.revisions)
        (find_by (λ c. c.revision_id == h.revision_id && c.project == project) db.changes) rest
    else rest

unfoldable pub current_rows : ℕ → Db → List ManifestRow
unfolding head_rows
current_rows project db = head_rows project db db.heads

-- The revisions of the project with the changes up to a sequence.
unfoldable pub logged_rows : ℕ → ℕ → Db → List Change → List ManifestRow
logged_rows project sequence db [] = []
logged_rows project sequence db (c ∷ cs) =
    let rest = logged_rows project sequence db cs in
    if leb c.sequence sequence
    then add_row (find_by (λ r. r.id == c.revision_id && r.project == project) db.revisions)
        (some c) rest
    else rest

abbrev pub same_object : ManifestRow → ManifestRow → Bool
same_object a b = str_eq a.kind b.kind && str_eq a.id b.id

-- `ROW_NUMBER() OVER (PARTITION BY kind, object_id ORDER BY sequence DESC) … WHERE position = 1`
unfoldable pub latest : List ManifestRow → List ManifestRow → List ManifestRow
latest all [] = []
latest all (row ∷ rows) =
    let rest = latest all rows in
    if any_by (λ s. same_object row s && ltb row.change_sequence s.change_sequence) all
    then rest
    else row ∷ rest

unfoldable pub rows_at : ℕ → ℕ → Db → List ManifestRow
unfolding logged_rows latest
rows_at project sequence db =
    let rows = logged_rows project sequence db db.changes in latest rows rows
