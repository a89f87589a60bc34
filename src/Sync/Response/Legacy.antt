-- ===== src/Sync/Response/Legacy.antt =====
-- Responses in the former encoding, with field names in snake case and the default text of an instant
-- of the crate time, and what `migrate_stored_push_response` makes of them.
use Prim.Native.String.{◌++◌ as followed_by}
use Prim.Native.Char.{Char, code}
use tasktips_cloud.Base.{
  ℕ, ◌≡◌, Bool, true, false, not, ◌&&◌, String, Option, none, some, List, [], ◌∷◌, ◌==◌,
  if◌then◌else◌,
}
use tasktips_cloud.Domain.{kind_str}
use tasktips_cloud.Json.{
  Json, num, str, arr, obj, Items, nil, cons, Fields, field, fields, object, opt_num,
}
use tasktips_cloud.Sync.Response.{
  TimeFormat, PushItemResult, applied, conflict, rejected, details_field,
}

unfoldable pub has_no_space : String → Bool
has_no_space String.[] = true
has_no_space (String.◌∷◌ c s) = not (code c == b' ') && has_no_space s

-- The crate time: the date and the time of day, as its texts of an instant in UTC have them.
pub record LegacyTime (fmt : TimeFormat) : Type 0 where
  pub date : ℕ → String
  pub clock : ℕ → String
  pub unspaced : (t : ℕ) → has_no_space (date t) ≡ true
  pub present :
      (t : ℕ) → fmt.format t ≡ followed_by (date t) (followed_by "T" (followed_by (clock t) "Z"))
  pub unreadable :
      (t : ℕ)
      → fmt.parses (followed_by (followed_by (date t) (followed_by " " (clock t))) " +00:00:00")
        ≡ false

abbrev pub legacy_text : {fmt : TimeFormat} → LegacyTime fmt → ℕ → String
legacy_text l t = followed_by (followed_by (l.date t) (followed_by " " (l.clock t))) " +00:00:00"

-- The former `Serialize`, of the present results.
unfoldable pub legacy_fields : {fmt : TimeFormat} → LegacyTime fmt → PushItemResult → Fields
legacy_fields l (applied kind id revision change_sequence changed_at) = fields (
    ("status", str "applied")
    ∷ ("kind", str (kind_str kind))
    ∷ ("id", str id)
    ∷ ("revision", num revision)
    ∷ ("change_sequence", num change_sequence)
    ∷ ("changed_at", str (legacy_text l changed_at))
    ∷ [])
legacy_fields l (conflict kind id expected actual) = fields (
    ("status", str "conflict")
    ∷ ("kind", str (kind_str kind))
    ∷ ("id", str id)
    ∷ ("expected_revision", opt_num expected)
    ∷ ("actual_revision", opt_num actual)
    ∷ [])
legacy_fields l (rejected kind id code message details) = field "status" (str "rejected") (
    field "kind" (str (kind_str kind)) (
      field "id" (str id)
        (field "code" (str code) (field "message" (str message) (details_field details)))))

unfoldable pub legacy_items : {fmt : TimeFormat} → LegacyTime fmt → List PushItemResult → Items
unfolding legacy_fields
legacy_items l [] = nil
legacy_items l (r ∷ rs) = cons (obj (legacy_fields l r)) (legacy_items l rs)

unfoldable pub legacy_json : {fmt : TimeFormat} → LegacyTime fmt → ℕ → List PushItemResult → Json
unfolding legacy_items
legacy_json l generation results =
    object (("generation", num generation) ∷ ("results", arr (legacy_items l results)) ∷ [])

-- The clause of `rsplit_space` for a text that is not empty.
abbrev behind : Char → String → Option (String × String) → Option (String × String)
behind c s (some (a, b)) = some (String.◌∷◌ c a, b)
behind c s none = if code c == b' ' then some ("", s) else none
