-- ===== src/Routes.antt =====
-- The validation of a push's items in crates/api/src/routes.rs.
pub mod Revisions
use tasktips_cloud.Base.{
  ℕ, ◌+◌, zero, suc, Bool, true, false, not, ◌&&◌, ◌||◌, String, Option, none, some, List, [], ◌∷◌,
  ◌==◌, ltb, leb, str_eq, any_by, code_points, codes_eq, ℤ, pos, negsuc, below, if◌then◌else◌,
}
use tasktips_cloud.Domain.{ObjectKind}
use tasktips_cloud.Sync.Item.{i64_max}

-- The code points whose single byte is one of Crockford's base 32 digits.
unfoldable pub is_crockford : ℕ → Bool
is_crockford c =
    leb b'0' c && leb c b'9'
    || leb b'A' c && leb c b'H'
    || leb b'J' c && leb c b'K'
    || leb b'M' c && leb c b'N'
    || leb b'P' c && leb c b'T'
    || leb b'V' c && leb c b'Z'

-- The number of bytes of a code point in UTF-8, and `str::len`.
abbrev pub utf8_bytes : ℕ → ℕ
utf8_bytes c = if ltb c 128 then 1 else if ltb c 2048 then 2 else if ltb c 65536 then 3 else 4

unfoldable pub str_len : List ℕ → ℕ
str_len [] = 0
str_len (c ∷ cs) = utf8_bytes c + str_len cs

-- A byte below 128 is a code point of its own.
abbrev pub is_path_byte : ℕ → Bool
is_path_byte c = c == b'/' || c == 92 || c == 0

unfoldable pub valid_object_id : ObjectKind → String → Bool
unfolding is_crockford str_len any_by codes_eq
valid_object_id ObjectKind.todo id =
    str_len (code_points id) == 26 && not (any_by (λ c. not (is_crockford c)) (code_points id))
valid_object_id ObjectKind.classification id = str_eq id "classification"
valid_object_id ObjectKind.index id = str_eq id "index"
valid_object_id ObjectKind.image id =
    not (str_len (code_points id) == 0)
    && leb (str_len (code_points id)) 255
    && not (str_eq id ".")
    && not (str_eq id "..")
    && not (any_by is_path_byte (code_points id))

-- `base_revision.unwrap_or(0).checked_add(1)`
abbrev pub expected_revision : Option ℤ → Option ℤ
expected_revision none = some (pos 1)
expected_revision (some (pos n)) = if ltb n i64_max then some (pos (n + 1)) else none
expected_revision (some (negsuc zero)) = some (pos 0)
expected_revision (some (negsuc (suc n))) = some (negsuc n)

abbrev pub int_eq : ℤ → ℤ → Bool
int_eq (pos a) (pos b) = a == b
int_eq (negsuc a) (negsuc b) = a == b
int_eq _ _ = false

abbrev pub is_expected : Option ℤ → ℤ → Bool
is_expected none revision = false
is_expected (some expected) revision = int_eq expected revision

-- `base_revision.is_some_and(|base| base <= 0)`
abbrev pub base_too_low : Option ℤ → Bool
base_too_low none = false
base_too_low (some base) = below base 1

-- The result says whether the fields are valid; the code answers an invalid one with a 400.
unfoldable pub validate_revision_fields : ObjectKind → String → ℤ → Option ℤ → ℕ → ℕ → Bool
unfolding valid_object_id
validate_revision_fields kind id revision base device authenticated_device = not (
    below revision 1
    || base_too_low base
    || not (is_expected (expected_revision base) revision)
    || not (device == authenticated_device)
    || not (valid_object_id kind id))

-- `parse_object_kind`
unfoldable pub parse_object_kind : String → Option ObjectKind
parse_object_kind value =
    if str_eq value "todo"
    then some ObjectKind.todo
    else if str_eq value "classification"
    then some ObjectKind.classification
    else if str_eq value "index"
    then some ObjectKind.index
    else if str_eq value "image"
    then some ObjectKind.image
    else none
