-- ===== src/ObjectKeys.antt =====
-- The keys of the objects in crates/object-store/src/lib.rs. The crate uuid writes and reads the
-- identifiers.
pub mod RoundTrip
use Prim.Native.Char.{Char, code}
use Prim.Native.String.{len}
use text.Mathlib.Text.{get?}
use tasktips_cloud.Base.{
  ℕ, Bool, true, false, String, Option, none, some, List, [], ◌∷◌, ◌==◌, str_eq, unwrap_or, concat,
  if◌then◌else◌,
}

-- `Display` and `Uuid::parse_str`.
pub record UuidFormat : Type 0 where
  pub display : ℕ → String
  pub parse : String → Option ℕ

-- `content_hash.get(..2).unwrap_or(content_hash)`
abbrev pub shard : String → String
shard hash = unwrap_or (get? hash 0 2) hash

unfoldable pub payload_key : UuidFormat → ℕ → ℕ → String → String
payload_key u owner project hash = concat (
    "users/"
    ∷ u.display owner
    ∷ "/projects/"
    ∷ u.display project
    ∷ "/payloads/sha256/"
    ∷ shard hash
    ∷ "/"
    ∷ hash
    ∷ [])

unfoldable pub manifest_key : UuidFormat → ℕ → ℕ → ℕ → String
manifest_key u owner project snapshot = concat (
    "users/"
    ∷ u.display owner
    ∷ "/projects/"
    ∷ u.display project
    ∷ "/snapshots/"
    ∷ u.display snapshot
    ∷ "/manifest.json"
    ∷ [])

unfoldable pub bootstrap_manifest_key : UuidFormat → ℕ → ℕ → ℕ → String
bootstrap_manifest_key u owner project manifest = concat (
    "users/"
    ∷ u.display owner
    ∷ "/projects/"
    ∷ u.display project
    ∷ "/bootstrap/"
    ∷ u.display manifest
    ∷ ".json"
    ∷ [])

unfoldable pub export_key : UuidFormat → ℕ → ℕ → String
export_key u owner export =
    concat ("users/" ∷ u.display owner ∷ "/exports/" ∷ u.display export ∷ ".tar.zst" ∷ [])

abbrev pub is_slash : Char → Bool
is_slash c = code c == 47

abbrev pub onto_first : Char → List String → List String
onto_first c [] = String.◌∷◌ c "" ∷ []
onto_first c (s ∷ rest) = String.◌∷◌ c s ∷ rest

-- `key.split('/')`
unfoldable pub split : String → List String
split String.[] = "" ∷ []
split (String.◌∷◌ c s) = let rest = split s in if is_slash c then "" ∷ rest else onto_first c rest

-- The `?` on an option.
infixl 5 ◌>>=◌
abbrev pub ◌>>=◌ {ℓ κ} : {X : Type ℓ} {Y : Type κ} → Option X → (X → Option Y) → Option Y
none >>= next = none
some x >>= next = next x

abbrev pub expect : String → String → Option (Unit {0})
expect wanted part = if str_eq part wanted then some tt else none

-- `content_hash.len() != 64` counts bytes.
abbrev pub hash_of : String → Option String
hash_of hash = if len hash == 64 then some hash else none

-- The parts that `split` yields, up to the `is_some()` behind the last one.
unfoldable pub parse_parts : UuidFormat → List String → Option (ℕ × ℕ × String)
parse_parts u (users ∷ owner ∷ projects ∷ project ∷ payloads ∷ sha ∷ shard_ ∷ hash ∷ []) = do
  is_users ← expect "users" users
  owner_id ← u.parse owner
  is_projects ← expect "projects" projects
  project_id ← u.parse project
  is_payloads ← expect "payloads" payloads
  is_sha ← expect "sha256" sha
  content_hash ← hash_of hash
  some (owner_id, project_id, content_hash)
parse_parts u _ = none

unfoldable pub parse_payload_key : UuidFormat → String → Option (ℕ × ℕ × String)
unfolding split parse_parts
parse_payload_key u key = parse_parts u (split key)
