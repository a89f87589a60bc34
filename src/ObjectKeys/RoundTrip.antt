-- ===== src/ObjectKeys/RoundTrip.antt =====
-- Reading the key of a payload gives back what it was made from.
use Prim.Native.String.{len, ◌++◌ as followed_by}
use text.Mathlib.Text.{get?}
use text.Mathlib.TextLemmas.{nil-append, cons-append, append-nil, append_assoc as followed_by_assoc}
use text.Mathlib.TextPositions.{get?-append_middle}
use tasktips_cloud.Base.{
  ℕ, subst, ◌+◌, ◌≡◌, refl, sym, ap, ◌∙◌, Bool, true, false, not, ◌&&◌, String, some, List, [], ◌∷◌,
  arith, unwrap_or, All, concat,
}
use tasktips_cloud.ObjectKeys.{
  UuidFormat, shard, payload_key, is_slash, split, parse_parts, parse_payload_key,
}

unfoldable pub has_no_slash : String → Bool
has_no_slash String.[] = true
has_no_slash (String.◌∷◌ c s) = not (is_slash c) && has_no_slash s

abbrev pub IsPart : String → Type 0
IsPart s = has_no_slash s ≡ true

parts_of : (a b : Bool) → (not a && b) ≡ true → (a ≡ false) × (b ≡ true)
parts_of a b h = (ground arith, ground arith)

part-split :
    (s rest : String) → IsPart s → split (followed_by s (followed_by "/" rest)) ≡ s ∷ split rest
unfolding split has_no_slash
part-split String.[] rest h =
    rw (nil-append (followed_by "/" rest), cons-append "/" "" rest, nil-append rest) refl
part-split (String.◌∷◌ c s) rest h =
    let (head, tail) = parts_of (is_slash c) (has_no_slash s) h in
    rw (cons-append c s (followed_by "/" rest), head, part-split s rest tail) refl

part-split_last : (s : String) → IsPart s → split s ≡ s ∷ []
unfolding split has_no_slash
part-split_last String.[] h = refl
part-split_last (String.◌∷◌ c s) h =
    let (head, tail) = parts_of (is_slash c) (has_no_slash s) h in
    rw (head, part-split_last s tail) refl

-- The parts with a slash between them.
abbrev slashed : String → List String → String
slashed s [] = s
slashed s (t ∷ rest) = followed_by s (followed_by "/" (slashed t rest))

split-slashed :
    (s : String) (rest : List String)
    → IsPart s
    → All IsPart rest
    → split (slashed s rest) ≡ s ∷ rest
split-slashed s [] h all = part-split_last s h
split-slashed s (t ∷ rest) h all =
    part-split s (slashed t rest) h ∙ ap (λ r. s ∷ r) (split-slashed t rest all.0 all.1)

projects_slashed :
    (x : String)
    → followed_by "/projects/" x ≡ followed_by "/" (followed_by "projects" (followed_by "/" x))
projects_slashed x =
    followed_by_assoc "/" "projects/" x ∙ ap (followed_by "/") (followed_by_assoc "projects" "/" x)

payloads_slashed :
    (x : String)
    → followed_by "/payloads/sha256/" x
      ≡ followed_by "/"
          (followed_by "payloads" (followed_by "/" (followed_by "sha256" (followed_by "/" x))))
payloads_slashed x =
    followed_by_assoc "/" "payloads/sha256/" x
    ∙ ap (followed_by "/") (
        followed_by_assoc "payloads" "/sha256/" x
        ∙ ap (followed_by "payloads") (
            followed_by_assoc "/" "sha256/" x
            ∙ ap (followed_by "/") (followed_by_assoc "sha256" "/" x)))

payload_key_slashed :
    (o p d h : String)
    → concat ("users/" ∷ o ∷ "/projects/" ∷ p ∷ "/payloads/sha256/" ∷ d ∷ "/" ∷ h ∷ [])
      ≡ slashed "users" (o ∷ "projects" ∷ p ∷ "payloads" ∷ "sha256" ∷ d ∷ h ∷ [])
payload_key_slashed o p d h =
    ap
      (λ x. followed_by "users/" (
        followed_by o (
          followed_by "/projects/"
            (followed_by p (followed_by "/payloads/sha256/" (followed_by d (followed_by "/" x)))))))
      (append-nil h)
    ∙ followed_by_assoc "users" "/" _
    ∙ ap (λ x. followed_by "users" (followed_by "/" (followed_by o x)))
        (projects_slashed _
          ∙ ap (λ x. followed_by "/" (followed_by "projects" (followed_by "/" (followed_by p x))))
              (payloads_slashed (followed_by d (followed_by "/" h))))

shard-two : (first rest : String) → len first ≡ 2 → shard (followed_by first rest) ≡ first
shard-two first rest two =
    let middle = get?-append_middle "" first rest in
    let ends : 2 ≡ len "" + len first = omega (arith, two) in
    let start : get? (followed_by first rest) 0 2 ≡ some first =
      ap (λ t. get? t 0 2) (sym (nil-append (followed_by first rest)))
      ∙ ap (get? (followed_by "" (followed_by first rest)) 0) ends
      ∙ middle in
    ap (λ o. unwrap_or o (followed_by first rest)) start

-- The words of the key have no slash.
users-IsPart : IsPart "users"
unfolding has_no_slash
users-IsPart = refl

projects-IsPart : IsPart "projects"
unfolding has_no_slash
projects-IsPart = refl

payloads-IsPart : IsPart "payloads"
unfolding has_no_slash
payloads-IsPart = refl

sha256-IsPart : IsPart "sha256"
unfolding has_no_slash
sha256-IsPart = refl

-- Parsing the key of a payload gives back the owner, the project and the hash, for a hash of 64
-- bytes without a slash, of which the first two bytes are characters of their own. The crate uuid
-- reads what it has written, and writes no slash.
pub parse_payload_key-payload_key :
    (u : UuidFormat) (owner project : ℕ) (first rest : String)
    → ((n : ℕ) → u.parse (u.display n) ≡ some n)
    → ((n : ℕ) → IsPart (u.display n))
    → IsPart first
    → IsPart (followed_by first rest)
    → len first ≡ 2
    → len (followed_by first rest) ≡ 64
    → parse_payload_key u (payload_key u owner project (followed_by first rest))
      ≡ some (owner, project, followed_by first rest)
unfolding parse_payload_key payload_key parse_parts
parse_payload_key-payload_key u owner project first rest reads writes part whole two long =
    let hash = followed_by first rest in
    let is_shard : shard hash ≡ first = shard-two first rest two in
    let parts =
      ap split (payload_key_slashed (u.display owner) (u.display project) (shard hash) hash)
      ∙ split-slashed "users"
          (u.display owner
            ∷ "projects"
            ∷ u.display project
            ∷ "payloads"
            ∷ "sha256"
            ∷ shard hash
            ∷ hash
            ∷ [])
          users-IsPart
          (
            writes owner,
            (
              projects-IsPart,
              (
                writes project,
                (payloads-IsPart, (sha256-IsPart, (subst IsPart (sym is_shard) part, (whole, tt)))),
              ),
            ),
          ) in
    rw (parts, reads owner, reads project, long) refl
