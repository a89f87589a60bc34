-- ===== src/Base/Text.antt =====
-- Texts by their code points, as Rust's `str` methods read them.
use Prim.Native.Char.{code}
use Prim.Native.Nat.{ℕ, ◌+◌}
use Prim.Native.String.{String, ◌++◌ as followed_by}
use mathlib.Core.Bool.{Bool, true, false, ◌&&◌, ◌||◌}
use mathlib.Core.List.{List, [], ◌∷◌, reverse, map}
use tasktips_cloud.Base.Tests.{◌==◌, leb, if◌then◌else◌}

abbrev pub code_points : String → List ℕ
code_points String.[] = []
code_points (String.◌∷◌ c rest) = code c ∷ code_points rest

unfoldable pub codes_eq : List ℕ → List ℕ → Bool
codes_eq [] [] = true
codes_eq (a ∷ s) (b ∷ t) = a == b && codes_eq s t
codes_eq _ _ = false

-- `starts_with`
unfoldable pub has_prefix : List ℕ → List ℕ → Bool
has_prefix s [] = true
has_prefix [] (b ∷ t) = false
has_prefix (a ∷ s) (b ∷ t) = a == b && has_prefix s t

-- `char::is_whitespace`: the code points with the property White_Space.
unfoldable pub is_whitespace : ℕ → Bool
is_whitespace c =
    (leb 9 c && leb c 13)
    || c == 32
    || c == 133
    || c == 160
    || c == 5760
    || (leb 8192 c && leb c 8202)
    || c == 8232
    || c == 8233
    || c == 8239
    || c == 8287
    || c == 12288

-- `trim_start`
unfoldable pub trim_start : List ℕ → List ℕ
trim_start [] = []
trim_start (c ∷ s) = if is_whitespace c then trim_start s else c ∷ s

-- `trim`
unfoldable pub trim : List ℕ → List ℕ
unfolding trim_start is_whitespace
trim s = reverse (trim_start (reverse (trim_start s)))

-- `to_ascii_lowercase`
unfoldable pub to_ascii_lowercase : List ℕ → List ℕ
to_ascii_lowercase = map (λ c. if leb b'A' c && leb c b'Z' then c + 32 else c)

-- `split(separator).next()`
unfoldable pub before : ℕ → List ℕ → List ℕ
before separator [] = []
before separator (c ∷ s) = if c == separator then [] else c ∷ before separator s

-- `format!`, of texts only.
abbrev pub concat : List String → String
concat [] = ""
concat (s ∷ rest) = followed_by s (concat rest)
