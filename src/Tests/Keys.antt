-- ===== src/Tests/Keys.antt =====
-- The keys of objects, with UUIDs written in unary.
use tasktips_cloud.Base.{ℕ, zero, suc, ◌≡◌, refl, ap, String, some}
use tasktips_cloud.ObjectKeys.{UuidFormat, payload_key, parse_payload_key, split, parse_parts}
use tasktips_cloud.ObjectKeys.RoundTrip.{has_no_slash, IsPart, parse_payload_key-payload_key}

run : Unit {0}
unfolding payload_key parse_payload_key split parse_parts has_no_slash
run = tt

abbrev pub unary : ℕ → String
unary zero = ""
unary (suc n) = String.◌∷◌ "1" (unary n)

abbrev ones : String → ℕ
ones String.[] = 0
ones (String.◌∷◌ c s) = suc (ones s)

abbrev pub format : UuidFormat
format = record { display = unary; parse = λ s. some (ones s) }

count_unary : (n : ℕ) → ones (unary n) ≡ n
count_unary zero = refl
count_unary (suc n) = ap suc (count_unary n)

unary-IsPart : (n : ℕ) → IsPart (unary n)
unfolding has_no_slash
unary-IsPart zero = refl
unary-IsPart (suc n) = unary-IsPart n

abbrev pub hash : String
hash = "abcdef0123456789abcdef0123456789abcdef0123456789abcdef0123456789"

key_run :
    payload_key format 1 2 hash
    ≡ "users/1/projects/11/payloads/sha256/ab/abcdef0123456789abcdef0123456789abcdef0123456789abcdef0123456789"
unfolding run
key_run = refl

parse_payload_key-payload_key_example :
    parse_payload_key format (payload_key format 1 2 hash) ≡ some (1, 2, hash)
unfolding run
parse_payload_key-payload_key_example =
    parse_payload_key-payload_key format 1 2 "ab"
      "cdef0123456789abcdef0123456789abcdef0123456789abcdef0123456789"
      (λ n. ap some (count_unary n)) unary-IsPart refl refl refl refl
