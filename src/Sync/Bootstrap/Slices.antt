-- ===== src/Sync/Bootstrap/Slices.antt =====
-- Cutting a list into the page and what is behind it.
use tasktips_cloud.Base.{
  ℕ, zero, suc, ◌+◌, ◌≡◌, refl, sym, ap, ◌∙◌, true, false, List, [], ◌∷◌, ◌++◌, arith, ltb, length,
}
use tasktips_cloud.Sync.Pull.{SyncRecord, take}
use tasktips_cloud.Sync.Bootstrap.{skip}

pub take-skip : (n : ℕ) (xs : List SyncRecord) → take n xs ++ skip n xs ≡ xs
unfolding take skip
take-skip zero xs = refl
take-skip (suc n) [] = refl
take-skip (suc n) (x ∷ xs) = ap (λ ys. x ∷ ys) (take-skip n xs)

pub take-take : (n : ℕ) (xs : List SyncRecord) → take n (take (suc n) xs) ≡ take n xs
unfolding take
take-take zero xs = refl
take-take (suc n) [] = refl
take-take (suc n) (x ∷ xs) = ap (λ ys. x ∷ ys) (take-take n xs)

pub take_all :
    (n : ℕ) (xs : List SyncRecord) → ltb n (length (take (suc n) xs)) ≡ false → take (suc n) xs ≡ xs
unfolding take
take_all n [] e = refl
take_all zero (x ∷ xs) e = absurd (cc)
take_all (suc n) (x ∷ xs) e = ap (λ ys. x ∷ ys) (take_all n xs (ground arith))

pub skip_nil : (n : ℕ) → skip {A = SyncRecord} n [] ≡ []
unfolding skip
skip_nil zero = refl
skip_nil (suc n) = refl

pub skip-skip : (m n : ℕ) (xs : List SyncRecord) → skip (m + n) xs ≡ skip n (skip m xs)
unfolding skip
skip-skip zero n xs = ap (λ k. skip k xs) (omega arith)
skip-skip (suc m) n [] = skip_nil (suc m + n) ∙ sym (skip_nil n)
skip-skip (suc m) n (x ∷ xs) =
    let next : suc m + n ≡ suc (m + n) = omega arith in
    ap (λ k. skip k (x ∷ xs)) next ∙ skip-skip m n xs

pub length-skip :
    (n : ℕ) (xs : List SyncRecord)
    → ltb n (length (take (suc n) xs)) ≡ true
    → length (skip n xs) + n ≡ length xs
unfolding take skip
length-skip zero xs e = omega arith
length-skip (suc n) [] e = ground arith
length-skip (suc n) (x ∷ xs) e = omega (arith, length-skip n xs (ground arith))
