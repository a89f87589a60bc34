-- ===== src/Catalog/Ordered.antt =====
-- `ORDER BY` keeps the rows.
use tasktips_cloud.Base.{
  suc, ◌≡◌, refl, ap, ◌∙◌, inl, inr, Bool, Bool-cases, List, [], ◌∷◌, arith, any_by, length,
}
use tasktips_cloud.Catalog.{insert_by, order_by}

module _ {ℓ} {A : Type ℓ} (before : A → A → Bool) where
  length-insert_by : (x : A) (xs : List A) → length (insert_by before x xs) ≡ suc (length xs)
  unfolding insert_by
  length-insert_by x [] = refl
  length-insert_by x (y ∷ ys) = elim (Bool-cases (before x y)) [
    | inl first ↦ rw first refl
    | inr later ↦ rw later (ap (λ n. suc n) (length-insert_by x ys))
  ]

  pub length-order_by : (xs : List A) → length (order_by before xs) ≡ length xs
  unfolding order_by
  length-order_by [] = refl
  length-order_by (x ∷ xs) =
      length-insert_by x (order_by before xs) ∙ ap (λ n. suc n) (length-order_by xs)

  any_by-insert_by :
      (test : A → Bool) (x : A) (xs : List A)
      → any_by test (insert_by before x xs) ≡ any_by test (x ∷ xs)
  unfolding insert_by any_by
  any_by-insert_by test x [] = refl
  any_by-insert_by test x (y ∷ ys) = ground (arith, any_by-insert_by test x ys)

  pub any_by-order_by :
      (test : A → Bool) (xs : List A) → any_by test (order_by before xs) ≡ any_by test xs
  unfolding order_by any_by
  any_by-order_by test [] = refl
  any_by-order_by test (x ∷ xs) =
      any_by-insert_by test x (order_by before xs) ∙ ground (arith, any_by-order_by test xs)
