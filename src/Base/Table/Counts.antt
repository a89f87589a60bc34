-- ===== src/Base/Table/Counts.antt =====
-- Counts of rows, updates that keep a property of every row, and tests that at most one row passes.
use Prim.Native.Nat.{◌≤◌, ◌<◌}
use mathlib.Core.Path.{◌≡◌, refl, ap}
use mathlib.Core.Logic.{◌⊎◌, inl, inr}
use mathlib.Core.Bool.{Bool, true, false, not, ◌&&◌}
use mathlib.Core.Option.{none, some}
use mathlib.Core.List.{List, [], ◌∷◌}
use native.Mathlib.Omega.{arith}
use tasktips_cloud.Base.Tests.{Bool-cases, Option-cases}
use tasktips_cloud.Base.Table.{All, count_by, find_by, any_by, update_where}
use tasktips_cloud.Base.Table.Laws.{any_by_of_found, any_by_of_missing, count_by-update_where_le}

module _ {ℓ} {A : Type ℓ} where
  module _ (test : A → Bool) where
    none_of_zero :
        (there : A → Bool) (xs : List A)
        → ((y : A) → there y ≡ true → test y ≡ true)
        → count_by test xs ≤ 0
        → any_by there xs ≡ false
    unfolding any_by count_by
    none_of_zero there [] t zero_ = refl
    none_of_zero there (y ∷ xs) t zero_ = ground (arith, t y, none_of_zero there xs t)

    pub count_by-update_where_keep :
        (other : A → Bool) (f : A → A) (xs : List A)
        → ((x : A) → test x ≡ true → other (f x) ≡ true → other x ≡ true)
        → count_by other (update_where test f xs) ≤ count_by other xs
    unfolding count_by update_where
    count_by-update_where_keep other f [] keep = omega arith
    count_by-update_where_keep other f (x ∷ xs) keep =
        ground (arith, keep x, count_by-update_where_keep other f xs keep)

    pub any_by_none : (xs : List A) → ((x : A) → test x ≡ false) → any_by test xs ≡ false
    unfolding any_by
    any_by_none [] h = refl
    any_by_none (x ∷ xs) h = ground (arith, h x, any_by_none xs h)

    pub find_by_of_none : (xs : List A) → any_by test xs ≡ false → find_by test xs ≡ none
    unfolding find_by any_by
    find_by_of_none [] e = refl
    find_by_of_none (x ∷ xs) e = ground (arith, find_by_of_none xs)

    pub All-update_where {κ} :
        (P : A → Type κ) (f : A → A) (xs : List A)
        → ((x : A) → test x ≡ true → P x → P (f x))
        → All P xs
        → All P (update_where test f xs)
    unfolding update_where
    All-update_where P f [] keep all = tt
    All-update_where P f (x ∷ xs) keep all = elim (Bool-cases (test x)) [
      | inl yes_ ↦ rw yes_ (keep x yes_ all.0, All-update_where P f xs keep all.1)
      | inr no_ ↦ rw no_ (all.0, All-update_where P f xs keep all.1)
    ]

  module _ (test : A → Bool) where
    -- Where at most one row passes a test, a second query inside it that excludes the first finds none.
    pub any_by_apart :
        (here there : A → Bool) (xs : List A) (x : A)
        → count_by test xs ≤ 1
        → ((y : A) → here y ≡ true → test y ≡ true)
        → ((y : A) → there y ≡ true → test y ≡ true)
        → ((y : A) → here y ≡ true → there y ≡ false)
        → find_by here xs ≡ some x
        → any_by there xs ≡ false
    unfolding find_by any_by count_by
    any_by_apart here there [] x one h t apart found = refl
    any_by_apart here there (y ∷ xs) x one h t apart found = ground (
      arith,
      h y,
      t y,
      apart y,
      any_by_apart here there xs x,
      none_of_zero test there xs,
      none_of_zero test here xs,
      any_by_of_found here xs x,
    )

    pub any_by_apart_of_any :
        (here there : A → Bool) (xs : List A)
        → count_by test xs ≤ 1
        → ((y : A) → here y ≡ true → test y ≡ true)
        → ((y : A) → there y ≡ true → test y ≡ true)
        → ((y : A) → here y ≡ true → there y ≡ false)
        → any_by here xs ≡ true
        → any_by there xs ≡ false
    any_by_apart_of_any here there xs one h t apart some_here =
        elim (Option-cases (find_by here xs)) [
          | inl missing ↦ absurd (cc (any_by_of_missing here xs missing))
          | inr (x, found) ↦ any_by_apart here there xs x one h t apart found
        ]

    -- Two tests that agree on every row update the same rows.
    pub update_where_agree :
        (other : A → Bool) (f : A → A) (xs : List A)
        → any_by (λ x. test x && not (other x)) xs ≡ false
        → update_where test f xs ≡ update_where (λ x. test x && other x) f xs
    unfolding any_by update_where
    update_where_agree other f [] e = refl
    update_where_agree other f (x ∷ xs) e = ground (arith, update_where_agree other f xs)

    -- An update that takes the rows that it reaches out of a query which has no others.
    pub any_by-update_where_rest :
        (other : A → Bool) (f : A → A) (xs : List A)
        → ((x : A) → other (f x) ≡ false)
        → any_by (λ x. other x && not (test x)) xs ≡ false
        → any_by other (update_where test f xs) ≡ false
    unfolding any_by update_where
    any_by-update_where_rest other f [] out e = refl
    any_by-update_where_rest other f (x ∷ xs) out e =
        ground (arith, out x, any_by-update_where_rest other f xs out)

    -- Where at most one row passes a test, a narrower query finds that row or none.
    pub unique_found :
        (other : A → Bool) (xs : List A) (x y : A)
        → count_by test xs ≤ 1
        → find_by test xs ≡ some x
        → find_by (λ z. test z && other z) xs ≡ some y
        → x ≡ y
    unfolding count_by find_by
    unique_found other [] x y one found narrow = absurd (cc)
    unique_found other (z ∷ zs) x y one found narrow = ground (
      arith,
      unique_found other zs x y,
      none_of_zero test (λ w. test w && other w) zs (λ w h. ground arith),
      any_by_of_found (λ w. test w && other w) zs y,
    )

    -- An update that does not concern a test.
    pub any_by-update_where_same :
        (other : A → Bool) (f : A → A) (xs : List A)
        → ((x : A) → other (f x) ≡ other x)
        → any_by other (update_where test f xs) ≡ any_by other xs
    unfolding any_by update_where
    any_by-update_where_same other f [] keep = refl
    any_by-update_where_same other f (x ∷ xs) keep =
        ground (arith, keep x, any_by-update_where_same other f xs keep)

    pub any_by_wider :
        (wide : A → Bool) (xs : List A)
        → ((x : A) → test x ≡ true → wide x ≡ true)
        → any_by test xs ≡ true
        → any_by wide xs ≡ true
    unfolding any_by
    any_by_wider wide [] h e = e
    any_by_wider wide (x ∷ xs) h e = ground (arith, h x, any_by_wider wide xs h)

    All_vacuous {κ} :
        (P : A → Type κ) (xs : List A) → count_by test xs ≤ 0 → All (λ y. test y ≡ true → P y) xs
    unfolding count_by
    All_vacuous P [] none_ = tt
    All_vacuous P (y ∷ ys) none_ = (λ here. absurd (ground arith), All_vacuous P ys (ground arith))

    -- Where at most one row passes a test, a narrower query finds it if it finds any.
    pub All_unique :
        (narrow : A → Bool) (xs : List A) (x : A)
        → count_by test xs ≤ 1
        → ((y : A) → narrow y ≡ true → test y ≡ true)
        → find_by narrow xs ≡ some x
        → All (λ y. test y ≡ true → y ≡ x) xs
    unfolding count_by find_by
    All_unique narrow [] x one inside found = absurd (cc)
    All_unique narrow (y ∷ ys) x one inside found = elim (Bool-cases (narrow y)) [
      | inl here ↦ (λ t. ground arith, All_vacuous (λ z. z ≡ x) ys (ground (arith, inside y here)))
      | inr there ↦ (
        λ t.
            absurd
              (ground (arith, none_of_zero test narrow ys inside, any_by_of_found narrow ys x)),
        All_unique narrow ys x (ground arith) inside (ground arith),
      )
    ]

    -- An update that brings no row of the table into a count.
    pub count_by-update_where_all :
        (other : A → Bool) (f : A → A) (xs : List A)
        → All (λ x. test x ≡ true → other (f x) ≡ true → other x ≡ true) xs
        → count_by other (update_where test f xs) ≤ count_by other xs
    unfolding count_by update_where
    count_by-update_where_all other f [] keep = omega arith
    count_by-update_where_all other f (x ∷ xs) keep =
        let head = keep.0 in ground (arith, head, count_by-update_where_all other f xs keep.1)

    -- An update that takes all its rows out of a count takes out the row that a narrower query finds.
    pub count_by-update_where_found :
        (narrow other : A → Bool) (f : A → A) (xs : List A) (x : A)
        → ((y : A) → narrow y ≡ true → test y ≡ true)
        → ((y : A) → test y ≡ true → other (f y) ≡ false)
        → find_by narrow xs ≡ some x
        → other x ≡ true
        → count_by other (update_where test f xs) < count_by other xs
    unfolding count_by update_where find_by
    count_by-update_where_found narrow other f [] x inside out found counted = absurd (cc)
    count_by-update_where_found narrow other f (y ∷ xs) x inside out found counted = ground (
      arith,
      inside y,
      out y,
      count_by-update_where_le test other f xs out,
      count_by-update_where_found narrow other f xs x inside out,
    )

module _ {A : Type 0} where
  -- A row of a table.
  abbrev pub Within : A → List A → Type 0
  Within x [] = ⊥
  Within x (y ∷ ys) = (y ≡ x) ⊎ Within x ys

  module _ (test : A → Bool) where
    counted-Within : (x : A) (xs : List A) → test x ≡ true → Within x xs → 1 ≤ count_by test xs
    unfolding count_by
    counted-Within x [] t w = absurd w
    counted-Within x (y ∷ ys) t (inl here) = ground (arith, ap test here)
    counted-Within x (y ∷ ys) t (inr there) = ground (arith, counted-Within x ys t there)

    pub All-Within :
        (x : A) (xs : List A)
        → count_by test xs ≤ 1
        → test x ≡ true
        → Within x xs
        → All (λ y. test y ≡ true → y ≡ x) xs
    unfolding count_by
    All-Within x [] one t w = absurd w
    All-Within x (y ∷ ys) one t (inl here) =
        (λ t'. here, All_vacuous test (λ z. z ≡ x) ys (ground (arith, ap test here)))
    All-Within x (y ∷ ys) one t (inr there) =
        let inside = counted-Within x ys t there in
        (λ t'. absurd (ground arith), All-Within x ys (ground arith) t there)
