-- ===== src/Base/Table.antt =====
-- A database table as a list of rows, with what the queries do to it: `SELECT … WHERE` for at most
-- one row, `EXISTS`, `COUNT(*)`, `UPDATE … WHERE`, `DELETE … WHERE` and `ON CONFLICT DO UPDATE`.
pub mod Laws
pub mod Counts
use Prim.Native.Nat.{ℕ, suc, ◌+◌}
use mathlib.Core.Path.{◌≡◌}
use mathlib.Core.Bool.{Bool, true, false, ◌||◌}
use mathlib.Core.Option.{Option, none, some}
use mathlib.Core.List.{List, [], ◌∷◌}
use native.Mathlib.Omega.{arith}
use tasktips_cloud.Base.Tests.{if◌then◌else◌}

module _ {ℓ} {A : Type ℓ} where
  abbrev pub length : List A → ℕ
  length [] = 0
  length (x ∷ xs) = suc (length xs)

module _ {ℓ} {A : Type ℓ} (test : A → Bool) where
  unfoldable pub find_by : List A → Option A
  find_by [] = none
  find_by (x ∷ xs) = if test x then some x else find_by xs

  unfoldable pub any_by : List A → Bool
  any_by [] = false
  any_by (x ∷ xs) = test x || any_by xs

  unfoldable pub count_by : List A → ℕ
  count_by [] = 0
  count_by (x ∷ xs) = (if test x then 1 else 0) + count_by xs

  unfoldable pub delete_where : List A → List A
  delete_where [] = []
  delete_where (x ∷ xs) = if test x then delete_where xs else x ∷ delete_where xs

  unfoldable pub update_where : (A → A) → List A → List A
  update_where f [] = []
  update_where f (x ∷ xs) = (if test x then f x else x) ∷ update_where f xs

-- `INSERT … ON CONFLICT … DO UPDATE`, where `test` finds the row with the key of `row`.
module _ {ℓ} {A : Type ℓ} where
  unfoldable pub upsert : (A → Bool) → (A → A) → A → List A → List A
  upsert test f row xs = if any_by test xs then update_where test f xs else row ∷ xs

  -- A predicate of every row.
  abbrev pub All {κ} : (A → Type κ) → List A → Type κ
  All P [] = Unit
  All P (x ∷ xs) = P x × All P xs

module _ {ℓ κ} {A : Type ℓ} (P : A → Type κ) where
  pub All-find_by :
      (test : A → Bool) (xs : List A) (x : A) → All P xs → find_by test xs ≡ some x → P x
  unfolding find_by
  All-find_by test [] x h e = absurd (cc)
  All-find_by test (y ∷ xs) x h e = ground (arith, All-find_by test xs x h.1)
