-- ===== src/Base/Table/Laws.antt =====
-- What an update or an upsert does to the row that a query finds.
use mathlib.Core.Path.{◌≡◌, refl}
use mathlib.Core.Logic.{inl, inr}
use mathlib.Core.Bool.{Bool, true, false}
use mathlib.Core.Option.{Option, none, some}
use mathlib.Core.List.{List, [], ◌∷◌}
use native.Mathlib.Omega.{arith}
use tasktips_cloud.Base.Tests.{Option-cases, if◌then◌else◌}
use Prim.Native.Nat.{◌≤◌, ◌<◌}
use tasktips_cloud.Base.Table.{count_by, find_by, any_by, update_where, delete_where, upsert}

module _ {ℓ} {A : Type ℓ} where
  abbrev pub map_found : (A → A) → Option A → Option A
  map_found f none = none
  map_found f (some x) = some (f x)

  -- The row that an upsert leaves.
  abbrev pub upserted : (A → A) → A → Option A → A
  upserted f row none = row
  upserted f row (some x) = f x

  module _ (test : A → Bool) where
    pub find_by-test : (xs : List A) (x : A) → find_by test xs ≡ some x → test x ≡ true
    unfolding find_by
    find_by-test [] x e = absurd (cc)
    find_by-test (y ∷ xs) x e = ground (arith, find_by-test xs x)

    pub any_by_of_found : (xs : List A) (x : A) → find_by test xs ≡ some x → any_by test xs ≡ true
    unfolding find_by any_by
    any_by_of_found [] x e = absurd (cc)
    any_by_of_found (y ∷ xs) x e = ground (arith, any_by_of_found xs x)

    pub any_by_of_missing : (xs : List A) → find_by test xs ≡ none → any_by test xs ≡ false
    unfolding find_by any_by
    any_by_of_missing [] e = refl
    any_by_of_missing (y ∷ xs) e = ground (arith, any_by_of_missing xs)

    -- The updated rows still pass the test that found them.
    pub find_by-update_where_self :
        (f : A → A) (xs : List A)
        → ((x : A) → test x ≡ true → test (f x) ≡ true)
        → find_by test (update_where test f xs) ≡ map_found f (find_by test xs)
    unfolding find_by update_where
    find_by-update_where_self f [] keep = refl
    find_by-update_where_self f (x ∷ xs) keep =
        ground (arith, keep x, find_by-update_where_self f xs keep)

    pub find_by-upsert_self :
        (f : A → A) (row : A) (xs : List A)
        → ((x : A) → test x ≡ true → test (f x) ≡ true)
        → test row ≡ true
        → find_by test (upsert test f row xs) ≡ some (upserted f row (find_by test xs))
    unfolding upsert find_by
    find_by-upsert_self f row xs keep here = elim (Option-cases (find_by test xs)) [
      | inl missing ↦ ground (arith, any_by_of_missing xs)
      | inr (x, found) ↦ ground (arith, any_by_of_found xs x, find_by-update_where_self f xs keep)
    ]

    -- A query for other rows does not see the update.
    pub find_by-update_where_other :
        (other : A → Bool) (f : A → A) (xs : List A)
        → ((x : A) → test x ≡ true → other (f x) ≡ other x)
        → ((x : A) → test x ≡ true → other x ≡ false)
        → find_by other (update_where test f xs) ≡ find_by other xs
    unfolding find_by update_where
    find_by-update_where_other other f [] same apart = refl
    find_by-update_where_other other f (x ∷ xs) same apart =
        ground (arith, same x, apart x, find_by-update_where_other other f xs same apart)

    pub find_by-upsert_other :
        (other : A → Bool) (f : A → A) (row : A) (xs : List A)
        → ((x : A) → test x ≡ true → other (f x) ≡ other x)
        → ((x : A) → test x ≡ true → other x ≡ false)
        → other row ≡ false
        → find_by other (upsert test f row xs) ≡ find_by other xs
    unfolding find_by upsert
    find_by-upsert_other other f row xs same apart out =
        ground (arith, find_by-update_where_other other f xs same apart)

    -- Where no row passes the test, none passes a narrower one, and a deletion deletes none.
    pub any_by_narrower :
        (narrow : A → Bool) (xs : List A)
        → ((x : A) → narrow x ≡ true → test x ≡ true)
        → any_by test xs ≡ false
        → any_by narrow xs ≡ false
    unfolding any_by
    any_by_narrower narrow [] h e = refl
    any_by_narrower narrow (x ∷ xs) h e = ground (arith, h x, any_by_narrower narrow xs h)

    pub delete_where_none : (xs : List A) → any_by test xs ≡ false → delete_where test xs ≡ xs
    unfolding delete_where any_by
    delete_where_none [] e = refl
    delete_where_none (x ∷ xs) e = ground (arith, delete_where_none xs)

    -- Rows that an update takes out of a count.
    pub count_by-update_where_le :
        (other : A → Bool) (f : A → A) (xs : List A)
        → ((x : A) → test x ≡ true → other (f x) ≡ false)
        → count_by other (update_where test f xs) ≤ count_by other xs
    unfolding count_by update_where
    count_by-update_where_le other f [] out = omega arith
    count_by-update_where_le other f (x ∷ xs) out =
        ground (arith, out x, count_by-update_where_le other f xs out)

    pub count_by-update_where_lt :
        (other : A → Bool) (f : A → A) (xs : List A) (x : A)
        → ((y : A) → test y ≡ true → other (f y) ≡ false)
        → find_by test xs ≡ some x
        → other x ≡ true
        → count_by other (update_where test f xs) < count_by other xs
    unfolding count_by update_where find_by
    count_by-update_where_lt other f [] x out found counted = absurd (cc)
    count_by-update_where_lt other f (y ∷ xs) x out found counted = ground (
      arith,
      out y,
      count_by-update_where_le other f xs out,
      count_by-update_where_lt other f xs x out,
    )

    -- A narrower test counts no more.
    pub count_by_narrower :
        (narrow : A → Bool) (xs : List A)
        → ((x : A) → narrow x ≡ true → test x ≡ true)
        → count_by narrow xs ≤ count_by test xs
    unfolding count_by
    count_by_narrower narrow [] h = omega arith
    count_by_narrower narrow (x ∷ xs) h = ground (arith, h x, count_by_narrower narrow xs h)

    pub count_by_none : (xs : List A) → any_by test xs ≡ false → count_by test xs ≡ 0
    unfolding count_by any_by
    count_by_none [] e = refl
    count_by_none (x ∷ xs) e = ground (arith, count_by_none xs)

    -- An update that brings no row into a query.
    pub any_by-update_where_outside :
        (other : A → Bool) (f : A → A) (xs : List A)
        → ((x : A) → other x ≡ false → other (f x) ≡ false)
        → any_by other xs ≡ false
        → any_by other (update_where test f xs) ≡ false
    unfolding any_by update_where
    any_by-update_where_outside other f [] keep e = refl
    any_by-update_where_outside other f (x ∷ xs) keep e =
        ground (arith, keep x, any_by-update_where_outside other f xs keep)

    -- An update that takes every row out of a query.
    pub any_by-update_where_out :
        (other : A → Bool) (f : A → A) (xs : List A)
        → ((x : A) → other x ≡ true → test x ≡ true)
        → ((x : A) → other (f x) ≡ false)
        → any_by other (update_where test f xs) ≡ false
    unfolding any_by update_where
    any_by-update_where_out other f [] covers out = refl
    any_by-update_where_out other f (x ∷ xs) covers out =
        ground (arith, covers x, out x, any_by-update_where_out other f xs covers out)

    pub any_by_outside :
        (other : A → Bool) (xs : List A) (x : A)
        → find_by test xs ≡ some x
        → any_by other xs ≡ false
        → other x ≡ false
    unfolding any_by find_by
    any_by_outside other [] x found e = absurd (cc)
    any_by_outside other (y ∷ xs) x found e = ground (arith, any_by_outside other xs x)

    pub update_where_none :
        (f : A → A) (xs : List A) → any_by test xs ≡ false → update_where test f xs ≡ xs
    unfolding update_where any_by
    update_where_none f [] e = refl
    update_where_none f (x ∷ xs) e = ground (arith, update_where_none f xs)

    -- A query that the update does not concern finds the row as the update leaves it.
    pub find_by-update_where_keep :
        (other : A → Bool) (f : A → A) (xs : List A) (x : A)
        → ((y : A) → other (f y) ≡ other y)
        → find_by other xs ≡ some x
        → find_by other (update_where test f xs) ≡ some (if test x then f x else x)
    unfolding find_by update_where
    find_by-update_where_keep other f [] x same found = absurd (cc)
    find_by-update_where_keep other f (y ∷ xs) x same found =
        ground (arith, same y, find_by-update_where_keep other f xs x same)
