-- ===== src/Store/Transaction.antt =====
-- The transaction around an operation of crates/persistence/src/lib.rs: `?` on an error drops it
-- without a commit.
use tasktips_cloud.Base.{◌≡◌, refl, ◌⊎◌, inl, inr}
use tasktips_cloud.Store.Errors.{PersistenceError, Result, ok, err}
use tasktips_cloud.Store.Schema.{Db}

abbrev pub commit_ok {ℓ} : {A : Type ℓ} → Db → Result (A × Db) → Result A × Db
commit_ok before (ok (value, db)) = (ok value, db)
commit_ok before (err e) = (err e, before)

pub commit_ok-cases {ℓ} :
    {A : Type ℓ} (before : Db) (r : Result (A × Db))
    → ((commit_ok before r).1 ≡ before)
      ⊎ ((a : A) × (db : Db) × (r ≡ ok (a, db)) × ((commit_ok before r).1 ≡ db))
commit_ok-cases before (ok (a, db)) = inr (a, db, refl, refl)
commit_ok-cases before (err e) = inl refl

pub commit_ok-eq-ok {ℓ} :
    {A : Type ℓ} (before db' : Db) (step : Result (A × Db)) (a : A)
    → commit_ok before step ≡ (ok a, db')
    → step ≡ ok (a, db')
commit_ok-eq-ok before db' (ok (b, db)) a e = cc
commit_ok-eq-ok before db' (err why) a e = absurd (cc)

-- Where the operation returns `()`, the state is the whole result.
abbrev pub done : Result Db → Result (Unit {0} × Db)
done (ok db) = ok (tt, db)
done (err e) = err e

pub done-eq-ok : (r : Result Db) (u : Unit {0}) (db : Db) → done r ≡ ok (u, db) → r ≡ ok db
done-eq-ok (ok db₁) u db e = cc
done-eq-ok (err why) u db e = absurd (cc)

pub ok_state {ℓ} :
    {A : Type ℓ} (a b : A) (db db' : Db)
    → ◌≡◌ {A = Result (A × Db)} (ok (a, db)) (ok (b, db'))
    → db ≡ db'
ok_state a b db db' e = cc

pub ok_value {ℓ} :
    {A : Type ℓ} (a b : A) (db db' : Db)
    → ◌≡◌ {A = Result (A × Db)} (ok (a, db)) (ok (b, db'))
    → a ≡ b
ok_value a b db db' e = cc

pub commit_ok-eq-err {ℓ} :
    {A : Type ℓ} (before db' : Db) (step : Result (A × Db)) (why : PersistenceError)
    → commit_ok before step ≡ (err why, db')
    → db' ≡ before
commit_ok-eq-err before db' (ok (a, db)) why e = absurd (cc)
commit_ok-eq-err before db' (err w) why e = cc
