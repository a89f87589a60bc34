-- ===== src/Store/Errors.antt =====
-- `PersistenceError` of crates/persistence/src/lib.rs and the results that carry it.
use tasktips_cloud.Base.{ℕ, ◌≡◌, refl}
use tasktips_cloud.Json.{Json}

pub data PersistenceError : Type 0 where
  database conflict not_found account_disabled device_revoked : PersistenceError
  invalid_refresh_token refresh_token_reuse invalid_invitation admin_required : PersistenceError
  invalid_account_transition project_maintenance : PersistenceError
  generation_mismatch : (expected actual : ℕ) → PersistenceError
  bootstrap_required idempotency_conflict : PersistenceError
  idempotency_replay : (response : Json) (status : ℕ) → PersistenceError
  payload_not_found invalid_payload invalid_restore_target : PersistenceError
  restore_not_reopenable restore_cancelled account_purge_not_ready : PersistenceError

pub data Result {ℓ} (A : Type ℓ) : Type ℓ where
  ok : A → Result A
  err : PersistenceError → Result A

-- `?`: the first error ends the operation.
infixl 5 ◌>>=◌
abbrev pub ◌>>=◌ {ℓ} : {X Y : Type ℓ} → Result X → (X → Result Y) → Result Y
err why >>= next = err why
ok x >>= next = next x

-- The steps of an operation that has succeeded.
pub steps_of_ok {ℓ} :
    {X Y : Type ℓ} (step : Result X) (next : X → Result Y) {y : Y}
    → (step >>= next) ≡ ok y
    → (x : X) × (next x ≡ ok y) × (step ≡ ok x)
steps_of_ok (err why) next done = cc
steps_of_ok (ok x) next done = (x, done, refl)
