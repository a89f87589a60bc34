-- ===== src/Sync/Push/Atomic.antt =====
-- A push is atomic: what it does not answer with a response leaves at most a record of the failure,
-- and what it answers has passed every guard.
use tasktips_cloud.Base.{
  ℕ, ◌≡◌, refl, Bool, true, false, Option, none, some, List, ◌∷◌, ◌==◌, arith, Bool-cases, inl, inr,
  any_by, find_by,
}
use tasktips_cloud.Json.{Json}
use tasktips_cloud.Store.Errors.{
  PersistenceError, database, conflict, bootstrap_required, generation_mismatch, Result, ok, err,
}
use tasktips_cloud.Store.Schema.{Db, Idempotency}
use tasktips_cloud.Sync.Response.{TimeFormat, PushItemResult, response_json}
use tasktips_cloud.Sync.Item.{NewSyncRevision, Pusher, push_items}
use tasktips_cloud.Sync.Push.{
  idempotency_row, is_request, project_state, Request, insert_idempotency, store_failure, stored,
  store_push_failure, PushOutcome, after_failure, after_insert, after_items, is_completion,
  push_active, push_found, without_expired, push_with_outcome, push_failure_response,
}

-- The two states differ in their idempotency records at most.
abbrev pub SameData : Db → Db → Type 0
SameData db db' = record db' { idempotency = db.idempotency } ≡ db

-- An error leaves the data alone.
abbrev pub KeepsOnError : Db → Result PushOutcome × Db → Type 0
KeepsOnError db (ok outcome, db') = Unit
KeepsOnError db (err e, db') = SameData db db'

module _ (by : Pusher) (q : Request) (db db₁ : Db) (same : SameData db db₁) where
  insert_idempotency-SameData :
      (twice : PersistenceError) (response : Json) (status : ℕ) (db' : Db)
      → insert_idempotency twice by q response status db₁ ≡ ok db'
      → SameData db db'
  unfolding insert_idempotency
  insert_idempotency-SameData twice response status db' h =
      let row : db'
          ≡ record db₁ { idempotency = idempotency_row by q response status ∷ db₁.idempotency } =
        ground arith in
      rw row same

  store_failure-SameData :
      (o : Option (ℕ × Json)) (b : Bool) (db' : Db)
      → store_failure by q db₁ o ≡ ok (b, db')
      → SameData db db'
  store_failure-SameData none b db' h = let row : db' ≡ db₁ = cc in rw row same
  store_failure-SameData (some (status, response)) b db' h =
      of_stored (insert_idempotency conflict by q response status db₁) refl h
    where
      of_stored :
          (r : Result Db)
          → insert_idempotency conflict by q response status db₁ ≡ r
          → stored r ≡ ok (b, db')
          → SameData db db'
      of_stored (ok db'') e h =
          let row : db' ≡ db'' = cc in
          rw row (insert_idempotency-SameData conflict response status db'' e)
      of_stored (err e') e h = absurd (cc)

  store_push_failure-SameData :
      (e : PersistenceError) (b : Bool) (db' : Db)
      → store_push_failure by q e db₁ ≡ ok (b, db')
      → SameData db db'
  unfolding store_push_failure
  store_push_failure-SameData e b db' h = store_failure-SameData (push_failure_response e) b db' h

  after_failure-KeepsOnError :
      (always : Bool) (e : PersistenceError) (r : Result (Bool × Db))
      → ((b : Bool) (db' : Db) → r ≡ ok (b, db') → SameData db db')
      → KeepsOnError db (after_failure always e db r)
  after_failure-KeepsOnError always e (ok (b, db')) h = ground (arith, h b db' refl)
  after_failure-KeepsOnError always e (err e') h = refl

  after_insert-KeepsOnError :
      (response : Json) (r : Result Db) → KeepsOnError db (after_insert by response db r)
  after_insert-KeepsOnError response (ok db') = tt
  after_insert-KeepsOnError response (err e) = refl

  after_items-KeepsOnError :
      (fmt : TimeFormat) (generation : ℕ) (r : Result (List PushItemResult × Db))
      → KeepsOnError db (after_items fmt by q generation db r)
  after_items-KeepsOnError fmt generation (ok (answers, db')) =
      after_insert-KeepsOnError (response_json fmt generation answers)
        (insert_idempotency database by q (response_json fmt generation answers) 200 db')
  after_items-KeepsOnError fmt generation (err e) = refl

module _ (fmt : TimeFormat) (by : Pusher) (ids : ℕ → ℕ) (q : Request)
    (rs : List NewSyncRevision) where
  push_active-KeepsOnError :
      (db db₁ : Db) (r : Result (ℕ × ℕ))
      → SameData db db₁
      → KeepsOnError db (push_active fmt by ids q rs db db₁ r)
  unfolding push_active
  push_active-KeepsOnError db db₁ (err e) same =
      after_failure-KeepsOnError by q db db₁ same false e (store_push_failure by q e db₁)
        (store_push_failure-SameData by q db db₁ same e)
  push_active-KeepsOnError db db₁ (ok (generation, sequence)) same =
      elim (Bool-cases (q.generation == generation)) [
        | inl g ↦ elim (Bool-cases (any_by (is_completion by generation) db₁.completions)) [
          | inl c ↦
              rw (g, c)
                (after_items-KeepsOnError by q db db₁ same fmt generation
                  (push_items by ids rs db₁))
          | inr c ↦
              rw (g, c)
                (after_failure-KeepsOnError by q db db₁ same true bootstrap_required
                  (store_push_failure by q bootstrap_required db₁)
                  (store_push_failure-SameData by q db db₁ same bootstrap_required))
        ]
        | inr g ↦ rw g (
            after_failure-KeepsOnError by q db db₁ same true
              (generation_mismatch q.generation generation)
              (store_push_failure by q (generation_mismatch q.generation generation) db₁)
              (store_push_failure-SameData by q db db₁ same
                (generation_mismatch q.generation generation)))
      ]

  push_found-KeepsOnError :
      (db db₁ : Db) (o : Option Idempotency)
      → SameData db db₁
      → KeepsOnError db (push_found fmt by ids q rs db db₁ o)
  unfolding push_found
  push_found-KeepsOnError db db₁ none same =
      push_active-KeepsOnError db db₁ (project_state by.user by.project db₁) same
  push_found-KeepsOnError db db₁ (some r) same = ground arith

  -- A push that fails, for whatever reason, changes no table but the idempotency records.
  pub push_with_outcome-KeepsOnError :
      (db : Db) → KeepsOnError db (push_with_outcome fmt by ids q rs db)
  unfolding push_with_outcome
  push_with_outcome-KeepsOnError db =
      push_found-KeepsOnError db (without_expired by q db)
        (find_by (is_request by q) (without_expired by q db).idempotency) refl
