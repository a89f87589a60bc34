-- ===== src/Sync/Push/Closed.antt =====
-- A push where the user has no active row of the project.
use tasktips_cloud.Base.{
  ℕ, ◌≡◌, ◌⊎◌, inl, inr, Bool, true, false, ◌&&◌, some, List, arith, Option-cases, find_by, any_by,
  find_by-test, any_by_outside,
}
use tasktips_cloud.Store.Errors.{PersistenceError, project_maintenance, not_found, Result, ok, err}
use tasktips_cloud.Store.Schema.{Db, Project, Idempotency}
use tasktips_cloud.Sync.Response.{TimeFormat}
use tasktips_cloud.Sync.Item.{NewSyncRevision, Pusher}
use tasktips_cloud.Sync.Push.{
  is_active_project, is_own_project, project_state, Request, is_request, without_expired,
  PushOutcome, after_failure, push_active, push_found, push_with_outcome,
}

abbrev pub is_open_own : ℕ → ℕ → Project → Bool
is_open_own user project p = is_own_project user project p && is_active_project p.status

-- Without an active row the state of the project is an error.
pub closed_own_state :
    (user project : ℕ) (db : Db)
    → any_by (is_open_own user project) db.projects ≡ false
    → (project_state user project db ≡ err project_maintenance)
      ⊎ (project_state user project db ≡ err not_found)
unfolding project_state
closed_own_state user project db closed =
    elim (Option-cases (find_by (is_own_project user project) db.projects)) [
      | inl missing ↦ inr (rw missing)
      | inr (p, found) ↦
          let own = find_by-test (is_own_project user project) db.projects p found in
          let shut =
            any_by_outside (is_own_project user project) (is_open_own user project) db.projects p
              found closed in
          inl (rw found (ground arith))
    ]

after_failure_err :
    (always : Bool) (why : PersistenceError) (db db' : Db) (outcome : PushOutcome)
    (stored : Result (Bool × Db))
    → after_failure always why db stored ≡ (ok outcome, db')
    → ⊥
after_failure_err always why db db' outcome (ok (was_stored, db₁)) e = absurd (cc)
after_failure_err always why db db' outcome (err why') e = absurd (cc)

found_replays :
    (fmt : TimeFormat) (by : Pusher) (ids : ℕ → ℕ) (q : Request) (rs : List NewSyncRevision)
    (db db₁ db' : Db) (r : Idempotency) (outcome : PushOutcome)
    → push_found fmt by ids q rs db db₁ (some r) ≡ (ok outcome, db')
    → outcome.replayed ≡ true
unfolding push_found
found_replays fmt by ids q rs db db₁ db' r outcome e = ground arith

-- A push to a project without an active row of the user that returns `Ok` repeats a stored response.
pub closed_push :
    (fmt : TimeFormat) (by : Pusher) (ids : ℕ → ℕ) (q : Request) (rs : List NewSyncRevision)
    (db db' : Db) (outcome : PushOutcome)
    → any_by (is_open_own by.user by.project) db.projects ≡ false
    → push_with_outcome fmt by ids q rs db ≡ (ok outcome, db')
    → outcome.replayed ≡ true
unfolding push_with_outcome push_found push_active
closed_push fmt by ids q rs db db' outcome closed e =
    elim (Option-cases (find_by (is_request by q) (without_expired by q db).idempotency)) [
      | inl unseen ↦ elim (closed_own_state by.user by.project (without_expired by q db) closed) [
        | inl maintenance ↦ absurd (
            let e' = rw (unseen, maintenance) at e in
            after_failure_err false project_maintenance db db' outcome _ e')
        | inr missing ↦ absurd (let e' = rw (unseen, missing) at e in cc)
      ]
      | inr (r, seen) ↦
          found_replays fmt by ids q rs db (without_expired by q db) db' r outcome (rw seen at e)
    ]
