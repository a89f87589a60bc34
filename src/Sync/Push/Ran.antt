-- ===== src/Sync/Push/Ran.antt =====
-- A push that is answered for the first time: the guards that it has passed, the run of its items,
-- and the record of its response.
use tasktips_cloud.Base.{
  ℕ, ◌≡◌, ◌≢◌, refl, sym, ap, ◌∙◌, Bool, true, false, Option, none, some, List, ◌∷◌, ◌==◌, str_eq,
  arith, Bool-cases, Option-cases, ◌⊎◌, inl, inr, any_by, find_by, update_where, ==_iff,
}
use tasktips_cloud.Json.{Json}
use tasktips_cloud.Store.Errors.{
  PersistenceError, not_found, project_maintenance, bootstrap_required, generation_mismatch, Result,
  ok, err,
}
use tasktips_cloud.Store.Schema.{Db, Project, Idempotency}
use tasktips_cloud.Sync.Response.{
  TimeFormat, PushItemResult, response_json, migrate_stored_push_response,
}
use tasktips_cloud.Sync.Item.{NewSyncRevision, Pusher, push_items}
use tasktips_cloud.Sync.Item.Cas.{sequence_of}
use tasktips_cloud.Sync.Item.Log.{IsGapless, push_items-IsGapless}
use tasktips_cloud.Sync.Push.Atomic.{KeepsOnError, push_with_outcome-KeepsOnError}
use tasktips_cloud.Sync.Push.{
  is_active_project, idempotency_row, is_request, is_own_project, state_of, project_state, Request,
  insert_idempotency, store_push_failure, PushOutcome, after_failure, after_items, is_completion,
  push_active, push_found, without_expired, push_with_outcome,
}

-- The state behind the run of the items.
abbrev pub finished : Pusher → Request → Json → Db → Db
finished by q response db = record db {
  idempotency = idempotency_row by q response 200 ∷ db.idempotency;
  devices =
      update_where (λ d. d.id == by.device) (λ d. record d { last_push_at = some by.now })
        db.devices;
}

after_failure-ne-ok :
    (always : Bool) (e : PersistenceError) (db : Db) (r : Result (Bool × Db))
    {outcome : PushOutcome} {db' : Db}
    → after_failure always e db r ≢ (ok outcome, db')
after_failure-ne-ok always e db (ok (b, d)) = cc
after_failure-ne-ok always e db (err f) = cc

module _ (fmt : TimeFormat) (by : Pusher) (ids : ℕ → ℕ) (q : Request)
    (rs : List NewSyncRevision) where
  -- The project is the user's own, active, of the generation that the request names and
  -- bootstrapped on the device; the items have run and the response says how.
  pub record Ran (db : Db) (outcome : PushOutcome) (db' : Db) : Type 0 where
    pub project : Project
    pub own : find_by (is_own_project by.user by.project) db.projects ≡ some project
    pub active : is_active_project project.status ≡ true
    pub generation : q.generation ≡ project.generation
    pub bootstrapped : any_by (is_completion by project.generation) db.completions ≡ true
    pub unseen : find_by (is_request by q) (without_expired by q db).idempotency ≡ none
    pub answers : List PushItemResult
    pub after : Db
    pub items : push_items by ids rs (without_expired by q db) ≡ ok (answers, after)
    pub response : outcome.response ≡ response_json fmt q.generation answers
    pub state : db' ≡ finished by q outcome.response after
    pub fresh : outcome.replayed ≡ false

  -- A record of the same content that has not expired, with a response to be replayed.
  pub record Replayed (db : Db) (outcome : PushOutcome) (db' : Db) : Type 0 where
    pub row : Idempotency
    pub seen : find_by (is_request by q) (without_expired by q db).idempotency ≡ some row
    pub hash : str_eq row.request_hash q.hash ≡ true
    pub status : (row.response_status == 200) ≡ true
    pub response : outcome.response ≡ migrate_stored_push_response fmt row.response
    pub state : db' ≡ without_expired by q db
    pub again : outcome.replayed ≡ true

  after_items-eq-ok :
      (generation : ℕ) (db db' : Db) (outcome : PushOutcome) (r : Result (List PushItemResult × Db))
      → after_items fmt by q generation db r ≡ (ok outcome, db')
      → (answers : List PushItemResult) × (after : Db) × (r ≡ ok (answers, after))
        × (outcome.response ≡ response_json fmt generation answers)
        × (db' ≡ finished by q outcome.response after)
        × (outcome.replayed ≡ false)
  unfolding insert_idempotency
  after_items-eq-ok generation db db' outcome (ok (answers, after)) e =
      (answers, after, refl, ground arith, ground arith, ground arith)
  after_items-eq-ok generation db db' outcome (err f) e = absurd (cc)

  push_active-eq-ok :
      (db db' : Db) (outcome : PushOutcome) (o : Option Project)
      → find_by (is_own_project by.user by.project) db.projects ≡ o
      → find_by (is_request by q) (without_expired by q db).idempotency ≡ none
      → push_active fmt by ids q rs db (without_expired by q db) (state_of o) ≡ (ok outcome, db')
      → Ran db outcome db'
  unfolding push_active
  push_active-eq-ok db db' outcome none own unseen e = absurd (
      after_failure-ne-ok false not_found db
        (store_push_failure by q not_found (without_expired by q db)) e)
  push_active-eq-ok db db' outcome (some p) own unseen e =
      elim (Bool-cases (is_active_project p.status)) [
        | inl active ↦ elim (Bool-cases (q.generation == p.generation)) [
          | inl same ↦ elim (Bool-cases (any_by (is_completion by p.generation) db.completions)) [
            | inl done ↦
                let (answers, after, items, response, state, fresh) =
                  after_items-eq-ok p.generation db db' outcome
                    (push_items by ids rs (without_expired by q db))
                    (rw (active, same, done) at e) in
                let generation : q.generation ≡ p.generation = (==_iff _ _).0 same in
                record {
                  project = p;
                  own = own;
                  active = active;
                  generation = generation;
                  bootstrapped = done;
                  unseen = unseen;
                  answers = answers;
                  after = after;
                  items = items;
                  response = response ∙ ap (λ g. response_json fmt g answers) (sym generation);
                  state = state;
                  fresh = fresh;
                }
            | inr undone ↦ absurd (
                after_failure-ne-ok true bootstrap_required db
                  (store_push_failure by q bootstrap_required (without_expired by q db))
                  (rw (active, same, undone) at e))
          ]
          | inr differs ↦ absurd (
              after_failure-ne-ok true (generation_mismatch q.generation p.generation) db
                (store_push_failure by q (generation_mismatch q.generation p.generation)
                  (without_expired by q db))
                (rw (active, differs) at e))
        ]
        | inr inactive ↦ absurd (
            after_failure-ne-ok false project_maintenance db
              (store_push_failure by q project_maintenance (without_expired by q db))
              (rw inactive at e))
      ]

  -- A success is the first run of the request or the replay of its record, and nothing else.
  pub push_with_outcome-eq-ok :
      (db : Db) (outcome : PushOutcome) (db' : Db)
      → push_with_outcome fmt by ids q rs db ≡ (ok outcome, db')
      → Ran db outcome db' ⊎ Replayed db outcome db'
  unfolding push_with_outcome
  push_with_outcome-eq-ok db outcome db' e =
      elim (Option-cases (find_by (is_request by q) (without_expired by q db).idempotency)) [
        | inl unseen ↦ inl (
            push_active-eq-ok db db' outcome
              (find_by (is_own_project by.user by.project) db.projects) refl unseen
              (rw (unseen, push_found, project_state) at e))
        | inr (r, seen) ↦
            let hash : str_eq r.request_hash q.hash ≡ true = ground arith in
            let status : (r.response_status == 200) ≡ true = ground arith in
            inr (record {
              row = r;
              seen = seen;
              hash = hash;
              status = status;
              response = ground arith;
              state = ground arith;
              again = ground arith;
            })
      ]

  pub push_with_outcome-Ran :
      (db : Db) (outcome : PushOutcome) (db' : Db)
      → push_with_outcome fmt by ids q rs db ≡ (ok outcome, db')
      → outcome.replayed ≡ false
      → Ran db outcome db'
  push_with_outcome-Ran db outcome db' e fresh = elim (push_with_outcome-eq-ok db outcome db' e) [
    | inl ran ↦ ran
    | inr replay ↦ absurd (cc (replay.again, fresh))
  ]

-- The log of a project depends on its change sequence and on the log alone.
IsGapless-transfer :
    (project : ℕ) (db db' : Db)
    → db'.projects ≡ db.projects
    → db'.changes ≡ db.changes
    → IsGapless project db
    → IsGapless project db'
unfolding sequence_of
IsGapless-transfer project db db' p c gapless n e = rw c (gapless n (rw p at e))

module _ (fmt : TimeFormat) (by : Pusher) (ids : ℕ → ℕ) (q : Request) (rs : List NewSyncRevision)
    (project : ℕ) (db : Db) where
  ended-IsGapless :
      (r : Result PushOutcome) (db' : Db)
      → push_with_outcome fmt by ids q rs db ≡ (r, db')
      → KeepsOnError db (r, db')
      → IsGapless project db
      → IsGapless project db'
  ended-IsGapless (err e) db' h keep gapless =
      IsGapless-transfer project db db' (ap (λ d. d.projects) keep) (ap (λ d. d.changes) keep)
        gapless
  ended-IsGapless (ok outcome) db' h keep gapless =
      elim (push_with_outcome-eq-ok fmt by ids q rs db outcome db' h) [
        | inl ran ↦
            let (answers, after, items, state) : (answers : List PushItemResult) × (after : Db)
                × (push_items by ids rs (without_expired by q db) ≡ ok (answers, after))
                × (db' ≡ finished by q outcome.response after) =
              (ran.answers, ran.after, ran.items, ran.state) in
            IsGapless-transfer project after db' (ap (λ d. d.projects) state)
              (ap (λ d. d.changes) state)
              (push_items-IsGapless by project ids rs (without_expired by q db) answers after
                (IsGapless-transfer project db (without_expired by q db) refl refl gapless) items)
        | inr again ↦
            IsGapless-transfer project db db' (ap (λ d. d.projects) again.state)
              (ap (λ d. d.changes) again.state) gapless
      ]

  -- Every call keeps the log of every project without a gap, however it ends.
  pub push_with_outcome-IsGapless :
      IsGapless project db → IsGapless project (push_with_outcome fmt by ids q rs db).1
  push_with_outcome-IsGapless =
      ended-IsGapless (push_with_outcome fmt by ids q rs db).0
        (push_with_outcome fmt by ids q rs db).1 refl
        (push_with_outcome-KeepsOnError fmt by ids q rs db)
