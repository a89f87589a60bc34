-- ===== src/Sync/Push/Replay.antt =====
-- Idempotency: a request that has been answered is answered again from its record.
use tasktips_cloud.Base.{
  ℕ, ◌+◌, ◌<◌, ◌≡◌, sym, ap, ◌∙◌, true, false, ◌&&◌, some, List, ◌∷◌, str_eq, leb, arith, eq_refl,
  ==_refl, any_by, find_by, any_by_of_missing, any_by_narrower, delete_where_none,
}
use tasktips_cloud.Store.Errors.{idempotency_conflict, ok, err}
use tasktips_cloud.Store.Schema.{Db, Idempotency}
use tasktips_cloud.Sync.Response.{TimeFormat, migrate_stored_push_response}
use tasktips_cloud.Sync.Response.Stored.{migrate-response_json}
use tasktips_cloud.Sync.Item.{NewSyncRevision, Pusher}
use tasktips_cloud.Sync.Item.Frame.{push_items-SameElsewhere}
use tasktips_cloud.Sync.Push.{
  is_request, idempotency_ttl, idempotency_row, Request, PushOutcome, push_found, without_expired,
  push_with_outcome,
}
use tasktips_cloud.Sync.Push.Ran.{Ran, push_with_outcome-Ran}

-- A later call of the same user, device and project.
abbrev pub at : Pusher → ℕ → Pusher
at by now = record by { now = now }

module _ (fmt : TimeFormat) (by : Pusher) (ids : ℕ → ℕ) (q : Request) (rs : List NewSyncRevision)
    (db : Db) (outcome : PushOutcome) (db' : Db) (ran : Ran fmt by ids q rs db outcome db')
    (now : ℕ) (soon : now < by.now + idempotency_ttl) (again : Request)
    (key : again.key ≡ q.key) where
  idempotency-eq-cons :
      db'.idempotency
      ≡ idempotency_row by q outcome.response 200 ∷ (without_expired by q db).idempotency
  idempotency-eq-cons =
      ap (λ d. d.idempotency) ran.state
      ∙ ap (λ d. idempotency_row by q outcome.response 200 ∷ d.idempotency)
          (push_items-SameElsewhere by ids rs (without_expired by q db) ran.answers ran.after
            ran.items)

  is_request_row : is_request (at by now) again (idempotency_row by q outcome.response 200) ≡ true
  is_request_row =
      rw key (ground (arith, eq_refl q.key, ==_refl by.user, ==_refl by.device, ==_refl by.project))

  none_expired :
      any_by (λ r. is_request (at by now) again r && leb r.expires_at now) db'.idempotency ≡ false
  unfolding any_by
  none_expired = rw idempotency-eq-cons (
      ground (
        arith,
        any_by_narrower (is_request by q)
            (λ r. is_request (at by now) again r && leb r.expires_at now)
            (without_expired by q db).idempotency
            (λ r t. let k : is_request (at by now) again r ≡ true = ground arith in rw key at k)
            (any_by_of_missing (is_request by q) (without_expired by q db).idempotency ran.unseen),
      ))

  without_expired-eq : without_expired (at by now) again db' ≡ db'
  without_expired-eq =
      ap {A = List Idempotency} {B = Db} (λ l. record db' { idempotency = l })
        (delete_where_none (λ r. is_request (at by now) again r && leb r.expires_at now)
          db'.idempotency none_expired)

  find_record :
      find_by (is_request (at by now) again) db'.idempotency
      ≡ some (idempotency_row by q outcome.response 200)
  unfolding find_by
  find_record = rw (idempotency-eq-cons, is_request_row)

  -- The second call has the record before it.
  push_with_outcome-found :
      (ids' : ℕ → ℕ) (rs' : List NewSyncRevision)
      → push_with_outcome fmt (at by now) ids' again rs' db'
        ≡ push_found fmt
            (at by now)
            ids'
            again
            rs'
            db'
            db'
            (some (idempotency_row by q outcome.response 200))
  unfolding push_with_outcome
  push_with_outcome-found ids' rs' =
      ap
        (λ d.
          push_found fmt (at by now) ids' again rs' db' d
            (find_by (is_request (at by now) again) d.idempotency))
        without_expired-eq
      ∙ ap (push_found fmt (at by now) ids' again rs' db' db') find_record

  -- The response has the present format.
  response_current : migrate_stored_push_response fmt outcome.response ≡ outcome.response
  response_current =
      ap (migrate_stored_push_response fmt) ran.response
      ∙ migrate-response_json fmt q.generation ran.answers
      ∙ sym ran.response

  Ran-replay :
      (ids' : ℕ → ℕ) (rs' : List NewSyncRevision)
      → str_eq q.hash again.hash ≡ true
      → push_with_outcome fmt (at by now) ids' again rs' db'
        ≡ (ok (record { response = outcome.response; replayed = true }), db')
  unfolding push_found
  Ran-replay ids' rs' hash = push_with_outcome-found ids' rs' ∙ rw (hash, response_current)

  Ran-other_content :
      (ids' : ℕ → ℕ) (rs' : List NewSyncRevision)
      → str_eq q.hash again.hash ≡ false
      → push_with_outcome fmt (at by now) ids' again rs' db' ≡ (err idempotency_conflict, db')
  unfolding push_found
  Ran-other_content ids' rs' hash = push_with_outcome-found ids' rs' ∙ rw hash

module _ (fmt : TimeFormat) (by : Pusher) (ids ids' : ℕ → ℕ) (q again : Request)
    (rs rs' : List NewSyncRevision) (db : Db) (outcome : PushOutcome) (db' : Db) (now : ℕ) where
  -- A request that was answered for the first time is answered by the same response, marked as a
  -- replay, when it is repeated with the same key and hash by the same device within thirty days;
  -- nothing changes then, whatever else the repeated request holds.
  pub push_with_outcome_replay :
      push_with_outcome fmt by ids q rs db ≡ (ok outcome, db')
      → outcome.replayed ≡ false
      → now < by.now + idempotency_ttl
      → again.key ≡ q.key
      → str_eq q.hash again.hash ≡ true
      → push_with_outcome fmt (at by now) ids' again rs' db'
        ≡ (ok (record { response = outcome.response; replayed = true }), db')
  push_with_outcome_replay e fresh soon key hash =
      Ran-replay fmt by ids q rs db outcome db'
        (push_with_outcome-Ran fmt by ids q rs db outcome db' e fresh) now soon again key ids' rs'
        hash

  -- Its key with another hash is refused within these thirty days, and nothing changes.
  pub push_with_outcome_other_content :
      push_with_outcome fmt by ids q rs db ≡ (ok outcome, db')
      → outcome.replayed ≡ false
      → now < by.now + idempotency_ttl
      → again.key ≡ q.key
      → str_eq q.hash again.hash ≡ false
      → push_with_outcome fmt (at by now) ids' again rs' db' ≡ (err idempotency_conflict, db')
  push_with_outcome_other_content e fresh soon key hash =
      Ran-other_content fmt by ids q rs db outcome db'
        (push_with_outcome-Ran fmt by ids q rs db outcome db' e fresh) now soon again key ids' rs'
        hash
