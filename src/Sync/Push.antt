-- ===== src/Sync/Push.antt =====
-- `push_with_outcome` of crates/persistence/src/lib.rs: the guards of a push, its idempotency
-- record and its transaction. A result stands beside the state that the call leaves: an error
-- before the commit leaves the state as it was.
pub mod Atomic
pub mod Ran
pub mod Replay
pub mod Closed
use tasktips_cloud.Base.{
  ℕ, ◌+◌, ◌*◌, Bool, true, false, ◌&&◌, ◌||◌, String, Option, none, some, List, [], ◌∷◌, ◌==◌, leb,
  str_eq, if◌then◌else◌, find_by, any_by, delete_where, update_where,
}
use tasktips_cloud.Domain.{ProjectStatus}
use tasktips_cloud.Json.{Json, bool, num, str, object}
use tasktips_cloud.Store.Errors.{
  PersistenceError, database, conflict, not_found, project_maintenance, generation_mismatch,
  bootstrap_required, idempotency_conflict, idempotency_replay, Result, ok, err,
}
use tasktips_cloud.Store.Schema.{Db, Project, Completion, Idempotency}
use tasktips_cloud.Sync.Response.{
  TimeFormat, PushItemResult, response_json, migrate_stored_push_response,
}
use tasktips_cloud.Sync.Item.{NewSyncRevision, Pusher, is_device, push_items}

abbrev pub is_active_project : ProjectStatus → Bool
is_active_project ProjectStatus.active = true
is_active_project _ = false

-- The branches of `project_state` on the row that it reads.
abbrev pub state_of : Option Project → Result (ℕ × ℕ)
state_of none = err not_found
state_of (some p) =
    if is_active_project p.status then ok (p.generation, p.change_seq) else err project_maintenance

-- The row security policy lets a user see only the projects that the user owns.
abbrev pub is_own_project : ℕ → ℕ → Project → Bool
is_own_project user project p = p.id == project && p.owner == user

-- `project_state`, and so `require_active_project` with or without the lock on the row.
unfoldable pub project_state : ℕ → ℕ → Db → Result (ℕ × ℕ)
project_state user project db = state_of (find_by (is_own_project user project) db.projects)

unfoldable pub push_failure_response : PersistenceError → Option (ℕ × Json)
push_failure_response project_maintenance = some (
  423,
  object (
      ("code", str "PROJECT_MAINTENANCE")
      ∷ ("message", str "项目当前处于维护状态")
      ∷ ("retryable", bool true)
      ∷ []),
)
push_failure_response (generation_mismatch expected actual) = some (
  409,
  object (
      ("code", str "GENERATION_MISMATCH")
      ∷ ("message", str "项目 generation 已变化，请重新 bootstrap")
      ∷ ("retryable", bool false)
      ∷ (
        "details",
        object (("expectedGeneration", num expected) ∷ ("actualGeneration", num actual) ∷ []),
      )
      ∷ []),
)
push_failure_response bootstrap_required = some (
  409,
  object (
      ("code", str "CURSOR_INVALID")
      ∷ ("message", str "当前设备必须先完成 bootstrap")
      ∷ ("retryable", bool false)
      ∷ []),
)
push_failure_response _ = none

-- The request: its key, the hash of its content, and the generation that it expects.
pub record Request : Type 0 where
  pub key : String
  pub hash : String
  pub generation : ℕ

-- The primary key of `idempotency_records`.
abbrev pub is_request : Pusher → Request → Idempotency → Bool
is_request by q r =
    r.owner == by.user
    && r.device == by.device
    && r.project == by.project
    && str_eq r.request_key q.key

-- `expires_at` is thirty days ahead by default.
abbrev pub idempotency_ttl : ℕ
idempotency_ttl = 30 * 24 * 3600 * 1000000000

abbrev pub idempotency_row : Pusher → Request → Json → ℕ → Idempotency
idempotency_row by q response status = record {
  owner = by.user;
  device = by.device;
  project = by.project;
  request_key = q.key;
  request_hash = q.hash;
  response = response;
  response_status = status;
  expires_at = by.now + idempotency_ttl;
}

-- The insert, with the error for a second row of the same key, and the foreign keys to the device
-- and the project of the user.
unfoldable pub insert_idempotency : PersistenceError → Pusher → Request → Json → ℕ → Db → Result Db
insert_idempotency twice by q response status db =
    if any_by (is_request by q) db.idempotency
    then err twice
    else if any_by (is_device by.device by.user) db.devices
        && any_by (is_own_project by.user by.project) db.projects
    then ok (record db { idempotency = idempotency_row by q response status ∷ db.idempotency })
    else err database

abbrev pub stored : Result Db → Result (Bool × Db)
stored (ok db) = ok (true, db)
stored (err e) = err e

-- The branches of `store_push_failure`.
abbrev pub store_failure : Pusher → Request → Db → Option (ℕ × Json) → Result (Bool × Db)
store_failure by q db none = ok (false, db)
store_failure by q db (some (status, response)) =
    stored (insert_idempotency conflict by q response status db)

unfoldable pub store_push_failure : Pusher → Request → PersistenceError → Db → Result (Bool × Db)
unfolding insert_idempotency push_failure_response
store_push_failure by q e db = store_failure by q db (push_failure_response e)

pub record PushOutcome : Type 0 where
  pub response : Json
  pub replayed : Bool

-- What the transaction leaves after a failure: `always` says that it commits in any case.
abbrev pub after_failure :
    Bool → PersistenceError → Db → Result (Bool × Db) → Result PushOutcome × Db
after_failure always e db (ok (was_stored, db')) = (err e, if always || was_stored then db' else db)
after_failure always e db (err e') = (err e', db)

-- The last three statements: the record of the response, and the device's `last_push_at`.
abbrev pub after_insert : Pusher → Json → Db → Result Db → Result PushOutcome × Db
after_insert by response db (err e) = (err e, db)
after_insert by response db (ok db') = (
  ok (record { response = response; replayed = false }),
  record db' {
    devices =
        update_where (λ d. d.id == by.device) (λ d. record d { last_push_at = some by.now })
          db'.devices;
  },
)

abbrev pub after_items :
    TimeFormat
    → Pusher
    → Request
    → ℕ
    → Db
    → Result (List PushItemResult × Db)
    → Result PushOutcome × Db
after_items fmt by q generation db (err e) = (err e, db)
after_items fmt by q generation db (ok (answers, db')) =
    let response = response_json fmt generation answers in
    after_insert by response db (insert_idempotency database by q response 200 db')

abbrev pub is_completion : Pusher → ℕ → Completion → Bool
is_completion by generation c =
    c.project == by.project && c.device == by.device && c.generation == generation

-- `DELETE FROM idempotency_records WHERE … AND expires_at <= CURRENT_TIMESTAMP`
abbrev pub without_expired : Pusher → Request → Db → Db
without_expired by q db = record db {
  idempotency = delete_where (λ r. is_request by q r && leb r.expires_at by.now) db.idempotency;
}

module _ (fmt : TimeFormat) (by : Pusher) (ids : ℕ → ℕ) (q : Request)
    (rs : List NewSyncRevision) where
  -- From the state of the project on. `db` is the state before the call, and `db₁` the one in
  -- which the transaction has deleted the expired record.
  unfoldable pub push_active : Db → Db → Result (ℕ × ℕ) → Result PushOutcome × Db
  unfolding store_push_failure push_items insert_idempotency
  push_active db db₁ (err e) = after_failure false e db (store_push_failure by q e db₁)
  push_active db db₁ (ok (generation, sequence)) =
      if q.generation == generation
      then if any_by (is_completion by generation) db₁.completions
        then after_items fmt by q generation db (push_items by ids rs db₁)
        else after_failure true bootstrap_required db
            (store_push_failure by q bootstrap_required db₁)
      else after_failure true (generation_mismatch q.generation generation) db
          (store_push_failure by q (generation_mismatch q.generation generation) db₁)

  -- From the lookup of the idempotency record on.
  unfoldable pub push_found : Db → Db → Option Idempotency → Result PushOutcome × Db
  unfolding push_active project_state
  push_found db db₁ none = push_active db db₁ (project_state by.user by.project db₁)
  push_found db db₁ (some r) =
      if str_eq r.request_hash q.hash
      then if r.response_status == 200
        then (
          ok (record { response = migrate_stored_push_response fmt r.response; replayed = true }),
          db₁,
        )
        else (err (idempotency_replay r.response r.response_status), db₁)
      else (err idempotency_conflict, db)

  unfoldable pub push_with_outcome : Db → Result PushOutcome × Db
  unfolding push_found
  push_with_outcome db =
      let db₁ = without_expired by q db in
      push_found db db₁ (find_by (is_request by q) db₁.idempotency)
