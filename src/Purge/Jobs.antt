-- ===== src/Purge/Jobs.antt =====
-- The rows of `jobs`: the claim with its lease, the phase, the renewal, the failure with its retry,
-- and the JSON of a payload. A UUID in JSON is its number.
use tasktips_cloud.Base.{
  ℕ, ◌+◌, Bool, true, false, not, ◌&&◌, ◌||◌, String, Option, none, some, List, [], ◌∷◌, ◌==◌, leb,
  ltb, str_eq, unwrap_or, if◌then◌else◌, find_by, any_by, count_by, update_where,
}
use tasktips_cloud.Json.{Json, bool, num, str, arr, obj, Items, nil, cons}
use tasktips_cloud.Store.Errors.{database, not_found, invalid_payload, Result, ok, err, ◌>>=◌}
use tasktips_cloud.Store.Schema.{Db, Job, JobKind, JobStatus}
use tasktips_cloud.Restore.Jobs.{holds, minutes}
use tasktips_cloud.Restore.Worker.{lease_expired}
use tasktips_cloud.Restore.Manifest.{lookup}

abbrev pub same_kind : JobKind → JobKind → Bool
same_kind JobKind.project_purge JobKind.project_purge = true
same_kind JobKind.account_purge JobKind.account_purge = true
same_kind JobKind.snapshot_cleanup JobKind.snapshot_cleanup = true
same_kind JobKind.statistics JobKind.statistics = true
same_kind _ _ = false

abbrev pub is_job_queued : JobStatus → Bool
is_job_queued JobStatus.queued = true
is_job_queued _ = false

abbrev pub is_job_running : JobStatus → Bool
is_job_running JobStatus.running = true
is_job_running _ = false

-- `status IN ('queued', 'running')`
abbrev pub is_job_open : JobStatus → Bool
is_job_open s = is_job_queued s || is_job_running s

-- `lease_expires_at > CURRENT_TIMESTAMP`
abbrev pub lease_lives : ℕ → Option ℕ → Bool
lease_lives now none = false
lease_lives now (some expiry) = ltb now expiry

-- `status = 'running' AND lease_token = $2`, of the job with this identifier.
abbrev pub is_running_with : ℕ → ℕ → Job → Bool
is_running_with job lease j = j.id == job && (is_job_running j.status && holds j.lease_token lease)

-- The same of a job of this kind, while its lease lives.
abbrev pub is_held : JobKind → ℕ → ℕ → ℕ → Job → Bool
is_held kind now job lease j =
    is_running_with job lease j && (same_kind j.kind kind && lease_lives now j.lease_expires_at)

unfoldable pub change_jobs : (Job → Bool) → (Job → Job) → Db → Db
change_jobs test f db = record db { jobs = update_where test f db.jobs }

-- The row with the column defaults of the table.
abbrev pub new_job : ℕ → JobKind → ℕ → Option ℕ → ℕ → Json → Job
new_job id kind owner project now payload = record {
  id = id;
  kind = kind;
  owner = some owner;
  project = project;
  payload = payload;
  status = JobStatus.queued;
  attempts = 0;
  run_after = now;
  lease_token = none;
  lease_expires_at = none;
  error_code = none;
  created_at = now;
  started_at = none;
  finished_at = none;
}

abbrev pub is_open_account_purge : ℕ → Job → Bool
is_open_account_purge owner j =
    same_kind j.kind JobKind.account_purge && (is_job_open j.status && holds j.owner owner)

abbrev pub breaks_unique : Job → Option ℕ → Db → Bool
breaks_unique job none db = false
breaks_unique job (some owner) db =
    same_kind job.kind JobKind.account_purge && any_by (is_open_account_purge owner) db.jobs

-- The insert of a queued job, with the primary key and `jobs_one_account_purge_per_user`.
unfoldable pub insert_job : Job → Db → Result Db
insert_job job db =
    if any_by (λ j. j.id == job.id) db.jobs || breaks_unique job job.owner db
    then err database
    else ok (record db { jobs = job ∷ db.jobs })

-- A column that is NULL cannot be read as a UUID.
abbrev pub not_null : Option ℕ → Result ℕ
not_null none = err database
not_null (some n) = ok n

abbrev pub found_row : Option Job → Result Job
found_row none = err not_found
found_row (some j) = ok j

-- `SELECT … FROM jobs WHERE id = $1 AND kind = … AND lease_expires_at > CURRENT_TIMESTAMP`
unfoldable pub held_job : JobKind → ℕ → ℕ → ℕ → Db → Result Job
held_job kind now job lease db = found_row (find_by (is_held kind now job lease) db.jobs)

abbrev pub is_due : JobKind → ℕ → Job → Bool
is_due kind now j =
    same_kind j.kind kind
    && (leb j.run_after now
        && (is_job_queued j.status
            || is_job_running j.status && lease_expired now j.lease_expires_at))

-- `ORDER BY run_after, created_at, id`
abbrev pub runs_before : Job → Job → Bool
runs_before a b =
    ltb a.run_after b.run_after
    || a.run_after == b.run_after
      && (ltb a.created_at b.created_at || a.created_at == b.created_at && leb a.id b.id)

abbrev pub sooner : Job → Option Job → Job
sooner j none = j
sooner j (some other) = if runs_before j other then j else other

-- `FOR UPDATE SKIP LOCKED LIMIT 1`: `locked` are the jobs whose rows another transaction holds.
unfoldable pub next_due : JobKind → ℕ → (ℕ → Bool) → List Job → Option Job
next_due kind now locked [] = none
next_due kind now locked (j ∷ js) =
    let rest = next_due kind now locked js in
    if is_due kind now j && not (locked j.id) then some (sooner j rest) else rest

abbrev pub claimed_job : ℕ → ℕ → Job → Job
claimed_job now lease j = record j {
  status = JobStatus.running;
  attempts = j.attempts + 1;
  lease_token = some lease;
  lease_expires_at = some (now + minutes 5);
  started_at = some (unwrap_or j.started_at now);
  error_code = none;
}

abbrev pub claim_due : ℕ → ℕ → Db → Option Job → Option Job × Db
claim_due now lease db none = (none, db)
claim_due now lease db (some j) =
    (some (claimed_job now lease j), change_jobs (λ k. k.id == j.id) (claimed_job now lease) db)

-- `claim_project_purge_job` and `claim_account_purge_job` differ in the kind only; `lease` is the
-- new UUID of the lease.
unfoldable pub claim_job : JobKind → ℕ → (ℕ → Bool) → ℕ → Db → Option Job × Db
unfolding next_due change_jobs
claim_job kind now locked lease db = claim_due now lease db (next_due kind now locked db.jobs)

abbrev pub claim_project_purge_job : ℕ → (ℕ → Bool) → ℕ → Db → Option Job × Db
claim_project_purge_job = claim_job JobKind.project_purge

abbrev pub claim_account_purge_job : ℕ → (ℕ → Bool) → ℕ → Db → Option Job × Db
claim_account_purge_job = claim_job JobKind.account_purge

-- `payload.get(key)`, which is `None` for a value that is no object.
unfoldable pub get : String → Json → Option Json
unfolding lookup
get key (obj fs) = lookup key fs
get key _ = none

abbrev pub text_of : Option Json → String
text_of (some (str s)) = s
text_of _ = ""

abbrev pub uuid_of : Option Json → Result ℕ
uuid_of (some (num n)) = ok n
uuid_of _ = err invalid_payload

abbrev pub uuid_or : Option Json → ℕ → ℕ
uuid_or (some (num n)) default = n
uuid_or _ default = default

abbrev pub is_true : Option Json → Bool
is_true (some (bool b)) = b
is_true _ = false

-- Each element must be a text.
unfoldable pub texts_of : Items → Result (List String)
texts_of nil = ok []
texts_of (cons (str s) rest) = do texts ← texts_of rest; ok (s ∷ texts)
texts_of (cons _ rest) = err invalid_payload

abbrev pub stored_keys : Option Json → Result (List String)
stored_keys (some (arr values)) = texts_of values
stored_keys _ = err invalid_payload

unfoldable pub text_items : List String → Items
text_items [] = nil
text_items (s ∷ rest) = cons (str s) (text_items rest)

abbrev pub valid_phase : String → Result String
valid_phase phase =
    if str_eq phase "export" || str_eq phase "purge" then ok phase else err invalid_payload

-- The text of a phase that is no string is neither of the two phases.
unfoldable pub account_purge_phase : ℕ → ℕ → ℕ → Db → Result String
unfolding held_job get
account_purge_phase now job lease db = do
  j ← held_job JobKind.account_purge now job lease db
  valid_phase (text_of (get "phase" j.payload))

-- `if updated != 1 { return Err(NotFound) }`, before the commit.
abbrev pub held_one : ℕ → Db → Result (Unit {0}) × Db → Result (Unit {0}) × Db
held_one updated db done = if updated == 1 then done else (err not_found, db)

unfoldable pub renew_account_purge_lease : ℕ → ℕ → ℕ → Db → Result (Unit {0}) × Db
unfolding change_jobs
renew_account_purge_lease now job lease db =
    held_one (count_by (is_held JobKind.account_purge now job lease) db.jobs) db (
      ok tt,
      change_jobs (is_held JobKind.account_purge now job lease)
          (λ j. record j { lease_expires_at = some (now + minutes 5) }) db,
    )

abbrev pub purge_attempts : ℕ
purge_attempts = 5

-- On the right of each field stands the row before the update.
abbrev pub failed_job : ℕ → String → Job → Job
failed_job now code j = record j {
  status = if ltb j.attempts purge_attempts then JobStatus.queued else JobStatus.failed;
  error_code = some code;
  lease_token = none;
  lease_expires_at = none;
  run_after = now + minutes 1;
  finished_at = if ltb j.attempts purge_attempts then none else some now;
}

unfoldable pub fail_project_purge : ℕ → ℕ → ℕ → String → Db → Result (Unit {0}) × Db
unfolding change_jobs
fail_project_purge now job lease code db =
    held_one (count_by (is_running_with job lease) db.jobs) db
      (ok tt, change_jobs (is_running_with job lease) (failed_job now code) db)

-- `UPDATE jobs SET status = 'succeeded', …`
abbrev pub succeeded_job : ℕ → Job → Job
succeeded_job now j = record j {
  status = JobStatus.succeeded;
  lease_token = none;
  lease_expires_at = none;
  finished_at = some now;
}

-- `WHERE id = $1 AND lease_token = $2`
abbrev pub is_leased_as : ℕ → ℕ → Job → Bool
is_leased_as job lease j = j.id == job && holds j.lease_token lease

unfoldable pub finish_job : ℕ → ℕ → ℕ → Db → Db
unfolding change_jobs
finish_job now job lease = change_jobs (is_leased_as job lease) (succeeded_job now)
