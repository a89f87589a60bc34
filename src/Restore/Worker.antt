-- ===== src/Restore/Worker.antt =====
-- What a worker does to a restore job under its lease: claim, renew, cancel, fail and retry.
use tasktips_cloud.Base.{
  ℕ, ◌+◌, Bool, true, false, not, ◌&&◌, ◌||◌, String, Option, none, some, List, [], ◌∷◌, ◌==◌, leb,
  ltb, unwrap_or, if◌then◌else◌, find_by, any_by, count_by, update_where,
}
use tasktips_cloud.Domain.{ProjectStatus}
use tasktips_cloud.Json.{num, object}
use tasktips_cloud.Store.Errors.{conflict, not_found, project_maintenance, Result, ok, err, ◌>>=◌}
use tasktips_cloud.Store.Schema.{
  Db, Project, RestoreJob, queued, running, cancelled, failed, SnapshotStatus, Snapshot,
}
use tasktips_cloud.Store.Transaction.{commit_ok, done}
use tasktips_cloud.Sync.Push.{is_active_project}
use tasktips_cloud.Auth.Rows.{insert_audit}
use tasktips_cloud.Restore.Jobs.{
  is_queued, is_running, is_maintenance, is_leased, update_jobs, set_project_status, minutes,
}

-- `status = 'queued' AND run_after <= now OR (status = 'running' AND lease_expires_at < now)`
abbrev pub lease_expired : ℕ → Option ℕ → Bool
lease_expired now none = false
lease_expired now (some expiry) = ltb expiry now

abbrev pub is_claimable : ℕ → RestoreJob → Bool
is_claimable now j =
    is_queued j.status && leb j.run_after now
    || is_running j.status && lease_expired now j.lease_expires_at

-- `ORDER BY created_at, id`
abbrev pub is_before : RestoreJob → RestoreJob → Bool
is_before a b = ltb a.created_at b.created_at || a.created_at == b.created_at && leb a.id b.id

abbrev pub earlier : RestoreJob → Option RestoreJob → RestoreJob
earlier j none = j
earlier j (some other) = if is_before j other then j else other

-- `FOR UPDATE SKIP LOCKED LIMIT 1`: `locked` are the jobs whose rows another transaction holds.
unfoldable pub next_claim : ℕ → (ℕ → Bool) → List RestoreJob → Option RestoreJob
next_claim now locked [] = none
next_claim now locked (j ∷ js) =
    let rest = next_claim now locked js in
    if is_claimable now j && not (locked j.id) then some (earlier j rest) else rest

abbrev pub claims_project : ℕ → RestoreJob → Project → Bool
claims_project project j p =
    p.id == project
    && (if is_queued j.status
        then is_active_project p.status || is_maintenance p.status
        else is_maintenance p.status)

-- For a queued job the project enters the maintenance window.
abbrev pub enter_maintenance : ℕ → RestoreJob → Db → Db
enter_maintenance now j db =
    if is_queued j.status
    then set_project_status now (claims_project j.project j) ProjectStatus.maintenance db
    else db

abbrev pub leased_job : ℕ → ℕ → ℕ → RestoreJob → RestoreJob
leased_job now generation lease j = record j {
  status = running;
  generation_before = some (unwrap_or j.generation_before generation);
  lease_token = some lease;
  lease_expires_at = some (now + minutes 5);
  started_at = some (unwrap_or j.started_at now);
}

abbrev pub claim_with : ℕ → ℕ → RestoreJob → Db → Option Project → Result (Option RestoreJob) × Db
claim_with now lease j db none = (
  err project_maintenance,
  update_jobs (λ k. k.id == j.id)
      (λ k. record k {
        status = failed;
        error_code = some "PROJECT_MAINTENANCE";
        finished_at = some now;
      })
      db,
)
claim_with now lease j db (some p) = (
  ok (some (leased_job now p.generation lease j)),
  update_jobs (λ k. k.id == j.id) (leased_job now p.generation lease) (enter_maintenance now j db),
)

abbrev pub claim_found : ℕ → ℕ → Db → Option RestoreJob → Result (Option RestoreJob) × Db
claim_found now lease db none = (ok none, db)
claim_found now lease db (some j) =
    claim_with now lease j db (find_by (claims_project j.project j) db.projects)

-- `lease` is the new UUID of the lease.
unfoldable pub claim_restore_job : ℕ → (ℕ → Bool) → ℕ → Db → Result (Option RestoreJob) × Db
unfolding next_claim update_jobs set_project_status
claim_restore_job now locked lease db = claim_found now lease db (next_claim now locked db.restores)

unfoldable pub mark_snapshot : (Db → Snapshot → Bool) → String → String → Db → Db
mark_snapshot test bucket key db = record db {
  snapshots =
      update_where (test db)
        (λ s. record s { bucket = bucket; key = key; status = SnapshotStatus.ready }) db.snapshots;
}

abbrev pub is_pending : SnapshotStatus → Bool
is_pending SnapshotStatus.pending = true
is_pending _ = false

unfoldable pub mark_snapshot_ready : ℕ → String → String → Db → Db
unfolding mark_snapshot
mark_snapshot_ready snapshot = mark_snapshot (λ db s. s.id == snapshot && is_pending s.status)

-- The job that holds the lease must run.
unfoldable pub mark_snapshot_ready_for_job : ℕ → ℕ → ℕ → String → String → Db → Db
unfolding mark_snapshot
mark_snapshot_ready_for_job job lease snapshot =
    mark_snapshot
      (λ db s. s.id == snapshot && is_pending s.status && any_by (is_leased job lease) db.restores)

-- The update is committed before the count of rows is looked at.
unfoldable pub renew_restore_lease : ℕ → ℕ → ℕ → Db → Result (Unit {0}) × Db
unfolding update_jobs
renew_restore_lease now job lease db = (
  if count_by (is_leased job lease) db.restores == 1 then ok tt else err conflict,
  update_jobs (is_leased job lease) (λ j. record j { lease_expires_at = some (now + minutes 5) })
      db,
)

abbrev pub leased : Option RestoreJob → Result RestoreJob
leased none = err not_found
leased (some j) = ok j

abbrev pub ensure_requested : Bool → Result (Unit {0})
ensure_requested true = ok tt
ensure_requested false = err conflict

abbrev pub cancelled_job : ℕ → RestoreJob → RestoreJob
cancelled_job now j = record j {
  status = cancelled;
  finished_at = some now;
  lease_token = none;
  lease_expires_at = none;
}

unfoldable pub cancel_leased : ℕ → ℕ → ℕ → Db → Result Db
cancel_leased now job lease db = do
  j ← leased (find_by (is_leased job lease) db.restores)
  requested ← ensure_requested j.cancel_requested
  insert_audit j.requested_by (some j.owner) "restore.cancelled"
      (object (("projectId", num j.project) ∷ ("restoreId", num job) ∷ [])) ""
      (set_project_status now (λ p. p.id == j.project && is_maintenance p.status)
        ProjectStatus.active (update_jobs (is_leased job lease) (cancelled_job now) db))

unfoldable pub cancel_restore_with_lease : ℕ → ℕ → ℕ → Db → Result (Unit {0}) × Db
unfolding cancel_leased
cancel_restore_with_lease now job lease db = commit_ok db (done (cancel_leased now job lease db))

unfoldable pub fail_restore_job : ℕ → ℕ → String → Db → Db
unfolding update_jobs
fail_restore_job now job code =
    update_jobs (λ j. j.id == job && is_running j.status)
      (λ j. record j { status = failed; error_code = some code; finished_at = some now })

unfoldable pub fail_restore_job_with_lease : ℕ → ℕ → ℕ → String → Db → Db
unfolding update_jobs
fail_restore_job_with_lease now job lease code = update_jobs (is_leased job lease) (λ j. record j {
  status = failed;
  error_code = some code;
  lease_token = none;
  lease_expires_at = none;
  finished_at = some now;
})

abbrev pub attempts_limit : ℕ
attempts_limit = 3

-- The fields that the retry writes; on the right of each stands the row before the update.
abbrev pub retried_job : ℕ → String → RestoreJob → RestoreJob
retried_job now code j = record j {
  attempts = j.attempts + 1;
  error_code = some code;
  status = if ltb (j.attempts + 1) attempts_limit then queued else failed;
  run_after = now + minutes 1;
  lease_token = none;
  lease_expires_at = none;
  finished_at = if ltb (j.attempts + 1) attempts_limit then none else some now;
}

-- `COALESCE((SELECT attempts < 3 FROM updated), false)`
abbrev pub is_requeued : Option RestoreJob → Bool
is_requeued none = false
is_requeued (some j) = ltb (j.attempts + 1) attempts_limit

unfoldable pub retry_restore_job_with_lease : ℕ → ℕ → ℕ → String → Db → Bool × Db
unfolding update_jobs
retry_restore_job_with_lease now job lease code db = (
  is_requeued (find_by (is_leased job lease) db.restores),
  update_jobs (is_leased job lease) (retried_job now code) db,
)
