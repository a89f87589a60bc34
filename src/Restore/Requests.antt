-- ===== src/Restore/Requests.antt =====
-- The requests for a restore: `enqueue_restore` and `cancel_restore` of a user, and
-- `reopen_failed_restore` of an administrator.
use tasktips_cloud.Base.{
  ℕ, Bool, true, false, ◌&&◌, ◌⊎◌, inl, inr, String, Option, none, some, [], ◌∷◌, ◌==◌,
  if◌then◌else◌, find_by, any_by, ℤ, above, to_natural,
}
use tasktips_cloud.Domain.{UserRole, is_active, ProjectStatus}
use tasktips_cloud.Json.{num, str, object}
use tasktips_cloud.Store.Errors.{
  conflict, not_found, admin_required, invalid_restore_target, restore_not_reopenable, Result, ok,
  err, ◌>>=◌,
}
use tasktips_cloud.Store.Schema.{
  Db, User, Project, RestoreJob, RestoreStatus, queued, running, cancelled, SnapshotStatus,
  Snapshot,
}
use tasktips_cloud.Store.Transaction.{commit_ok, done}
use tasktips_cloud.Sync.Push.{project_state}
use tasktips_cloud.Auth.Rows.{insert_audit}
use tasktips_cloud.Restore.Policy.{PolicyError, validate_restore_target}
use tasktips_cloud.Restore.Jobs.{
  is_queued, is_running, is_failed, is_maintenance, update_jobs, set_project_status, is_active_job,
  insert_restore,
}

-- Who asks, when, for which project, and why.
pub record Asker : Type 0 where
  pub user : ℕ
  pub project : ℕ
  pub now : ℕ
  pub reason : String
  pub request : String

abbrev pub of_policy : PolicyError ⊎ Unit {0} → Result (Unit {0})
of_policy (inl e) = err invalid_restore_target
of_policy (inr ok_) = ok tt

abbrev pub ensure_no_active : Bool → Result (Unit {0})
ensure_no_active true = err conflict
ensure_no_active false = ok tt

-- `is_some_and(|sequence| sequence > current_sequence)`
abbrev pub ensure_reached : ℕ → Option ℤ → Result (Unit {0})
ensure_reached current none = ok tt
ensure_reached current (some sequence) =
    if above sequence current then err invalid_restore_target else ok tt

abbrev pub is_ready : SnapshotStatus → Bool
is_ready SnapshotStatus.ready = true
is_ready _ = false

-- `WHERE id = $1 AND project_id = $2 AND status = 'ready'`, among the snapshots of the owner.
abbrev pub is_ready_snapshot : ℕ → ℕ → Snapshot → Bool
is_ready_snapshot snapshot project s = s.id == snapshot && s.project == project && is_ready s.status

abbrev pub ensure_snapshot : Asker → Db → Option ℕ → Result (Unit {0})
ensure_snapshot by db none = ok tt
ensure_snapshot by db (some snapshot) =
    if any_by (λ s. is_ready_snapshot snapshot by.project s && s.owner == by.user) db.snapshots
    then ok tt
    else err not_found

abbrev pub natural_target : Option ℤ → Option ℕ
natural_target none = none
natural_target (some sequence) = some (to_natural sequence)

-- The row with the column defaults of the table.
abbrev pub queued_job : Asker → ℕ → Option ℕ → Option ℤ → RestoreJob
queued_job by id snapshot target = record {
  id = id;
  project = by.project;
  owner = by.user;
  requested_by = by.user;
  snapshot = snapshot;
  target_sequence = natural_target target;
  status = queued;
  pre_restore_snapshot = none;
  generation_before = none;
  generation_after = none;
  restored_objects = 0;
  restored_tombstones = 0;
  error_code = none;
  created_at = by.now;
  started_at = none;
  finished_at = none;
  lease_token = none;
  lease_expires_at = none;
  attempts = 0;
  run_after = by.now;
  cancel_requested = false;
}

-- `id` is the new UUID of the job.
unfoldable pub request_restore : Asker → ℕ → Option ℕ → Option ℤ → Db → Result (RestoreJob × Db)
request_restore by id snapshot target db = do
  valid ← of_policy (validate_restore_target snapshot target)
  (generation, current) ← project_state by.user by.project db
  free ←
      ensure_no_active (any_by (λ j. is_active_job by.project j && j.owner == by.user) db.restores)
  reached ← ensure_reached current target
  belongs ← ensure_snapshot by db snapshot
  db₁ ← insert_restore (queued_job by id snapshot target) by.reason db
  db₂ ←
      insert_audit by.user (some by.user) "restore.requested"
        (object (("projectId", num by.project) ∷ ("restoreId", num id) ∷ [])) by.request db₁
  ok (queued_job by id snapshot target, db₂)

unfoldable pub enqueue_restore : Asker → ℕ → Option ℕ → Option ℤ → Db → Result RestoreJob × Db
unfolding request_restore
enqueue_restore by id snapshot target db = commit_ok db (request_restore by id snapshot target db)

-- `WHERE id = $1 AND project_id = $2`, among the jobs of the owner.
abbrev pub is_own_job : Asker → ℕ → RestoreJob → Bool
is_own_job by id j = j.id == id && j.project == by.project && j.owner == by.user

-- The branch on the status, with the name of the audit event.
abbrev pub cancel_by_status : Asker → ℕ → Db → RestoreStatus → Result (String × Db)
cancel_by_status by id db queued = ok (
  "restore.cancelled",
  update_jobs (λ j. j.id == id && is_queued j.status && j.owner == by.user)
      (λ j. record j { status = cancelled; finished_at = some (by.now) }) db,
)
cancel_by_status by id db running = ok (
  "restore.cancel_requested",
  update_jobs (λ j. j.id == id && is_running j.status && j.owner == by.user)
      (λ j. record j { cancel_requested = true }) db,
)
cancel_by_status by id db _ = err conflict

abbrev pub found_job : Option RestoreJob → Result RestoreJob
found_job none = err not_found
found_job (some j) = ok j

unfoldable pub request_cancel : Asker → ℕ → Db → Result (RestoreJob × Db)
request_cancel by id db = do
  j ← found_job (find_by (is_own_job by id) db.restores)
  (action, db₁) ← cancel_by_status by id db j.status
  db₂ ←
      insert_audit by.user (some by.user) action
        (object
          (("projectId", num by.project) ∷ ("restoreId", num id) ∷ ("reason", str by.reason) ∷ []))
        by.request db₁
  job ← found_job (find_by (is_own_job by id) db₂.restores)
  ok (job, db₂)

unfoldable pub cancel_restore : Asker → ℕ → Db → Result RestoreJob × Db
unfolding request_cancel
cancel_restore by id db = commit_ok db (request_cancel by id db)

abbrev pub is_admin : UserRole → Bool
is_admin UserRole.system_admin = true
is_admin UserRole.user = false

abbrev pub admin_user : Option User → Result (Unit {0})
admin_user none = err admin_required
admin_user (some u) = if is_admin u.role && is_active u.status then ok tt else err admin_required

unfoldable pub require_admin : ℕ → Db → Result (Unit {0})
require_admin user db = admin_user (find_by (λ u. u.id == user) db.users)

abbrev pub in_maintenance : Option Project → Result (Unit {0})
in_maintenance none = err not_found
in_maintenance (some p) = if is_maintenance p.status then ok tt else err restore_not_reopenable

abbrev pub ensure_failed : Bool → Result (Unit {0})
ensure_failed true = ok tt
ensure_failed false = err restore_not_reopenable

unfoldable pub reopen : Asker → Db → Result Db
reopen by db = do
  admin ← require_admin by.user db
  closed ← in_maintenance (find_by (λ p. p.id == by.project) db.projects)
  has_failed ←
      ensure_failed (any_by (λ j. j.project == by.project && is_failed j.status) db.restores)
  insert_audit by.user none "restore.reopened"
      (object (("projectId", num by.project) ∷ ("reason", str by.reason) ∷ [])) by.request
      (set_project_status by.now (λ p. p.id == by.project) ProjectStatus.active db)

unfoldable pub reopen_failed_restore : Asker → Db → Result (Unit {0}) × Db
unfolding reopen
reopen_failed_restore by db = commit_ok db (done (reopen by db))
