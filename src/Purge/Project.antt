-- ===== src/Purge/Project.antt =====
-- The purge of one project: the request that queues it, the detachment of its rows, and its end.
pub mod Runs
use tasktips_cloud.Base.{
  ℕ, Bool, true, false, ◌&&◌, String, Option, none, some, List, [], ◌∷◌, ◌==◌, if◌then◌else◌,
  find_by, any_by, delete_where,
}
use tasktips_cloud.Domain.{ProjectStatus}
use tasktips_cloud.Json.{Json, bool, num, str, arr, object}
use tasktips_cloud.Store.Errors.{conflict, not_found, Result, ok, err, ◌>>=◌}
use tasktips_cloud.Store.Schema.{Db, Project, Job, JobKind}
use tasktips_cloud.Store.Transaction.{commit_ok, done}
use tasktips_cloud.Auth.Rows.{insert_audit}
use tasktips_cloud.Sync.Push.{is_own_project}
use tasktips_cloud.Restore.Jobs.{set_project_status, is_active_job}
use tasktips_cloud.Restore.Requests.{Asker, ensure_no_active}
use tasktips_cloud.Purge.Jobs.{
  new_job, insert_job, is_running_with, change_jobs, not_null, held_job, get, is_true, stored_keys,
  text_items, finish_job,
}
use tasktips_cloud.Purge.Rows.{of_project, delete_rows, distinct, row_keys}

-- `matches!(status.as_str(), "active" | "disabled")`
abbrev pub is_purgeable : ProjectStatus → Bool
is_purgeable ProjectStatus.active = true
is_purgeable ProjectStatus.disabled = true
is_purgeable _ = false

abbrev pub ensure_purgeable : Option Project → Result (Unit {0})
ensure_purgeable none = err not_found
ensure_purgeable (some p) = if is_purgeable p.status then ok tt else err conflict

abbrev pub requested_purge : Asker → ℕ → Job
requested_purge by id =
    new_job id JobKind.project_purge by.user (some by.project) by.now
      (object (("reason", str by.reason) ∷ ("requestedBy", num by.user) ∷ []))

-- `id` is the new UUID of the job.
unfoldable pub queue_project_purge : Asker → ℕ → Db → Result (Job × Db)
queue_project_purge by id db = do
  purgeable ← ensure_purgeable (find_by (is_own_project by.user by.project) db.projects)
  free ←
      ensure_no_active (any_by (λ j. is_active_job by.project j && j.owner == by.user) db.restores)
  db₁ ←
      insert_job (requested_purge by id)
        (set_project_status by.now (is_own_project by.user by.project) ProjectStatus.deleting db)
  db₂ ←
      insert_audit by.user (some by.user) "project.purge_requested"
        (object
          (("projectId", num by.project) ∷ ("jobId", num id) ∷ ("reason", str by.reason) ∷ []))
        by.request db₁
  ok (requested_purge by id, db₂)

unfoldable pub enqueue_project_purge : Asker → ℕ → Db → Result Job × Db
unfolding queue_project_purge
enqueue_project_purge by id db = commit_ok db (queue_project_purge by id db)

abbrev pub is_deleting : ProjectStatus → Bool
is_deleting ProjectStatus.deleting = true
is_deleting _ = false

abbrev pub ensure_deleting : Option Project → Result (Unit {0})
ensure_deleting none = err conflict
ensure_deleting (some p) = if is_deleting p.status then ok tt else err conflict

abbrev pub project_keys : ℕ → Db → List String
project_keys project db = distinct (row_keys (of_project project) db)

-- `DELETE FROM projects WHERE id = $1`, behind the other tables.
unfoldable pub delete_project : ℕ → Db → Db
unfolding delete_rows
delete_project project db = record (delete_rows (of_project project) db) {
  projects = delete_where (λ p. p.id == project) db.projects;
}

abbrev pub detached_payload : List String → Json
detached_payload keys =
    object (("detached", bool true) ∷ ("objectKeys", arr (text_items keys)) ∷ [])

-- `UPDATE jobs SET payload = $3 WHERE id = $1 AND status = 'running' AND lease_token = $2`
unfoldable pub set_payload : ℕ → ℕ → Json → Db → Db
unfolding change_jobs
set_payload job lease payload =
    change_jobs (is_running_with job lease) (λ j. record j { payload = payload })

unfoldable pub detach_project : ℕ → ℕ → ℕ → ℕ → Db → Result (List String × Db)
unfolding delete_project set_payload
detach_project owner project job lease db = do
  deleting ← ensure_deleting (find_by (λ p. p.id == project && p.owner == owner) db.projects)
  let keys = project_keys project db
  ok (keys, set_payload job lease (detached_payload keys) (delete_project project db))

-- The keys that an earlier run has stored, or those that this one detaches.
abbrev pub stored_or : Json → Db → Result (List String × Db) → Result (List String × Db)
stored_or payload db detach =
    if is_true (get "detached" payload)
    then stored_keys (get "objectKeys" payload) >>= (λ keys. ok (keys, db))
    else detach

unfoldable pub project_purge : ℕ → ℕ → ℕ → Db → Result (List String × Db)
unfolding held_job detach_project
project_purge now job lease db = do
  j ← held_job JobKind.project_purge now job lease db
  owner ← not_null j.owner
  project ← not_null j.project
  stored_or j.payload db (detach_project owner project job lease db)

unfoldable pub prepare_project_purge : ℕ → ℕ → ℕ → Db → Result (List String) × Db
unfolding project_purge
prepare_project_purge now job lease db = commit_ok db (project_purge now job lease db)

-- The request identifier of the audit row is NULL, here the empty text.
unfoldable pub end_project_purge : ℕ → ℕ → ℕ → Db → Result Db
end_project_purge now job lease db = do
  j ← held_job JobKind.project_purge now job lease db
  owner ← not_null j.owner
  project ← not_null j.project
  insert_audit owner (some owner) "project.purge_completed"
      (object (("projectId", num project) ∷ ("jobId", num job) ∷ [])) ""
      (finish_job now job lease db)

unfoldable pub complete_project_purge : ℕ → ℕ → ℕ → Db → Result (Unit {0}) × Db
unfolding end_project_purge
complete_project_purge now job lease db = commit_ok db (done (end_project_purge now job lease db))
