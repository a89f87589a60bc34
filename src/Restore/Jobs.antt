-- ===== src/Restore/Jobs.antt =====
-- The rows of `restore_jobs`, their constraints, and the states of a job.
use tasktips_cloud.Base.{
  ℕ, ◌*◌, Bool, true, false, not, ◌&&◌, ◌||◌, String, Option, none, some, ◌∷◌, ◌==◌, leb, length,
  if◌then◌else◌, any_by, update_where, code_points,
}
use tasktips_cloud.Domain.{ProjectStatus}
use tasktips_cloud.Store.Errors.{database, Result, ok, err}
use tasktips_cloud.Store.Schema.{Db, RestoreJob, RestoreStatus, queued, running, failed, Project}

abbrev pub is_queued : RestoreStatus → Bool
is_queued queued = true
is_queued _ = false

abbrev pub is_running : RestoreStatus → Bool
is_running running = true
is_running _ = false

abbrev pub is_failed : RestoreStatus → Bool
is_failed failed = true
is_failed _ = false

-- `status IN ('queued', 'running')`
abbrev pub is_open : RestoreStatus → Bool
is_open s = is_queued s || is_running s

abbrev pub is_maintenance : ProjectStatus → Bool
is_maintenance ProjectStatus.maintenance = true
is_maintenance _ = false

abbrev pub holds : Option ℕ → ℕ → Bool
holds none lease = false
holds (some token) lease = token == lease

-- `WHERE id = $1 AND status = 'running' AND lease_token = $2`
abbrev pub is_leased : ℕ → ℕ → RestoreJob → Bool
is_leased job lease j = j.id == job && is_running j.status && holds j.lease_token lease

unfoldable pub update_jobs : (RestoreJob → Bool) → (RestoreJob → RestoreJob) → Db → Db
update_jobs test f db = record db { restores = update_where test f db.restores }

-- `UPDATE projects SET status = …, updated_at = CURRENT_TIMESTAMP WHERE …`
unfoldable pub set_project_status : ℕ → (Project → Bool) → ProjectStatus → Db → Db
set_project_status now test status db = record db {
  projects = update_where test (λ p. record p { status = status; updated_at = now }) db.projects;
}

abbrev pub minutes : ℕ → ℕ
minutes n = n * 60 * 1000000000

abbrev pub is_active_job : ℕ → RestoreJob → Bool
is_active_job project j = j.project == project && is_open j.status

-- The insert, with the primary key, `restore_jobs_one_active_per_project`, the length of the reason,
-- and the foreign keys to the project of the owner and to the user.
unfoldable pub insert_restore : RestoreJob → String → Db → Result Db
insert_restore job reason db =
    if not (any_by (λ j. j.id == job.id) db.restores)
      && not (any_by (is_active_job job.project) db.restores)
      && leb 1 (length (code_points reason))
      && leb (length (code_points reason)) 512
      && any_by (λ p. p.id == job.project && p.owner == job.owner) db.projects
      && any_by (λ u. u.id == job.requested_by) db.users
    then ok (record db { restores = job ∷ db.restores })
    else err database
