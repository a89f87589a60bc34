-- ===== src/Restore/Window.antt =====
-- The maintenance window: a claimed project takes no push, and a restore ends the window.
use tasktips_cloud.Base.{
  ℕ, ◌≤◌, ◌≡◌, refl, ◌⊎◌, inl, inr, Bool, true, false, ◌&&◌, some, List, ◌==◌, arith, Bool-cases,
  find_by, any_by, count_by, any_by-update_where_out, any_by_apart, any_by_narrower,
}
use tasktips_cloud.Domain.{ProjectStatus}
use tasktips_cloud.Store.Errors.{project_maintenance, not_found, ok, err}
use tasktips_cloud.Store.Schema.{Db, Project, RestoreJob}
use tasktips_cloud.Sync.Response.{TimeFormat}
use tasktips_cloud.Sync.Item.{NewSyncRevision, Pusher}
use tasktips_cloud.Sync.Push.{
  is_active_project, project_state, Request, PushOutcome, push_with_outcome,
}
use tasktips_cloud.Sync.Push.Closed.{is_open_own, closed_own_state, closed_push}
use tasktips_cloud.Restore.Jobs.{is_queued, is_maintenance, update_jobs, set_project_status}
use tasktips_cloud.Restore.Worker.{claims_project, enter_maintenance, claim_restore_job}
use tasktips_cloud.Restore.Fence.{Claimed, claim-Claimed}

abbrev pub is_open_project : ℕ → Project → Bool
is_open_project project p = p.id == project && is_active_project p.status

-- The primary key of `projects`.
abbrev pub UniqueProjects : Db → Type 0
UniqueProjects db = (project : ℕ) → count_by (λ p. p.id == project) db.projects ≤ 1

maintenance_inactive : (s : ProjectStatus) → is_maintenance s ≡ true → is_active_project s ≡ false
maintenance_inactive ProjectStatus.active e = absurd (cc)
maintenance_inactive ProjectStatus.maintenance e = refl
maintenance_inactive ProjectStatus.disabled e = refl
maintenance_inactive ProjectStatus.deleting e = refl

claimed_queued_closes :
    (now : ℕ) (j : RestoreJob) (db : Db)
    → is_queued j.status ≡ true
    → any_by (is_open_project j.project) (enter_maintenance now j db).projects ≡ false
unfolding set_project_status
claimed_queued_closes now j db was_queued = rw was_queued (
    any_by-update_where_out (claims_project j.project j) (is_open_project j.project)
      (λ p. record p { status = ProjectStatus.maintenance; updated_at = now }) db.projects
      (λ p h. ground arith) (λ p. ground arith))

claimed_running_closes :
    (now : ℕ) (j : RestoreJob) (p : Project) (db : Db)
    → UniqueProjects db
    → is_queued j.status ≡ false
    → find_by (claims_project j.project j) db.projects ≡ some p
    → any_by (is_open_project j.project) (enter_maintenance now j db).projects ≡ false
claimed_running_closes now j p db unique was_running found = rw was_running (
    any_by_apart (λ p. p.id == j.project) (claims_project j.project j) (is_open_project j.project)
      db.projects p (unique j.project) (λ q h. ground arith) (λ q h. ground arith)
      (λ q h. ground (arith, maintenance_inactive q.status)) found)

-- Without an active row the state of the project is an error.
pub closed_project_state :
    (user project : ℕ) (db : Db)
    → any_by (is_open_project project) db.projects ≡ false
    → (project_state user project db ≡ err project_maintenance)
      ⊎ (project_state user project db ≡ err not_found)
closed_project_state user project db closed = closed_own_state user project db (
    any_by_narrower (is_open_project project) (is_open_own user project) db.projects
      (λ p t. ground arith) closed)

window_closes :
    (now lease : ℕ) (db db' : Db) (j was : RestoreJob) (p : Project)
    → UniqueProjects db
    → Claimed now lease db j db' was p
    → any_by (is_open_project j.project) db'.projects ≡ false
unfolding update_jobs
window_closes now lease db db' j was p unique c =
    rw (c.state, c.job)
      (elim (Bool-cases (is_queued was.status)) [
        | inl was_queued ↦ claimed_queued_closes now was db was_queued
        | inr was_running ↦ claimed_running_closes now was p db unique was_running c.project
      ])

-- After a claim the only pushes to the job's project that return `Ok` repeat the stored response of
-- an earlier push, until the state changes again. The project's identifier is a primary key.
pub claim_closes_project :
    (now : ℕ) (locked : ℕ → Bool) (lease : ℕ) (db db' db'' : Db) (j : RestoreJob) (fmt : TimeFormat)
    (by : Pusher) (ids : ℕ → ℕ) (q : Request) (rs : List NewSyncRevision) (outcome : PushOutcome)
    → UniqueProjects db
    → claim_restore_job now locked lease db ≡ (ok (some j), db')
    → by.project ≡ j.project
    → push_with_outcome fmt by ids q rs db' ≡ (ok outcome, db'')
    → outcome.replayed ≡ true
claim_closes_project now locked lease db db' db'' j fmt by ids q rs outcome unique claimed same
      pushed =
    let (was, p, next, c) = claim-Claimed now locked lease db db' j claimed in
    closed_push fmt by ids q rs db' db'' outcome
      (any_by_narrower (is_open_project by.project) (is_open_own by.user by.project) db'.projects
        (λ r t. ground arith) (rw same (window_closes now lease db db' j was p unique c)))
      pushed
