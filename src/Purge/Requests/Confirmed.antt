-- ===== src/Purge/Requests/Confirmed.antt =====
-- What the confirmation of an account purge has found, and what it closes.
use tasktips_cloud.Base.{
  ℕ, ◌≡◌, refl, sym, ap, ◌∙◌, inl, inr, Bool, false, true, ◌&&◌, Option, none, some, List, ◌==◌,
  arith, Option-cases, any_by, find_by, any_by-update_where_out, any_by_narrower,
}
use tasktips_cloud.Domain.{is_active, AccountStatus, ProjectStatus}
use tasktips_cloud.Store.Errors.{ok, steps_of_ok}
use tasktips_cloud.Store.Schema.{Db, Job, JobKind, Export}
use tasktips_cloud.Store.Transaction.{commit_ok-eq-ok, ok_state}
use tasktips_cloud.Auth.Rows.{insert_audit, insert_audit_nullable}
use tasktips_cloud.Auth.Rotation.Steps.{insert_audit_nullable-eq-ok}
use tasktips_cloud.Sync.Response.{TimeFormat}
use tasktips_cloud.Sync.Item.{NewSyncRevision, Pusher}
use tasktips_cloud.Sync.Push.{is_active_project, Request, PushOutcome, push_with_outcome}
use tasktips_cloud.Sync.Push.Closed.{is_open_own, closed_push}
use tasktips_cloud.Restore.Jobs.{set_project_status}
use tasktips_cloud.Restore.Requests.{require_admin, ensure_no_active}
use tasktips_cloud.Purge.Jobs.{new_job, insert_job}
use tasktips_cloud.Purge.Requests.{
  Purger, AccountPurgeResponse, ensure_other, ensure_user, is_usable, is_open_project_purge,
  is_export_ready, is_job_succeeded, ensure_export, joined_job, job_of, is_live_export,
  is_owned_open_restore, is_not_deleting, close_account, purge_payload, purge_metadata,
  confirm_purge, confirm_account_purge,
}

-- The account's export that is ready, with its job; nothing of the account runs; afterwards neither
-- the account nor a project of it is active.
pub record Confirmed (by : Purger) (export : ℕ) (db db' : Db) : Type 0 where
  pub e : Export
  pub j : Job
  pub found : find_by (is_live_export by export) db.exports ≡ some e
  pub joined : joined_job db e ≡ some j
  pub ready : is_export_ready e.status && is_job_succeeded j.status ≡ true
  pub no_restore : any_by (is_owned_open_restore db by.subject) db.restores ≡ false
  pub no_purge : any_by (is_open_project_purge by.subject) db.jobs ≡ false
  pub account : any_by (λ u. u.id == by.subject && is_active u.status) db'.users ≡ false
  pub projects :
      any_by (λ p. p.owner == by.subject && is_active_project p.status) db'.projects ≡ false

ensure_export-eq-ok :
    (db : Db) (o : Option Export) (u : Unit {0})
    → ensure_export (job_of db o) o ≡ ok u
    → (e : Export) × (j : Job) × (o ≡ some e)
      × (joined_job db e ≡ some j)
      × (is_export_ready e.status && is_job_succeeded j.status ≡ true)
ensure_export-eq-ok db none u h = absurd (cc)
ensure_export-eq-ok db (some e) u h = elim (Option-cases (joined_job db e)) [
  | inl none_ ↦ absurd (cc (rw none_ at h))
  | inr (j, joined) ↦ (e, j, refl, joined, ground (arith, rw joined at h))
]

ensure_no_active-eq-ok : (b : Bool) (u : Unit {0}) → ensure_no_active b ≡ ok u → b ≡ false
ensure_no_active-eq-ok true u e = absurd (cc)
ensure_no_active-eq-ok false u e = refl

closed_users :
    (by : Purger) (export : ℕ) (db : Db)
    → any_by (λ u. u.id == by.subject && is_active u.status) (close_account by export db).users
      ≡ false
unfolding close_account
closed_users by export db =
    any_by-update_where_out (λ u. u.id == by.subject && is_usable u.status)
      (λ u. u.id == by.subject && is_active u.status)
      (λ u. record u { status = AccountStatus.deleting }) db.users (λ u t. ground arith)
      (λ u. ground arith)

closed_projects :
    (by : Purger) (export : ℕ) (db : Db)
    → any_by
        (λ p. p.owner == by.subject && is_active_project p.status)
        (close_account by export db).projects
      ≡ false
unfolding close_account set_project_status
closed_projects by export db =
    any_by-update_where_out (λ p. p.owner == by.subject && is_not_deleting p.status)
      (λ p. p.owner == by.subject && is_active_project p.status)
      (λ p. record p { status = ProjectStatus.deleting; updated_at = by.now }) db.projects
      (λ p t. ground arith) (λ p. ground arith)

insert_job-eq-ok :
    (job : Job) (db db' : Db) → insert_job job db ≡ ok db' → db' ≡ record db { jobs = db'.jobs }
unfolding insert_job
insert_job-eq-ok job db db' e = ground arith

-- A confirmation that returns Ok has found the account's export ready, unexpired, and its job
-- succeeded, with no restore and no project purge of the account open; afterwards neither the
-- account nor any of its projects is active.
pub confirm_account_purge-Confirmed :
    (by : Purger) (job export : ℕ) (db db' : Db) (r : AccountPurgeResponse)
    → confirm_account_purge by job export db ≡ (ok r, db')
    → Confirmed by export db db'
unfolding confirm_account_purge confirm_purge insert_audit
confirm_account_purge-Confirmed by job export db db' r e =
    let e₀ = commit_ok-eq-ok db db' (confirm_purge by job export db) r e in
    let (u₁, e₁, admin) = steps_of_ok (require_admin by.actor db) _ e₀ in
    let (u₂, e₂, other) = steps_of_ok (ensure_other by) _ e₁ in
    let (u₃, e₃, usable) =
      steps_of_ok (ensure_user (find_by (λ u. u.id == by.subject) db.users)) _ e₂ in
    let found = find_by (is_live_export by export) db.exports in
    let (u₄, e₄, ready) = steps_of_ok (ensure_export (job_of db found) found) _ e₃ in
    let (u₅, e₅, idle) =
      steps_of_ok (ensure_no_active (any_by (is_owned_open_restore db by.subject) db.restores)) _
        e₄ in
    let (u₆, e₆, free) =
      steps_of_ok (ensure_no_active (any_by (is_open_project_purge by.subject) db.jobs)) _ e₅ in
    let new =
      new_job job JobKind.account_purge by.subject none by.now (purge_payload "purge" export by) in
    let (db₁, e₇, inserted) = steps_of_ok (insert_job new (close_account by export db)) _ e₆ in
    let (db₂, e₈, audited) =
      steps_of_ok
        (insert_audit_nullable (some by.actor) (some by.subject) "account.purge_requested"
          (purge_metadata job export by) by.request db₁)
        _ e₇ in
    let last = ok_state _ _ db₂ db' e₈ in
    let in_audit =
      insert_audit_nullable-eq-ok (some by.actor) (some by.subject) "account.purge_requested"
        (purge_metadata job export by) by.request db₁ db₂ audited in
    let in_job = insert_job-eq-ok new (close_account by export db) db₁ inserted in
    let (x, j, is_found, joined, is_ready) = ensure_export-eq-ok db found u₄ ready in
    let users : db'.users ≡ (close_account by export db).users =
      sym (ap (λ (d : Db). d.users) last)
      ∙ ap (λ (d : Db). d.users) in_audit
      ∙ ap (λ (d : Db). d.users) in_job in
    let projects : db'.projects ≡ (close_account by export db).projects =
      sym (ap (λ (d : Db). d.projects) last)
      ∙ ap (λ (d : Db). d.projects) in_audit
      ∙ ap (λ (d : Db). d.projects) in_job in
    record {
      e = x;
      j = j;
      found = is_found;
      joined = joined;
      ready = is_ready;
      no_restore = ensure_no_active-eq-ok _ u₅ idle;
      no_purge = ensure_no_active-eq-ok _ u₆ free;
      account = rw users (closed_users by export db);
      projects = rw projects (closed_projects by export db);
    }

-- After a confirmation that returned Ok, the only pushes of the account that return Ok repeat the
-- stored response of an earlier push, until the state changes again.
pub confirm_closes_account :
    (by : Purger) (job export : ℕ) (db db' db'' : Db) (r : AccountPurgeResponse) (fmt : TimeFormat)
    (pusher : Pusher) (ids : ℕ → ℕ) (q : Request) (rs : List NewSyncRevision)
    (outcome : PushOutcome)
    → confirm_account_purge by job export db ≡ (ok r, db')
    → pusher.user ≡ by.subject
    → push_with_outcome fmt pusher ids q rs db' ≡ (ok outcome, db'')
    → outcome.replayed ≡ true
confirm_closes_account by job export db db' db'' r fmt pusher ids q rs outcome e same pushed =
    let confirmed = confirm_account_purge-Confirmed by job export db db' r e in
    closed_push fmt pusher ids q rs db' db'' outcome
      (any_by_narrower (λ p. p.owner == by.subject && is_active_project p.status)
        (is_open_own pusher.user pusher.project) db'.projects (λ p t. ground arith)
        confirmed.projects)
      pushed
