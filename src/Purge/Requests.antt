-- ===== src/Purge/Requests.antt =====
-- The two requests of an administrator that purge an account: the export, and its confirmation.
pub mod Confirmed
use tasktips_cloud.Base.{
  ℕ, ◌+◌, ◌*◌, Bool, true, false, ◌&&◌, ◌||◌, String, Option, none, some, List, [], ◌∷◌, ◌==◌, leb,
  ltb, if◌then◌else◌, find_by, any_by, update_where,
}
use tasktips_cloud.Domain.{UserRole, AccountStatus, ProjectStatus}
use tasktips_cloud.Json.{Json, num, str, object}
use tasktips_cloud.Store.Errors.{
  conflict, not_found, invalid_account_transition, account_purge_not_ready, Result, ok, err, ◌>>=◌,
}
use tasktips_cloud.Store.Schema.{
  Db, User, Project, Job, JobKind, JobStatus, Export, ExportStatus, RestoreJob,
}
use tasktips_cloud.Store.Transaction.{commit_ok}
use tasktips_cloud.Auth.Rows.{insert_audit}
use tasktips_cloud.Restore.Jobs.{holds, is_open, set_project_status, minutes}
use tasktips_cloud.Restore.Requests.{is_admin, require_admin, ensure_no_active}
use tasktips_cloud.Purge.Jobs.{same_kind, is_job_open, new_job, insert_job}

-- The administrator, the account, the time and the reason.
pub record Purger : Type 0 where
  pub actor : ℕ
  pub subject : ℕ
  pub now : ℕ
  pub reason : String
  pub request : String

pub record AccountPurgeResponse : Type 0 where
  pub job : ℕ
  pub export : ℕ
  pub status : String
  pub confirmation_required : Bool

abbrev pub ensure_other : Purger → Result (Unit {0})
ensure_other by = if by.actor == by.subject then err invalid_account_transition else ok tt

-- `matches!(status.as_str(), "active" | "disabled")`
abbrev pub is_usable : AccountStatus → Bool
is_usable AccountStatus.active = true
is_usable AccountStatus.disabled = true
is_usable _ = false

abbrev pub ensure_user : Option User → Result (Unit {0})
ensure_user none = err not_found
ensure_user (some u) =
    if is_admin u.role
    then err invalid_account_transition
    else if is_usable u.status
    then ok tt
    else err invalid_account_transition

abbrev pub is_open_project_purge : ℕ → Job → Bool
is_open_project_purge owner j =
    holds j.owner owner && (same_kind j.kind JobKind.project_purge && is_job_open j.status)

abbrev pub is_export_ready : ExportStatus → Bool
is_export_ready ExportStatus.ready = true
is_export_ready _ = false

abbrev pub is_export_pending : ExportStatus → Bool
is_export_pending ExportStatus.pending = true
is_export_pending _ = false

abbrev pub is_fresh_export : Purger → Export → Bool
is_fresh_export by e =
    e.user == by.subject
    && (ltb by.now e.expires_at && (is_export_pending e.status || is_export_ready e.status))

-- A row of the join with `admin_job_metadata`.
abbrev pub joined_job : Db → Export → Option Job
joined_job db e = find_by (λ j. j.id == e.job) db.jobs

abbrev pub newer : Export → Job → Option (Export × Job) → Export × Job
newer e j none = (e, j)
newer e j (some (f, k)) = if leb f.created_at e.created_at then (e, j) else (f, k)

abbrev pub pick_export : Bool → Export → Option Job → Option (Export × Job) → Option (Export × Job)
pick_export true e (some j) rest = some (newer e j rest)
pick_export _ _ _ rest = rest

-- `ORDER BY e.created_at DESC LIMIT 1`; of two exports of the same time the first is taken.
unfoldable pub latest_export : Purger → Db → List Export → Option (Export × Job)
latest_export by db [] = none
latest_export by db (e ∷ es) =
    pick_export (is_fresh_export by e) e (joined_job db e) (latest_export by db es)

abbrev pub job_status_str : JobStatus → String
job_status_str JobStatus.queued = "queued"
job_status_str JobStatus.running = "running"
job_status_str JobStatus.succeeded = "succeeded"
job_status_str JobStatus.failed = "failed"

abbrev pub pending_response : Export × Job → AccountPurgeResponse
pending_response (e, j) = record {
  job = e.job;
  export = e.id;
  status = if is_export_ready e.status then "ready" else job_status_str j.status;
  confirmation_required = true;
}

abbrev pub queued_response : ℕ → ℕ → Bool → AccountPurgeResponse
queued_response job export confirm = record {
  job = job;
  export = export;
  status = "queued";
  confirmation_required = confirm;
}

abbrev pub purge_payload : String → ℕ → Purger → Json
purge_payload phase export by = object (
    ("phase", str phase)
    ∷ ("exportId", num export)
    ∷ ("requestedBy", num by.actor)
    ∷ ("reason", str by.reason)
    ∷ [])

abbrev pub purge_metadata : ℕ → ℕ → Purger → Json
purge_metadata job export by =
    object (("jobId", num job) ∷ ("exportId", num export) ∷ ("reason", str by.reason) ∷ [])

abbrev pub new_export : Purger → ℕ → ℕ → String → Export
new_export by export job key = record {
  id = export;
  user = by.subject;
  job = job;
  key = key;
  content_hash = none;
  size = none;
  status = ExportStatus.pending;
  created_at = by.now;
  expires_at = by.now + minutes (7 * 24 * 60);
  completed_at = none;
}

-- `export_key` formats the object key of an export: `users/…/exports/….tar.zst`.
unfoldable pub queue_export :
    (ℕ → ℕ → String) → Purger → ℕ → ℕ → Db → Result (AccountPurgeResponse × Db)
queue_export export_key by job export db = do
  db₁ ←
      insert_job
        (new_job job JobKind.account_purge by.subject none by.now
          (purge_payload "export" export by))
        db
  db₂ ←
      insert_audit by.actor (some by.subject) "account.purge_export_requested"
        (purge_metadata job export by) by.request
        (record db₁ {
          exports = new_export by export job (export_key by.subject export) ∷ db₁.exports;
        })
  ok (queued_response job export true, db₂)

abbrev pub export_found :
    Db
    → Option (Export × Job)
    → Result (AccountPurgeResponse × Db)
    → Result (AccountPurgeResponse × Db)
export_found db (some found) new = ok (pending_response found, db)
export_found db none new = new

-- `job` and `export` are the new UUIDs.
unfoldable pub request_export :
    (ℕ → ℕ → String) → Purger → ℕ → ℕ → Db → Result (AccountPurgeResponse × Db)
unfolding queue_export latest_export
request_export export_key by job export db = do
  admin ← require_admin by.actor db
  other ← ensure_other by
  usable ← ensure_user (find_by (λ u. u.id == by.subject) db.users)
  free ← ensure_no_active (any_by (is_open_project_purge by.subject) db.jobs)
  export_found db (latest_export by db db.exports) (queue_export export_key by job export db)

unfoldable pub request_account_purge_export :
    (ℕ → ℕ → String) → Purger → ℕ → ℕ → Db → Result AccountPurgeResponse × Db
unfolding request_export
request_account_purge_export export_key by job export db =
    commit_ok db (request_export export_key by job export db)

abbrev pub is_job_succeeded : JobStatus → Bool
is_job_succeeded JobStatus.succeeded = true
is_job_succeeded _ = false

abbrev pub ensure_export : Option Job → Option Export → Result (Unit {0})
ensure_export (some j) (some e) =
    if is_export_ready e.status && is_job_succeeded j.status
    then ok tt
    else err account_purge_not_ready
ensure_export _ _ = err account_purge_not_ready

abbrev pub job_of : Db → Option Export → Option Job
job_of db none = none
job_of db (some e) = joined_job db e

abbrev pub is_live_export : Purger → ℕ → Export → Bool
is_live_export by export e = e.id == export && (e.user == by.subject && ltb by.now e.expires_at)

-- `JOIN admin_project_metadata p ON p.id = r.project_id WHERE p.owner_user_id = $1`
abbrev pub is_owned_open_restore : Db → ℕ → RestoreJob → Bool
is_owned_open_restore db owner r =
    is_open r.status && any_by (λ p. p.id == r.project && p.owner == owner) db.projects

-- `status IN ('active', 'disabled', 'maintenance')`
abbrev pub is_not_deleting : ProjectStatus → Bool
is_not_deleting ProjectStatus.deleting = false
is_not_deleting _ = true

unfoldable pub close_account : Purger → ℕ → Db → Db
close_account by export db =
    record (set_project_status by.now (λ p. p.owner == by.subject && is_not_deleting p.status)
      ProjectStatus.deleting db) {
        users =
            update_where (λ u. u.id == by.subject && is_usable u.status)
              (λ u. record u { status = AccountStatus.deleting }) db.users;
        exports =
            update_where (λ e. e.id == export) (λ e. record e { status = ExportStatus.purging })
              db.exports;
      }

unfoldable pub confirm_purge : Purger → ℕ → ℕ → Db → Result (AccountPurgeResponse × Db)
unfolding close_account
confirm_purge by job export db = do
  admin ← require_admin by.actor db
  other ← ensure_other by
  usable ← ensure_user (find_by (λ u. u.id == by.subject) db.users)
  let found = find_by (is_live_export by export) db.exports
  ready ← ensure_export (job_of db found) found
  idle ← ensure_no_active (any_by (is_owned_open_restore db by.subject) db.restores)
  free ← ensure_no_active (any_by (is_open_project_purge by.subject) db.jobs)
  db₁ ←
      insert_job
        (new_job job JobKind.account_purge by.subject none by.now (purge_payload "purge" export by))
        (close_account by export db)
  db₂ ←
      insert_audit by.actor (some by.subject) "account.purge_requested"
        (purge_metadata job export by) by.request db₁
  ok (queued_response job export false, db₂)

unfoldable pub confirm_account_purge : Purger → ℕ → ℕ → Db → Result AccountPurgeResponse × Db
unfolding confirm_purge
confirm_account_purge by job export db = commit_ok db (confirm_purge by job export db)
