-- ===== src/Purge/Account.antt =====
-- The purge of an account: what the worker does for a claimed job in its two phases.
pub mod Runs
pub mod Archive
use tasktips_cloud.Base.{
  ℕ, Bool, true, false, ◌&&◌, not, String, Option, none, some, List, [], ◌∷◌, ◌++◌, map, ◌==◌, leb,
  str_eq, concat, if◌then◌else◌, find_by, any_by, delete_where, update_where,
}
use tasktips_cloud.Domain.{AccountStatus}
use tasktips_cloud.Json.{Json, bool, num, arr, object}
use tasktips_cloud.Store.Errors.{
  not_found, invalid_account_transition, invalid_payload, database, Result, ok, err, ◌>>=◌,
}
use tasktips_cloud.Store.Schema.{Db, User, Export, ExportStatus, Job, JobKind, JobStatus}
use tasktips_cloud.Store.Transaction.{commit_ok, done}
use tasktips_cloud.Auth.Rows.{insert_audit}
use tasktips_cloud.Sync.Item.{i64_max}
use tasktips_cloud.Purge.Jobs.{
  is_running_with, change_jobs, not_null, held_job, get, text_of, uuid_of, uuid_or, failed_job,
  finish_job, purge_attempts, found_row, text_items, same_kind,
}
use tasktips_cloud.Purge.Rows.{of_owner, delete_rows, select_where, distinct, row_keys, sort_keys}
use tasktips_cloud.Purge.Project.{set_payload, stored_or}
use tasktips_cloud.Purge.Requests.{is_export_pending}

abbrev pub ensure_size : ℕ → Result (Unit {0})
ensure_size size = if leb size i64_max then ok tt else err invalid_payload

abbrev pub ready_export : ℕ → String → ℕ → Export → Export
ready_export now hash size e = record e {
  status = ExportStatus.ready;
  content_hash = some hash;
  size = some size;
  completed_at = some now;
}

unfoldable pub change_exports : (Export → Bool) → (Export → Export) → Db → Db
change_exports test f db = record db { exports = update_where test f db.exports }

-- `"requestedBy"` of the payload, or the owner.
abbrev pub requester : Job → ℕ → ℕ
requester j owner = uuid_or (get "requestedBy" j.payload) owner

abbrev pub export_metadata : ℕ → ℕ → Json
export_metadata job export = object (("jobId", num job) ∷ ("exportId", num export) ∷ [])

unfoldable pub end_account_export : ℕ → ℕ → ℕ → ℕ → String → ℕ → Db → Result Db
unfolding held_job get change_exports finish_job
end_account_export now job lease export hash size db = do
  j ← held_job JobKind.account_purge now job lease db
  owner ← not_null j.owner
  fits ← ensure_size size
  insert_audit (requester j owner) (some owner) "account.purge_export_ready"
      (export_metadata job export) ""
      (finish_job now job lease (
        change_exports (λ e. e.id == export && (e.user == owner && is_export_pending e.status))
          (ready_export now hash size) db))

unfoldable pub complete_account_export : ℕ → ℕ → ℕ → ℕ → String → ℕ → Db → Result (Unit {0}) × Db
unfolding end_account_export
complete_account_export now job lease export hash size db =
    commit_ok db (done (end_account_export now job lease export hash size db))

abbrev pub account_deleting : AccountStatus → User → Result User
account_deleting AccountStatus.deleting u = ok u
account_deleting _ u = err invalid_account_transition

abbrev pub ensure_account_deleting : Option User → Result User
ensure_account_deleting none = err not_found
ensure_account_deleting (some u) = account_deleting u.status u

-- The four sources of the UNION, sorted.
abbrev pub account_keys : ℕ → ℕ → Db → List String
account_keys owner export db = sort_keys (
    distinct (
      row_keys (of_owner owner) db
      ++ map (λ (e : Export). e.key) (select_where (λ e. e.id == export) db.exports)))

-- Behind the tables of the projects come the projects, the sessions and the invitation.
unfoldable pub delete_account : User → Db → Db
unfolding delete_rows
delete_account u db = record (delete_rows (of_owner u.id) db) {
  projects = delete_where (λ p. p.owner == u.id) db.projects;
  tokens = delete_where (λ t. t.user == u.id) db.tokens;
  devices = delete_where (λ d. d.owner == u.id) db.devices;
  invitations = delete_where (λ i. str_eq i.email_normalized u.email_normalized) db.invitations;
}

abbrev pub detached_account : ℕ → List String → Json
detached_account export keys = object (
    ("detached", bool true) ∷ ("exportId", num export) ∷ ("objectKeys", arr (text_items keys)) ∷ [])

unfoldable pub detach_account : Json → ℕ → ℕ → ℕ → Db → Result (List String × Db)
unfolding get delete_account set_payload
detach_account payload owner job lease db = do
  export ← uuid_of (get "exportId" payload)
  u ← ensure_account_deleting (find_by (λ u. u.id == owner) db.users)
  let keys = account_keys owner export db
  ok (keys, set_payload job lease (detached_account export keys) (delete_account u db))

unfoldable pub account_purge : ℕ → ℕ → ℕ → Db → Result (List String × Db)
unfolding detach_account
account_purge now job lease db = do
  j ← held_job JobKind.account_purge now job lease db
  owner ← not_null j.owner
  stored_or j.payload db (detach_account j.payload owner job lease db)

unfoldable pub prepare_account_purge : ℕ → ℕ → ℕ → Db → Result (List String) × Db
unfolding account_purge
prepare_account_purge now job lease db = commit_ok db (account_purge now job lease db)

-- `format!` of the owner's UUID, whose text is a parameter.
abbrev pub deleted_user : (ℕ → String) → User → User
deleted_user uuid_text u = record u {
  status = AccountStatus.deleted;
  email_normalized = concat ("deleted+" ∷ uuid_text u.id ∷ "@invalid.tasktips" ∷ []);
  email_display = "deleted";
  password_hash = concat ("!deleted!" ∷ uuid_text u.id ∷ []);
  last_login_at = none;
}

abbrev pub is_account_deleting : AccountStatus → Bool
is_account_deleting AccountStatus.deleting = true
is_account_deleting _ = false

abbrev pub is_dying : ℕ → User → Bool
is_dying owner u = u.id == owner && is_account_deleting u.status

-- The update, with `users_email_normalized_key`.
unfoldable pub bury_user : (ℕ → String) → ℕ → Db → Result Db
bury_user uuid_text owner db =
    if any_by (is_dying owner) db.users
      && any_by
          (λ u.
            not (u.id == owner)
            && str_eq u.email_normalized
                (concat ("deleted+" ∷ uuid_text owner ∷ "@invalid.tasktips" ∷ [])))
          db.users
    then err database
    else ok (record db { users = update_where (is_dying owner) (deleted_user uuid_text) db.users })

unfoldable pub end_account_purge : (ℕ → String) → ℕ → ℕ → ℕ → Db → Result Db
unfolding held_job get change_exports finish_job
end_account_purge uuid_text now job lease db = do
  j ← held_job JobKind.account_purge now job lease db
  owner ← not_null j.owner
  export ← uuid_of (get "exportId" j.payload)
  db₁ ← bury_user uuid_text owner db
  insert_audit (requester j owner) (some owner) "account.purge_completed"
      (export_metadata job export) ""
      (finish_job now job lease (
        change_exports (λ e. e.id == export && e.user == owner)
          (λ e. record e { status = ExportStatus.completed; completed_at = some now }) db₁))

unfoldable pub complete_account_purge : (ℕ → String) → ℕ → ℕ → ℕ → Db → Result (Unit {0}) × Db
unfolding end_account_purge
complete_account_purge uuid_text now job lease db =
    commit_ok db (done (end_account_purge uuid_text now job lease db))

-- `CASE WHEN $2 = 'failed' THEN 'failed' ELSE 'pending' END`
abbrev pub export_after : Job → ExportStatus
export_after j = if leb purge_attempts j.attempts then ExportStatus.failed else ExportStatus.pending

abbrev pub fail_export : String → ℕ → Job → Db → Db
fail_export phase job j db =
    if str_eq phase "export"
    then change_exports (λ e. e.job == job && is_export_pending e.status)
        (λ e. record e { status = export_after j }) db
    else db

-- `WHERE id = $1 AND kind = 'account_purge' AND status = 'running' AND lease_token = $2`
abbrev pub is_running_account_purge : ℕ → ℕ → Job → Bool
is_running_account_purge job lease j =
    is_running_with job lease j && same_kind j.kind JobKind.account_purge

unfoldable pub fail_purge : ℕ → ℕ → ℕ → String → Db → Result Db
unfolding get change_jobs change_exports
fail_purge now job lease code db = do
  p ← found_row (find_by (is_running_account_purge job lease) db.jobs)
  j ← found_row (find_by (is_running_with job lease) db.jobs)
  ok (
      fail_export (text_of (get "phase" p.payload)) job j
        (change_jobs (is_running_with job lease) (failed_job now code) db))

unfoldable pub fail_account_purge : ℕ → ℕ → ℕ → String → Db → Result (Unit {0}) × Db
unfolding fail_purge
fail_account_purge now job lease code db = commit_ok db (done (fail_purge now job lease code db))
