-- ===== src/Purge/History.antt =====
-- The purge operations as steps on the database, and what each does to the table of jobs.
pub mod Moves
pub mod Sound
pub mod Kept
pub mod Again
pub mod Repeats
use tasktips_cloud.Base.{ℕ, Bool, String, List, [], ◌∷◌}
use tasktips_cloud.Store.Schema.{Db, JobKind}
use tasktips_cloud.Restore.Requests.{Asker}
use tasktips_cloud.Purge.Jobs.{claim_job, renew_account_purge_lease, fail_project_purge}
use tasktips_cloud.Purge.Project.{
  enqueue_project_purge, prepare_project_purge, complete_project_purge,
}
use tasktips_cloud.Purge.Requests.{Purger, request_account_purge_export, confirm_account_purge}
use tasktips_cloud.Purge.Account.{
  complete_account_export, prepare_account_purge, complete_account_purge, fail_account_purge,
}

-- A call, with its time, the lease that it names or makes, and the new UUIDs.
pub data PurgeOp : Type 0 where
  claim : (kind : JobKind) (now : ℕ) (locked : ℕ → Bool) (lease : ℕ) → PurgeOp
  renew : (now job lease : ℕ) → PurgeOp
  fail_project : (now job lease : ℕ) (code : String) → PurgeOp
  fail_account : (now job lease : ℕ) (code : String) → PurgeOp
  complete_project : (now job lease : ℕ) → PurgeOp
  complete_export : (now job lease export : ℕ) (hash : String) (size : ℕ) → PurgeOp
  complete_account : (uuid_text : ℕ → String) (now job lease : ℕ) → PurgeOp
  detach_project_rows : (now job lease : ℕ) → PurgeOp
  detach_account_rows : (now job lease : ℕ) → PurgeOp
  enqueue : (by : Asker) (job : ℕ) → PurgeOp
  request : (export_key : ℕ → ℕ → String) (by : Purger) (job export : ℕ) → PurgeOp
  confirm : (by : Purger) (job export : ℕ) → PurgeOp

unfoldable pub purge_op : PurgeOp → Db → Db
purge_op (PurgeOp.claim kind now locked lease) db = (claim_job kind now locked lease db).1
purge_op (PurgeOp.renew now job lease) db = (renew_account_purge_lease now job lease db).1
purge_op (PurgeOp.fail_project now job lease code) db = (fail_project_purge now job lease code db).1
purge_op (PurgeOp.fail_account now job lease code) db = (fail_account_purge now job lease code db).1
purge_op (PurgeOp.complete_project now job lease) db = (complete_project_purge now job lease db).1
purge_op (PurgeOp.complete_export now job lease export hash size) db =
    (complete_account_export now job lease export hash size db).1
purge_op (PurgeOp.complete_account uuid_text now job lease) db =
    (complete_account_purge uuid_text now job lease db).1
purge_op (PurgeOp.detach_project_rows now job lease) db = (prepare_project_purge now job lease db).1
purge_op (PurgeOp.detach_account_rows now job lease) db = (prepare_account_purge now job lease db).1
purge_op (PurgeOp.enqueue by job) db = (enqueue_project_purge by job db).1
purge_op (PurgeOp.request export_key by job export) db =
    (request_account_purge_export export_key by job export db).1
purge_op (PurgeOp.confirm by job export) db = (confirm_account_purge by job export db).1

unfoldable pub purge_ops : List PurgeOp → Db → Db
unfolding purge_op
purge_ops [] db = db
purge_ops (o ∷ os) db = purge_ops os (purge_op o db)
