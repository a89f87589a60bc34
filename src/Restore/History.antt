-- ===== src/Restore/History.antt =====
-- The operations on restore jobs one after the other, in any order and by any worker.
pub mod Sound
pub mod Leased
pub mod Requested
pub mod Invariant
use tasktips_cloud.Base.{ℕ, Bool, String, Option, List, [], ◌∷◌, ℤ}
use tasktips_cloud.Store.Schema.{Db, RestoreJob}
use tasktips_cloud.Restore.Requests.{Asker, enqueue_restore, cancel_restore, reopen_failed_restore}
use tasktips_cloud.Restore.Worker.{
  claim_restore_job, mark_snapshot_ready, mark_snapshot_ready_for_job, renew_restore_lease,
  cancel_restore_with_lease, fail_restore_job, fail_restore_job_with_lease,
  retry_restore_job_with_lease,
}
use tasktips_cloud.Restore.Snapshot.{Formats, create_pre_restore_snapshot}
use tasktips_cloud.Restore.Execute.{execute_restore_with_lease}

pub data RestoreOp : Type 0 where
  enqueue : (by : Asker) (id : ℕ) (snapshot : Option ℕ) (target : Option ℤ) → RestoreOp
  cancel : (by : Asker) (id : ℕ) → RestoreOp
  reopen : (by : Asker) → RestoreOp
  claim : (now : ℕ) (locked : ℕ → Bool) (lease : ℕ) → RestoreOp
  prepare : (fmt : Formats) (id : ℕ) (job : RestoreJob) → RestoreOp
  mark : (snapshot : ℕ) (bucket key : String) → RestoreOp
  mark_for_job : (job lease snapshot : ℕ) (bucket key : String) → RestoreOp
  renew : (now job lease : ℕ) → RestoreOp
  cancel_leased : (now job lease : ℕ) → RestoreOp
  fail : (now job : ℕ) (code : String) → RestoreOp
  fail_leased : (now job lease : ℕ) (code : String) → RestoreOp
  retry : (now job lease : ℕ) (code : String) → RestoreOp
  execute : (now : ℕ) (ids : ℕ → ℕ) (job lease : ℕ) → RestoreOp

-- The state after an operation, whatever it returns.
unfoldable pub restore_step : RestoreOp → Db → Db
restore_step (enqueue by id snapshot target) db = (enqueue_restore by id snapshot target db).1
restore_step (cancel by id) db = (cancel_restore by id db).1
restore_step (reopen by) db = (reopen_failed_restore by db).1
restore_step (claim now locked lease) db = (claim_restore_job now locked lease db).1
restore_step (prepare fmt id job) db = (create_pre_restore_snapshot fmt id job db).1
restore_step (mark snapshot bucket key) db = mark_snapshot_ready snapshot bucket key db
restore_step (mark_for_job job lease snapshot bucket key) db =
    mark_snapshot_ready_for_job job lease snapshot bucket key db
restore_step (renew now job lease) db = (renew_restore_lease now job lease db).1
restore_step (cancel_leased now job lease) db = (cancel_restore_with_lease now job lease db).1
restore_step (fail now job code) db = fail_restore_job now job code db
restore_step (fail_leased now job lease code) db = fail_restore_job_with_lease now job lease code db
restore_step (retry now job lease code) db = (retry_restore_job_with_lease now job lease code db).1
restore_step (execute now ids job lease) db = (execute_restore_with_lease now ids job lease db).1

unfoldable pub restore_run : List RestoreOp → Db → Db
restore_run [] db = db
restore_run (op ∷ ops) db = restore_run ops (restore_step op db)
