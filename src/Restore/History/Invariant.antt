-- ===== src/Restore/History/Invariant.antt =====
-- Every operation keeps the restore jobs sound, and so does every sequence of them.
use tasktips_cloud.Base.{◌≡◌, inl, inr, ◌&&◌, none, List, [], ◌∷◌, ◌==◌, find_by, any_by}
use tasktips_cloud.Store.Errors.{Result, ok, steps_of_ok}
use tasktips_cloud.Store.Schema.{Db}
use tasktips_cloud.Store.Transaction.{commit_ok, commit_ok-cases, done, done-eq-ok}
use tasktips_cloud.Restore.Jobs.{is_failed, set_project_status}
use tasktips_cloud.Restore.Requests.{
  Asker, request_restore, enqueue_restore, request_cancel, cancel_restore, reopen,
  reopen_failed_restore, require_admin, in_maintenance, ensure_failed,
}
use tasktips_cloud.Restore.Worker.{
  mark_snapshot, mark_snapshot_ready, mark_snapshot_ready_for_job, cancel_leased,
  cancel_restore_with_lease,
}
use tasktips_cloud.Restore.Snapshot.{prepare_snapshot, create_pre_restore_snapshot}
use tasktips_cloud.Restore.Execute.{run_restore, execute_restore_with_lease}
use tasktips_cloud.Restore.History.{
  RestoreOp, enqueue, cancel, claim, prepare, mark, mark_for_job, renew, fail, fail_leased, retry,
  execute, restore_step, restore_run,
}
use tasktips_cloud.Restore.History.Sound.{JobsSound, claim-JobsSound}
use tasktips_cloud.Restore.History.Leased.{
  insert_audit_restores, renewed-JobsSound, failed-JobsSound, failed_leased-JobsSound,
  retried-JobsSound, cancel_leased-JobsSound, run_restore-JobsSound,
}
use tasktips_cloud.Restore.History.Requested.{
  request_restore-JobsSound, request_cancel-JobsSound, prepare_snapshot-JobsSound,
}

module _ {A : Type 0} (db : Db) (step : Result (A × Db))
    (sound : (a : A) (db' : Db)
      → step ≡ ok (a, db')
      → JobsSound db.restores
      → JobsSound db'.restores) where
  committed-JobsSound : JobsSound db.restores → JobsSound (commit_ok db step).1.restores
  committed-JobsSound s = elim (commit_ok-cases db step) [
    | inl same ↦ rw same s
    | inr (a, db', e, same) ↦ rw same (sound a db' e s)
  ]

reopen_restores : (by : Asker) (db db' : Db) → reopen by db ≡ ok db' → db'.restores ≡ db.restores
unfolding reopen set_project_status
reopen_restores by db db' e =
    let (a, e₁, admin) = steps_of_ok (require_admin by.user db) _ e in
    let (m, e₂, closed) =
      steps_of_ok (in_maintenance (find_by (λ p. p.id == by.project) db.projects)) _ e₁ in
    let (f, e₃, has_failed) =
      steps_of_ok
        (ensure_failed (any_by (λ j. j.project == by.project && is_failed j.status) db.restores)) _
        e₂ in
    insert_audit_restores by.user none "restore.reopened" _ by.request _ db' e₃

-- Every operation keeps the jobs sound.
restore_step-JobsSound :
    (op : RestoreOp) (db : Db) → JobsSound db.restores → JobsSound (restore_step op db).restores
unfolding restore_step enqueue_restore cancel_restore reopen_failed_restore
    create_pre_restore_snapshot mark_snapshot_ready mark_snapshot_ready_for_job mark_snapshot
    cancel_restore_with_lease execute_restore_with_lease
restore_step-JobsSound (enqueue by id snapshot target) db s =
    committed-JobsSound db (request_restore by id snapshot target db)
      (λ job db' e. request_restore-JobsSound by id snapshot target db db' job e) s
restore_step-JobsSound (cancel by id) db s =
    committed-JobsSound db (request_cancel by id db)
      (λ job db' e. request_cancel-JobsSound by id db db' job e) s
restore_step-JobsSound (RestoreOp.reopen by) db s =
    committed-JobsSound db (done (reopen by db))
      (λ u db' e h. rw (reopen_restores by db db' (done-eq-ok _ u db' e)) h) s
restore_step-JobsSound (claim now locked lease) db s = claim-JobsSound now locked lease db s
restore_step-JobsSound (prepare fmt id job) db s =
    committed-JobsSound db (prepare_snapshot fmt id job db)
      (λ made db' e. prepare_snapshot-JobsSound fmt id job db db' made e) s
restore_step-JobsSound (mark snapshot bucket key) db s = s
restore_step-JobsSound (mark_for_job job lease snapshot bucket key) db s = s
restore_step-JobsSound (renew now job lease) db s = renewed-JobsSound now job lease db s
restore_step-JobsSound (RestoreOp.cancel_leased now job lease) db s =
    committed-JobsSound db (done (cancel_leased now job lease db))
      (λ u db' e h. cancel_leased-JobsSound now job lease db db' h (done-eq-ok _ u db' e)) s
restore_step-JobsSound (fail now job code) db s = failed-JobsSound now job code db s
restore_step-JobsSound (fail_leased now job lease code) db s =
    failed_leased-JobsSound now job lease code db s
restore_step-JobsSound (retry now job lease code) db s = retried-JobsSound now job lease code db s
restore_step-JobsSound (execute now ids job lease) db s =
    committed-JobsSound db (done (run_restore now ids job lease db))
      (λ u db' e h. run_restore-JobsSound now ids job lease db db' h (done-eq-ok _ u db' e)) s

-- However requests, claims, renewals, retries, cancellations, failures and restores follow one
-- another, the jobs stay sound: none has been tried more than three times, an open one fewer, a
-- running one has a lease, a generation and a start, a closed one has an end; identifiers are
-- unique, and each project has at most one open job.
pub restore_run-JobsSound :
    (ops : List RestoreOp) (db : Db)
    → JobsSound db.restores
    → JobsSound (restore_run ops db).restores
unfolding restore_run
restore_run-JobsSound [] db s = s
restore_run-JobsSound (op ∷ ops) db s =
    restore_run-JobsSound ops (restore_step op db) (restore_step-JobsSound op db s)
