-- ===== src/Restore/History/Requested.antt =====
-- What the requests and the preparation of a snapshot keep of the soundness of the jobs.
use tasktips_cloud.Base.{
  ℕ, ◌≡◌, refl, ap, true, false, ◌&&◌, String, Option, some, ◌∷◌, ◌==◌, arith, find_by, any_by,
  count_by, update_where, count_by_none, ℤ,
}
use tasktips_cloud.Json.{Json}
use tasktips_cloud.Store.Errors.{ok, steps_of_ok}
use tasktips_cloud.Store.Schema.{Db, RestoreJob, RestoreStatus, cancelled, Snapshot}
use tasktips_cloud.Store.Transaction.{ok_state}
use tasktips_cloud.Auth.Rows.{insert_audit}
use tasktips_cloud.Sync.Push.{project_state}
use tasktips_cloud.Restore.Jobs.{is_queued, is_running, is_active_job, update_jobs, insert_restore}
use tasktips_cloud.Restore.Requests.{
  Asker, of_policy, ensure_no_active, ensure_reached, ensure_snapshot, request_restore, queued_job,
  request_cancel, cancel_by_status, found_job, is_own_job,
}
use tasktips_cloud.Restore.Policy.{validate_restore_target}
use tasktips_cloud.Restore.Snapshot.{
  Formats, is_job_leased, prepare_snapshot, insert_snapshot, joined, ensure_wanted,
}
use tasktips_cloud.Restore.History.Sound.{JobsSound, update_where-JobsSound}
use tasktips_cloud.Restore.History.Leased.{insert_audit_restores}

-- The operations of a user.
enqueued-JobsSound :
    (by : Asker) (id : ℕ) (snapshot : Option ℕ) (target : Option ℤ) (db db' : Db)
    → insert_restore (queued_job by id snapshot target) by.reason db ≡ ok db'
    → JobsSound db.restores
    → JobsSound db'.restores
unfolding insert_restore count_by
enqueued-JobsSound by id snapshot target db db' e s =
    let new_id : any_by (λ j. j.id == id) db.restores ≡ false = ground arith in
    let none_open : any_by (is_active_job by.project) db.restores ≡ false = ground arith in
    let grown : db'.restores ≡ queued_job by id snapshot target ∷ db.restores = ground arith in
    rw grown (record {
      jobs = (refl, s.jobs);
      ids =
          λ other. ground (arith, s.ids other, count_by_none (λ j. j.id == id) db.restores new_id);
      one_open = λ project. ground (
        arith,
        s.one_open project,
        count_by_none (is_active_job by.project) db.restores none_open,
      );
    })

pub request_restore-JobsSound :
    (by : Asker) (id : ℕ) (snapshot : Option ℕ) (target : Option ℤ) (db db' : Db) (job : RestoreJob)
    → request_restore by id snapshot target db ≡ ok (job, db')
    → JobsSound db.restores
    → JobsSound db'.restores
unfolding request_restore
request_restore-JobsSound by id snapshot target db db' job e s =
    let (v, e₁, valid) = steps_of_ok (of_policy (validate_restore_target snapshot target)) _ e in
    let ((generation, current), e₂, state) =
      steps_of_ok (project_state by.user by.project db) _ e₁ in
    let (f, e₃, free) =
      steps_of_ok
        (ensure_no_active
          (any_by (λ j. is_active_job by.project j && j.owner == by.user) db.restores))
        _ e₂ in
    let (r, e₄, reached) = steps_of_ok (ensure_reached current target) _ e₃ in
    let (b, e₅, belongs) = steps_of_ok (ensure_snapshot by db snapshot) _ e₄ in
    let (db₁, e₆, inserted) =
      steps_of_ok (insert_restore (queued_job by id snapshot target) by.reason db) _ e₅ in
    let (db₂, e₇, audited) =
      steps_of_ok (insert_audit by.user (some by.user) _ _ by.request db₁) _ e₆ in
    let same : db₂.restores ≡ db'.restores = cc in
    rw (← same, insert_audit_restores by.user (some by.user) _ _ by.request db₁ db₂ audited)
      (enqueued-JobsSound by id snapshot target db db₁ inserted s)

cancel_by_status-JobsSound :
    (by : Asker) (id : ℕ) (status : RestoreStatus) (action : String) (db db' : Db)
    → cancel_by_status by id db status ≡ ok (action, db')
    → JobsSound db.restores
    → JobsSound db'.restores
unfolding update_jobs
cancel_by_status-JobsSound by id RestoreStatus.queued action db db' e s =
    let same : db'.restores
        ≡ update_where (λ j. j.id == id && is_queued j.status && j.owner == by.user)
            (λ j. record j { status = cancelled; finished_at = some (by.now) }) db.restores =
      cc in
    rw same (
      update_where-JobsSound _ _ db.restores (λ j h e. ground arith) (λ j h e. absurd (cc e))
        (λ j. (refl, refl)) s)
cancel_by_status-JobsSound by id RestoreStatus.running action db db' e s =
    let same : db'.restores
        ≡ update_where (λ j. j.id == id && is_running j.status && j.owner == by.user)
            (λ j. record j { cancel_requested = true }) db.restores =
      cc in
    rw same (update_where-JobsSound _ _ db.restores (λ j h e. e) (λ j h e. e) (λ j. (refl, refl)) s)
cancel_by_status-JobsSound by id RestoreStatus.succeeded action db db' e s = absurd (cc)
cancel_by_status-JobsSound by id RestoreStatus.failed action db db' e s = absurd (cc)
cancel_by_status-JobsSound by id RestoreStatus.cancelled action db db' e s = absurd (cc)

pub request_cancel-JobsSound :
    (by : Asker) (id : ℕ) (db db' : Db) (job : RestoreJob)
    → request_cancel by id db ≡ ok (job, db')
    → JobsSound db.restores
    → JobsSound db'.restores
unfolding request_cancel
request_cancel-JobsSound by id db db' job e s =
    let (j, e₁, found) = steps_of_ok (found_job (find_by (is_own_job by id) db.restores)) _ e in
    let ((action, db₁), e₂, cancelled_) = steps_of_ok (cancel_by_status by id db j.status) _ e₁ in
    let (db₂, e₃, audited) =
      steps_of_ok (insert_audit by.user (some by.user) action _ by.request db₁) _ e₂ in
    let (k, e₄, again) = steps_of_ok (found_job (find_by (is_own_job by id) db₂.restores)) _ e₃ in
    let same : db₂.restores ≡ db'.restores = cc in
    rw (← same, insert_audit_restores by.user (some by.user) action _ by.request db₁ db₂ audited)
      (cancel_by_status-JobsSound by id j.status action db db₁ cancelled_ s)

insert_snapshot_restores :
    (x : Snapshot) (db db' : Db) → insert_snapshot x db ≡ ok db' → db'.restores ≡ db.restores
unfolding insert_snapshot
insert_snapshot_restores x db db' e = ground arith

pub prepare_snapshot-JobsSound :
    (fmt : Formats) (id : ℕ) (job : RestoreJob) (db db' : Db) (made : ℕ × ℕ × Json)
    → prepare_snapshot fmt id job db ≡ ok (made, db')
    → JobsSound db.restores
    → JobsSound db'.restores
unfolding prepare_snapshot update_jobs
prepare_snapshot-JobsSound fmt id job db db' made e s =
    let ((j, p), e₁, found) =
      steps_of_ok
        (joined (find_by (is_job_leased job) db.restores)
          (find_by (λ p. p.id == job.project) db.projects))
        _ e in
    let (w, e₂, wanted) = steps_of_ok (ensure_wanted j.cancel_requested) _ e₁ in
    let (db₁, e₃, inserted) = steps_of_ok (insert_snapshot _ db) _ e₂ in
    let kept : db₁.restores ≡ db.restores = insert_snapshot_restores _ db db₁ inserted in
    let same = ap (λ d. d.restores) (ok_state _ _ _ db' e₃) in
    rw (← same, kept)
      (update_where-JobsSound (is_job_leased job) (λ j. record j { pre_restore_snapshot = some id })
        db.restores (λ j h e. e) (λ j h e. e) (λ j. (refl, refl)) s)
