-- ===== src/Purge/History/Moves.antt =====
-- Each operation leaves the jobs alone, moves some of them, stores a payload, or adds a new one.
use tasktips_cloud.Base.{
  ℕ, ◌+◌, ◌≡◌, refl, ap, ◌⊎◌, inl, inr, Bool, false, String, Option, none, List, ◌∷◌, ◌==◌, arith,
  some, find_by, any_by, update_where,
}
use tasktips_cloud.Json.{Json}
use tasktips_cloud.Store.Schema.{Db, Job, JobKind}
use tasktips_cloud.Auth.Rows.{insert_audit, insert_audit_nullable}
use tasktips_cloud.Restore.Jobs.{set_project_status, minutes}
use tasktips_cloud.Restore.Requests.{Asker}
use tasktips_cloud.Purge.Jobs.{
  is_running_with, is_held, is_leased_as, new_job, insert_job, claimed_job, failed_job,
  succeeded_job, finish_job, held_job, change_jobs, claim_job, claim_due, next_due, get, is_true,
  renew_account_purge_lease, fail_project_purge,
}
use tasktips_cloud.Purge.Rows.{delete_rows}
use tasktips_cloud.Purge.Project.{
  enqueue_project_purge, queue_project_purge, complete_project_purge, end_project_purge,
  prepare_project_purge, project_purge, delete_project, set_payload, requested_purge,
  detached_payload,
}
use tasktips_cloud.Purge.Requests.{
  Purger, request_account_purge_export, request_export, queue_export, confirm_account_purge,
  confirm_purge, close_account, purge_payload,
}
use tasktips_cloud.Purge.Account.{
  complete_account_export, end_account_export, complete_account_purge, end_account_purge, bury_user,
  change_exports, prepare_account_purge, account_purge, delete_account, detached_account,
  fail_account_purge, fail_purge,
}
use tasktips_cloud.Purge.Project.Runs.{prepare_project_purge-PurgeRun}
use tasktips_cloud.Purge.Account.Runs.{prepare_account_purge-AccountRun}
use tasktips_cloud.Store.Errors.{Result, ok, err}
use tasktips_cloud.Store.Transaction.{commit_ok-eq-err}
use tasktips_cloud.Purge.History.{PurgeOp, purge_op}

-- An update of the jobs that keeps their payloads.
pub data JobMove : Type 0 where
  claims : (id now lease : ℕ) → JobMove
  renews : (kind : JobKind) (now job lease expiry : ℕ) → JobMove
  fails : (now job lease : ℕ) (code : String) → JobMove
  succeeds : (now job lease : ℕ) → JobMove

abbrev pub moved : JobMove → Job → Bool
moved (JobMove.claims id now lease) j = j.id == id
moved (JobMove.renews kind now job lease expiry) j = is_held kind now job lease j
moved (JobMove.fails now job lease code) j = is_running_with job lease j
moved (JobMove.succeeds now job lease) j = is_leased_as job lease j

abbrev pub move : JobMove → Job → Job
move (JobMove.claims id now lease) j = claimed_job now lease j
move (JobMove.renews kind now job lease expiry) j = record j { lease_expires_at = some expiry }
move (JobMove.fails now job lease code) j = failed_job now code j
move (JobMove.succeeds now job lease) j = succeeded_job now j

pub data JobsChange (before after : List Job) : Type 0 where
  same : after ≡ before → JobsChange before after
  moves : (m : JobMove) → after ≡ update_where (moved m) (move m) before → JobsChange before after
  stores :
      (kind : JobKind) (now job lease : ℕ) (payload : Json) (j : Job)
      → find_by (is_held kind now job lease) before ≡ some j
      → is_true (get "detached" j.payload) ≡ false
      → after
        ≡ update_where (is_running_with job lease) (λ k. record k { payload = payload }) before
      → JobsChange before after
  adds :
      (id : ℕ) (kind : JobKind) (owner : ℕ) (project : Option ℕ) (now : ℕ) (payload : Json)
      → any_by (λ j. j.id == id) before ≡ false
      → after ≡ new_job id kind owner project now payload ∷ before
      → JobsChange before after

abbrev pub OneMove : JobMove → List Job → List Job → Type 0
OneMove m before after = (after ≡ before) ⊎ (after ≡ update_where (moved m) (move m) before)

pub one_move :
    (m : JobMove) (before after : List Job) → OneMove m before after → JobsChange before after
one_move m before after (inl e) = JobsChange.same e
one_move m before after (inr e) = JobsChange.moves m e

pub complete_project-OneMove :
    (now job lease : ℕ) (db : Db)
    → OneMove
        (JobMove.succeeds now job lease)
        db.jobs
        (complete_project_purge now job lease db).1.jobs
unfolding complete_project_purge end_project_purge insert_audit insert_audit_nullable finish_job
    change_jobs held_job
complete_project-OneMove now job lease db = ground arith

complete_export-OneMove :
    (now job lease export : ℕ) (hash : String) (size : ℕ) (db : Db)
    → OneMove
        (JobMove.succeeds now job lease)
        db.jobs
        (complete_account_export now job lease export hash size db).1.jobs
unfolding complete_account_export end_account_export insert_audit insert_audit_nullable finish_job
    change_jobs change_exports held_job
complete_export-OneMove now job lease export hash size db = ground arith

complete_account-OneMove :
    (uuid_text : ℕ → String) (now job lease : ℕ) (db : Db)
    → OneMove
        (JobMove.succeeds now job lease)
        db.jobs
        (complete_account_purge uuid_text now job lease db).1.jobs
unfolding complete_account_purge end_account_purge bury_user insert_audit insert_audit_nullable
    finish_job change_jobs change_exports held_job
complete_account-OneMove uuid_text now job lease db = ground arith

fail_account-OneMove :
    (now job lease : ℕ) (code : String) (db : Db)
    → OneMove
        (JobMove.fails now job lease code)
        db.jobs
        (fail_account_purge now job lease code db).1.jobs
unfolding fail_account_purge fail_purge change_jobs change_exports
fail_account-OneMove now job lease code db = ground arith

fail_project-OneMove :
    (now job lease : ℕ) (code : String) (db : Db)
    → OneMove
        (JobMove.fails now job lease code)
        db.jobs
        (fail_project_purge now job lease code db).1.jobs
unfolding fail_project_purge change_jobs
fail_project-OneMove now job lease code db = ground arith

renew-OneMove :
    (now job lease : ℕ) (db : Db)
    → OneMove
        (JobMove.renews JobKind.account_purge now job lease (now + minutes 5))
        db.jobs
        (renew_account_purge_lease now job lease db).1.jobs
unfolding renew_account_purge_lease change_jobs
renew-OneMove now job lease db = ground arith

pub claim_due-JobsChange :
    (now lease : ℕ) (db : Db) (due : Option Job)
    → JobsChange db.jobs (claim_due now lease db due).1.jobs
unfolding change_jobs
claim_due-JobsChange now lease db none = JobsChange.same refl
claim_due-JobsChange now lease db (some j) = JobsChange.moves (JobMove.claims j.id now lease) refl

abbrev OneInsert : Job → List Job → List Job → Type 0
OneInsert new before after =
    (after ≡ before) ⊎ ((any_by (λ j. j.id == new.id) before ≡ false) × (after ≡ new ∷ before))

enqueue-OneInsert :
    (by : Asker) (id : ℕ) (db : Db)
    → OneInsert (requested_purge by id) db.jobs (enqueue_project_purge by id db).1.jobs
unfolding enqueue_project_purge queue_project_purge insert_job insert_audit insert_audit_nullable
    set_project_status
enqueue-OneInsert by id db = ground arith

request-OneInsert :
    (export_key : ℕ → ℕ → String) (by : Purger) (id export : ℕ) (db : Db)
    → OneInsert
        (new_job id JobKind.account_purge by.subject none by.now (purge_payload "export" export by))
        db.jobs
        (request_account_purge_export export_key by id export db).1.jobs
unfolding request_account_purge_export request_export queue_export insert_job insert_audit
    insert_audit_nullable
request-OneInsert export_key by id export db = ground arith

confirm-OneInsert :
    (by : Purger) (id export : ℕ) (db : Db)
    → OneInsert
        (new_job id JobKind.account_purge by.subject none by.now (purge_payload "purge" export by))
        db.jobs
        (confirm_account_purge by id export db).1.jobs
unfolding confirm_account_purge confirm_purge close_account insert_job insert_audit
    insert_audit_nullable set_project_status
confirm-OneInsert by id export db = ground arith

-- What a detachment that is no repetition does.
abbrev pub OneStore : JobKind → ℕ → ℕ → ℕ → List Job → List Job → Type 0
OneStore kind now job lease before after =
    (after ≡ before)
    ⊎ (j : Job) × (payload : Json) × (find_by (is_held kind now job lease) before ≡ some j)
      × (is_true (get "detached" j.payload) ≡ false)
      × (after
          ≡ update_where (is_running_with job lease) (λ k. record k { payload = payload }) before)

pub one_store :
    (kind : JobKind) (now job lease : ℕ) (before after : List Job)
    → OneStore kind now job lease before after
    → JobsChange before after
one_store kind now job lease before after (inl e) = JobsChange.same e
one_store kind now job lease before after (inr (j, payload, found, fresh, e)) =
    JobsChange.stores kind now job lease payload j found fresh e

-- The jobs that a run of either detachment leaves.
detach_project_run :
    (now job lease : ℕ) (db : Db) (keys : List String) (db' : Db)
    → prepare_project_purge now job lease db ≡ (ok keys, db')
    → OneStore JobKind.project_purge now job lease db.jobs db'.jobs
unfolding set_payload change_jobs delete_project delete_rows
detach_project_run now job lease db keys db' e =
    let run = prepare_project_purge-PurgeRun now job lease db keys db' e in
    elim run.outcome [
      | inl again ↦ inl (ap (λ (d : Db). d.jobs) again.same)
      | inr (fresh, detached) ↦
          inr
            (run.j, detached_payload keys, run.held, fresh, ap (λ (d : Db). d.jobs) detached.state)
    ]

detach_account_run :
    (now job lease : ℕ) (db : Db) (keys : List String) (db' : Db)
    → prepare_account_purge now job lease db ≡ (ok keys, db')
    → OneStore JobKind.account_purge now job lease db.jobs db'.jobs
unfolding set_payload change_jobs delete_account delete_rows
detach_account_run now job lease db keys db' e =
    let run = prepare_account_purge-AccountRun now job lease db keys db' e in
    elim run.outcome [
      | inl again ↦ inl (ap (λ (d : Db). d.jobs) again.same)
      | inr (fresh, detached) ↦ inr (
        run.j,
        detached_account detached.export keys,
        run.held,
        fresh,
        ap (λ (d : Db). d.jobs) detached.state,
      )
    ]

-- An error of a committed step leaves the state, and so the jobs.
pub detach_project-OneStore :
    (now job lease : ℕ) (db : Db) (r : Result (List String) × Db)
    → prepare_project_purge now job lease db ≡ r
    → OneStore JobKind.project_purge now job lease db.jobs r.1.jobs
unfolding prepare_project_purge
detach_project-OneStore now job lease db (ok keys, db') e =
    detach_project_run now job lease db keys db' e
detach_project-OneStore now job lease db (err why, db') e =
    inl (ap (λ (d : Db). d.jobs) (commit_ok-eq-err db db' (project_purge now job lease db) why e))

pub detach_account-OneStore :
    (now job lease : ℕ) (db : Db) (r : Result (List String) × Db)
    → prepare_account_purge now job lease db ≡ r
    → OneStore JobKind.account_purge now job lease db.jobs r.1.jobs
unfolding prepare_account_purge
detach_account-OneStore now job lease db (ok keys, db') e =
    detach_account_run now job lease db keys db' e
detach_account-OneStore now job lease db (err why, db') e =
    inl (ap (λ (d : Db). d.jobs) (commit_ok-eq-err db db' (account_purge now job lease db) why e))

one_insert :
    (id : ℕ) (kind : JobKind) (owner : ℕ) (project : Option ℕ) (now : ℕ) (payload : Json)
    (before after : List Job)
    → OneInsert (new_job id kind owner project now payload) before after
    → JobsChange before after
one_insert id kind owner project now payload before after (inl e) = JobsChange.same e
one_insert id kind owner project now payload before after (inr (new, e)) =
    JobsChange.adds id kind owner project now payload new e

-- Every operation is one of these.
pub purge_op-JobsChange : (o : PurgeOp) (db : Db) → JobsChange db.jobs (purge_op o db).jobs
unfolding purge_op claim_job
purge_op-JobsChange (PurgeOp.claim kind now locked lease) db =
    claim_due-JobsChange now lease db (next_due kind now locked db.jobs)
purge_op-JobsChange (PurgeOp.renew now job lease) db =
    one_move (JobMove.renews JobKind.account_purge now job lease (now + minutes 5)) _ _
      (renew-OneMove now job lease db)
purge_op-JobsChange (PurgeOp.fail_project now job lease code) db =
    one_move (JobMove.fails now job lease code) _ _ (fail_project-OneMove now job lease code db)
purge_op-JobsChange (PurgeOp.fail_account now job lease code) db =
    one_move (JobMove.fails now job lease code) _ _ (fail_account-OneMove now job lease code db)
purge_op-JobsChange (PurgeOp.complete_project now job lease) db =
    one_move (JobMove.succeeds now job lease) _ _ (complete_project-OneMove now job lease db)
purge_op-JobsChange (PurgeOp.complete_export now job lease export hash size) db =
    one_move (JobMove.succeeds now job lease) _ _
      (complete_export-OneMove now job lease export hash size db)
purge_op-JobsChange (PurgeOp.complete_account uuid_text now job lease) db =
    one_move (JobMove.succeeds now job lease) _ _
      (complete_account-OneMove uuid_text now job lease db)
purge_op-JobsChange (PurgeOp.detach_project_rows now job lease) db =
    one_store JobKind.project_purge now job lease _ _
      (detach_project-OneStore now job lease db (prepare_project_purge now job lease db) refl)
purge_op-JobsChange (PurgeOp.detach_account_rows now job lease) db =
    one_store JobKind.account_purge now job lease _ _
      (detach_account-OneStore now job lease db (prepare_account_purge now job lease db) refl)
purge_op-JobsChange (PurgeOp.enqueue by job) db =
    one_insert _ _ _ _ _ _ _ _ (enqueue-OneInsert by job db)
purge_op-JobsChange (PurgeOp.request export_key by job export) db =
    one_insert _ _ _ _ _ _ _ _ (request-OneInsert export_key by job export db)
purge_op-JobsChange (PurgeOp.confirm by job export) db =
    one_insert _ _ _ _ _ _ _ _ (confirm-OneInsert by job export db)
