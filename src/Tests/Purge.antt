-- ===== src/Tests/Purge.antt =====
-- The purge jobs on the small database.
use tasktips_cloud.Base.{
  ℕ, ◌+◌, ◌≡◌, refl, true, false, none, some, String, List, [], ◌∷◌, arith, ◌==◌, find_by, any_by,
  count_by, update_where, delete_where, upsert, ◌≤◌,
}
use tasktips_cloud.Domain.{ProjectStatus, AccountStatus, UserRole, ObjectKind, max_payload_bytes}
use tasktips_cloud.Json.{Json, object}
use tasktips_cloud.Store.Errors.{ok, err, invalid_payload}
use tasktips_cloud.Store.Schema.{Db, Job, JobKind, JobStatus, ExportStatus}
use tasktips_cloud.Auth.Rows.{insert_audit, insert_audit_nullable}
use tasktips_cloud.Sync.Response.{
  applied, response_json, migrate_stored_push_response, get_field, insert_field, results_json,
  migrate_items, result_fields, migrate_fields,
}
use tasktips_cloud.Sync.Item.{valid_media_type, push_items, push_item}
use tasktips_cloud.Sync.Push.{PushOutcome, push_with_outcome, project_state}
use tasktips_cloud.Restore.Manifest.{lookup}
use tasktips_cloud.Restore.Jobs.{set_project_status}
use tasktips_cloud.Restore.Requests.{require_admin}
use tasktips_cloud.Purge.Jobs.{
  claimed_job, failed_job, claim_job, next_due, change_jobs, insert_job, new_job, held_job, get,
  text_items, texts_of, account_purge_phase, fail_project_purge, finish_job,
  renew_account_purge_lease,
}
use tasktips_cloud.Purge.Rows.{
  select_where, distinct, row_keys, delete_rows, insert_key, sort_keys, codes_before,
}
use tasktips_cloud.Purge.Project.{
  detached_payload, prepare_project_purge, project_purge, detach_project, delete_project,
  set_payload, complete_project_purge, end_project_purge, enqueue_project_purge,
  queue_project_purge,
}
use tasktips_cloud.Purge.Requests.{
  Purger, purge_payload, queued_response, confirm_account_purge, confirm_purge, close_account,
}
use tasktips_cloud.Purge.Requests.Confirmed.{
  Confirmed, confirm_account_purge-Confirmed, confirm_closes_account,
}
use tasktips_cloud.Purge.Account.{
  prepare_account_purge, account_purge, detach_account, delete_account, fail_account_purge,
  fail_purge, change_exports, complete_account_purge, end_account_purge,
}
use tasktips_cloud.Purge.Account.Archive.{Exporter}
use tasktips_cloud.Purge.History.Again.{with_payload}
use tasktips_cloud.Purge.History.{PurgeOp, purge_op, purge_ops}
use tasktips_cloud.Purge.History.Sound.{JobsSound, purge_ops-JobsSound}
use tasktips_cloud.Purge.History.Repeats.{prepare_project_purge_again}
use tasktips_cloud.Purge.Loop.{
  Ending, World, delete_keys, process_project_purge, purge_projects, process_account_purge_job,
}
use tasktips_cloud.Purge.Loop.Ends.{ProjectsEnd, open_jobs, purge_projects_end}
use tasktips_cloud.Purge.Loop.Lost.{detached_account_is_lost}
use tasktips_cloud.Purge.Loop.Erased.{IsErased, process_project_purge-IsErased}
use tasktips_cloud.Tests.Data.{
  project_row, plain_format, start, pusher, ids, create, request, user_row,
}

run : Unit {0}
unfolding prepare_project_purge project_purge detach_project delete_project set_payload delete_rows
    complete_project_purge end_project_purge claim_job next_due change_jobs insert_job held_job get
    lookup texts_of text_items account_purge_phase fail_project_purge finish_job
    renew_account_purge_lease select_where distinct row_keys insert_key sort_keys codes_before
    enqueue_project_purge queue_project_purge confirm_account_purge confirm_purge close_account
    prepare_account_purge account_purge detach_account delete_account fail_account_purge fail_purge
    change_exports complete_account_purge end_account_purge purge_op purge_ops delete_keys
    process_project_purge purge_projects process_account_purge_job open_jobs insert_audit
    insert_audit_nullable require_admin set_project_status find_by any_by count_by update_where
    delete_where push_with_outcome push_items push_item max_payload_bytes valid_media_type
    project_state upsert
run = tt

abbrev job_row : ℕ → JobKind → Json → Job
job_row id kind payload = new_job id kind 1 (some 3) 100 payload

-- Project 3 of user 1 waits for its purge.
abbrev waiting : Db
waiting = record start {
  projects = project_row 3 1 ProjectStatus.deleting 0 ∷ project_row 9 8 ProjectStatus.active 0 ∷ [];
  jobs = job_row 30 JobKind.project_purge (object []) ∷ [];
}

abbrev exporter : Exporter
exporter = record {
  uuid_text = λ n. "uuid";
  le = λ a b. true;
  object_size = λ key. none;
  manifest_size = 10;
  max_temp_bytes = 1000;
  archive = λ n. none;
  uploads = λ key. true;
}

abbrev world : World
world = record {
  time = λ k. k + 200;
  lease = λ k. k + 70;
  locked = λ k id. false;
  deletes = λ key. true;
  exporter = exporter;
}

loop_run : (purge_projects world 2 0 waiting).0 ≡ Ending.finished
unfolding run
loop_run = refl

purge_projects_end_example : ProjectsEnd world (purge_projects world 2 0 waiting)
unfolding run
purge_projects_end_example = purge_projects_end world 2 0 waiting (λ id. ground arith) (omega arith)

purge_ops-JobsSound_example :
    JobsSound
      (purge_ops
        (PurgeOp.claim JobKind.project_purge 200 (λ id. false) 70
          ∷ PurgeOp.fail_project 202 30 70 "E"
          ∷ [])
        waiting).jobs
unfolding count_by
purge_ops-JobsSound_example =
    purge_ops-JobsSound
      (PurgeOp.claim JobKind.project_purge 200 (λ id. false) 70
        ∷ PurgeOp.fail_project 202 30 70 "E"
        ∷ [])
      waiting (record { sound = ((refl, refl), tt); unique = λ id. ground arith })

-- The job that a worker has claimed.
abbrev project_job : Job
project_job = claimed_job 200 70 (job_row 30 JobKind.project_purge (object []))

abbrev claimed : Db
claimed = record waiting { jobs = project_job ∷ [] }

claim_run : (claim_job JobKind.project_purge 200 (λ id. false) 70 waiting).1 ≡ claimed
unfolding run
claim_run = refl

abbrev keys : List String
keys = "users/1/projects/3/payloads/c0ffee" ∷ []

one_job : count_by (λ k. k.id == 30) claimed.jobs ≤ 1
unfolding count_by
one_job = omega arith

-- The first worker fails behind the detachment, and a second one claims the job.
abbrev retries : List PurgeOp
retries =
    PurgeOp.fail_project 202 30 70 "E"
    ∷ PurgeOp.claim JobKind.project_purge 70000000000 (λ id. false) 71
    ∷ []

abbrev detached : Db
detached = (prepare_project_purge 201 30 70 claimed).1

prepare_project_purge_again_example :
    prepare_project_purge 70000000001 30 71 (purge_ops retries detached)
    ≡ (ok keys, purge_ops retries detached)
unfolding run
prepare_project_purge_again_example =
    prepare_project_purge_again 201 30 70 claimed detached keys retries 70000000001 71
      (claimed_job 70000000000 71
        (failed_job 202 "E" (with_payload (detached_payload keys) project_job)))
      one_job refl refl

process_project_purge-IsErased_example :
    IsErased world.deletes 3 claimed (process_project_purge world 0 30 claimed).1
unfolding run
process_project_purge-IsErased_example =
    process_project_purge-IsErased world 0 30 3 claimed (process_project_purge world 0 30 claimed).1
      project_job refl refl refl refl

abbrev purger : Purger
purger = record { actor = 7; subject = 1; now = 400; reason = "gdpr"; request = "r" }

-- A claimed job in the second phase, for an account that is being deleted.
abbrev account_job : Job
account_job =
    claimed_job 200 70
      (new_job 31 JobKind.account_purge 1 none 100 (purge_payload "purge" 50 purger))

abbrev dying : Db
dying = record start {
  users = record (user_row 1) { status = AccountStatus.deleting } ∷ [];
  jobs = account_job ∷ [];
}

abbrev lost : Db
lost =
    purge_ops
      (PurgeOp.fail_account 202 31 70 "E"
        ∷ PurgeOp.claim JobKind.account_purge 70000000000 (λ id. false) 71
        ∷ [])
      (prepare_account_purge 201 31 70 dying).1

lost_run : account_purge_phase 70000000001 31 71 lost ≡ err invalid_payload
unfolding run
lost_run = refl

one_account_job : count_by (λ k. k.id == 31) dying.jobs ≤ 1
unfolding count_by
one_account_job = omega arith

detached_account_is_lost_example :
    process_account_purge_job world 70000000000 31 71 lost ≡ (false, lost)
unfolding run
detached_account_is_lost_example =
    detached_account_is_lost 201 31 70 dying (prepare_account_purge 201 31 70 dying).1 keys
      account_job
      (PurgeOp.fail_account 202 31 70 "E"
        ∷ PurgeOp.claim JobKind.account_purge 70000000000 (λ id. false) 71
        ∷ [])
      world 70000000000 71 one_account_job refl refl refl

-- An account with a stored push, whose export is ready, and an administrator.
abbrev answered : Db
answered = (push_with_outcome plain_format pusher ids request (create ∷ []) start).1

abbrev exported : Db
exported = record answered {
  users =
      user_row 1
      ∷ record (user_row 7) { role = UserRole.system_admin; email_normalized = "root@example.org" }
      ∷ [];
  jobs =
      record (new_job 32 JobKind.account_purge 1 none 100 (purge_payload "export" 50 purger)) {
        status = JobStatus.succeeded;
        finished_at = some 300;
      }
      ∷ [];
  exports =
      record {
        id = 50;
        user = 1;
        job = 32;
        key = "users/1/exports/50.tar.zst";
        content_hash = some "beef";
        size = some 20;
        status = ExportStatus.ready;
        created_at = 100;
        expires_at = 1000;
        completed_at = some 300;
      }
      ∷ [];
}

abbrev confirmed : Db
confirmed = (confirm_account_purge purger 33 50 exported).1

confirm_account_purge-Confirmed_example : Confirmed purger 50 exported confirmed
unfolding run
confirm_account_purge-Confirmed_example =
    confirm_account_purge-Confirmed purger 33 50 exported confirmed (queued_response 33 50 false)
      refl

abbrev replay : PushOutcome
replay = record {
  response = response_json plain_format 1 (applied ObjectKind.todo "A" 1 1 90 ∷ []);
  replayed = true;
}

confirm_closes_account_example : replay.replayed ≡ true
unfolding run response_json migrate_stored_push_response get_field insert_field results_json
    migrate_items result_fields migrate_fields
confirm_closes_account_example =
    confirm_closes_account purger 33 50 exported confirmed confirmed (queued_response 33 50 false)
      plain_format pusher ids request (create ∷ []) replay refl refl refl
