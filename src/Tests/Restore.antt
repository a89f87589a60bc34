-- ===== src/Tests/Restore.antt =====
-- The restore jobs on the small database.
use tasktips_cloud.Base.{
  ℕ, ◌+◌, Bool, ◌≤◌, ◌≡◌, refl, true, false, none, some, [], ◌∷◌, arith, inr, ◌↔◌, pos, find_by,
  any_by, count_by, update_where, upsert, delete_where, ◌==◌,
}
use tasktips_cloud.Domain.{ProjectStatus, UserRole, ObjectKind, max_payload_bytes}
use tasktips_cloud.Json.{num}
use tasktips_cloud.Store.Errors.{Result, ok, err, restore_not_reopenable}
use tasktips_cloud.Store.Schema.{Db, User, RestoreJob, cancelled}
use tasktips_cloud.Sync.Response.{
  applied, response_json, migrate_stored_push_response, get_field, insert_field, results_json,
  migrate_items, result_fields, migrate_fields,
}
use tasktips_cloud.Sync.Item.{valid_media_type, push_items, push_item}
use tasktips_cloud.Sync.Item.Writes.{written}
use tasktips_cloud.Sync.Push.{PushOutcome, push_with_outcome, project_state}
use tasktips_cloud.Auth.Rows.{insert_audit, insert_audit_nullable}
use tasktips_cloud.Restore.Policy.{
  validate_restore_target, Target, snapshot_of, sequence_of, validate_restore_target-eq-ok,
}
use tasktips_cloud.Restore.Jobs.{update_jobs, set_project_status, insert_restore}
use tasktips_cloud.Restore.Requests.{
  Asker, enqueue_restore, request_restore, queued_job, cancel_restore, request_cancel,
  reopen_failed_restore, reopen, require_admin,
}
use tasktips_cloud.Restore.Worker.{
  next_claim, claim_restore_job, leased_job, retry_restore_job_with_lease, retried_job,
}
use tasktips_cloud.Restore.Manifest.{
  ManifestRow, manifest_item_from_row, manifest_items, current_rows, head_rows, rows_at,
  logged_rows, latest, same_manifest_state,
}
use tasktips_cloud.Restore.Snapshot.{Formats, manifest_json}
use tasktips_cloud.Restore.RoundTrip.{manifest_items-manifest_json}
use tasktips_cloud.Restore.Execute.{
  execute_restore_with_lease, run_restore, restore_items, restore_item, with_deletions,
  open_generation, payload_of, cast_kind,
}
use tasktips_cloud.Restore.Fence.{IsFencedOff, claim_fences_off}
use tasktips_cloud.Restore.Window.{claim_closes_project}
use tasktips_cloud.Restore.History.{enqueue, claim, retry, cancel, restore_step, restore_run}
use tasktips_cloud.Restore.History.Sound.{JobsSound}
use tasktips_cloud.Restore.History.Invariant.{restore_run-JobsSound}
use tasktips_cloud.Restore.Outcome.{Restored, execute_restore-Restored}
use tasktips_cloud.Restore.Stranded.{IsStranded, cancel_strands_project}
use tasktips_cloud.Tests.Data.{
  project_row, plain_format, start, pusher, ids, create, delete, request, user_row,
}

run : Unit {0}
unfolding enqueue_restore request_restore insert_restore project_state validate_restore_target
    insert_audit insert_audit_nullable cancel_restore request_cancel claim_restore_job next_claim
    update_jobs set_project_status retry_restore_job_with_lease execute_restore_with_lease
    run_restore restore_items restore_item with_deletions manifest_item_from_row open_generation
    payload_of cast_kind current_rows head_rows rows_at logged_rows latest same_manifest_state
    restore_step restore_run push_with_outcome push_items push_item max_payload_bytes
    valid_media_type reopen_failed_restore reopen require_admin find_by any_by count_by update_where
    upsert delete_where
run = tt

-- The note "A" was created and deleted.
abbrev pushed : Db
pushed = written pusher 501 delete 2 2 none (written pusher 500 create 1 1 (some 40) start)

abbrev asker : Asker
asker = record { user = 1; project = 3; now = 200; reason = "undo"; request = "q7" }

abbrev no_lock : ℕ → Bool
no_lock id = false

abbrev fresh_ids : ℕ → ℕ
fresh_ids n = n + 700

abbrev requested : Db
requested = (enqueue_restore asker 80 none (some (pos 1)) pushed).1

abbrev job : RestoreJob
job = queued_job asker 80 none (some (pos 1))

enqueue_run : (enqueue_restore asker 80 none (some (pos 1)) pushed).0 ≡ ok job
unfolding run
enqueue_run = refl

abbrev claimed : Db
claimed = (claim_restore_job 300 no_lock 90 requested).1

claim_run : (claim_restore_job 300 no_lock 90 requested).0 ≡ ok (some (leased_job 300 1 90 job))
unfolding run
claim_run = refl

-- The restore to sequence 1 brings the note back as revision 3 and ends the window in generation 2.
execute_run :
    current_rows 3 (execute_restore_with_lease 400 fresh_ids 80 90 claimed).1
    ≡ record {
      kind = "todo";
      id = "A";
      schema_version = some 1;
      revision = 3;
      base_revision = some 2;
      content_hash = some "c0ffee";
      changed_at = 400;
      device = 2;
      tombstone = false;
      change_sequence = 3;
    }
      ∷ []
unfolding run
execute_run = refl

execute_state_run :
    project_state 1 3 (execute_restore_with_lease 400 fresh_ids 80 90 claimed).1 ≡ ok (2, 3)
unfolding run
execute_state_run = refl

execute_restore-Restored_example :
    Restored 400 80 90 claimed
      (leased_job 300 1 90 job)
      (record (project_row 3 1 ProjectStatus.maintenance 2) { updated_at = 300 })
      (execute_restore_with_lease 400 fresh_ids 80 90 claimed).1
unfolding run
execute_restore-Restored_example =
    execute_restore-Restored 400 fresh_ids 80 90 claimed
      (execute_restore_with_lease 400 fresh_ids 80 90 claimed).1 (leased_job 300 1 90 job)
      (record (project_row 3 1 ProjectStatus.maintenance 2) { updated_at = 300 })
      (λ project. ground arith) refl refl refl

validate_restore_target-eq-ok_example :
    (validate_restore_target none (some (pos 1)) ≡ inr tt)
    ↔ ((mode : Target) × (none ≡ snapshot_of mode) × (some (pos 1) ≡ sequence_of mode))
validate_restore_target-eq-ok_example = validate_restore_target-eq-ok none (some (pos 1))

abbrev formats : Formats
formats = record {
  instant = λ t. num t;
  le = λ a b. true;
  manifest_key = λ owner project snapshot. "key";
}

abbrev row : ManifestRow
row = record {
  kind = "todo";
  id = "A";
  schema_version = some 1;
  revision = 1;
  base_revision = none;
  content_hash = some "c0ffee";
  changed_at = 90;
  device = 2;
  tombstone = false;
  change_sequence = 1;
}

manifest_items-manifest_json_example :
    manifest_items (manifest_json formats 55 1 1 (row ∷ [])) ≡ ok (manifest_item_from_row row ∷ [])
manifest_items-manifest_json_example =
    manifest_items-manifest_json formats 55 1 1 (row ∷ []) ((omega arith, omega arith), tt)

claim_fences_off_example : IsFencedOff 80 89 claimed
claim_fences_off_example =
    claim_fences_off 300 no_lock 90 89 requested claimed (leased_job 300 1 90 job)
      (unfold run in refl) (λ e. absurd (omega (arith, e)))

-- A project with a stored response, and the claim of a restore for it.
abbrev answered : Result PushOutcome × Db
answered = push_with_outcome plain_format pusher ids request (create ∷ []) start

abbrev asked : Db
asked = (enqueue_restore asker 80 none (some (pos 1)) answered.1).1

abbrev window : Db
window = (claim_restore_job 300 no_lock 90 asked).1

abbrev replay : PushOutcome
replay = record {
  response = response_json plain_format 1 (applied ObjectKind.todo "A" 1 1 90 ∷ []);
  replayed = true;
}

two_projects : (project : ℕ) → count_by (λ p. p.id == project) asked.projects ≤ 1
unfolding run
two_projects project = ground arith

claim_closes_project_example : replay.replayed ≡ true
unfolding run response_json migrate_stored_push_response get_field insert_field results_json
    migrate_items result_fields migrate_fields
claim_closes_project_example =
    claim_closes_project 300 no_lock 90 asked window window (leased_job 300 1 90 job) plain_format
      pusher ids request (create ∷ []) replay two_projects refl refl refl

restore_run-JobsSound_example :
    JobsSound
      (restore_run
        (enqueue asker 80 none (some (pos 1))
          ∷ claim 300 no_lock 90
          ∷ retry 310 80 90 "E"
          ∷ cancel asker 80
          ∷ [])
        pushed).restores
unfolding count_by
restore_run-JobsSound_example =
    restore_run-JobsSound
      (enqueue asker 80 none (some (pos 1))
        ∷ claim 300 no_lock 90
        ∷ retry 310 80 90 "E"
        ∷ cancel asker 80
        ∷ [])
      pushed (record { jobs = tt; ids = λ id. omega arith; one_open = λ project. omega arith })

-- The job is back in the queue and the project still in maintenance, when the user cancels.
abbrev requeued : Db
requeued = (retry_restore_job_with_lease 310 80 90 "E" claimed).1

abbrev waiting_job : RestoreJob
waiting_job = retried_job 310 "E" (leased_job 300 1 90 job)

abbrev admin : User
admin = record (user_row 7) { role = UserRole.system_admin }

one_job_sound : JobsSound (waiting_job ∷ [])
unfolding count_by
one_job_sound = record {
  jobs = (refl, tt);
  ids = λ id. ground arith;
  one_open = λ project. ground arith;
}

cancel_strands_project_example : IsStranded 3 (cancel_restore asker 80 requeued).1
unfolding run
cancel_strands_project_example =
    cancel_strands_project asker 80 requeued (cancel_restore asker 80 requeued).1 waiting_job
      (record waiting_job { status = cancelled; finished_at = some 200 }) one_job_sound refl refl
      refl refl refl

-- Then an administrator cannot reopen the project.
reopen_run :
    (reopen_failed_restore
      (record asker { user = 7 })
      (record (cancel_restore asker 80 requeued).1 { users = admin ∷ [] })).0
    ≡ err restore_not_reopenable
unfolding run
reopen_run = refl
