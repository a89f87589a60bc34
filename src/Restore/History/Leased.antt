-- ===== src/Restore/History/Leased.antt =====
-- What a worker's operations keep of the soundness of the jobs.
use tasktips_cloud.Base.{
  ℕ, ◌+◌, ◌≡◌, refl, ap, ◌∙◌, inl, inr, ◌&&◌, String, Option, none, some, List, [], ◌∷◌, ◌==◌,
  arith, if◌then◌else◌, Bool-cases, find_by, update_where,
}
use tasktips_cloud.Json.{Json}
use tasktips_cloud.Store.Errors.{ok, steps_of_ok}
use tasktips_cloud.Store.Schema.{Db, RestoreJob, failed, Revision, Head, Change}
use tasktips_cloud.Auth.Rows.{insert_audit}
use tasktips_cloud.Auth.Rotation.Steps.{insert_audit_nullable-eq-ok}
use tasktips_cloud.Sync.Item.{
  advance_sequence, insert_revision, upsert_head, insert_change, next_i64,
}
use tasktips_cloud.Restore.Jobs.{
  is_maintenance, is_running, is_leased, update_jobs, set_project_status, minutes,
}
use tasktips_cloud.Restore.Worker.{
  renew_restore_lease, cancelled_job, leased, ensure_requested, cancel_leased, fail_restore_job,
  fail_restore_job_with_lease, retried_job, retry_restore_job_with_lease,
}
use tasktips_cloud.Restore.Snapshot.{ensure_wanted}
use tasktips_cloud.Restore.Manifest.{ManifestRow, ManifestItem, current_rows}
use tasktips_cloud.Restore.Execute.{
  Restorer, with_deletions, restore_item, restore_items, finished_job, open_generation, run_restore,
  payload_of, cast_kind, restored_revision, restored_head, restored_change, is_item_of, differs,
  revision_or_zero, closed_project, wanted_items,
}
use tasktips_cloud.Restore.History.Sound.{JobsSound, update_where-JobsSound}

pub insert_audit_restores :
    (actor : ℕ) (subject : Option ℕ) (action : String) (metadata : Json) (request : String)
    (db db' : Db)
    → insert_audit actor subject action metadata request db ≡ ok db'
    → db'.restores ≡ db.restores
unfolding insert_audit
insert_audit_restores actor subject action metadata request db db' e =
    ap (λ d. d.restores)
      (insert_audit_nullable-eq-ok (some actor) subject action metadata request db db' e)

pub renewed-JobsSound :
    (now job lease : ℕ) (db : Db)
    → JobsSound db.restores
    → JobsSound (renew_restore_lease now job lease db).1.restores
unfolding renew_restore_lease update_jobs
renewed-JobsSound now job lease db s =
    update_where-JobsSound (is_leased job lease)
      (λ j. record j { lease_expires_at = some (now + minutes 5) }) db.restores
      (λ j h e. ground arith) (λ j h e. e) (λ j. (refl, refl)) s

pub failed-JobsSound :
    (now job : ℕ) (code : String) (db : Db)
    → JobsSound db.restores
    → JobsSound (fail_restore_job now job code db).restores
unfolding fail_restore_job update_jobs
failed-JobsSound now job code db s =
    update_where-JobsSound (λ j. j.id == job && is_running j.status)
      (λ j. record j { status = failed; error_code = some code; finished_at = some now })
      db.restores (λ j h e. ground arith) (λ j h e. absurd (cc e)) (λ j. (refl, refl)) s

pub failed_leased-JobsSound :
    (now job lease : ℕ) (code : String) (db : Db)
    → JobsSound db.restores
    → JobsSound (fail_restore_job_with_lease now job lease code db).restores
unfolding fail_restore_job_with_lease update_jobs
failed_leased-JobsSound now job lease code db s =
    update_where-JobsSound (is_leased job lease)
      (λ j. record j {
        status = failed;
        error_code = some code;
        lease_token = none;
        lease_expires_at = none;
        finished_at = some now;
      })
      db.restores (λ j h e. ground arith) (λ j h e. absurd (cc e)) (λ j. (refl, refl)) s

pub retried-JobsSound :
    (now job lease : ℕ) (code : String) (db : Db)
    → JobsSound db.restores
    → JobsSound (retry_restore_job_with_lease now job lease code db).1.restores
unfolding retry_restore_job_with_lease update_jobs
retried-JobsSound now job lease code db s =
    update_where-JobsSound (is_leased job lease) (retried_job now code) db.restores
      (λ j h e. ground arith) (λ j h e. ground arith) (λ j. (refl, refl)) s

-- The last writes of a cancellation and of a restore.
cancelled-JobsSound :
    (now job lease : ℕ) (restores : List RestoreJob)
    → JobsSound restores
    → JobsSound (update_where (is_leased job lease) (cancelled_job now) restores)
cancelled-JobsSound now job lease restores s =
    update_where-JobsSound (is_leased job lease) (cancelled_job now) restores
      (λ j h e. ground arith) (λ j h e. absurd (cc e)) (λ j. (refl, refl)) s

finished-JobsSound :
    (now generation objects tombstones job lease : ℕ) (restores : List RestoreJob)
    → JobsSound restores
    → JobsSound (
        update_where
          (is_leased job lease)
          (finished_job now generation objects tombstones)
          restores)
finished-JobsSound now generation objects tombstones job lease restores s =
    update_where-JobsSound (is_leased job lease) (finished_job now generation objects tombstones)
      restores (λ j h e. ground arith) (λ j h e. absurd (cc e)) (λ j. (refl, refl)) s

pub cancel_leased-JobsSound :
    (now job lease : ℕ) (db db' : Db)
    → JobsSound db.restores
    → cancel_leased now job lease db ≡ ok db'
    → JobsSound db'.restores
unfolding cancel_leased update_jobs set_project_status
cancel_leased-JobsSound now job lease db db' s e =
    let (j, e₁, held) = steps_of_ok (leased (find_by (is_leased job lease) db.restores)) _ e in
    let (r, e₂, requested) = steps_of_ok (ensure_requested j.cancel_requested) _ e₁ in
    rw (insert_audit_restores _ _ _ _ "" _ db' e₂) (cancelled-JobsSound now job lease db.restores s)

advance_sequence_restores :
    (now project sequence : ℕ) (db db' : Db)
    → advance_sequence now project db ≡ ok (sequence, db')
    → db'.restores ≡ db.restores
unfolding advance_sequence
advance_sequence_restores now project sequence db db' e = ground arith

insert_revision_restores :
    (r : Revision) (db db' : Db) → insert_revision r db ≡ ok db' → db'.restores ≡ db.restores
unfolding insert_revision
insert_revision_restores r db db' e = ground arith

insert_change_restores :
    (c : Change) (db db' : Db) → insert_change c db ≡ ok db' → db'.restores ≡ db.restores
unfolding insert_change
insert_change_restores c db db' e = ground arith

upsert_head_restores : (h : Head) (db : Db) → (upsert_head h db).restores ≡ db.restores
unfolding upsert_head
upsert_head_restores h db = refl

restore_item_restores :
    (by : Restorer) (id : ℕ) (item : ManifestItem) (actual : ℕ) (db db' : Db)
    → restore_item by id item actual db ≡ ok db'
    → db'.restores ≡ db.restores
unfolding restore_item
restore_item_restores by id item actual db db' e =
    let (payload, e₁, a) = steps_of_ok (payload_of by.project item db) _ e in
    let ((sequence, db₁), e₂, b) = steps_of_ok (advance_sequence by.now by.project db) _ e₁ in
    let (next, e₃, c) = steps_of_ok (next_i64 actual) _ e₂ in
    let (kind, e₄, d) = steps_of_ok (cast_kind item.kind) _ e₃ in
    let (db₂, e₅, f) =
      steps_of_ok (insert_revision (restored_revision by id kind item actual next payload) db₁) _
        e₄ in
    let head = restored_head by id kind item next in
    insert_change_restores (restored_change by id sequence) (upsert_head head db₂) db' e₅
    ∙ upsert_head_restores head db₂
    ∙ insert_revision_restores (restored_revision by id kind item actual next payload) db₁ db₂ f
    ∙ advance_sequence_restores by.now by.project sequence db db₁ b

pub restore_items_restores :
    (by : Restorer) (ids : ℕ → ℕ) (current : List ManifestRow) (target : List ManifestItem)
    (objects tombstones o t : ℕ) (db db' : Db)
    → restore_items by ids current target objects tombstones db ≡ ok (o, t, db')
    → db'.restores ≡ db.restores
unfolding restore_items
restore_items_restores by ids current [] objects tombstones o t db db' e = cc
restore_items_restores by ids current (item ∷ target) objects tombstones o t db db' e =
    let existing = find_by (λ row. is_item_of row item) current in
    let (db₁, e₁, wrote) =
      steps_of_ok
        (if differs existing item
          then restore_item by (ids 0) item (revision_or_zero existing) db
          else ok db)
        _ e in
    restore_items_restores by (λ n. ids (n + 1)) current target _ _ o t db₁ db' e₁
    ∙ elim (Bool-cases (differs existing item)) [
      | inl changes ↦
          restore_item_restores by (ids 0) item (revision_or_zero existing) db db₁
            (rw changes at wrote)
      | inr same ↦ let kept = rw same at wrote in cc
    ]

pub finished_restores :
    (now generation objects tombstones job lease project : ℕ) (by : ℕ) (subject : Option ℕ)
    (metadata : Json) (db db' : Db)
    → insert_audit by subject "restore.completed" metadata "" (
        update_jobs
          (is_leased job lease)
          (finished_job now generation objects tombstones)
          (open_generation now project generation db))
      ≡ ok db'
    → db'.restores
      ≡ update_where
          (is_leased job lease)
          (finished_job now generation objects tombstones)
          db.restores
unfolding update_jobs open_generation
finished_restores now generation objects tombstones job lease project by subject metadata db db' e =
    insert_audit_restores by subject "restore.completed" metadata "" _ db' e

pub run_restore-JobsSound :
    (now : ℕ) (ids : ℕ → ℕ) (job lease : ℕ) (db db' : Db)
    → JobsSound db.restores
    → run_restore now ids job lease db ≡ ok db'
    → JobsSound db'.restores
unfolding run_restore
run_restore-JobsSound now ids job lease db db' s e =
    let (j, e₁, held) = steps_of_ok (leased (find_by (is_leased job lease) db.restores)) _ e in
    let (w, e₂, wanted) = steps_of_ok (ensure_wanted j.cancel_requested) _ e₁ in
    let (p, e₃, closed) =
      steps_of_ok
        (closed_project j.project
          (find_by (λ p. p.id == j.project && is_maintenance p.status) db.projects))
        _ e₂ in
    let (target, e₄, items) = steps_of_ok (wanted_items j db j.snapshot j.target_sequence) _ e₃ in
    let ((objects, tombstones, db₁), e₅, ran) =
      steps_of_ok
        (restore_items (record { project = j.project; owner = p.owner; now = now }) ids
          (current_rows j.project db) (with_deletions (current_rows j.project db) target) 0 0 db)
        _ e₄ in
    let (generation, e₆, next) = steps_of_ok (next_i64 p.generation) _ e₅ in
    let final =
      finished_restores now generation objects tombstones job lease j.project j.requested_by
        (some (j.requested_by)) _ db₁ db' e₆ in
    rw final (
      finished-JobsSound now generation objects tombstones job lease db₁.restores (
        rw
          (restore_items_restores (record { project = j.project; owner = p.owner; now = now }) ids
            (current_rows j.project db) (with_deletions (current_rows j.project db) target) 0 0
            objects tombstones db db₁ ran)
          s))
