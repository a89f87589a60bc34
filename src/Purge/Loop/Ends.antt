-- ===== src/Purge/Loop/Ends.antt =====
-- The loops end: each round that goes on closes a job.
use tasktips_cloud.Base.{
  ℕ, zero, suc, ◌+◌, ◌≤◌, ◌<◌, ◌≡◌, refl, ap, ◌∙◌, ◌⊎◌, inl, inr, Bool, Bool-cases, true, false,
  ◌&&◌, Option-cases, ==_refl, none, some, List, [], ◌∷◌, ◌==◌, arith, String, All, All-Within,
  Within, find_by, find_by-test, count_by, count_by-update_where_keep, count_by-update_where_all,
  count_by-update_where_found,
}
use tasktips_cloud.Store.Schema.{Db, Job, JobKind}
use tasktips_cloud.Purge.Jobs.{
  same_kind, is_job_open, is_running_with, is_held, is_leased_as, is_due, next_due, finish_job,
  claimed_job, claim_due, claim_job, succeeded_job, change_jobs,
}
use tasktips_cloud.Store.Errors.{Result, ok, err}
use tasktips_cloud.Purge.Project.{prepare_project_purge, complete_project_purge}
use tasktips_cloud.Purge.Project.Runs.{complete_project_purge-Completed}
use tasktips_cloud.Purge.History.{PurgeOp, purge_op}
use tasktips_cloud.Purge.History.Moves.{
  OneStore, detach_project-OneStore, claim_due-JobsChange, purge_op-JobsChange,
}
use tasktips_cloud.Purge.History.Sound.{JobsChange-unique}
use tasktips_cloud.Purge.Loop.{
  Ending, World, delete_keys, delete_and_complete, process_project_purge, purge_projects,
  next_round, goes_on,
}

-- The jobs of a kind that can still be run.
abbrev pub is_open_of : JobKind → Job → Bool
is_open_of kind j = same_kind j.kind kind && is_job_open j.status

unfoldable pub open_jobs : JobKind → List Job → ℕ
open_jobs kind jobs = count_by (is_open_of kind) jobs

next_due-Within :
    (kind : JobKind) (now : ℕ) (locked : ℕ → Bool) (js : List Job) (j : Job)
    → next_due kind now locked js ≡ some j
    → (is_due kind now j ≡ true) × Within j js
unfolding next_due
next_due-Within kind now locked [] j e = absurd (cc)
next_due-Within kind now locked (k ∷ ks) j e = ground (arith, next_due-Within kind now locked ks j)

all_open :
    (kind : JobKind) (now : ℕ) (j : Job) (js : List Job)
    → is_due kind now j ≡ true
    → All (λ k. (k.id == j.id) ≡ true → k ≡ j) js
    → All
        (λ k.
          (k.id == j.id) ≡ true → same_kind k.kind kind && true ≡ true → is_open_of kind k ≡ true)
        js
all_open kind now j [] due h = tt
all_open kind now j (k ∷ ks) due h =
    (λ here kept. ap (is_open_of kind) (h.0 here) ∙ ground arith, all_open kind now j ks due h.1)

-- A claim takes a due job, which was open.
claim_due-open_jobs :
    (kind : JobKind) (now : ℕ) (locked : ℕ → Bool) (lease : ℕ) (db : Db) (j : Job)
    → ((id : ℕ) → count_by (λ j. j.id == id) db.jobs ≤ 1)
    → next_due kind now locked db.jobs ≡ some j
    → open_jobs kind (claim_due now lease db (some j)).1.jobs ≤ open_jobs kind db.jobs
unfolding open_jobs change_jobs
claim_due-open_jobs kind now locked lease db j one due =
    let (is_, within) = next_due-Within kind now locked db.jobs j due in
    count_by-update_where_all (λ k. k.id == j.id) (is_open_of kind) (claimed_job now lease) db.jobs
      (all_open kind now j db.jobs is_
        (All-Within (λ k. k.id == j.id) j db.jobs (one j.id) (==_refl j.id) within))

OneStore-open_jobs :
    (kind held_kind : JobKind) (now job lease : ℕ) (before after : List Job)
    → OneStore held_kind now job lease before after
    → open_jobs kind after ≤ open_jobs kind before
unfolding open_jobs
OneStore-open_jobs kind held_kind now job lease before after (inl e) = rw e (omega arith)
OneStore-open_jobs kind held_kind now job lease before after (inr (j, payload, found, fresh, e)) =
    rw e (
      count_by-update_where_keep (is_running_with job lease) (is_open_of kind)
        (λ k. record k { payload = payload }) before (λ k t h. h))

-- A job that is completed is no longer open.
finish-open_jobs :
    (kind : JobKind) (now job lease : ℕ) (db : Db) (j : Job)
    → find_by (is_held kind now job lease) db.jobs ≡ some j
    → open_jobs kind (finish_job now job lease db).jobs < open_jobs kind db.jobs
unfolding open_jobs finish_job change_jobs
finish-open_jobs kind now job lease db j found =
    let held = find_by-test (is_held kind now job lease) db.jobs j found in
    count_by-update_where_found (is_leased_as job lease) (is_held kind now job lease)
      (is_open_of kind) (succeeded_job now) db.jobs j (λ k t. ground arith) (λ k t. ground arith)
      found (ground arith)

complete_project-open_jobs :
    (now job lease : ℕ) (db db' : Db) (u : Unit {0})
    → complete_project_purge now job lease db ≡ (ok u, db')
    → open_jobs JobKind.project_purge db'.jobs < open_jobs JobKind.project_purge db.jobs
complete_project-open_jobs now job lease db db' u e =
    let completed = complete_project_purge-Completed now job lease db db' u e in
    rw (ap (λ (d : Db). d.jobs) completed.state)
      (finish-open_jobs JobKind.project_purge now job lease db completed.j completed.held)

pub goes_on-eq-true :
    (p : Result (Unit {0}) × Db) (db' : Db)
    → goes_on p ≡ (true, db')
    → (u : Unit {0}) × (p ≡ (ok u, db'))
goes_on-eq-true (ok u, db) db' e = (u, cc)
goes_on-eq-true (err why, db) db' e = absurd (cc)

delete_and_complete-open_jobs :
    (deletes : String → Bool) (now job lease : ℕ) (db db' : Db) (r : Result (List String))
    → delete_and_complete deletes now job lease (r, db) ≡ (true, db')
    → open_jobs JobKind.project_purge db'.jobs < open_jobs JobKind.project_purge db.jobs
delete_and_complete-open_jobs deletes now job lease db db' (err why) e = absurd (cc)
delete_and_complete-open_jobs deletes now job lease db db' (ok keys) e =
    elim (Bool-cases (delete_keys deletes keys)) [
      | inr kept ↦ absurd (cc (rw kept at e))
      | inl deleted ↦
          let (u, done_) =
            goes_on-eq-true (complete_project_purge now job lease db) db' (rw deleted at e) in
          complete_project-open_jobs now job lease db db' u done_
    ]

-- A round that goes on has closed a job.
process_project-open_jobs :
    (w : World) (k job : ℕ) (db db' : Db)
    → process_project_purge w k job db ≡ (true, db')
    → open_jobs JobKind.project_purge db'.jobs < open_jobs JobKind.project_purge db.jobs
unfolding process_project_purge
process_project-open_jobs w k job db db' e =
    let prepared = prepare_project_purge (w.time (k + 1)) job (w.lease k) db in
    let less =
      delete_and_complete-open_jobs w.deletes (w.time (k + 2)) job (w.lease k) prepared.1 db'
        prepared.0 e in
    let no_more =
      OneStore-open_jobs JobKind.project_purge JobKind.project_purge (w.time (k + 1)) job
        (w.lease k) db.jobs prepared.1.jobs
        (detach_project-OneStore (w.time (k + 1)) job (w.lease k) db prepared refl) in
    omega (arith, less, no_more)

abbrev pub Unique : Db → Type 0
Unique db = (id : ℕ) → count_by (λ j. j.id == id) db.jobs ≤ 1

purge_op-Unique : (o : PurgeOp) (db : Db) → Unique db → Unique (purge_op o db)
purge_op-Unique o db one =
    JobsChange-unique db.jobs (purge_op o db).jobs (purge_op-JobsChange o db) one

goes_on-Unique : (p : Result (Unit {0}) × Db) → Unique p.1 → Unique (goes_on p).1
goes_on-Unique (ok u, db) one = one
goes_on-Unique (err why, db) one = one

delete_and_complete-Unique :
    (deletes : String → Bool) (now job lease : ℕ) (p : Result (List String) × Db)
    → Unique p.1
    → Unique (delete_and_complete deletes now job lease p).1
unfolding purge_op
delete_and_complete-Unique deletes now job lease (err why, db) one =
    purge_op-Unique (PurgeOp.fail_project now job lease "PURGE_DETACH_FAILED") db one
delete_and_complete-Unique deletes now job lease (ok keys, db) one =
    elim (Bool-cases (delete_keys deletes keys)) [
      | inl deleted ↦ rw deleted (
          goes_on-Unique (complete_project_purge now job lease db)
            (purge_op-Unique (PurgeOp.complete_project now job lease) db one))
      | inr kept ↦
          rw kept (
            purge_op-Unique (PurgeOp.fail_project now job lease "PURGE_OBJECT_DELETE_FAILED") db
              one)
    ]

process_project-Unique :
    (w : World) (k job : ℕ) (db : Db) → Unique db → Unique (process_project_purge w k job db).1
unfolding process_project_purge purge_op
process_project-Unique w k job db one =
    delete_and_complete-Unique w.deletes (w.time (k + 2)) job (w.lease k)
      (prepare_project_purge (w.time (k + 1)) job (w.lease k) db)
      (purge_op-Unique (PurgeOp.detach_project_rows (w.time (k + 1)) job (w.lease k)) db one)

-- How the loop over the projects ends.
abbrev pub ProjectsEnd : World → Ending × Db → Type 0
ProjectsEnd w (ending, db) =
    (ending ≡ Ending.failed)
    ⊎ (ending ≡ Ending.finished)
      × (k : ℕ) × (next_due JobKind.project_purge (w.time k) (w.locked k) db.jobs ≡ none)

round-ProjectsEnd :
    (w : World) (fuel k job : ℕ) (db₁ : Db) (r : Bool × Db)
    → process_project_purge w k job db₁ ≡ r
    → (r.0 ≡ true → ProjectsEnd w (purge_projects w fuel (k + 3) r.1))
    → ProjectsEnd w (next_round (purge_projects w fuel (k + 3)) r)
round-ProjectsEnd w fuel k job db₁ (true, db₂) e go = go refl
round-ProjectsEnd w fuel k job db₁ (false, db₂) e go = inl refl

fewer :
    (w : World) (k job : ℕ) (db₁ : Db) (fuel all : ℕ) (r : Bool × Db)
    → process_project_purge w k job db₁ ≡ r
    → r.0 ≡ true
    → open_jobs JobKind.project_purge db₁.jobs ≤ all
    → all < suc fuel
    → open_jobs JobKind.project_purge r.1.jobs < fuel
fewer w k job db₁ fuel all (true, db₂) e goes le₁ less =
    let lt = process_project-open_jobs w k job db₁ db₂ e in omega (arith, lt, le₁, less)
fewer w k job db₁ fuel all (false, db₂) e goes le₁ less = absurd (cc)

-- With more fuel than there are open jobs for projects, the loop over them ends: either it returns an
-- error, or at its last look no job is due that no other worker holds. The clock, the leases, the
-- locks and the answers of the object store are arbitrary; identifiers of jobs are primary keys.
pub purge_projects_end :
    (w : World) (fuel k : ℕ) (db : Db)
    → Unique db
    → open_jobs JobKind.project_purge db.jobs < fuel
    → ProjectsEnd w (purge_projects w fuel k db)
unfolding purge_projects claim_job
purge_projects_end w zero k db one less = absurd (ground arith)
purge_projects_end w (suc fuel) k db one less =
    elim (Option-cases (next_due JobKind.project_purge (w.time k) (w.locked k) db.jobs)) [
      | inl none_ ↦ rw none_ (inr (refl, k, none_))
      | inr (j, due) ↦
          let db₁ = (claim_due (w.time k) (w.lease k) db (some j)).1 in
          let one₁ : Unique db₁ =
            JobsChange-unique db.jobs db₁.jobs
              (claim_due-JobsChange (w.time k) (w.lease k) db (some j)) one in
          let le₁ =
            claim_due-open_jobs JobKind.project_purge (w.time k) (w.locked k) (w.lease k) db j one
              due in
          rw due (
            round-ProjectsEnd w fuel k j.id db₁ (process_project_purge w k j.id db₁) refl (λ goes.
              purge_projects_end w fuel (k + 3) (process_project_purge w k j.id db₁).1
                (process_project-Unique w k j.id db₁ one₁)
                (fewer w k j.id db₁ fuel (open_jobs JobKind.project_purge db.jobs)
                  (process_project_purge w k j.id db₁) refl goes le₁ less)))
    ]
