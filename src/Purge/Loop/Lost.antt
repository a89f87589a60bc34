-- ===== src/Purge/Loop/Lost.antt =====
-- An account purge that is interrupted behind its detachment.
use tasktips_cloud.Base.{
  ℕ, ◌+◌, ◌≤◌, ◌≡◌, refl, sym, ap, ◌∙◌, subst, inl, inr, Option-cases, false, true, some,
  some-injective, List, ◌==◌, arith, String, All-find_by, find_by, find_by-test, count_by,
}
use tasktips_cloud.Store.Schema.{Db, Job, JobKind}
use tasktips_cloud.Store.Errors.{PersistenceError, not_found, invalid_payload, ok, err}
use tasktips_cloud.Restore.Manifest.{lookup}
use tasktips_cloud.Purge.Jobs.{is_held, held_job, get, is_true, change_jobs, account_purge_phase}
use tasktips_cloud.Purge.Rows.{delete_rows}
use tasktips_cloud.Purge.Project.{set_payload}
use tasktips_cloud.Purge.Account.{detached_account, delete_account, prepare_account_purge}
use tasktips_cloud.Purge.Account.Runs.{prepare_account_purge-AccountRun}
use tasktips_cloud.Purge.History.{PurgeOp, purge_ops}
use tasktips_cloud.Purge.History.Kept.{Stored, Keeps, purge_ops-Keeps}
use tasktips_cloud.Purge.History.Again.{with_payload, set-Keeps}
use tasktips_cloud.Purge.Loop.{World, process_account_purge_job}

detached_is :
    (export : ℕ) (keys : List String) (j : Job)
    → is_true (get "detached" (with_payload (detached_account export keys) j).payload) ≡ true
unfolding get lookup
detached_is export keys j = refl

-- The payload that the detachment has written, wherever it is read later.
prepare_account-Keeps :
    (now job lease : ℕ) (db db' : Db) (keys : List String) (j : Job)
    → count_by (λ k. k.id == job) db.jobs ≤ 1
    → find_by (is_held JobKind.account_purge now job lease) db.jobs ≡ some j
    → is_true (get "detached" j.payload) ≡ false
    → prepare_account_purge now job lease db ≡ (ok keys, db')
    → (export : ℕ) × Keeps job (with_payload (detached_account export keys) j) db'.jobs
unfolding set_payload change_jobs delete_account delete_rows
prepare_account-Keeps now job lease db db' keys j one found fresh e =
    let run = prepare_account_purge-AccountRun now job lease db keys db' e in
    let same : run.j ≡ j = some-injective run.j j (sym run.held ∙ found) in
    elim run.outcome [
      | inl again ↦
          absurd
            (cc (ap (λ (k : Job). is_true (get "detached" k.payload)) same, again.detached, fresh))
      | inr (new, detached) ↦ (
        detached.export,
        subst
            (λ (d : Db). Keeps job (with_payload (detached_account detached.export keys) j) d.jobs)
            (sym detached.state)
            (set-Keeps JobKind.account_purge now job lease (detached_account detached.export keys)
              db.jobs j one found),
      )
    ]

phase_of_detached :
    (now job lease export : ℕ) (keys : List String) (row : Job) (db : Db)
    → Keeps job (with_payload (detached_account export keys) row) db.jobs
    → (why : PersistenceError) × (account_purge_phase now job lease db ≡ err why)
unfolding account_purge_phase held_job
phase_of_detached now job lease export keys row db keeps =
    elim (Option-cases (find_by (is_held JobKind.account_purge now job lease) db.jobs)) [
      | inl gone ↦ (not_found, rw gone refl)
      | inr (j, found) ↦
          let held = find_by-test (is_held JobKind.account_purge now job lease) db.jobs j found in
          let st =
            All-find_by
              (λ k.
                (k.id == job) ≡ true → Stored (with_payload (detached_account export keys) row) k)
              (is_held JobKind.account_purge now job lease) db.jobs j keeps.stored found
              (ground arith) in
          (invalid_payload, rw (found, st.payload, get, lookup) refl)
    ]

-- Once an account purge has detached the rows of the account without reaching its end, no later run
-- of the job by the worker completes it: whatever purge operations come between, each run returns
-- an error and changes nothing, since the payload that the detachment wrote has no phase. The
-- identifier of the job is a primary key.
pub detached_account_is_lost :
    (now job lease : ℕ) (db db' : Db) (keys : List String) (j : Job) (os : List PurgeOp) (w : World)
    (k lease' : ℕ)
    → count_by (λ k. k.id == job) db.jobs ≤ 1
    → find_by (is_held JobKind.account_purge now job lease) db.jobs ≡ some j
    → is_true (get "detached" j.payload) ≡ false
    → prepare_account_purge now job lease db ≡ (ok keys, db')
    → process_account_purge_job w k job lease' (purge_ops os db') ≡ (false, purge_ops os db')
unfolding process_account_purge_job
detached_account_is_lost now job lease db db' keys j os w k lease' one found fresh e =
    let (export, keeps) = prepare_account-Keeps now job lease db db' keys j one found fresh e in
    let later =
      purge_ops-Keeps job (with_payload (detached_account export keys) j)
        (detached_is export keys j) os db' keeps in
    let (why, lost) =
      phase_of_detached (w.time (k + 1)) job lease' export keys j (purge_ops os db') later in
    rw lost refl
