-- ===== src/Purge/Loop.antt =====
-- `process_purge_jobs` and `process_account_purge_job` of crates/worker/src/main.rs.
pub mod Ends
pub mod Lost
pub mod Erased
use tasktips_cloud.Base.{
  ℕ, zero, suc, ◌+◌, Bool, true, false, String, Option, none, some, List, [], ◌∷◌, str_eq,
  if◌then◌else◌,
}
use tasktips_cloud.Store.Errors.{Result, ok, err}
use tasktips_cloud.Store.Schema.{Db, Job}
use tasktips_cloud.Purge.Jobs.{
  claim_project_purge_job, claim_account_purge_job, account_purge_phase, fail_project_purge,
}
use tasktips_cloud.Purge.Project.{prepare_project_purge, complete_project_purge}
use tasktips_cloud.Purge.Account.{prepare_account_purge, complete_account_purge, fail_account_purge}
use tasktips_cloud.Purge.Account.Archive.{
  AccountExport, Exporter, prepare_account_export, download, pack,
}

-- How a loop ends: no job is due, an error is returned, or the fuel of the model is spent.
pub data Ending : Type 0 where
  finished failed spent : Ending

-- What the loop meets: the time of the k-th phase, in which the clock of the database stands still;
-- the UUIDs of the leases; the rows that other workers hold; the keys that the object store deletes.
pub record World : Type 0 where
  pub time : ℕ → ℕ
  pub lease : ℕ → ℕ
  pub locked : ℕ → ℕ → Bool
  pub deletes : String → Bool
  pub exporter : Exporter

-- `for key in &keys`, up to the first deletion that fails.
unfoldable pub delete_keys : (String → Bool) → List String → Bool
delete_keys deletes [] = true
delete_keys deletes (k ∷ ks) =
    let rest = delete_keys deletes ks in if deletes k then rest else false

-- Whether the loop goes on, with the state.
abbrev pub goes_on : Result (Unit {0}) × Db → Bool × Db
goes_on (ok done, db) = (true, db)
goes_on (err why, db) = (false, db)

-- Either the failure is recorded and the error of the job returned, or the error of the recording.
abbrev pub stops : Result (Unit {0}) × Db → Bool × Db
stops (recorded, db) = (false, db)

abbrev pub delete_and_complete : (String → Bool) → ℕ → ℕ → ℕ → Result (List String) × Db → Bool × Db
delete_and_complete deletes now job lease (err why, db) =
    stops (fail_project_purge now job lease "PURGE_DETACH_FAILED" db)
delete_and_complete deletes now job lease (ok keys, db) =
    if delete_keys deletes keys
    then goes_on (complete_project_purge now job lease db)
    else stops (fail_project_purge now job lease "PURGE_OBJECT_DELETE_FAILED" db)

-- The body of the second loop, at the times of its k-th round.
unfoldable pub process_project_purge : World → ℕ → ℕ → Db → Bool × Db
unfolding delete_keys
process_project_purge w k job db =
    delete_and_complete w.deletes (w.time (k + 2)) job (w.lease k)
      (prepare_project_purge (w.time (k + 1)) job (w.lease k) db)

abbrev pub next_round : (Db → Ending × Db) → Bool × Db → Ending × Db
next_round again (true, db) = again db
next_round again (false, db) = (Ending.failed, db)

abbrev pub claimed_round :
    (Job → Db → Bool × Db) → (Db → Ending × Db) → Option Job × Db → Ending × Db
claimed_round body again (none, db) = (Ending.finished, db)
claimed_round body again (some j, db) = next_round again (body j db)

-- `while let Some(job) = persistence.claim_project_purge_job().await?`
unfoldable pub purge_projects : World → ℕ → ℕ → Db → Ending × Db
unfolding process_project_purge
purge_projects w zero k db = (Ending.spent, db)
purge_projects w (suc fuel) k db =
    claimed_round (λ j. process_project_purge w k j.id) (purge_projects w fuel (k + 3))
      (claim_project_purge_job (w.time k) (w.locked k) (w.lease k) db)

abbrev pub run_export : Exporter → ℕ → ℕ → ℕ → Result AccountExport → Db → Bool × Db
run_export x now job lease (err why) db = (false, db)
run_export x now job lease (ok found) db =
    pack_all (download x now job lease found.payloads x.manifest_size db)
  where
    pack_all : Option ℕ × Db → Bool × Db
    pack_all (none, db') = (false, db')
    pack_all (some total, db') = pack x now job lease found total (x.archive found.export) db'

abbrev pub delete_account_keys : World → ℕ → ℕ → ℕ → Result (List String) × Db → Bool × Db
delete_account_keys w now job lease (err why, db) = (false, db)
delete_account_keys w now job lease (ok keys, db) =
    if delete_keys w.deletes keys
    then goes_on (complete_account_purge w.exporter.uuid_text now job lease db)
    else (false, db)

abbrev pub run_phase : World → ℕ → ℕ → ℕ → ℕ → Result String → Db → Bool × Db
run_phase w now later job lease (err why) db = (false, db)
run_phase w now later job lease (ok phase) db =
    if str_eq phase "export"
    then run_export w.exporter now job lease (prepare_account_export w.exporter now job lease db) db
    else delete_account_keys w later job lease (prepare_account_purge now job lease db)

unfoldable pub process_account_purge_job : World → ℕ → ℕ → ℕ → Db → Bool × Db
unfolding delete_keys download
process_account_purge_job w k job lease db =
    run_phase w (w.time (k + 1)) (w.time (k + 2)) job lease
      (account_purge_phase (w.time (k + 1)) job lease db) db

abbrev pub recorded_failure : World → ℕ → ℕ → ℕ → Bool × Db → Bool × Db
recorded_failure w k job lease (true, db) = (true, db)
recorded_failure w k job lease (false, db) =
    stops (fail_account_purge (w.time (k + 2)) job lease "ACCOUNT_PURGE_FAILED" db)

unfoldable pub process_account_purge : World → ℕ → ℕ → Db → Bool × Db
unfolding process_account_purge_job
process_account_purge w k job db =
    recorded_failure w k job (w.lease k) (process_account_purge_job w k job (w.lease k) db)

-- `while let Some(job) = persistence.claim_account_purge_job().await?`
unfoldable pub purge_accounts : World → ℕ → ℕ → Db → Ending × Db
unfolding process_account_purge
purge_accounts w zero k db = (Ending.spent, db)
purge_accounts w (suc fuel) k db =
    claimed_round (λ j. process_account_purge w k j.id) (purge_accounts w fuel (k + 3))
      (claim_account_purge_job (w.time k) (w.locked k) (w.lease k) db)

abbrev pub then_projects : (Db → Ending × Db) → Ending × Db → Ending × Db
then_projects projects (Ending.finished, db) = projects db
then_projects projects (ending, db) = (ending, db)

-- The accounts, and then the projects; `k` and `k'` count the phases of the two loops.
unfoldable pub process_purge_jobs : World → ℕ → ℕ → ℕ → Db → Ending × Db
unfolding purge_accounts purge_projects
process_purge_jobs w fuel k k' db =
    then_projects (purge_projects w fuel k') (purge_accounts w fuel k db)
