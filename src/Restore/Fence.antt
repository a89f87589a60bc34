-- ===== src/Restore/Fence.antt =====
-- The lease fences a worker off once another one has claimed its job.
use tasktips_cloud.Base.{
  ℕ, ◌≡◌, ◌≢◌, ap, sym, inl, inr, Bool, false, ◌&&◌, String, some, ◌==◌, arith, Option-cases,
  find_by, any_by, count_by_none, update_where_none, find_by_of_none, any_by-update_where_out,
  any_by_none,
}
use tasktips_cloud.Store.Errors.{conflict, not_found, ok, err}
use tasktips_cloud.Store.Schema.{Db, Project, RestoreJob, SnapshotStatus}
use tasktips_cloud.Restore.Jobs.{is_leased, update_jobs, set_project_status}
use tasktips_cloud.Restore.Worker.{
  next_claim, claims_project, enter_maintenance, leased_job, claim_with, claim_restore_job,
  is_pending, mark_snapshot, mark_snapshot_ready_for_job, renew_restore_lease, cancel_leased,
  cancel_restore_with_lease, fail_restore_job_with_lease, retry_restore_job_with_lease,
}

-- Nothing that a worker does with this lease has an effect.
pub record IsFencedOff (job lease : ℕ) (db : Db) : Type 0 where
  pub renews : (now : ℕ) → renew_restore_lease now job lease db ≡ (err conflict, db)
  pub cancels : (now : ℕ) → cancel_restore_with_lease now job lease db ≡ (err not_found, db)
  pub fails : (now : ℕ) (code : String) → fail_restore_job_with_lease now job lease code db ≡ db
  pub retries :
      (now : ℕ) (code : String) → retry_restore_job_with_lease now job lease code db ≡ (false, db)
  pub marks :
      (snapshot : ℕ) (bucket key : String)
      → mark_snapshot_ready_for_job job lease snapshot bucket key db ≡ db

module _ (job lease : ℕ) (db : Db) (gone : any_by (is_leased job lease) db.restores ≡ false) where
  update_jobs_gone : (f : RestoreJob → RestoreJob) → update_jobs (is_leased job lease) f db ≡ db
  unfolding update_jobs
  update_jobs_gone f = rw (update_where_none (is_leased job lease) f db.restores gone)

  marks_gone :
      (snapshot : ℕ) (bucket key : String)
      → mark_snapshot_ready_for_job job lease snapshot bucket key db ≡ db
  unfolding mark_snapshot_ready_for_job mark_snapshot
  marks_gone snapshot bucket key = rw (
      update_where_none
        (λ s. s.id == snapshot && is_pending s.status && any_by (is_leased job lease) db.restores)
        (λ s. record s { bucket = bucket; key = key; status = SnapshotStatus.ready }) db.snapshots
        (any_by_none _ db.snapshots (λ s. ground arith)))

  -- A lease that no running job holds has no effect.
  pub lease_gone : IsFencedOff job lease db
  unfolding renew_restore_lease cancel_restore_with_lease cancel_leased fail_restore_job_with_lease
      retry_restore_job_with_lease
  lease_gone = record {
    renews = λ now. rw (count_by_none (is_leased job lease) db.restores gone, update_jobs_gone);
    cancels = λ now. rw (find_by_of_none (is_leased job lease) db.restores gone);
    fails = λ now code. update_jobs_gone _;
    retries =
        λ now code. rw (find_by_of_none (is_leased job lease) db.restores gone, update_jobs_gone);
    marks = marks_gone;
  }

-- What a claim has found and written.
pub record Claimed (now lease : ℕ) (db : Db) (j : RestoreJob) (db' : Db) (was : RestoreJob)
    (p : Project) : Type 0 where
  pub project : find_by (claims_project was.project was) db.projects ≡ some p
  pub job : j ≡ leased_job now p.generation lease was
  pub state :
      db'
      ≡ update_jobs
          (λ k. k.id == was.id)
          (leased_job now p.generation lease)
          (enter_maintenance now was db)

claim_with-Claimed :
    (now lease : ℕ) (db db' : Db) (j was : RestoreJob) (p : Project)
    → find_by (claims_project was.project was) db.projects ≡ some p
    → claim_with now lease was db (some p) ≡ (ok (some j), db')
    → Claimed now lease db j db' was p
claim_with-Claimed now lease db db' j was p found e = record {
  project = found;
  job = cc;
  state = sym (ap (λ r. r.1) e);
}

pub claim-Claimed :
    (now : ℕ) (locked : ℕ → Bool) (lease : ℕ) (db db' : Db) (j : RestoreJob)
    → claim_restore_job now locked lease db ≡ (ok (some j), db')
    → (was : RestoreJob) × (p : Project) × (next_claim now locked db.restores ≡ some was)
      × Claimed now lease db j db' was p
unfolding claim_restore_job
claim-Claimed now locked lease db db' j e =
    elim (Option-cases (next_claim now locked db.restores)) [
      | inl nothing ↦ absurd (cc (rw nothing at e))
      | inr (was, next) ↦
          elim (Option-cases (find_by (claims_project was.project was) db.projects)) [
            | inl closed ↦ absurd (cc (rw (next, closed) at e))
            | inr (p, found) ↦ (
              was,
              p,
              next,
              claim_with-Claimed now lease db db' j was p found (rw (next, found) at e),
            )
          ]
    ]

pub enter_maintenance_restores :
    (now : ℕ) (j : RestoreJob) (db : Db) → (enter_maintenance now j db).restores ≡ db.restores
unfolding set_project_status
enter_maintenance_restores now j db = ground arith

old_lease_gone :
    (now lease old : ℕ) (db db' : Db) (j was : RestoreJob) (p : Project)
    → Claimed now lease db j db' was p
    → old ≢ lease
    → any_by (is_leased j.id old) db'.restores ≡ false
unfolding update_jobs
old_lease_gone now lease old db db' j was p c other =
    rw (c.state, c.job)
      (any_by-update_where_out (λ k. k.id == was.id) (is_leased was.id old)
        (leased_job now p.generation lease) (enter_maintenance now was db).restores
        (λ x h. ground arith) (λ x. ground arith))

-- A claim hands the job over: afterwards a worker with any other lease for it can neither renew it,
-- cancel, fail or retry the job, nor finish its snapshot.
pub claim_fences_off :
    (now : ℕ) (locked : ℕ → Bool) (lease old : ℕ) (db db' : Db) (j : RestoreJob)
    → claim_restore_job now locked lease db ≡ (ok (some j), db')
    → old ≢ lease
    → IsFencedOff j.id old db'
claim_fences_off now locked lease old db db' j e other =
    let (was, p, next, c) = claim-Claimed now locked lease db db' j e in
    lease_gone j.id old db' (old_lease_gone now lease old db db' j was p c other)
