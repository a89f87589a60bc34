-- ===== src/Purge/History/Sound.antt =====
-- The states of a purge job, in every order of the operations.
use tasktips_cloud.Base.{
  ℕ, ◌≤◌, ◌≡◌, refl, subst, false, true, Option, none, some, is_some, List, [], ◌∷◌, ◌==◌, arith,
  All, All-update_where, any_by, find_by, count_by, count_by_none, count_by-update_where_keep,
}
use tasktips_cloud.Json.{Json}
use tasktips_cloud.Store.Schema.{Db, Job, JobKind, JobStatus}
use tasktips_cloud.Purge.Jobs.{is_running_with, is_held, get, is_true, new_job, purge_attempts}
use tasktips_cloud.Purge.History.{PurgeOp, purge_op, purge_ops}
use tasktips_cloud.Purge.History.Moves.{JobMove, moved, move, JobsChange, purge_op-JobsChange}

-- What keeps a property of every job.
module _ {κ} (P : Job → Type κ)
    (kept : (m : JobMove) (j : Job) → moved m j ≡ true → P j → P (move m j))
    (before after : List Job)
    (stored : (kind : JobKind) (now job lease : ℕ) (payload : Json) (j : Job)
      → find_by (is_held kind now job lease) before ≡ some j
      → is_true (get "detached" j.payload) ≡ false
      → (k : Job) → is_running_with job lease k ≡ true
      → P k
      → P (record k { payload = payload }))
    (added : (id : ℕ) (kind : JobKind) (owner : ℕ) (project : Option ℕ) (now : ℕ) (payload : Json)
      → any_by (λ j. j.id == id) before ≡ false
      → P (new_job id kind owner project now payload)) where
  pub JobsChange-All : JobsChange before after → All P before → All P after
  JobsChange-All (JobsChange.same e) all = rw e all
  JobsChange-All (JobsChange.moves m e) all =
      rw e (All-update_where (moved m) P (move m) before (kept m) all)
  JobsChange-All (JobsChange.stores kind now job lease payload j found fresh e) all = rw e (
      All-update_where (is_running_with job lease) P (λ k. record k { payload = payload }) before
        (stored kind now job lease payload j found fresh) all)
  JobsChange-All (JobsChange.adds id kind owner project now payload new e) all =
      rw e (added id kind owner project now payload new, all)

-- A queued job has no lease, a running one has one, a closed one has an end, and only five attempts
-- make a job fail.
abbrev pub SoundAs : JobStatus → Job → Type 0
SoundAs JobStatus.queued j = (j.lease_token ≡ none) × (j.finished_at ≡ none)
SoundAs JobStatus.running j =
    (is_some j.lease_token ≡ true)
    × (is_some j.lease_expires_at ≡ true)
    × (is_some j.started_at ≡ true)
    × (1 ≤ j.attempts)
SoundAs JobStatus.succeeded j = (j.lease_token ≡ none) × (is_some j.finished_at ≡ true)
SoundAs JobStatus.failed j =
    (j.lease_token ≡ none) × (is_some j.finished_at ≡ true) × (purge_attempts ≤ j.attempts)

abbrev pub JobSound : Job → Type 0
JobSound j = SoundAs j.status j

pub record JobsSound (jobs : List Job) : Type 0 where
  pub sound : All JobSound jobs
  pub unique : (id : ℕ) → count_by (λ j. j.id == id) jobs ≤ 1

move-JobSound : (m : JobMove) (j : Job) → moved m j ≡ true → JobSound j → JobSound (move m j)
move-JobSound (JobMove.claims id now lease) j t h = ground arith
move-JobSound (JobMove.renews kind now job lease expiry) j t h = ground arith
move-JobSound (JobMove.fails now job lease code) j t h = ground arith
move-JobSound (JobMove.succeeds now job lease) j t h = ground arith

payload-JobSound :
    (payload : Json) (k : Job) → JobSound k → JobSound (record k { payload = payload })
payload-JobSound payload k h = ground arith

move_id : (m : JobMove) (j : Job) (id : ℕ) → ((move m j).id == id) ≡ true → (j.id == id) ≡ true
move_id (JobMove.claims i now lease) j id h = h
move_id (JobMove.renews kind now job lease expiry) j id h = h
move_id (JobMove.fails now job lease code) j id h = h
move_id (JobMove.succeeds now job lease) j id h = h

pub JobsChange-unique :
    (before after : List Job)
    → JobsChange before after
    → ((id : ℕ) → count_by (λ j. j.id == id) before ≤ 1)
    → (id : ℕ) → count_by (λ j. j.id == id) after ≤ 1
unfolding count_by
JobsChange-unique before after (JobsChange.same e) one id = rw e (one id)
JobsChange-unique before after (JobsChange.moves m e) one id = ground (
  arith,
  one id,
  count_by-update_where_keep (moved m) (λ j. j.id == id) (move m) before
      (λ j t h. move_id m j id h),
)
JobsChange-unique before after (JobsChange.stores kind now job lease payload j found fresh e) one
      id =
    ground (
      arith,
      one id,
      count_by-update_where_keep (is_running_with job lease) (λ j. j.id == id)
          (λ k. record k { payload = payload }) before (λ j t h. h),
    )
JobsChange-unique before after (JobsChange.adds id' kind owner project now payload new e) one id =
    rw e (ground (arith, one id, inserted))
  where
    inserted : (id' == id) ≡ true → count_by (λ j. j.id == id) before ≡ 0
    inserted same_ =
        let here : id' ≡ id = ground arith in
        count_by_none (λ j. j.id == id) before
          (subst (λ i. any_by (λ j. j.id == i) before ≡ false) here new)

pub purge_op-JobsSound :
    (o : PurgeOp) (db : Db) → JobsSound db.jobs → JobsSound (purge_op o db).jobs
purge_op-JobsSound o db h = record {
  sound =
      JobsChange-All JobSound move-JobSound db.jobs (purge_op o db).jobs
        (λ kind now job lease payload j found fresh k t s. payload-JobSound payload k s)
        (λ id kind owner project now payload new. (refl, refl)) (purge_op-JobsChange o db) h.sound;
  unique = JobsChange-unique db.jobs (purge_op o db).jobs (purge_op-JobsChange o db) h.unique;
}

-- Whatever the order of claims, renewals, failures, detachments, completions and requests, the jobs
-- stay sound: a queued job has no lease and no end, a running one has a lease and was tried, a
-- closed one has an end and no lease, one that failed was tried five times, and no two have the
-- same identifier.
pub purge_ops-JobsSound :
    (os : List PurgeOp) (db : Db) → JobsSound db.jobs → JobsSound (purge_ops os db).jobs
unfolding purge_ops
purge_ops-JobsSound [] db h = h
purge_ops-JobsSound (o ∷ os) db h =
    purge_ops-JobsSound os (purge_op o db) (purge_op-JobsSound o db h)
