-- ===== src/Purge/History/Kept.antt =====
-- A job whose rows are detached keeps its payload through every later operation.
use tasktips_cloud.Base.{
  ℕ, ◌≡◌, refl, ap, subst, inl, inr, Bool-cases, false, true, some, List, [], ◌∷◌, ◌==◌, arith, All,
  All-find_by, any_by, find_by, find_by-test, any_by-update_where_same,
}
use tasktips_cloud.Store.Schema.{Db, Job, JobKind}
use tasktips_cloud.Purge.Jobs.{is_running_with, is_held, get, is_true}
use tasktips_cloud.Purge.History.{PurgeOp, purge_op, purge_ops}
use tasktips_cloud.Purge.History.Moves.{JobMove, moved, move, JobsChange, purge_op-JobsChange}
use tasktips_cloud.Purge.History.Sound.{JobsChange-All}

-- The columns of a row that only its own detachment writes.
pub record Stored (row j : Job) : Type 0 where
  pub payload : j.payload ≡ row.payload
  pub owner : j.owner ≡ row.owner
  pub project : j.project ≡ row.project

-- Some row has the identifier, and each that has it agrees with `row`.
pub record Keeps (target : ℕ) (row : Job) (jobs : List Job) : Type 0 where
  pub there : any_by (λ j. j.id == target) jobs ≡ true
  pub stored : All (λ j. (j.id == target) ≡ true → Stored row j) jobs

module _ (target : ℕ) (row : Job) (detached : is_true (get "detached" row.payload) ≡ true) where
  move-Stored :
      (m : JobMove) (j : Job)
      → moved m j ≡ true
      → ((j.id == target) ≡ true → Stored row j)
      → ((move m j).id == target) ≡ true
      → Stored row (move m j)
  move-Stored (JobMove.claims id now lease) j t h here = record {
    payload = (h here).payload;
    owner = (h here).owner;
    project = (h here).project;
  }
  move-Stored (JobMove.renews kind now job lease expiry) j t h here = record {
    payload = (h here).payload;
    owner = (h here).owner;
    project = (h here).project;
  }
  move-Stored (JobMove.fails now job lease code) j t h here = record {
    payload = (h here).payload;
    owner = (h here).owner;
    project = (h here).project;
  }
  move-Stored (JobMove.succeeds now job lease) j t h here = record {
    payload = (h here).payload;
    owner = (h here).owner;
    project = (h here).project;
  }

  -- A payload is stored for a job that is not detached, so for another one.
  stored_elsewhere :
      (before : List Job) (kind : JobKind) (now job lease : ℕ) (j k : Job)
      → All (λ j. (j.id == target) ≡ true → Stored row j) before
      → find_by (is_held kind now job lease) before ≡ some j
      → is_true (get "detached" j.payload) ≡ false
      → is_running_with job lease k ≡ true
      → (k.id == target) ≡ false
  stored_elsewhere before kind now job lease j k all found fresh t =
      elim (Bool-cases (k.id == target)) [
        | inr there ↦ there
        | inl here ↦
            let held = find_by-test (is_held kind now job lease) before j found in
            let same : (j.id == target) ≡ true = ground arith in
            let st =
              All-find_by (λ j. (j.id == target) ≡ true → Stored row j) (is_held kind now job lease)
                before j all found same in
            absurd (cc (ap (λ p. is_true (get "detached" p)) st.payload, detached, fresh))
      ]

  move_keeps : (m : JobMove) (j : Job) → ((move m j).id == target) ≡ (j.id == target)
  move_keeps (JobMove.claims id now lease) j = refl
  move_keeps (JobMove.renews kind now job lease expiry) j = refl
  move_keeps (JobMove.fails now job lease code) j = refl
  move_keeps (JobMove.succeeds now job lease) j = refl

  added_elsewhere :
      (before : List Job) (id : ℕ)
      → (id == target) ≡ true
      → any_by (λ j. j.id == id) before ≡ false
      → any_by (λ j. j.id == target) before ≡ true
      → ⊥
  added_elsewhere before id here new there =
      let same : id ≡ target = ground arith in
      absurd (cc (subst (λ i. any_by (λ j. j.id == i) before ≡ false) same new, there))

  there-Keeps :
      (before after : List Job)
      → JobsChange before after
      → any_by (λ j. j.id == target) before ≡ true
      → any_by (λ j. j.id == target) after ≡ true
  unfolding any_by
  there-Keeps before after (JobsChange.same e) h = rw e h
  there-Keeps before after (JobsChange.moves m e) h =
      rw
        (
          e,
          any_by-update_where_same (moved m) (λ j. j.id == target) (move m) before
              (λ j. move_keeps m j),
        )
        h
  there-Keeps before after (JobsChange.stores kind now job lease payload j found fresh e) h =
      rw
        (
          e,
          any_by-update_where_same (is_running_with job lease) (λ j. j.id == target)
              (λ k. record k { payload = payload }) before (λ j. refl),
        )
        h
  there-Keeps before after (JobsChange.adds id kind owner project now payload new e) h =
      rw e (ground arith)

  JobsChange-Keeps :
      (before after : List Job)
      → JobsChange before after
      → Keeps target row before
      → Keeps target row after
  JobsChange-Keeps before after change h = record {
    there = there-Keeps before after change h.there;
    stored =
        JobsChange-All (λ j. (j.id == target) ≡ true → Stored row j) move-Stored before after
          (λ kind now job lease payload j found fresh k t s here.
            absurd
              (cc (stored_elsewhere before kind now job lease j k h.stored found fresh t, here)))
          (λ id kind owner project now payload new here.
            absurd (added_elsewhere before id here new h.there))
          change h.stored;
  }

  pub purge_ops-Keeps :
      (os : List PurgeOp) (db : Db)
      → Keeps target row db.jobs
      → Keeps target row (purge_ops os db).jobs
  unfolding purge_ops
  purge_ops-Keeps [] db h = h
  purge_ops-Keeps (o ∷ os) db h =
      purge_ops-Keeps os (purge_op o db)
        (JobsChange-Keeps db.jobs (purge_op o db).jobs (purge_op-JobsChange o db) h)
