-- ===== src/Restore/History/Sound.antt =====
-- What every restore job keeps: its attempts, its lease while it runs, and that a project has at most
-- one open job.
use tasktips_cloud.Base.{
  ℕ, ◌≤◌, ◌≡◌, refl, ap, ◌∙◌, ◌⊎◌, inl, inr, Bool, true, false, not, ◌&&◌, Option, none, some, List,
  [], ◌∷◌, ◌==◌, ltb, leb, is_some, arith, if◌then◌else◌, All, Bool-cases, Option-cases, find_by,
  any_by, count_by, update_where, ==_refl, All-update_where, count_by-update_where_keep,
  any_by_apart_of_any, update_where_agree,
}
use tasktips_cloud.Store.Schema.{Db, RestoreJob, failed, Project}
use tasktips_cloud.Restore.Jobs.{
  is_running, is_open, is_active_job, update_jobs, set_project_status,
}
use tasktips_cloud.Restore.Fence.{enter_maintenance_restores}
use tasktips_cloud.Restore.Worker.{
  is_claimable, is_before, next_claim, claims_project, leased_job, claim_with, claim_restore_job,
  attempts_limit,
}

-- A job has been tried at most three times and fewer while it is open; a running one has a lease, the
-- generation that it began with and its start; a closed one has its end.
abbrev pub is_sound : RestoreJob → Bool
is_sound j =
    leb j.attempts attempts_limit
    && (if is_open j.status then ltb j.attempts attempts_limit else is_some j.finished_at)
    && (if is_running j.status
        then is_some j.lease_token
          && is_some j.lease_expires_at
          && is_some j.generation_before
          && is_some j.started_at
        else true)

pub record JobsSound (restores : List RestoreJob) : Type 0 where
  pub jobs : All (λ j. is_sound j ≡ true) restores
  pub ids : (id : ℕ) → count_by (λ j. j.id == id) restores ≤ 1
  pub one_open : (project : ℕ) → count_by (is_active_job project) restores ≤ 1

pub update_where-JobsSound :
    (test : RestoreJob → Bool) (f : RestoreJob → RestoreJob) (restores : List RestoreJob)
    → ((j : RestoreJob) → test j ≡ true → is_sound j ≡ true → is_sound (f j) ≡ true)
    → ((j : RestoreJob) → test j ≡ true → is_open (f j).status ≡ true → is_open j.status ≡ true)
    → ((j : RestoreJob) → ((f j).id ≡ j.id) × ((f j).project ≡ j.project))
    → JobsSound restores
    → JobsSound (update_where test f restores)
update_where-JobsSound test f restores sound opens same s = record {
  jobs = All-update_where test (λ j. is_sound j ≡ true) f restores sound s.jobs;
  ids = λ id. omega (
    arith,
    s.ids id,
    count_by-update_where_keep test (λ j. j.id == id) f restores (λ j h e. rw ((same j).0) at e),
  );
  one_open = λ project. omega (
    arith,
    s.one_open project,
    count_by-update_where_keep test (is_active_job project) f restores
        (λ j h e. ground (arith, opens j h, (same j).1)),
  );
}

some_inj : {A : Type 0} (a b : A) → some a ≡ some b → a ≡ b
some_inj a b e = cc

claim_first :
    (now : ℕ) (locked : ℕ → Bool) (j : RestoreJob) (js : List RestoreJob) (was : RestoreJob)
    → next_claim now locked (j ∷ js) ≡ some was
    → ((is_claimable now j ≡ true) × (j ≡ was)) ⊎ (next_claim now locked js ≡ some was)
unfolding next_claim
claim_first now locked j js was e = elim (Bool-cases (is_claimable now j && not (locked j.id))) [
  | inl takes ↦
      let e' = rw takes at e in
      let claimable : is_claimable now j ≡ true = ground arith in
      elim (Option-cases (next_claim now locked js)) [
        | inl nothing ↦ inl (claimable, some_inj j was (rw nothing at e'))
        | inr (k, next) ↦
            let e'' = rw next at e' in
            elim (Bool-cases (is_before j k)) [
              | inl first ↦ inl (claimable, some_inj j was (rw first at e''))
              | inr later ↦ inr (next ∙ (rw later at e''))
            ]
      ]
  | inr passes ↦ inr (rw passes at e)
]

-- The job that a claim takes is claimable, by its identifier.
next_claim_in :
    (now : ℕ) (locked : ℕ → Bool) (js : List RestoreJob) (was : RestoreJob)
    → next_claim now locked js ≡ some was
    → any_by (λ j. j.id == was.id && is_claimable now j) js ≡ true
unfolding any_by
next_claim_in now locked [] was e = absurd (unfold next_claim in cc e)
next_claim_in now locked (j ∷ js) was e = elim (claim_first now locked j js was e) [
  | inl (claimable, same) ↦ rw (← same) (rw (==_refl j.id, claimable))
  | inr next ↦ let there = next_claim_in now locked js was next in ground arith
]

-- It is a row of the table.
pub next_claim_row :
    (now : ℕ) (locked : ℕ → Bool) (other : RestoreJob → Bool) (js : List RestoreJob)
    (was : RestoreJob)
    → next_claim now locked js ≡ some was
    → any_by other js ≡ false
    → (other was ≡ false) × (is_claimable now was ≡ true)
unfolding any_by
next_claim_row now locked other [] was e none_ = absurd (unfold next_claim in cc e)
next_claim_row now locked other (j ∷ js) was e none_ = elim (claim_first now locked j js was e) [
  | inl (claimable, same) ↦ rw (← same) (ground arith)
  | inr next ↦ next_claim_row now locked other js was next (ground arith)
]

claimed_rows :
    (now : ℕ) (locked : ℕ → Bool) (was : RestoreJob) (f : RestoreJob → RestoreJob)
    (restores : List RestoreJob)
    → next_claim now locked restores ≡ some was
    → ((id : ℕ) → count_by (λ j. j.id == id) restores ≤ 1)
    → update_where (λ j. j.id == was.id) f restores
      ≡ update_where (λ j. j.id == was.id && is_claimable now j) f restores
claimed_rows now locked was f restores next unique =
    update_where_agree (λ j. j.id == was.id) (is_claimable now) f restores
      (any_by_apart_of_any (λ j. j.id == was.id) (λ j. j.id == was.id && is_claimable now j)
        (λ j. j.id == was.id && not (is_claimable now j)) restores (unique was.id)
        (λ y h. ground arith) (λ y h. ground arith) (λ y h. ground arith)
        (next_claim_in now locked restores was next))

claim_with_restores :
    (now lease : ℕ) (was : RestoreJob) (db : Db) (p : Option Project)
    → (f : RestoreJob → RestoreJob) × ((claim_with now lease was db p).1.restores
        ≡ update_where (λ j. j.id == was.id) f db.restores)
      × ((j : RestoreJob) → is_claimable now j ≡ true → is_sound j ≡ true → is_sound (f j) ≡ true)
      × ((j : RestoreJob) → ((f j).id ≡ j.id) × ((f j).project ≡ j.project))
unfolding update_jobs set_project_status
claim_with_restores now lease was db none = (
  λ k. record k {
    status = failed;
    error_code = some "PROJECT_MAINTENANCE";
    finished_at = some now;
  },
  refl,
  λ j h s. ground arith,
  λ j. (refl, refl),
)
claim_with_restores now lease was db (some p) = (
  leased_job now p.generation lease,
  ap (update_where _ _) (enter_maintenance_restores now was db),
  λ j h s. ground arith,
  λ j. (refl, refl),
)

pub claimable_open :
    (now : ℕ) (j : RestoreJob) → is_claimable now j ≡ true → is_open j.status ≡ true
claimable_open now j h = ground arith

pub claim-JobsSound :
    (now : ℕ) (locked : ℕ → Bool) (lease : ℕ) (db : Db)
    → JobsSound db.restores
    → JobsSound (claim_restore_job now locked lease db).1.restores
unfolding claim_restore_job
claim-JobsSound now locked lease db s = elim (Option-cases (next_claim now locked db.restores)) [
  | inl nothing ↦ rw nothing s
  | inr (was, next) ↦
      let (f, restores, sound, same) =
        claim_with_restores now lease was db
          (find_by (claims_project was.project was) db.projects) in
      rw next (
        rw (restores, claimed_rows now locked was f db.restores next s.ids)
          (update_where-JobsSound (λ j. j.id == was.id && is_claimable now j) f db.restores
            (λ j h. sound j (ground arith)) (λ j h e. claimable_open now j (ground arith)) same s))
]
