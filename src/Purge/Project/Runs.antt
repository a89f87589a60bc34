-- ===== src/Purge/Project/Runs.antt =====
-- What `prepare_project_purge` has found and done where it returns Ok.
use tasktips_cloud.Base.{
  ℕ, ◌≡◌, refl, sym, ap, ◌∙◌, ◌⊎◌, inl, inr, Bool-cases, true, false, String, Option, some, none,
  List, ◌==◌, ◌&&◌, find_by, arith,
}
use tasktips_cloud.Store.Errors.{Result, ok, steps_of_ok}
use tasktips_cloud.Store.Schema.{Db, Project, Job, JobKind}
use tasktips_cloud.Store.Transaction.{commit_ok-eq-ok, ok_state, ok_value, done, done-eq-ok}
use tasktips_cloud.Auth.Rows.{insert_audit}
use tasktips_cloud.Auth.Rotation.Steps.{insert_audit_nullable-eq-ok}
use tasktips_cloud.Json.{Json}
use tasktips_cloud.Purge.Jobs.{
  is_held, held_job, found_row, not_null, get, is_true, stored_keys, finish_job,
}
use tasktips_cloud.Purge.Project.{
  is_deleting, ensure_deleting, project_keys, delete_project, detached_payload, set_payload,
  detach_project, stored_or, project_purge, prepare_project_purge, complete_project_purge,
  end_project_purge,
}

pub record StoredAgain (payload : Json) (db : Db) (keys : List String) (db' : Db) : Type 0 where
  pub detached : is_true (get "detached" payload) ≡ true
  pub stored : stored_keys (get "objectKeys" payload) ≡ ok keys
  pub same : db' ≡ db

pub record DetachedNow (owner project job lease : ℕ) (db : Db) (keys : List String) (db' : Db)
    : Type 0 where
  pub row : Project
  pub found : find_by (λ p. p.id == project && p.owner == owner) db.projects ≡ some row
  pub deleting : is_deleting row.status ≡ true
  pub keys_are : keys ≡ project_keys project db
  pub state : db' ≡ set_payload job lease (detached_payload keys) (delete_project project db)

pub record PurgeRun (now job lease : ℕ) (db : Db) (keys : List String) (db' : Db) : Type 0 where
  pub j : Job
  pub owner : ℕ
  pub project : ℕ
  pub held : find_by (is_held JobKind.project_purge now job lease) db.jobs ≡ some j
  pub owned : j.owner ≡ some owner
  pub of_project : j.project ≡ some project
  pub outcome :
      StoredAgain j.payload db keys db'
      ⊎ (is_true (get "detached" j.payload) ≡ false)
        × DetachedNow owner project job lease db keys db'

pub found_row-eq-ok : (o : Option Job) (j : Job) → found_row o ≡ ok j → o ≡ some j
found_row-eq-ok none j e = absurd (cc)
found_row-eq-ok (some k) j e = cc

pub not_null-eq-ok : (o : Option ℕ) (n : ℕ) → not_null o ≡ ok n → o ≡ some n
not_null-eq-ok none n e = absurd (cc)
not_null-eq-ok (some k) n e = cc

pub held_job-eq-ok :
    (kind : JobKind) (now job lease : ℕ) (db : Db) (j : Job)
    → held_job kind now job lease db ≡ ok j
    → find_by (is_held kind now job lease) db.jobs ≡ some j
unfolding held_job
held_job-eq-ok kind now job lease db j e =
    found_row-eq-ok (find_by (is_held kind now job lease) db.jobs) j e

ensure_deleting-eq-ok :
    (o : Option Project) (u : Unit {0})
    → ensure_deleting o ≡ ok u
    → (p : Project) × (o ≡ some p) × (is_deleting p.status ≡ true)
ensure_deleting-eq-ok none u e = absurd (cc)
ensure_deleting-eq-ok (some p) u e = (p, refl, ground arith)

detach_project-DetachedNow :
    (owner project job lease : ℕ) (db : Db) (keys : List String) (db' : Db)
    → detach_project owner project job lease db ≡ ok (keys, db')
    → DetachedNow owner project job lease db keys db'
unfolding detach_project
detach_project-DetachedNow owner project job lease db keys db' e =
    let (u, e₁, deleting) =
      steps_of_ok (ensure_deleting (find_by (λ p. p.id == project && p.owner == owner) db.projects))
        _ e in
    let (p, found, is_) =
      ensure_deleting-eq-ok (find_by (λ p. p.id == project && p.owner == owner) db.projects) u
        deleting in
    let keys_are : project_keys project db ≡ keys = ok_value _ _ _ _ e₁ in
    record {
      row = p;
      found = found;
      deleting = is_;
      keys_are = sym keys_are;
      state =
          sym (ok_state _ _ _ _ e₁)
          ∙ ap (λ k. set_payload job lease (detached_payload k) (delete_project project db))
              keys_are;
    }

pub stored_or-eq-ok :
    (payload : Json) (db : Db) (detach : Result (List String × Db)) (keys : List String) (db' : Db)
    → stored_or payload db detach ≡ ok (keys, db')
    → StoredAgain payload db keys db'
      ⊎ (is_true (get "detached" payload) ≡ false) × (detach ≡ ok (keys, db'))
stored_or-eq-ok payload db detach keys db' e =
    elim (Bool-cases (is_true (get "detached" payload))) [
      | inl again ↦
          let e₁ = rw again at e in
          let (ks, e₂, stored) = steps_of_ok (stored_keys (get "objectKeys" payload)) _ e₁ in
          let keys_are : ks ≡ keys = ok_value _ _ _ _ e₂ in
          inl (record {
            detached = again;
            stored = stored ∙ ap ok keys_are;
            same = sym (ok_state _ _ _ _ e₂);
          })
      | inr fresh ↦ inr (fresh, rw fresh at e)
    ]

-- What a success has found: either the keys of an earlier run, or a project that is being deleted.
pub prepare_project_purge-PurgeRun :
    (now job lease : ℕ) (db : Db) (keys : List String) (db' : Db)
    → prepare_project_purge now job lease db ≡ (ok keys, db')
    → PurgeRun now job lease db keys db'
unfolding prepare_project_purge project_purge
prepare_project_purge-PurgeRun now job lease db keys db' e =
    let e₀ = commit_ok-eq-ok db db' (project_purge now job lease db) keys e in
    let (j, e₁, held) = steps_of_ok (held_job JobKind.project_purge now job lease db) _ e₀ in
    let (owner, e₂, owned) = steps_of_ok (not_null j.owner) _ e₁ in
    let (project, e₃, of_project) = steps_of_ok (not_null j.project) _ e₂ in
    let outcome =
      stored_or-eq-ok j.payload db (detach_project owner project job lease db) keys db' e₃ in
    record {
      j = j;
      owner = owner;
      project = project;
      held = held_job-eq-ok JobKind.project_purge now job lease db j held;
      owned = not_null-eq-ok j.owner owner owned;
      of_project = not_null-eq-ok j.project project of_project;
      outcome = elim outcome [
        | inl again ↦ inl again
        | inr (fresh, detached) ↦
            inr (fresh, detach_project-DetachedNow owner project job lease db keys db' detached)
      ];
    }

pub record Completed (now job lease : ℕ) (db db' : Db) : Type 0 where
  pub j : Job
  pub held : find_by (is_held JobKind.project_purge now job lease) db.jobs ≡ some j
  pub state : db' ≡ record (finish_job now job lease db) { audit = db'.audit }

-- A success of the completion has finished the job that the lease holds.
pub complete_project_purge-Completed :
    (now job lease : ℕ) (db db' : Db) (u : Unit {0})
    → complete_project_purge now job lease db ≡ (ok u, db')
    → Completed now job lease db db'
unfolding complete_project_purge end_project_purge insert_audit
complete_project_purge-Completed now job lease db db' u e =
    let e₀ =
      done-eq-ok (end_project_purge now job lease db) u db'
        (commit_ok-eq-ok db db' (done (end_project_purge now job lease db)) u e) in
    let (j, e₁, held) = steps_of_ok (held_job JobKind.project_purge now job lease db) _ e₀ in
    let (owner, e₂, owned) = steps_of_ok (not_null j.owner) _ e₁ in
    let (project, e₃, of_project) = steps_of_ok (not_null j.project) _ e₂ in
    record {
      j = j;
      held = held_job-eq-ok JobKind.project_purge now job lease db j held;
      state =
          insert_audit_nullable-eq-ok (some owner) (some owner) "project.purge_completed" _ ""
            (finish_job now job lease db) db' e₃;
    }
