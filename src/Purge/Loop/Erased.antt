-- ===== src/Purge/Loop/Erased.antt =====
-- What a round of the worker does for a project: its rows and its objects are gone.
use tasktips_cloud.Base.{
  ℕ, ◌+◌, ◌≡◌, refl, sym, ap, ◌∙◌, inl, inr, Bool, Bool-cases, false, true, some, some-injective,
  String, List, [], ◌∷◌, ◌==◌, arith, All, any_by, find_by, delete_where,
}
use tasktips_cloud.Json.{Json}
use tasktips_cloud.Store.Schema.{Db, Project, Job, JobKind}
use tasktips_cloud.Store.Errors.{Result, ok, err}
use tasktips_cloud.Purge.Jobs.{is_held, get, is_true, finish_job, change_jobs}
use tasktips_cloud.Purge.Rows.{of_project, delete_rows, row_keys}
use tasktips_cloud.Purge.Rows.Selected.{
  rows_of, no_rows, rows_of-delete_rows_self, rows_of-delete_rows_other, distinct-All,
}
use tasktips_cloud.Purge.Project.{
  project_keys, delete_project, set_payload, detached_payload, prepare_project_purge,
  complete_project_purge,
}
use tasktips_cloud.Purge.Project.Runs.{
  complete_project_purge-Completed, prepare_project_purge-PurgeRun,
}
use tasktips_cloud.Purge.Loop.{World, delete_keys, delete_and_complete, process_project_purge}
use tasktips_cloud.Purge.Loop.Ends.{goes_on-eq-true}

-- Nothing of the project is left, nothing of another one is lost.
pub record IsErased (deletes : String → Bool) (project : ℕ) (before after : Db) : Type 0 where
  pub objects : All (λ key. deletes key ≡ true) (row_keys (of_project project) before)
  pub rows : rows_of (of_project project) after ≡ no_rows
  pub row : any_by (λ (p : Project). p.id == project) after.projects ≡ false
  pub others :
      (other : ℕ)
      → (project == other) ≡ false
      → rows_of (of_project other) after ≡ rows_of (of_project other) before
  pub other_rows :
      (other : ℕ)
      → (project == other) ≡ false
      → find_by (λ p. p.id == other) after.projects ≡ find_by (λ p. p.id == other) before.projects

delete_keys-All :
    (deletes : String → Bool) (keys : List String)
    → delete_keys deletes keys ≡ true
    → All (λ key. deletes key ≡ true) keys
unfolding delete_keys
delete_keys-All deletes [] e = tt
delete_keys-All deletes (k ∷ ks) e = (ground arith, delete_keys-All deletes ks (ground arith))

any_by-delete_where :
    (test : Project → Bool) (ps : List Project) → any_by test (delete_where test ps) ≡ false
unfolding any_by delete_where
any_by-delete_where test [] = refl
any_by-delete_where test (p ∷ ps) = ground (arith, any_by-delete_where test ps)

find_by-delete_where :
    (test other : Project → Bool) (ps : List Project)
    → ((p : Project) → test p ≡ true → other p ≡ false)
    → find_by other (delete_where test ps) ≡ find_by other ps
unfolding find_by delete_where
find_by-delete_where test other [] apart = refl
find_by-delete_where test other (p ∷ ps) apart =
    ground (arith, apart p, find_by-delete_where test other ps apart)

-- The tables behind the detachment and the completion.
record AfterPurge (db : Db) (project : ℕ) (after : Db) : Type 0 where
  rows :
      (other : ℕ)
      → rows_of (of_project other) after
        ≡ rows_of (of_project other) (delete_rows (of_project project) db)
  projects : after.projects ≡ delete_where (λ p. p.id == project) db.projects

complete-AfterPurge :
    (now job lease project : ℕ) (payload : Json) (db db' : Db) (u : Unit {0})
    → complete_project_purge now job lease
        (set_payload job lease payload (delete_project project db))
      ≡ (ok u, db')
    → AfterPurge db project db'
unfolding finish_job change_jobs set_payload delete_project rows_of delete_rows
complete-AfterPurge now job lease project payload db db' u e =
    let completed =
      complete_project_purge-Completed now job lease
        (set_payload job lease payload (delete_project project db)) db' u e in
    record {
      rows = λ other. ap (rows_of (of_project other)) completed.state;
      projects = ap (λ (d : Db). d.projects) completed.state;
    }

AfterPurge-IsErased :
    (deletes : String → Bool) (project : ℕ) (db db' : Db)
    → delete_keys deletes (project_keys project db) ≡ true
    → AfterPurge db project db'
    → IsErased deletes project db db'
AfterPurge-IsErased deletes project db db' deleted left = record {
  objects =
      distinct-All deletes (row_keys (of_project project) db)
        (delete_keys-All deletes (project_keys project db) deleted);
  rows = left.rows project ∙ rows_of-delete_rows_self (of_project project) db;
  row = rw left.projects (any_by-delete_where (λ p. p.id == project) db.projects);
  others = λ other apart. left.rows other ∙ rows_of-delete_rows_other project other db apart;
  other_rows = λ other apart. rw left.projects (
      find_by-delete_where (λ p. p.id == project) (λ p. p.id == other) db.projects
        (λ p t. ground arith));
}

detached-IsErased :
    (w : World) (k job project : ℕ) (keys : List String) (db db₁ db' : Db)
    → keys ≡ project_keys project db
    → db₁ ≡ set_payload job (w.lease k) (detached_payload keys) (delete_project project db)
    → delete_and_complete w.deletes (w.time (k + 2)) job (w.lease k) (ok keys, db₁) ≡ (true, db')
    → IsErased w.deletes project db db'
detached-IsErased w k job project keys db db₁ db' keys_are state e =
    elim (Bool-cases (delete_keys w.deletes keys)) [
      | inr kept ↦ absurd (cc (rw kept at e))
      | inl deleted ↦
          let (u, completed) =
            goes_on-eq-true (complete_project_purge (w.time (k + 2)) job (w.lease k) db₁) db'
              (rw deleted at e) in
          AfterPurge-IsErased w.deletes project db db'
            (ap (delete_keys w.deletes) (sym keys_are) ∙ deleted)
            (complete-AfterPurge (w.time (k + 2)) job (w.lease k) project (detached_payload keys) db
              db' u
              (ap (complete_project_purge (w.time (k + 2)) job (w.lease k)) (sym state)
                ∙ completed))
    ]

prepared-IsErased :
    (w : World) (k job project : ℕ) (db db' : Db) (j : Job) (r : Result (List String) × Db)
    → find_by (is_held JobKind.project_purge (w.time (k + 1)) job (w.lease k)) db.jobs ≡ some j
    → is_true (get "detached" j.payload) ≡ false
    → j.project ≡ some project
    → prepare_project_purge (w.time (k + 1)) job (w.lease k) db ≡ r
    → delete_and_complete w.deletes (w.time (k + 2)) job (w.lease k) r ≡ (true, db')
    → IsErased w.deletes project db db'
prepared-IsErased w k job project db db' j (err why, db₁) found fresh of_project e₁ e = absurd (cc)
prepared-IsErased w k job project db db' j (ok keys, db₁) found fresh of_project e₁ e =
    let run = prepare_project_purge-PurgeRun (w.time (k + 1)) job (w.lease k) db keys db₁ e₁ in
    let same = some-injective run.j j (sym run.held ∙ found) in
    let here =
      some-injective run.project project
        (sym run.of_project ∙ ap (λ (i : Job). i.project) same ∙ of_project) in
    elim run.outcome [
      | inl again ↦
          absurd
            (cc (ap (λ (i : Job). is_true (get "detached" i.payload)) same, again.detached, fresh))
      | inr (new, detached) ↦
          detached-IsErased w k job project keys db db₁ db'
            (detached.keys_are ∙ ap (λ n. project_keys n db) here)
            (detached.state
              ∙ ap (λ n. set_payload job (w.lease k) (detached_payload keys) (delete_project n db))
                  here)
            e
    ]

-- A first round that goes on, for a job whose rows were not yet detached, has had every object
-- deleted that a row of the project named, and leaves no row of the project and every row of
-- the other projects.
pub process_project_purge-IsErased :
    (w : World) (k job project : ℕ) (db db' : Db) (j : Job)
    → find_by (is_held JobKind.project_purge (w.time (k + 1)) job (w.lease k)) db.jobs ≡ some j
    → is_true (get "detached" j.payload) ≡ false
    → j.project ≡ some project
    → process_project_purge w k job db ≡ (true, db')
    → IsErased w.deletes project db db'
unfolding process_project_purge
process_project_purge-IsErased w k job project db db' j found fresh of_project e =
    prepared-IsErased w k job project db db' j
      (prepare_project_purge (w.time (k + 1)) job (w.lease k) db) found fresh of_project refl e
