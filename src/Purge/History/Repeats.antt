-- ===== src/Purge/History/Repeats.antt =====
-- The second detachment of a project, and the second phase of an account, after any operations.
use tasktips_cloud.Base.{
  ℕ, ◌≤◌, ◌≡◌, refl, sym, ◌∙◌, subst, inl, inr, true, some, List, ◌==◌, arith, String, All-find_by,
  find_by, find_by-test, count_by,
}
use tasktips_cloud.Json.{Json}
use tasktips_cloud.Store.Schema.{Db, Job, JobKind}
use tasktips_cloud.Store.Errors.{ok}
use tasktips_cloud.Purge.Jobs.{is_held, held_job, get, is_true, stored_keys, change_jobs}
use tasktips_cloud.Purge.Rows.{delete_rows}
use tasktips_cloud.Restore.Manifest.{lookup}
use tasktips_cloud.Purge.Project.{
  detached_payload, set_payload, delete_project, project_purge, prepare_project_purge,
}
use tasktips_cloud.Purge.Project.Runs.{prepare_project_purge-PurgeRun}
use tasktips_cloud.Purge.History.{PurgeOp, purge_ops}
use tasktips_cloud.Purge.History.Kept.{Stored, Keeps, purge_ops-Keeps}
use tasktips_cloud.Purge.History.Again.{texts_of-text_items, with_payload, set-Keeps, found-Keeps}

-- A payload that stores these keys.
pub record StoresKeys (keys : List String) (payload : Json) : Type 0 where
  pub detached : is_true (get "detached" payload) ≡ true
  pub stored : stored_keys (get "objectKeys" payload) ≡ ok keys

detached_payload-StoresKeys : (keys : List String) → StoresKeys keys (detached_payload keys)
unfolding get lookup
detached_payload-StoresKeys keys = record { detached = refl; stored = texts_of-text_items keys }

-- What is kept after a success.
record ProjectKept (job : ℕ) (keys : List String) (db' : Db) : Type 0 where
  row : Job
  owner : ℕ
  project : ℕ
  payload : StoresKeys keys row.payload
  owned : row.owner ≡ some owner
  of_project : row.project ≡ some project
  keeps : Keeps job row db'.jobs

prepare-ProjectKept :
    (now job lease : ℕ) (db db' : Db) (keys : List String)
    → count_by (λ k. k.id == job) db.jobs ≤ 1
    → prepare_project_purge now job lease db ≡ (ok keys, db')
    → ProjectKept job keys db'
unfolding set_payload change_jobs delete_project delete_rows
prepare-ProjectKept now job lease db db' keys one e =
    let run = prepare_project_purge-PurgeRun now job lease db keys db' e in
    elim run.outcome [
      | inl again ↦ record {
        row = run.j;
        owner = run.owner;
        project = run.project;
        payload = record { detached = again.detached; stored = again.stored };
        owned = run.owned;
        of_project = run.of_project;
        keeps =
            subst (λ (d : Db). Keeps job run.j d.jobs) (sym again.same)
              (found-Keeps JobKind.project_purge now job lease db.jobs run.j one run.held);
      }
      | inr (fresh, detached) ↦ record {
        row = with_payload (detached_payload keys) run.j;
        owner = run.owner;
        project = run.project;
        payload = detached_payload-StoresKeys keys;
        owned = run.owned;
        of_project = run.of_project;
        keeps =
            subst (λ (d : Db). Keeps job (with_payload (detached_payload keys) run.j) d.jobs)
              (sym detached.state)
              (set-Keeps JobKind.project_purge now job lease (detached_payload keys) db.jobs run.j
                one run.held);
      }
    ]

kept_again :
    (now job lease : ℕ) (keys : List String) (db : Db) (j : Job)
    → ProjectKept job keys db
    → find_by (is_held JobKind.project_purge now job lease) db.jobs ≡ some j
    → prepare_project_purge now job lease db ≡ (ok keys, db)
unfolding prepare_project_purge project_purge held_job
kept_again now job lease keys db j kept found =
    let held = find_by-test (is_held JobKind.project_purge now job lease) db.jobs j found in
    let st =
      All-find_by (λ k. (k.id == job) ≡ true → Stored kept.row k)
        (is_held JobKind.project_purge now job lease) db.jobs j kept.keeps.stored found
        (ground arith) in
    let owned : j.owner ≡ some kept.owner = st.owner ∙ kept.owned in
    let of_project : j.project ≡ some kept.project = st.project ∙ kept.of_project in
    rw (found, owned, of_project, st.payload, kept.payload.detached, kept.payload.stored) refl

-- Once `prepare_project_purge` has returned the keys of a project, every worker that holds the job
-- later gets the same keys and changes nothing, whatever purge operations came between. The
-- identifier of the job is a primary key.
pub prepare_project_purge_again :
    (now job lease : ℕ) (db db' : Db) (keys : List String) (os : List PurgeOp) (now' lease' : ℕ)
    (j : Job)
    → count_by (λ k. k.id == job) db.jobs ≤ 1
    → prepare_project_purge now job lease db ≡ (ok keys, db')
    → find_by (is_held JobKind.project_purge now' job lease') (purge_ops os db').jobs ≡ some j
    → prepare_project_purge now' job lease' (purge_ops os db') ≡ (ok keys, purge_ops os db')
prepare_project_purge_again now job lease db db' keys os now' lease' j one e found =
    let kept = prepare-ProjectKept now job lease db db' keys one e in
    kept_again now' job lease' keys (purge_ops os db') j
      (record {
        row = kept.row;
        owner = kept.owner;
        project = kept.project;
        payload = kept.payload;
        owned = kept.owned;
        of_project = kept.of_project;
        keeps = purge_ops-Keeps job kept.row kept.payload.detached os db' kept.keeps;
      })
      found
