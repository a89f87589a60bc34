-- ===== src/Restore/Outcome.antt =====
-- What a restore that succeeds leaves: the generation, the log's length and the job.
use tasktips_cloud.Base.{
  ℕ, ◌+◌, ◌≡◌, refl, sym, ap, ◌∙◌, inl, inr, Bool, true, false, ◌&&◌, Option, some, ◌==◌, arith,
  find_by, count_by, find_by-update_where_self, map_found, update_where, Option-cases, find_by-test,
  unique_found,
}
use tasktips_cloud.Domain.{ProjectStatus}
use tasktips_cloud.Json.{Json}
use tasktips_cloud.Store.Errors.{ok, steps_of_ok}
use tasktips_cloud.Store.Schema.{Db, Project, RestoreJob}
use tasktips_cloud.Store.Transaction.{commit_ok-eq-ok, done, done-eq-ok}
use tasktips_cloud.Auth.Rows.{insert_audit}
use tasktips_cloud.Auth.Rotation.Steps.{insert_audit_nullable-eq-ok}
use tasktips_cloud.Sync.Item.{next_i64}
use tasktips_cloud.Restore.Jobs.{is_leased, is_maintenance, update_jobs}
use tasktips_cloud.Restore.Snapshot.{ensure_wanted}
use tasktips_cloud.Restore.Manifest.{current_rows}
use tasktips_cloud.Restore.Execute.{
  restore_items, wanted_items, with_deletions, finished_job, open_generation, run_restore,
  execute_restore_with_lease,
}
use tasktips_cloud.Restore.Window.{UniqueProjects}
use tasktips_cloud.Restore.History.Leased.{finished_restores, restore_items_restores}
use tasktips_cloud.Restore.Counted.{row_of_project, Counted, restore_items-Counted}
use tasktips_cloud.Restore.Logged.{Logged, is_object, is_deletion}
use tasktips_cloud.Restore.Appended.{Written, restore_items-Written}

-- The state that a restore leaves, from the job and the project that it found.
pub record Restored (now job lease : ℕ) (db : Db) (j : RestoreJob) (p : Project) (db' : Db)
    : Type 0 where
  pub objects : ℕ
  pub tombstones : ℕ
  pub held : find_by (is_leased job lease) db.restores ≡ some j
  pub wanted : j.cancel_requested ≡ false
  pub closed : is_maintenance p.status ≡ true
  pub row : Project
  pub found : row_of_project j.project db' ≡ some row
  pub reopened : row.status ≡ ProjectStatus.active
  pub generation : row.generation ≡ p.generation + 1
  pub grown : row.change_seq ≡ p.change_seq + (objects + tombstones)
  pub log : Logged j.project p.change_seq db db'
  pub live : count_by is_object log.entries ≡ objects
  pub dead : count_by is_deletion log.entries ≡ tombstones
  pub finished :
      db'.restores
      ≡ update_where
          (is_leased job lease)
          (finished_job now (p.generation + 1) objects tombstones)
          db.restores

opened_project :
    (now project generation : ℕ) (p : Project) (db : Db)
    → row_of_project project db ≡ some p
    → row_of_project project (open_generation now project generation db)
      ≡ some (record p { generation = generation; status = ProjectStatus.active; updated_at = now })
unfolding open_generation
opened_project now project generation p db found =
    let f = λ (q : Project). record q {
      generation = generation;
      status = ProjectStatus.active;
      updated_at = now;
    } in
    find_by-update_where_self (λ q. q.id == project) f db.projects (λ x h. h)
    ∙ ap (map_found f) found

finished_projects :
    (now generation objects tombstones job lease project by : ℕ) (subject : Option ℕ)
    (metadata : Json) (db db' : Db)
    → insert_audit by subject "restore.completed" metadata "" (
        update_jobs
          (is_leased job lease)
          (finished_job now generation objects tombstones)
          (open_generation now project generation db))
      ≡ ok db'
    → db'.projects ≡ (open_generation now project generation db).projects
unfolding insert_audit update_jobs
finished_projects now generation objects tombstones job lease project by subject metadata db db' e =
    ap (λ d. d.projects)
      (insert_audit_nullable-eq-ok (some by) subject "restore.completed" metadata "" _ db' e)

finished_log :
    (now generation objects tombstones job lease project by last : ℕ) (subject : Option ℕ)
    (metadata : Json) (before db db' : Db)
    → insert_audit by subject "restore.completed" metadata "" (
        update_jobs
          (is_leased job lease)
          (finished_job now generation objects tombstones)
          (open_generation now project generation db))
      ≡ ok db'
    → (log : Logged project last before db)
    → (log' : Logged project last before db') × (log'.entries ≡ log.entries)
unfolding insert_audit update_jobs open_generation
finished_log now generation objects tombstones job lease project by last subject metadata before db
      db' e log =
    let final =
      insert_audit_nullable-eq-ok (some by) subject "restore.completed" metadata "" _ db' e in
    (
      record {
        entries = log.entries;
        numbered = log.numbered;
        changes = ap (λ d. d.changes) final ∙ log.changes;
        revisions = ap (λ d. d.revisions) final ∙ log.revisions;
        heads = ap (λ d. d.heads) final ∙ log.heads;
      },
      refl,
    )

next_i64-eq-ok : (n m : ℕ) → next_i64 n ≡ ok m → m ≡ n + 1
unfolding next_i64
next_i64-eq-ok n m e = ground arith

ensure_wanted-eq-ok : (b : Bool) {u : Unit {0}} → ensure_wanted b ≡ ok u → b ≡ false
ensure_wanted-eq-ok true e = absurd (cc)
ensure_wanted-eq-ok false e = refl

run_restore_steps :
    (now objects tombstones job lease generation : ℕ) (db db₁ db' : Db) (j : RestoreJob)
    (p : Project) (metadata : Json)
    → find_by (is_leased job lease) db.restores ≡ some j
    → j.cancel_requested ≡ false
    → is_maintenance p.status ≡ true
    → Counted j.project 0 0 objects tombstones p db₁
    → Written j.project p.change_seq 0 0 objects tombstones db db₁
    → db₁.restores ≡ db.restores
    → generation ≡ p.generation + 1
    → insert_audit j.requested_by (some (j.requested_by)) "restore.completed" metadata "" (
        update_jobs
          (is_leased job lease)
          (finished_job now generation objects tombstones)
          (open_generation now j.project generation db₁))
      ≡ ok db'
    → Restored now job lease db j p db'
run_restore_steps now objects tombstones job lease generation db db₁ db' j p metadata held wanted
      closed counted written kept next last =
    let grown = counted.grown in
    let (log, entries) =
      finished_log now generation objects tombstones job lease j.project j.requested_by p.change_seq
        (some (j.requested_by)) metadata db db₁ db' last written.log in
    let projects =
      finished_projects now generation objects tombstones job lease j.project j.requested_by
        (some (j.requested_by)) metadata db₁ db' last in
    let restores =
      finished_restores now generation objects tombstones job lease j.project j.requested_by
        (some (j.requested_by)) metadata db₁ db' last in
    record {
      objects = objects;
      tombstones = tombstones;
      held = held;
      wanted = wanted;
      closed = closed;
      row = record (counted.row) {
        generation = generation;
        status = ProjectStatus.active;
        updated_at = now;
      };
      found =
          ap (find_by (λ q. q.id == j.project)) projects
          ∙ opened_project now j.project generation counted.row db₁ counted.found;
      reopened = refl;
      generation = next;
      grown = omega arith;
      log = log;
      live = ap (count_by is_object) entries ∙ omega (arith, written.live);
      dead = ap (count_by is_deletion) entries ∙ omega (arith, written.dead);
      finished =
          restores
          ∙ ap (update_where (is_leased job lease) (finished_job now generation objects tombstones))
              kept
          ∙ ap
              (λ g.
                update_where (is_leased job lease) (finished_job now g objects tombstones)
                  db.restores)
              next;
    }

run_restore-Restored :
    (now : ℕ) (ids : ℕ → ℕ) (job lease : ℕ) (db db' : Db) (j : RestoreJob) (p : Project)
    → UniqueProjects db
    → find_by (is_leased job lease) db.restores ≡ some j
    → row_of_project j.project db ≡ some p
    → run_restore now ids job lease db ≡ ok db'
    → Restored now job lease db j p db'
unfolding run_restore
run_restore-Restored now ids job lease db db' j p unique held found e =
    let e₀ = rw held at e in
    let (w, e₂, wanted) = steps_of_ok (ensure_wanted j.cancel_requested) _ e₀ in
    elim (Option-cases (find_by (λ p. p.id == j.project && is_maintenance p.status) db.projects)) [
      | inl open_ ↦ absurd (cc (rw open_ at e₂))
      | inr (q, closed) ↦
          let same : p ≡ q =
            unique_found (λ p. p.id == j.project) (λ p. is_maintenance p.status) db.projects p q
              (unique j.project) found closed in
          let e₃ = rw closed at e₂ in
          let (target, e₄, items) =
            steps_of_ok (wanted_items j db j.snapshot j.target_sequence) _ e₃ in
          let ((objects, tombstones, db₁), e₅, ran) =
            steps_of_ok
              (restore_items (record { project = j.project; owner = q.owner; now = now }) ids
                (current_rows j.project db) (with_deletions (current_rows j.project db) target) 0 0
                db)
              _ e₄ in
          let (generation, e₆, next) = steps_of_ok (next_i64 q.generation) _ e₅ in
          let maintained =
            find_by-test (λ p. p.id == j.project && is_maintenance p.status) db.projects q closed in
          let shut : is_maintenance p.status ≡ true = rw same (ground arith) in
          let counted =
            restore_items-Counted (record { project = j.project; owner = q.owner; now = now }) ids
              (current_rows j.project db) (with_deletions (current_rows j.project db) target) 0 0
              objects tombstones p db db₁ found ran in
          let written =
            restore_items-Written (record { project = j.project; owner = q.owner; now = now }) ids
              (current_rows j.project db) (with_deletions (current_rows j.project db) target) 0 0
              objects tombstones p db db₁ found ran in
          let kept =
            restore_items_restores (record { project = j.project; owner = q.owner; now = now }) ids
              (current_rows j.project db) (with_deletions (current_rows j.project db) target) 0 0
              objects tombstones db db₁ ran in
          run_restore_steps now objects tombstones job lease generation db db₁ db' j p _ held
            (ensure_wanted-eq-ok j.cancel_requested wanted) shut counted written kept
            (next_i64-eq-ok q.generation generation next ∙ ap (λ x. x.generation + 1) (sym same)) e₆
    ]

-- A restore that returns `Ok`, of a job that the lease holds and a project with a unique
-- identifier, was not cancelled and found the project in maintenance. It leaves the project active
-- in the next generation and the job finished, without its lease. The change log is the old one
-- with new entries in front: exactly one for each object and each tombstone that the job then
-- counts, numbered one by one from the project's last sequence, by whose number the project's
-- sequence has grown. The revisions are the old ones with that of each entry in front, and the
-- heads are the old ones with each entry's object moved, in the order of the entries, to its
-- revision.
pub execute_restore-Restored :
    (now : ℕ) (ids : ℕ → ℕ) (job lease : ℕ) (db db' : Db) (j : RestoreJob) (p : Project)
    → UniqueProjects db
    → find_by (is_leased job lease) db.restores ≡ some j
    → find_by (λ q. q.id == j.project) db.projects ≡ some p
    → execute_restore_with_lease now ids job lease db ≡ (ok tt, db')
    → Restored now job lease db j p db'
unfolding execute_restore_with_lease
execute_restore-Restored now ids job lease db db' j p unique held found e =
    run_restore-Restored now ids job lease db db' j p unique held found (
      done-eq-ok (run_restore now ids job lease db) tt db'
        (commit_ok-eq-ok db db' (done (run_restore now ids job lease db)) tt e))
