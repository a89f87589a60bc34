-- ===== src/Restore/Stranded.antt =====
-- A restore that is cancelled between two attempts leaves its project in maintenance.
use tasktips_cloud.Base.{
  ℕ, ◌≡◌, ◌≢◌, ap, sym, ◌∙◌, inl, inr, Bool, true, false, not, ◌&&◌, String, Option, some, List,
  ◌==◌, ℤ, arith, Bool-cases, find_by, find_by-test, any_by, update_where, any_by_outside,
  any_by_apart_of_any, any_by-update_where_rest, any_by-update_where_outside, ==_refl,
}
use tasktips_cloud.Json.{Json}
use tasktips_cloud.Store.Errors.{ok, steps_of_ok}
use tasktips_cloud.Store.Schema.{Db, RestoreJob, RestoreStatus, cancelled}
use tasktips_cloud.Store.Transaction.{commit_ok-cases, commit_ok-eq-ok, done, done-eq-ok, ok_state}
use tasktips_cloud.Auth.Rows.{insert_audit}
use tasktips_cloud.Auth.Rotation.Steps.{insert_audit_nullable-eq-ok}
use tasktips_cloud.Sync.Push.{project_state}
use tasktips_cloud.Restore.Policy.{validate_restore_target}
use tasktips_cloud.Restore.Jobs.{
  is_queued, is_failed, is_active_job, is_leased, is_open, update_jobs,
}
use tasktips_cloud.Restore.Requests.{
  Asker, of_policy, request_restore, enqueue_restore, is_own_job, found_job, cancel_by_status,
  request_cancel, cancel_restore, require_admin, in_maintenance, ensure_failed, reopen,
  reopen_failed_restore,
}
use tasktips_cloud.Restore.Worker.{next_claim}
use tasktips_cloud.Restore.Window.{is_open_project, closed_project_state}
use tasktips_cloud.Restore.History.Sound.{JobsSound, next_claim_row, claimable_open}

abbrev pub is_failed_job : ℕ → RestoreJob → Bool
is_failed_job project j = j.project == project && is_failed j.status

-- No request for the project changes anything, and no worker takes one of its jobs or holds its lease.
pub record IsStranded (project : ℕ) (db : Db) : Type 0 where
  pub enqueues :
      (by : Asker) (id : ℕ) (snapshot : Option ℕ) (target : Option ℤ)
      → by.project ≡ project
      → (enqueue_restore by id snapshot target db).1 ≡ db
  pub reopens : (by : Asker) → by.project ≡ project → (reopen_failed_restore by db).1 ≡ db
  pub claims :
      (now : ℕ) (locked : ℕ → Bool) (j : RestoreJob)
      → next_claim now locked db.restores ≡ some j
      → j.project ≢ project
  pub leases :
      (job lease : ℕ) (j : RestoreJob)
      → find_by (is_leased job lease) db.restores ≡ some j
      → j.project ≢ project

inactive_open :
    (project : ℕ) (j : RestoreJob)
    → j.project ≡ project
    → is_active_job project j ≡ false
    → is_open j.status ≡ true
    → ⊥
inactive_open project j same inactive open_ = ground (arith, ==_refl project)

leased_open :
    (job lease : ℕ) (j : RestoreJob) → is_leased job lease j ≡ true → is_open j.status ≡ true
leased_open job lease j held = ground arith

module _ (project : ℕ) (db : Db) (closed : any_by (is_open_project project) db.projects ≡ false)
    (no_failed : any_by (is_failed_job project) db.restores ≡ false)
    (no_open : any_by (is_active_job project) db.restores ≡ false) where
  no_request :
      (by : Asker) (id : ℕ) (snapshot : Option ℕ) (target : Option ℤ) (job : RestoreJob) (db' : Db)
      → by.project ≡ project
      → request_restore by id snapshot target db ≡ ok (job, db')
      → ⊥
  unfolding request_restore
  no_request by id snapshot target job db' same e =
      let (v, e₁, valid) = steps_of_ok (of_policy (validate_restore_target snapshot target)) _ e in
      let ((generation, current), e₂, state) =
        steps_of_ok (project_state by.user by.project db) _ e₁ in
      elim (closed_project_state by.user by.project db (rw same closed)) [
        | inl maintenance ↦ cc
        | inr missing ↦ cc
      ]

  no_reopen : (by : Asker) (db' : Db) → by.project ≡ project → reopen by db ≡ ok db' → ⊥
  unfolding reopen
  no_reopen by db' same e =
      let (a, e₁, admin) = steps_of_ok (require_admin by.user db) _ e in
      let (m, e₂, shut) =
        steps_of_ok (in_maintenance (find_by (λ p. p.id == by.project) db.projects)) _ e₁ in
      let (f, e₃, has_failed) =
        steps_of_ok (ensure_failed (any_by (is_failed_job by.project) db.restores)) _ e₂ in
      let none_failed = rw (same, no_failed) at has_failed in cc

  stranded : IsStranded project db
  unfolding enqueue_restore reopen_failed_restore
  stranded = record {
    enqueues = λ by id snapshot target same.
        elim (commit_ok-cases db (request_restore by id snapshot target db)) [
          | inl kept ↦ kept
          | inr (job, db', e, made) ↦ absurd (no_request by id snapshot target job db' same e)
        ];
    reopens = λ by same. elim (commit_ok-cases db (done (reopen by db))) [
      | inl kept ↦ kept
      | inr (u, db', e, made) ↦ absurd (no_reopen by db' same (done-eq-ok (reopen by db) u db' e))
    ];
    claims = λ now locked j next same.
        let (inactive, claimable) =
          next_claim_row now locked (is_active_job project) db.restores j next no_open in
        inactive_open project j same inactive (claimable_open now j claimable);
    leases = λ job lease j found same.
        let inactive =
          any_by_outside (is_leased job lease) (is_active_job project) db.restores j found
            no_open in
        let held = find_by-test (is_leased job lease) db.restores j found in
        inactive_open project j same inactive (leased_open job lease j held);
  }

-- What a cancellation of a queued job writes.
abbrev is_cancelled_row : Asker → ℕ → RestoreJob → Bool
is_cancelled_row by id k = k.id == id && is_queued k.status && k.owner == by.user

abbrev cancelled_row : Asker → RestoreJob → RestoreJob
cancelled_row by k = record k { status = cancelled; finished_at = some (by.now) }

abbrev pub Cancelled : Asker → ℕ → Db → Db → Type 0
Cancelled by id db db' =
    (db'.projects ≡ db.projects)
    × (db'.restores ≡ update_where (is_cancelled_row by id) (cancelled_row by) db.restores)

cancel_by_status-Cancelled :
    (by : Asker) (id : ℕ) (status : RestoreStatus) (action : String) (db db' : Db)
    → is_queued status ≡ true
    → cancel_by_status by id db status ≡ ok (action, db')
    → Cancelled by id db db'
unfolding update_jobs
cancel_by_status-Cancelled by id RestoreStatus.queued action db db' waiting e =
    let same = ok_state _ action _ db' e in
    (sym (ap (λ d. d.projects) same), sym (ap (λ d. d.restores) same))
cancel_by_status-Cancelled by id RestoreStatus.running action db db' waiting e = absurd (cc)
cancel_by_status-Cancelled by id RestoreStatus.succeeded action db db' waiting e = absurd (cc)
cancel_by_status-Cancelled by id RestoreStatus.failed action db db' waiting e = absurd (cc)
cancel_by_status-Cancelled by id RestoreStatus.cancelled action db db' waiting e = absurd (cc)

audited-Cancelled :
    (by : Asker) (id : ℕ) (action : String) (metadata : Json) (db db₁ db₂ : Db)
    → insert_audit by.user (some (by.user)) action metadata by.request db₁ ≡ ok db₂
    → Cancelled by id db db₁
    → Cancelled by id db db₂
unfolding insert_audit
audited-Cancelled by id action metadata db db₁ db₂ e c =
    let same =
      insert_audit_nullable-eq-ok (some (by.user)) (some (by.user)) action metadata by.request db₁
        db₂ e in
    (ap (λ d. d.projects) same ∙ c.0, ap (λ d. d.restores) same ∙ c.1)

request_cancel-Cancelled :
    (by : Asker) (id : ℕ) (db db' : Db) (j job : RestoreJob)
    → find_by (is_own_job by id) db.restores ≡ some j
    → is_queued j.status ≡ true
    → request_cancel by id db ≡ ok (job, db')
    → Cancelled by id db db'
unfolding request_cancel
request_cancel-Cancelled by id db db' j job found waiting e =
    let e₀ = rw found at e in
    let ((action, db₁), e₁, written) = steps_of_ok (cancel_by_status by id db j.status) _ e₀ in
    let (db₂, e₂, audited) =
      steps_of_ok (insert_audit by.user (some (by.user)) action _ by.request db₁) _ e₁ in
    let (k, e₃, again) = steps_of_ok (found_job (find_by (is_own_job by id) db₂.restores)) _ e₂ in
    let last : db₂ ≡ db' = ok_state k job db₂ db' e₃ in
    let c =
      audited-Cancelled by id action _ db db₁ db₂ audited
        (cancel_by_status-Cancelled by id j.status action db db₁ waiting written) in
    (sym (ap (λ d. d.projects) last) ∙ c.0, sym (ap (λ d. d.restores) last) ∙ c.1)

-- Only the cancelled job was open.
abbrev is_waiting_job : Asker → ℕ → RestoreJob → Bool
is_waiting_job by id k = is_own_job by id k && is_queued k.status

waiting_any :
    (by : Asker) (id : ℕ) (restores : List RestoreJob) (j : RestoreJob)
    → find_by (is_own_job by id) restores ≡ some j
    → is_queued j.status ≡ true
    → any_by (is_waiting_job by id) restores ≡ true
waiting_any by id restores j found waiting =
    elim (Bool-cases (any_by (is_waiting_job by id) restores)) [
      | inl there ↦ there
      | inr none_ ↦
          let own = find_by-test (is_own_job by id) restores j found in
          let not_waiting =
            any_by_outside (is_own_job by id) (is_waiting_job by id) restores j found none_ in
          absurd (ground arith)
    ]

none_left_open :
    (by : Asker) (id : ℕ) (db db' : Db) (j : RestoreJob)
    → find_by (is_own_job by id) db.restores ≡ some j
    → is_queued j.status ≡ true
    → JobsSound db.restores
    → Cancelled by id db db'
    → any_by (is_active_job by.project) db'.restores ≡ false
none_left_open by id db db' j found waiting sound c = rw (c.1) (
    any_by-update_where_rest (is_cancelled_row by id) (is_active_job by.project) (cancelled_row by)
      db.restores (λ x. ground arith)
      (any_by_apart_of_any (is_active_job by.project) (is_waiting_job by id)
        (λ x. is_active_job by.project x && not (is_cancelled_row by id x)) db.restores
        (sound.one_open by.project) (λ x h. ground arith) (λ x h. ground arith)
        (λ x h. ground arith) (waiting_any by id db.restores j found waiting)))

-- A user who cancels a restore while it waits for another attempt, its project in maintenance and
-- none of the project's restores failed, strands the project: after it neither a new restore nor an
-- administrator's reopening changes anything, and no worker claims a job of the project or holds a
-- lease for one.
pub cancel_strands_project :
    (by : Asker) (id : ℕ) (db db' : Db) (j job : RestoreJob)
    → JobsSound db.restores
    → find_by (is_own_job by id) db.restores ≡ some j
    → is_queued j.status ≡ true
    → any_by (is_open_project by.project) db.projects ≡ false
    → any_by (is_failed_job by.project) db.restores ≡ false
    → cancel_restore by id db ≡ (ok job, db')
    → IsStranded by.project db'
unfolding cancel_restore
cancel_strands_project by id db db' j job sound found waiting closed no_failed e =
    let c =
      request_cancel-Cancelled by id db db' j job found waiting (commit_ok-eq-ok db db' _ job e) in
    stranded by.project db' (rw (c.0) closed)
      (rw (c.1) (
        any_by-update_where_outside (is_cancelled_row by id) (is_failed_job by.project)
          (cancelled_row by) db.restores (λ x h. ground arith) no_failed))
      (none_left_open by id db db' j found waiting sound c)
