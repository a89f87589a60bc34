-- ===== src/Upload/Bound.antt =====
-- However the requests interleave, the counter is the sum of what the reservations hold.
use tasktips_cloud.Base.{
  ℕ, ◌+◌, zero, suc, ◌≤◌, ◌<◌, ◌≡◌, inl, inr, Bool, some, List, [], ◌∷◌, arith, Option-cases,
}
use tasktips_cloud.Upload.{
  u64_size, Task, trying, holding, ended, Uploads, fetch_sub, task_step, task_at, set_task, Event,
  arrive, go_on, upload_step, upload_run,
}

abbrev pub held_by : Task → ℕ
held_by (holding bytes) = bytes
held_by _ = 0

unfoldable pub held : List Task → ℕ
held [] = 0
held (t ∷ ts) = held_by t + held ts

held-set_task :
    (i : ℕ) (t t' : Task) (ts : List Task)
    → task_at i ts ≡ some t
    → held (set_task i t' ts) + held_by t ≡ held ts + held_by t'
unfolding held task_at set_task
held-set_task i t t' [] e = absurd (cc)
held-set_task zero t t' (x ∷ ts) e = let same : x ≡ t = cc in rw same (omega arith)
held-set_task (suc i) t t' (x ∷ ts) e = let rest = held-set_task i t t' ts e in omega arith

fetch_sub_exact :
    (used bytes : ℕ) → bytes ≤ used → used < u64_size → fetch_sub used bytes + bytes ≡ used
fetch_sub_exact used bytes le lt = omega arith

-- The counter is the sum of the reservations, and within the limit.
pub record InBudget (max_bytes : ℕ) (u : Uploads) : Type 0 where
  pub exact : u.used_bytes ≡ held u.tasks
  pub within : u.used_bytes ≤ max_bytes

-- A task changes the counter by what it changes in the reservations.
task_step_exact :
    (spurious : Bool) (max_bytes used : ℕ) (t : Task)
    → max_bytes < u64_size
    → used ≤ max_bytes
    → held_by t ≤ used
    → ((task_step spurious max_bytes used t).1 + held_by t
        ≡ used + held_by (task_step spurious max_bytes used t).0)
      × ((task_step spurious max_bytes used t).1 ≤ max_bytes)
unfolding task_step
task_step_exact spurious max_bytes used (trying current bytes) small within most = ground arith
task_step_exact spurious max_bytes used (holding bytes) small within most =
    let exact = fetch_sub_exact used bytes most (omega arith) in (omega arith, omega arith)
task_step_exact spurious max_bytes used ended small within most = (omega arith, omega arith)

held_by_le : (i : ℕ) (t : Task) (ts : List Task) → task_at i ts ≡ some t → held_by t ≤ held ts
unfolding held task_at
held_by_le i t [] e = absurd (cc)
held_by_le zero t (x ∷ ts) e = let same : x ≡ t = cc in rw same (omega arith)
held_by_le (suc i) t (x ∷ ts) e = let rest = held_by_le i t ts e in omega arith

upload_step-InBudget :
    (max_bytes : ℕ) (e : Event) (u : Uploads)
    → max_bytes < u64_size
    → InBudget max_bytes u
    → InBudget max_bytes (upload_step max_bytes e u)
unfolding upload_step held
upload_step-InBudget max_bytes (arrive bytes) u small b =
    let exact = b.exact in record { exact = omega arith; within = b.within }
upload_step-InBudget max_bytes (go_on i spurious) u small b =
    elim (Option-cases (task_at i u.tasks)) [
      | inl missing ↦ rw missing b
      | inr (t, found) ↦
          let exact = b.exact in
          let within = b.within in
          let most = held_by_le i t u.tasks found in
          let (kept, bound) =
            task_step_exact spurious max_bytes u.used_bytes t small within (omega arith) in
          let moved =
            held-set_task i t (task_step spurious max_bytes u.used_bytes t).0 u.tasks found in
          rw found (record { exact = omega arith; within = bound })
    ]

-- In every interleaving of the requests, exchanges that fail for no reason included, the counter is
-- exactly the sum of the bytes that reservations hold and never exceeds the limit, when it starts
-- so and the limit is a `u64`.
pub upload_run-InBudget :
    (max_bytes : ℕ) (es : List Event) (u : Uploads)
    → max_bytes < u64_size
    → InBudget max_bytes u
    → InBudget max_bytes (upload_run max_bytes es u)
unfolding upload_run
upload_run-InBudget max_bytes [] u small b = b
upload_run-InBudget max_bytes (e ∷ es) u small b =
    upload_run-InBudget max_bytes es (upload_step max_bytes e u) small
      (upload_step-InBudget max_bytes e u small b)
