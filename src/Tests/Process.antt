-- ===== src/Tests/Process.antt =====
-- The state that a process of the API keeps: the upload budget and the windows of the rate limiter.
use tasktips_cloud.Base.{
  ℕ, ◌≤◌, ◌≡◌, refl, true, false, List, [], ◌∷◌, String, arith, find_by, delete_where, update_where,
}
use tasktips_cloud.Upload.{
  holding, ended, Uploads, Event, arrive, go_on, task_step, task_at, set_task, upload_step,
  upload_run,
}
use tasktips_cloud.Upload.Bound.{InBudget, held, upload_run-InBudget}
use tasktips_cloud.Limits.{AuthRateLimiter, auth_rate_limit, allow, clean_up, allowed}
use tasktips_cloud.Limits.Window.{allowed_le}

run : Unit {0}
unfolding upload_run upload_step task_step task_at set_task held allowed allow clean_up find_by
    delete_where update_where
run = tt

abbrev idle : Uploads
idle = record { used_bytes = 0; tasks = [] }

-- Two requests load zero; the second reserves 70 of 100 bytes, the first fails to exchange, loads 70
-- and is refused; then the second releases.
abbrev race : List Event
race = arrive 60 ∷ arrive 70 ∷ go_on 0 true ∷ go_on 0 false ∷ go_on 1 false ∷ go_on 1 false ∷ []

race_run : upload_run 100 race idle ≡ record { used_bytes = 70; tasks = holding 70 ∷ ended ∷ [] }
unfolding run
race_run = refl

idle-InBudget : InBudget 100 idle
unfolding held
idle-InBudget = record { exact = refl; within = omega arith }

upload_run-InBudget_example : InBudget 100 (upload_run 100 (go_on 0 false ∷ race) idle)
upload_run-InBudget_example =
    upload_run-InBudget 100 (go_on 0 false ∷ race) idle (omega arith) idle-InBudget

abbrev calls : List (ℕ × String)
calls = (5, "login:a") ∷ (6, "login:b") ∷ (7, "login:a") ∷ []

abbrev no_windows : AuthRateLimiter
no_windows = record { windows = []; last_cleanup = 0 }

calls_run : allowed "login:a" calls no_windows ≡ 2
unfolding run
calls_run = refl

allowed_le_example : allowed "login:a" calls no_windows ≤ auth_rate_limit
unfolding find_by
allowed_le_example =
    allowed_le 5 "login:a" calls no_windows
      (omega arith, omega arith, (omega arith, omega arith, (omega arith, omega arith, tt))) refl
