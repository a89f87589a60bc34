-- ===== src/Upload.antt =====
-- `TempUploadBudget` of crates/api/src/lib.rs: the bytes that uploads may hold in temporary files.
-- The requests run at the same time, so that a reservation is a task whose atomic accesses happen
-- one by one, between those of the others.
pub mod Bound
use tasktips_cloud.Base.{
  ℕ, ◌+◌, ◌-◌, ◌%◌, zero, suc, Bool, true, false, not, ◌&&◌, Option, none, some, List, [], ◌∷◌,
  ◌==◌, ltb, leb, if◌then◌else◌,
}

-- `2 ^ 64`
abbrev pub u64_size : ℕ
u64_size = 18446744073709551616

-- A call of `reserve`, after its first load; the reservation that it made; and what is left after the
-- refusal or after `Drop`.
pub data Task : Type 0 where
  trying : (current bytes : ℕ) → Task
  holding : (bytes : ℕ) → Task
  ended : Task

pub record Uploads : Type 0 where
  pub used_bytes : ℕ
  pub tasks : List Task

-- One round of the loop. `compare_exchange_weak` may fail although the values agree: `spurious`.
abbrev pub try_exchange : Bool → ℕ → ℕ → ℕ → ℕ → Task × ℕ
try_exchange spurious max_bytes used current bytes =
    if ltb (current + bytes) u64_size && leb (current + bytes) max_bytes
    then if used == current && not spurious
      then (holding bytes, current + bytes)
      else (trying used bytes, used)
    else (ended, used)

-- `fetch_sub`, which wraps around.
abbrev pub fetch_sub : ℕ → ℕ → ℕ
fetch_sub used bytes = (used + (u64_size - bytes)) % u64_size

unfoldable pub task_step : Bool → ℕ → ℕ → Task → Task × ℕ
task_step spurious max_bytes used (trying current bytes) =
    try_exchange spurious max_bytes used current bytes
task_step spurious max_bytes used (holding bytes) = (ended, fetch_sub used bytes)
task_step spurious max_bytes used ended = (ended, used)

unfoldable pub task_at : ℕ → List Task → Option Task
task_at i [] = none
task_at zero (t ∷ ts) = some t
task_at (suc i) (t ∷ ts) = task_at i ts

unfoldable pub set_task : ℕ → Task → List Task → List Task
set_task i t' [] = []
set_task zero t' (t ∷ ts) = t' ∷ ts
set_task (suc i) t' (t ∷ ts) = t ∷ set_task i t' ts

-- A request calls `reserve`, whose load sees the value of the counter; or a task goes on.
pub data Event : Type 0 where
  arrive : (bytes : ℕ) → Event
  go_on : (i : ℕ) (spurious : Bool) → Event

abbrev pub write_back : ℕ → Uploads → Task × ℕ → Uploads
write_back i u (t, used) = record { used_bytes = used; tasks = set_task i t u.tasks }

abbrev pub step_found : ℕ → Bool → ℕ → Uploads → Option Task → Uploads
step_found max_bytes spurious i u none = u
step_found max_bytes spurious i u (some t) =
    write_back i u (task_step spurious max_bytes u.used_bytes t)

unfoldable pub upload_step : ℕ → Event → Uploads → Uploads
unfolding task_at set_task task_step
upload_step max_bytes (arrive bytes) u = record u { tasks = trying u.used_bytes bytes ∷ u.tasks }
upload_step max_bytes (go_on i spurious) u = step_found max_bytes spurious i u (task_at i u.tasks)

unfoldable pub upload_run : ℕ → List Event → Uploads → Uploads
unfolding upload_step
upload_run max_bytes [] u = u
upload_run max_bytes (e ∷ es) u = upload_run max_bytes es (upload_step max_bytes e u)
