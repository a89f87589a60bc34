-- ===== src/Limits.antt =====
-- `AuthRateLimiter` of crates/api/src/auth.rs: a window for each operation and key.
pub mod Window
use tasktips_cloud.Base.{
  ℕ, ◌+◌, ◌-◌, ◌*◌, Bool, true, false, not, ◌&&◌, String, Option, none, some, List, [], ◌∷◌, ltb,
  leb, str_eq, length, is_none, if◌then◌else◌, find_by, delete_where, update_where,
}

abbrev pub auth_rate_limit : ℕ
auth_rate_limit = 120

abbrev pub auth_rate_max_keys : ℕ
auth_rate_max_keys = 10000

-- One minute, in nanoseconds.
abbrev pub auth_rate_period : ℕ
auth_rate_period = 60 * 1000000000

-- An entry of the map. The key is the text `operation:key` that the code formats.
pub record RateWindow : Type 0 where
  pub key : String
  pub started_at : ℕ
  pub requests : ℕ

pub record AuthRateLimiter : Type 0 where
  pub windows : List RateWindow
  pub last_cleanup : ℕ

-- `elapsed() >= AUTH_RATE_PERIOD`; the time since a later instant is zero.
abbrev pub is_over : ℕ → ℕ → Bool
is_over now start = leb auth_rate_period (now - start)

unfoldable pub clean_up : ℕ → AuthRateLimiter → AuthRateLimiter
clean_up now l =
    if is_over now l.last_cleanup
    then record {
      windows = delete_where (λ w. is_over now w.started_at) l.windows;
      last_cleanup = now;
    }
    else l

abbrev pub restart : ℕ → RateWindow → RateWindow
restart now w = if is_over now w.started_at then record w { started_at = now; requests = 0 } else w

-- The window after the request, and whether the request is allowed.
abbrev pub count_request : RateWindow → Bool × RateWindow
count_request w =
    if leb auth_rate_limit w.requests
    then (false, w)
    else (true, record w { requests = w.requests + 1 })

abbrev pub is_window : String → RateWindow → Bool
is_window key w = str_eq w.key key

-- The default entry starts now and has no requests.
abbrev pub allow_found : ℕ → String → AuthRateLimiter → Option RateWindow → Bool × AuthRateLimiter
allow_found now key l none = if leb auth_rate_max_keys (length l.windows) then (false, l) else (
  (count_request (record { key = key; started_at = now; requests = 0 })).0,
  record l {
    windows = (count_request (record { key = key; started_at = now; requests = 0 })).1 ∷ l.windows;
  },
)
allow_found now key l (some w) = (
  (count_request (restart now w)).0,
  record l {
    windows = update_where (is_window key) (λ v. (count_request (restart now v)).1) l.windows;
  },
)

-- `now` is the instant of the call; the code reads the clock several times in it.
unfoldable pub allow : ℕ → String → AuthRateLimiter → Bool × AuthRateLimiter
unfolding clean_up
allow now key l =
    allow_found now key (clean_up now l) (find_by (is_window key) (clean_up now l).windows)

-- The number of calls with a key that a sequence of calls is allowed.
unfoldable pub allowed : String → List (ℕ × String) → AuthRateLimiter → ℕ
unfolding allow
allowed key [] l = 0
allowed key ((now, k) ∷ calls) l =
    (if str_eq k key && (allow now k l).0 then 1 else 0) + allowed key calls (allow now k l).1
