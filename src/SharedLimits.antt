-- ===== src/SharedLimits.antt =====
-- The rate limit that the instances share: `consume_distributed_rate_limit` and
-- `prune_distributed_rate_limits` of crates/persistence/src/lib.rs, on the table of buckets.
pub mod Kept
pub mod Window
pub mod Pruned
use tasktips_cloud.Base.{
  ℕ, ◌+◌, ◌*◌, Bool, true, false, ◌&&◌, String, Option, none, some, List, [], ◌∷◌, ◌==◌, ltb, leb,
  str_eq, length, if◌then◌else◌, find_by, any_by, delete_where, update_where,
}
use tasktips_cloud.Store.Errors.{database, Result, ok, err}
use tasktips_cloud.Sync.Pull.{take}
use tasktips_cloud.Restore.Manifest.{i32_max}
use tasktips_cloud.Purge.Rows.{select_where}
use tasktips_cloud.Catalog.{order_by, at_least_one}

-- `distributed_rate_limit_buckets`
pub record Bucket : Type 0 where
  pub hash : String
  pub window_started : ℕ
  pub request_count : ℕ

-- A request: the hash of its key, by the crate sha2, with the limit and the period in seconds that
-- the caller gives.
pub record Consume : Type 0 where
  pub hash : String
  pub limit : ℕ
  pub period : ℕ

-- `i32::try_from(limit.max(1)).unwrap_or(i32::MAX)`
abbrev pub as_limit : ℕ → ℕ
as_limit limit = if leb (at_least_one limit) i32_max then at_least_one limit else i32_max

-- In nanoseconds; `period.whole_seconds().max(1)`.
abbrev pub as_period : ℕ → ℕ
as_period seconds = at_least_one seconds * 1000000000

abbrev pub is_bucket : String → Bucket → Bool
is_bucket hash b = str_eq b.hash hash

abbrev pub is_past : ℕ → Consume → Bucket → Bool
is_past now c b = leb (b.window_started + as_period c.period) now

-- `DO UPDATE SET`, where a count that is no `integer` is an error.
abbrev pub next_bucket : ℕ → Consume → Bucket → Result Bucket
next_bucket now c b =
    if is_past now c b
    then ok (record b { window_started = now; request_count = 1 })
    else if ltb b.request_count i32_max
    then ok (record b { request_count = b.request_count + 1 })
    else err database

abbrev pub write_bucket : Consume → List Bucket → Result Bucket → Result Bool × List Bucket
write_bucket c buckets (err why) = (err why, buckets)
write_bucket c buckets (ok b) = (
  ok (leb b.request_count (as_limit c.limit)),
  update_where (is_bucket c.hash) (λ old. b) buckets,
)

abbrev pub consume_found : ℕ → Consume → List Bucket → Option Bucket → Result Bool × List Bucket
consume_found now c buckets none = (
  ok (leb 1 (as_limit c.limit)),
  record { hash = c.hash; window_started = now; request_count = 1 } ∷ buckets,
)
consume_found now c buckets (some b) = write_bucket c buckets (next_bucket now c b)

-- `now` is the instant of the transaction.
unfoldable pub consume_distributed_rate_limit :
    ℕ → Consume → List Bucket → Result Bool × List Bucket
consume_distributed_rate_limit now c buckets =
    consume_found now c buckets (find_by (is_bucket c.hash) buckets)

-- `INTERVAL '10 minutes'`
abbrev pub minutes_10 : ℕ
minutes_10 = 600 * 1000000000

abbrev pub is_idle : ℕ → Bucket → Bool
is_idle now b = ltb (b.window_started + minutes_10) now

abbrev pub earlier_bucket : Bucket → Bucket → Bool
earlier_bucket a b = leb a.window_started b.window_started

abbrev pub idle_buckets : ℕ → ℕ → List Bucket → List Bucket
idle_buckets now limit buckets =
    take (at_least_one limit) (order_by earlier_bucket (select_where (is_idle now) buckets))

abbrev pub same_bucket : Bucket → Bucket → Bool
same_bucket b e = str_eq b.hash e.hash

unfoldable pub prune_distributed_rate_limits : ℕ → ℕ → List Bucket → ℕ × List Bucket
unfolding take order_by select_where
prune_distributed_rate_limits now limit buckets = (
  length (select_where (λ b. any_by (same_bucket b) (idle_buckets now limit buckets)) buckets),
  delete_where (λ b. any_by (same_bucket b) (idle_buckets now limit buckets)) buckets,
)

-- Requests and runs of the worker, one after another, each at its instant.
pub data LimitEvent : Type 0 where
  request : (now : ℕ) (c : Consume) → LimitEvent
  prune : (now : ℕ) (limit : ℕ) → LimitEvent

abbrev pub is_allowed : Result Bool → Bool
is_allowed (ok b) = b
is_allowed (err why) = false

-- The number of requests of a hash that a sequence of events is allowed.
unfoldable pub allowed_of : String → List LimitEvent → List Bucket → ℕ
unfolding consume_distributed_rate_limit prune_distributed_rate_limits
allowed_of hash [] buckets = 0
allowed_of hash (request now c ∷ es) buckets =
    (if str_eq c.hash hash && is_allowed (consume_distributed_rate_limit now c buckets).0
      then 1
      else 0)
    + allowed_of hash es (consume_distributed_rate_limit now c buckets).1
allowed_of hash (prune now limit ∷ es) buckets =
    allowed_of hash es (prune_distributed_rate_limits now limit buckets).1
