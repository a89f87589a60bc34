-- ===== src/Tests/Shared.antt =====
-- The shared rate limit on small tables.
use tasktips_cloud.Base.{
  ℕ, ◌*◌, ◌≤◌, ◌≡◌, refl, true, false, List, [], ◌∷◌, arith, find_by, any_by, delete_where,
  update_where,
}
use tasktips_cloud.Store.Errors.{ok}
use tasktips_cloud.Sync.Pull.{take}
use tasktips_cloud.Purge.Rows.{select_where}
use tasktips_cloud.Catalog.{insert_by, order_by}
use tasktips_cloud.SharedLimits.{
  Bucket, Consume, as_limit, consume_distributed_rate_limit, prune_distributed_rate_limits,
  LimitEvent, request, prune, allowed_of,
}
use tasktips_cloud.SharedLimits.Window.{allowed_of_le}
use tasktips_cloud.SharedLimits.Pruned.{pruned_is_allowed}

run : Unit {0}
unfolding allowed_of consume_distributed_rate_limit prune_distributed_rate_limits take select_where
    insert_by order_by find_by any_by delete_where update_where
run = tt

abbrev seconds : ℕ → ℕ
seconds n = n * 1000000000

abbrev twice : Consume
twice = record { hash = "h"; limit = 2; period = 60 }

abbrev events : List LimitEvent
events =
    request (seconds 10) twice
    ∷ request (seconds 20) twice
    ∷ prune (seconds 30) 100
    ∷ request (seconds 40) twice
    ∷ []

third_is_refused : allowed_of "h" events [] ≡ 2
unfolding run
third_is_refused = refl

allowed_of_le_example : allowed_of "h" events [] ≤ as_limit 2
unfolding run
allowed_of_le_example =
    allowed_of_le 0 "h" 2 60 events [] (omega arith)
      (
        (λ h. (omega arith, omega arith, refl, refl)),
        (
          (λ h. (omega arith, omega arith, refl, refl)),
          (omega arith, ((λ h. (omega arith, omega arith, refl, refl)), tt)),
        ),
      )
      refl

-- The registrations of an hour.
abbrev hourly : Consume
hourly = record { hash = "r"; limit = 10; period = 3600 }

abbrev full : Bucket
full = record { hash = "r"; window_started = 0; request_count = 10 }

eleventh_is_refused : (consume_distributed_rate_limit (seconds 800) hourly (full ∷ [])).0 ≡ ok false
unfolding run
eleventh_is_refused = refl

pruned_is_allowed_example :
    (consume_distributed_rate_limit
      (seconds 800)
      hourly
      (prune_distributed_rate_limits (seconds 700) 10000 (full ∷ [])).1).0
    ≡ ok true
unfolding run
pruned_is_allowed_example =
    pruned_is_allowed (seconds 700) 10000 (seconds 800) hourly full (full ∷ []) refl (omega arith)
      (omega arith)
