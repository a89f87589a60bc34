-- ===== src/SharedLimits/Pruned.antt =====
-- Pruning gives a key its requests back before a period of more than ten minutes has ended.
use tasktips_cloud.Base.{
  ℕ, zero, suc, ◌+◌, ◌≤◌, ◌<◌, ◌≡◌, refl, sym, ap, ◌∙◌, inl, inr, Bool, Bool-cases, true, String,
  none, some, List, [], ◌∷◌, leb, arith, find_by, any_by, delete_where, length, eq_iff,
}
use tasktips_cloud.Store.Errors.{ok}
use tasktips_cloud.Sync.Pull.{take}
use tasktips_cloud.Purge.Rows.{select_where}
use tasktips_cloud.Catalog.{order_by, at_least_one}
use tasktips_cloud.SharedLimits.{
  Bucket, Consume, as_limit, is_bucket, consume_distributed_rate_limit, minutes_10, is_idle,
  earlier_bucket, idle_buckets, same_bucket, prune_distributed_rate_limits,
}
use tasktips_cloud.Catalog.Ordered.{length-order_by, any_by-order_by}

module _ {ℓ} {A : Type ℓ} where
  take_short : (n : ℕ) (xs : List A) → length xs ≤ n → take n xs ≡ xs
  unfolding take
  take_short zero [] few = refl
  take_short zero (x ∷ xs) few = absurd (omega (arith, few))
  take_short (suc n) [] few = refl
  take_short (suc n) (x ∷ xs) few = ap (λ ys. x ∷ ys) (take_short n xs (omega (arith, few)))

  length-select_where : (test : A → Bool) (xs : List A) → length (select_where test xs) ≤ length xs
  unfolding select_where
  length-select_where test [] = omega arith
  length-select_where test (x ∷ xs) = ground (arith, length-select_where test xs)

  any_by-select_where :
      (test chosen : A → Bool) (xs : List A) (x : A)
      → find_by test xs ≡ some x
      → chosen x ≡ true
      → any_by test (select_where chosen xs) ≡ true
  unfolding find_by any_by select_where
  any_by-select_where test chosen [] x found good = absurd (cc)
  any_by-select_where test chosen (y ∷ ys) x found good =
      ground (arith, any_by-select_where test chosen ys x)

deleted_none :
    (hash : String) (gone : Bucket → Bool) (bs : List Bucket)
    → ((b : Bucket) → is_bucket hash b ≡ true → gone b ≡ true)
    → find_by (is_bucket hash) (delete_where gone bs) ≡ none
unfolding find_by delete_where
deleted_none hash gone [] all = refl
deleted_none hash gone (b ∷ bs) all = ground (arith, all b, deleted_none hash gone bs all)

same_hash :
    (hash : String) (x : Bucket) (idle : List Bucket)
    → is_bucket hash x ≡ true
    → any_by (is_bucket hash) idle ≡ true
    → any_by (same_bucket x) idle ≡ true
unfolding any_by
same_hash hash x [] own there = absurd (cc)
same_hash hash x (e ∷ es) own there = elim (Bool-cases (is_bucket hash e)) [
  | inr other ↦ ground (arith, same_hash hash x es own)
  | inl here ↦
      let same : x.hash ≡ e.hash = (eq_iff x.hash hash).0 own ∙ sym ((eq_iff e.hash hash).0 here) in
      ground (arith, (eq_iff x.hash e.hash).1 same)
]

idle_is_pruned :
    (t n : ℕ) (hash : String) (b : Bucket) (buckets : List Bucket)
    → find_by (is_bucket hash) buckets ≡ some b
    → is_idle t b ≡ true
    → length buckets ≤ n
    → find_by (is_bucket hash) (prune_distributed_rate_limits t n buckets).1 ≡ none
unfolding prune_distributed_rate_limits
idle_is_pruned t n hash b buckets found idle many =
    let chosen = select_where (is_idle t) buckets in
    let few : length (order_by earlier_bucket chosen) ≤ at_least_one n = ground (
      arith,
      length-order_by earlier_bucket chosen,
      length-select_where (is_idle t) buckets,
      many,
    ) in
    let whole = take_short (at_least_one n) (order_by earlier_bucket chosen) few in
    let there : any_by (is_bucket hash) (idle_buckets t n buckets) ≡ true =
      ap (any_by (is_bucket hash)) whole
      ∙ any_by-order_by earlier_bucket (is_bucket hash) chosen
      ∙ any_by-select_where (is_bucket hash) (is_idle t) buckets b found idle in
    deleted_none hash _ buckets (λ x own. same_hash hash x (idle_buckets t n buckets) own there)

-- After a run of the pruning more than ten minutes after the window of a key began, with a limit no
-- smaller than the number of buckets, the key's next request is allowed, however many it has made in
-- the window, and however much of its period is left.
pub pruned_is_allowed :
    (t n now : ℕ) (c : Consume) (b : Bucket) (buckets : List Bucket)
    → find_by (is_bucket c.hash) buckets ≡ some b
    → b.window_started + minutes_10 < t
    → length buckets ≤ n
    → (consume_distributed_rate_limit now c (prune_distributed_rate_limits t n buckets).1).0
      ≡ ok true
unfolding consume_distributed_rate_limit
pruned_is_allowed t n now c b buckets found late many =
    let gone = idle_is_pruned t n c.hash b buckets found (ground (arith, late)) many in
    rw gone (ap ok (at_least_first c.limit))
  where
    at_least_first : (limit : ℕ) → leb 1 (as_limit limit) ≡ true
    at_least_first limit = ground arith
