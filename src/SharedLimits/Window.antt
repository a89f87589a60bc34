-- ===== src/SharedLimits/Window.antt =====
-- In a period a key is allowed at most the limit, where the buckets are not pruned before it ends.
use tasktips_cloud.Base.{
  ℕ, ◌+◌, ◌≤◌, ◌<◌, ◌≡◌, refl, sym, ap, ◌∙◌, inl, inr, Bool, Bool-cases, Option-cases, true, false,
  String, Option, none, some, List, [], ◌∷◌, leb, ltb, str_eq, if◌then◌else◌, arith, find_by,
  find_by-test, eq_iff, eq_refl, All-find_by, find_by-update_where_self, find_by-update_where_other,
}
use tasktips_cloud.Store.Errors.{Result, ok, err}
use tasktips_cloud.Restore.Manifest.{i32_max}
use tasktips_cloud.SharedLimits.{
  Bucket, Consume, as_limit, as_period, is_bucket, is_past, next_bucket, write_bucket,
  consume_distributed_rate_limit, minutes_10, prune_distributed_rate_limits, LimitEvent, request,
  prune, is_allowed, allowed_of,
}
use tasktips_cloud.SharedLimits.Kept.{
  BeganSince, written-BeganSince, pruned_keeps, pruned-BeganSince, unseen-BeganSince,
}

counts_up :
    (n limit : ℕ)
    → (if leb (n + 1) limit then 1 else 0) + (if leb n limit then n else limit)
      ≤ (if leb (n + 1) limit then n + 1 else limit)
counts_up n limit = ground arith

counts_first : (limit : ℕ) → (if leb 1 limit then 1 else 0) + 0 ≤ (if leb 1 limit then 1 else limit)
counts_first limit = ground arith

module _ (start : ℕ) (hash : String) (limit period : ℕ) where
  -- What the events are: the requests of the hash have the limit and the period and are in it, and
  -- so are the runs of the worker.
  abbrev pub InTime : List LimitEvent → Type 0
  InTime [] = Unit
  InTime (request now c ∷ es) =
      (c.hash ≡ hash
        → (start ≤ now)
          × (now < start + as_period period)
          × (c.limit ≡ limit)
          × (c.period ≡ period))
      × InTime es
  InTime (prune now n ∷ es) = (now < start + as_period period) × InTime es

  abbrev spent : Option Bucket → ℕ
  spent none = 0
  spent (some b) = if leb b.request_count (as_limit limit) then b.request_count else as_limit limit

  abbrev spent_of : List Bucket → ℕ
  spent_of buckets = spent (find_by (is_bucket hash) buckets)

  next_hash :
      (now : ℕ) (c : Consume) (b new : Bucket) → next_bucket now c b ≡ ok new → new.hash ≡ b.hash
  next_hash now c b new e = ground arith

  write_other :
      (c : Consume) (buckets : List Bucket) (r : Result Bucket)
      → str_eq c.hash hash ≡ false
      → BeganSince start hash buckets
      → ((new : Bucket) → r ≡ ok new → new.hash ≡ c.hash)
      → BeganSince start hash (write_bucket c buckets r).1
        × (find_by (is_bucket hash) (write_bucket c buckets r).1 ≡ find_by (is_bucket hash) buckets)
  write_other c buckets (err why) other began same = (began, refl)
  write_other c buckets (ok new) other began same =
      let there : is_bucket hash new ≡ false = ap (λ t. str_eq t hash) (same new refl) ∙ other in
      let apart : (b : Bucket) → is_bucket c.hash b ≡ true → is_bucket hash b ≡ false =
        λ b own. ap (λ t. str_eq t hash) ((eq_iff b.hash c.hash).0 own) ∙ other in
      (
        written-BeganSince start hash (is_bucket c.hash) new buckets
            (λ own. absurd (cc (own, there))) began,
        find_by-update_where_other (is_bucket c.hash) (is_bucket hash) (λ old. new) buckets
            (λ b own. there ∙ sym (apart b own)) apart,
      )

  -- A request with another key.
  consume_other :
      (now : ℕ) (c : Consume) (buckets : List Bucket)
      → str_eq c.hash hash ≡ false
      → BeganSince start hash buckets
      → BeganSince start hash (consume_distributed_rate_limit now c buckets).1
        × (find_by (is_bucket hash) (consume_distributed_rate_limit now c buckets).1
            ≡ find_by (is_bucket hash) buckets)
  unfolding consume_distributed_rate_limit find_by
  consume_other now c buckets other began =
      elim (Option-cases (find_by (is_bucket c.hash) buckets)) [
        | inl none_ ↦ rw none_ (((λ own. absurd (cc (own, other))), began), rw other refl)
        | inr (b, found) ↦
            let own = (eq_iff b.hash c.hash).0 (find_by-test (is_bucket c.hash) buckets b found) in
            rw found (
              write_other c buckets (next_bucket now c b) other began
                (λ new e. next_hash now c b new e ∙ own))
      ]

  abbrev own_request : Consume
  own_request = record { hash = hash; limit = limit; period = period }

  abbrev Counts : List Bucket → Result Bool × List Bucket → Type 0
  Counts before (r, after) =
      BeganSince start hash after
      × ((if is_allowed r then 1 else 0) + spent_of before ≤ spent_of after)

  count_next :
      (now : ℕ) (buckets : List Bucket) (b : Bucket)
      → find_by (is_bucket hash) buckets ≡ some b
      → start ≤ b.window_started
      → now < start + as_period period
      → BeganSince start hash buckets
      → Counts buckets (write_bucket own_request buckets (next_bucket now own_request b))
  count_next now buckets b found since before began =
      let running : is_past now own_request b ≡ false = ground (arith, since, before) in
      elim (Bool-cases (ltb b.request_count i32_max)) [
        | inr full ↦ rw (running, full) (began, omega arith)
        | inl room ↦
            let new = record b { request_count = b.request_count + 1 } in
            let here : is_bucket hash new ≡ true = find_by-test (is_bucket hash) buckets b found in
            let after =
              find_by-update_where_self (is_bucket hash) (λ old. new) buckets (λ x own. here) in
            rw (running, room)
              (
                written-BeganSince start hash (is_bucket hash) new buckets (λ own. since) began,
                rw (after, found) (counts_up b.request_count (as_limit limit)),
              )
      ]

  -- A request with the key, in the period.
  consume_own :
      (now : ℕ) (buckets : List Bucket)
      → start ≤ now
      → now < start + as_period period
      → BeganSince start hash buckets
      → Counts buckets (consume_distributed_rate_limit now own_request buckets)
  unfolding consume_distributed_rate_limit find_by
  consume_own now buckets since before began =
      elim (Option-cases (find_by (is_bucket hash) buckets)) [
        | inl none_ ↦
            rw none_
              (((λ own. since), began), rw (none_, eq_refl hash) (counts_first (as_limit limit)))
        | inr (b, found) ↦
            let test = find_by-test (is_bucket hash) buckets b found in
            let since_b =
              All-find_by (λ x. is_bucket hash x ≡ true → start ≤ x.window_started) (is_bucket hash)
                buckets b began found test in
            let counts = count_next now buckets b found since_b before began in
            rw found (rw found at counts)
      ]

  spent_le : (o : Option Bucket) → 0 + spent o ≤ as_limit limit
  spent_le none = omega arith
  spent_le (some b) = ground arith

  within_limit :
      (es : List LimitEvent) (buckets : List Bucket)
      → as_period period ≤ minutes_10
      → InTime es
      → BeganSince start hash buckets
      → allowed_of hash es buckets + spent_of buckets ≤ as_limit limit
  unfolding allowed_of
  within_limit [] buckets short timely began = spent_le (find_by (is_bucket hash) buckets)
  within_limit (prune now n ∷ es) buckets short timely began =
      let kept = pruned_keeps start hash now (omega (arith, timely.0, short)) n buckets began in
      let rest =
        within_limit es (prune_distributed_rate_limits now n buckets).1 short timely.1
          (pruned-BeganSince start hash now n buckets began) in
      omega (arith, rest, ap spent kept)
  within_limit (request now c ∷ es) buckets short timely began =
      elim (Bool-cases (str_eq c.hash hash)) [
        | inr other ↦
            let (began', same) = consume_other now c buckets other began in
            let rest =
              within_limit es (consume_distributed_rate_limit now c buckets).1 short timely.1
                began' in
            rw other (omega (arith, rest, ap spent same))
        | inl own ↦
            let (since, before, l, p) = timely.0 ((eq_iff c.hash hash).0 own) in
            let is_own : c ≡ own_request =
              λ i. record { hash = (eq_iff c.hash hash).0 own i; limit = l i; period = p i } in
            let (began', more) = consume_own now buckets since before began in
            let rest =
              within_limit es (consume_distributed_rate_limit now own_request buckets).1 short
                timely.1 began' in
            rw (is_own, eq_refl hash) (omega (arith, rest, more))
      ]

-- Whatever requests and runs of the worker's pruning come between, and in whatever order their
-- clocks are, a key that has no bucket when a period of at most ten minutes begins is allowed at most
-- the limit of requests before the period ends.
pub allowed_of_le :
    (start : ℕ) (hash : String) (limit period : ℕ) (es : List LimitEvent) (buckets : List Bucket)
    → as_period period ≤ minutes_10
    → InTime start hash limit period es
    → find_by (is_bucket hash) buckets ≡ none
    → allowed_of hash es buckets ≤ as_limit limit
allowed_of_le start hash limit period es buckets short timely unseen =
    let all =
      within_limit start hash limit period es buckets short timely
        (unseen-BeganSince start hash buckets unseen) in
    omega (arith, rw unseen at all)
