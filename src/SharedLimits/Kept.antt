-- ===== src/SharedLimits/Kept.antt =====
-- What a pruning leaves of the buckets of a key in a period of at most ten minutes.
use tasktips_cloud.Base.{
  ℕ, zero, suc, ◌+◌, ◌≤◌, ◌<◌, ◌≡◌, refl, sym, ◌∙◌, inl, inr, Bool, Bool-cases, true, false, String,
  none, List, [], ◌∷◌, arith, All, find_by, any_by, delete_where, update_where, eq_iff,
}
use tasktips_cloud.Sync.Pull.{take}
use tasktips_cloud.Purge.Rows.{select_where}
use tasktips_cloud.Catalog.{insert_by, order_by, at_least_one}
use tasktips_cloud.SharedLimits.{
  Bucket, is_bucket, minutes_10, is_idle, earlier_bucket, idle_buckets, same_bucket,
  prune_distributed_rate_limits,
}

module _ {ℓ κ} {A : Type ℓ} (P : A → Type κ) where
  All-take : (n : ℕ) (xs : List A) → All P xs → All P (take n xs)
  unfolding take
  All-take zero xs all = tt
  All-take (suc n) [] all = tt
  All-take (suc n) (x ∷ xs) all = (all.0, All-take n xs all.1)

  module _ (before : A → A → Bool) where
    All-insert_by : (x : A) (xs : List A) → P x → All P xs → All P (insert_by before x xs)
    unfolding insert_by
    All-insert_by x [] p all = (p, tt)
    All-insert_by x (y ∷ ys) p all = elim (Bool-cases (before x y)) [
      | inl first ↦ rw first (p, all)
      | inr later ↦ rw later (all.0, All-insert_by x ys p all.1)
    ]

    All-order_by : (xs : List A) → All P xs → All P (order_by before xs)
    unfolding order_by
    All-order_by [] all = tt
    All-order_by (x ∷ xs) all = All-insert_by x (order_by before xs) all.0 (All-order_by xs all.1)

find_by-delete_where_kept {ℓ} :
    {A : Type ℓ} (test gone : A → Bool) (xs : List A)
    → ((x : A) → test x ≡ true → gone x ≡ false)
    → find_by test (delete_where gone xs) ≡ find_by test xs
unfolding find_by delete_where
find_by-delete_where_kept test gone [] keeps = refl
find_by-delete_where_kept test gone (x ∷ xs) keeps =
    ground (arith, keeps x, find_by-delete_where_kept test gone xs keeps)

-- The buckets of the hash began in the period.
abbrev pub BeganSince : ℕ → String → List Bucket → Type 0
BeganSince start hash buckets =
    All (λ b. is_bucket hash b ≡ true → start ≤ b.window_started) buckets

module _ (start : ℕ) (hash : String) where
  module _ (now : ℕ) (before : now < start + minutes_10) where
    selected_others :
        (buckets : List Bucket)
        → BeganSince start hash buckets
        → All (λ b. is_bucket hash b ≡ false) (select_where (is_idle now) buckets)
    unfolding select_where
    selected_others [] began = tt
    selected_others (b ∷ bs) began =
        let rest = selected_others bs began.1 in
        elim (Bool-cases (is_bucket hash b)) [
          | inr other ↦ elim (Bool-cases (is_idle now b)) [
            | inl idle ↦ rw idle (other, rest)
            | inr busy ↦ rw busy rest
          ]
          | inl own ↦
              let since = began.0 own in
              let busy : is_idle now b ≡ false = ground (arith, since, before) in rw busy rest
        ]

    not_gone :
        (x : Bucket) (idle : List Bucket)
        → All (λ b. is_bucket hash b ≡ false) idle
        → is_bucket hash x ≡ true
        → any_by (same_bucket x) idle ≡ false
    unfolding any_by
    not_gone x [] others own = refl
    not_gone x (e ∷ es) others own = elim (Bool-cases (same_bucket x e)) [
      | inr apart ↦ rw apart (not_gone x es others.1 own)
      | inl same ↦
          let here : e.hash ≡ hash =
            sym ((eq_iff x.hash e.hash).0 same) ∙ (eq_iff x.hash hash).0 own in
          absurd (cc ((eq_iff e.hash hash).1 here, others.0))
    ]

    pub pruned_keeps :
        (n : ℕ) (buckets : List Bucket)
        → BeganSince start hash buckets
        → find_by (is_bucket hash) (prune_distributed_rate_limits now n buckets).1
          ≡ find_by (is_bucket hash) buckets
    unfolding prune_distributed_rate_limits
    pruned_keeps n buckets began =
        let idle =
          All-take (λ b. is_bucket hash b ≡ false) (at_least_one n) _
            (All-order_by (λ b. is_bucket hash b ≡ false) earlier_bucket _
              (selected_others buckets began)) in
        find_by-delete_where_kept (is_bucket hash) _ buckets
          (λ b own. not_gone b (idle_buckets now n buckets) idle own)

  pub deleted-BeganSince :
      (gone : Bucket → Bool) (bs : List Bucket)
      → BeganSince start hash bs
      → BeganSince start hash (delete_where gone bs)
  unfolding delete_where
  deleted-BeganSince gone [] began = tt
  deleted-BeganSince gone (b ∷ bs) began = elim (Bool-cases (gone b)) [
    | inl goes ↦ rw goes (deleted-BeganSince gone bs began.1)
    | inr stays ↦ rw stays (began.0, deleted-BeganSince gone bs began.1)
  ]

  pub written-BeganSince :
      (test : Bucket → Bool) (new : Bucket) (bs : List Bucket)
      → (is_bucket hash new ≡ true → start ≤ new.window_started)
      → BeganSince start hash bs
      → BeganSince start hash (update_where test (λ old. new) bs)
  unfolding update_where
  written-BeganSince test new [] since began = tt
  written-BeganSince test new (b ∷ bs) since began = elim (Bool-cases (test b)) [
    | inl hit ↦ rw hit (since, written-BeganSince test new bs since began.1)
    | inr miss ↦ rw miss (began.0, written-BeganSince test new bs since began.1)
  ]

  pub pruned-BeganSince :
      (now n : ℕ) (buckets : List Bucket)
      → BeganSince start hash buckets
      → BeganSince start hash (prune_distributed_rate_limits now n buckets).1
  unfolding prune_distributed_rate_limits
  pruned-BeganSince now n buckets began = deleted-BeganSince _ buckets began

pub unseen-BeganSince :
    (start : ℕ) (hash : String) (buckets : List Bucket)
    → find_by (is_bucket hash) buckets ≡ none
    → BeganSince start hash buckets
unfolding find_by
unseen-BeganSince start hash [] unseen = tt
unseen-BeganSince start hash (b ∷ bs) unseen =
    let other : is_bucket hash b ≡ false = ground arith in
    ((λ own. absurd (cc (own, other))), unseen-BeganSince start hash bs (ground arith))
