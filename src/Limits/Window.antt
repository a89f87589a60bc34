-- ===== src/Limits/Window.antt =====
-- In a period a key is allowed at most `AUTH_RATE_LIMIT` requests.
use tasktips_cloud.Base.{
  ℕ, ◌+◌, ◌≤◌, ◌<◌, ◌≡◌, refl, sym, ap, ◌∙◌, inl, inr, Bool, false, String, Option, none, some,
  List, [], ◌∷◌, leb, str_eq, length, arith, if◌then◌else◌, find_by, delete_where, Bool-cases,
  Option-cases, eq_iff, eq_refl, find_by-update_where_self, find_by-update_where_other,
}
use tasktips_cloud.Limits.{
  auth_rate_limit, auth_rate_period, auth_rate_max_keys, RateWindow, AuthRateLimiter, is_over,
  clean_up, restart, count_request, is_window, allow_found, allow, allowed,
}

module _ {ℓ} {A : Type ℓ} (test gone : A → Bool) where
  still_missing :
      (xs : List A) → find_by test xs ≡ none → find_by test (delete_where gone xs) ≡ none
  unfolding find_by delete_where
  still_missing [] e = refl
  still_missing (x ∷ xs) e = ground (arith, still_missing xs)

  still_found :
      (xs : List A) (x : A)
      → find_by test xs ≡ some x
      → gone x ≡ false
      → find_by test (delete_where gone xs) ≡ some x
  unfolding find_by delete_where
  still_found [] x e stays = absurd (cc)
  still_found (y ∷ xs) x e stays = ground (arith, still_found xs x)

-- What a window has of the limit, and that it began in the period.
abbrev pub spent : Option RateWindow → ℕ
spent none = 0
spent (some w) = w.requests

abbrev pub Began : ℕ → Option RateWindow → Type 0
Began start none = Unit
Began start (some w) = (start ≤ w.started_at) × (w.requests ≤ auth_rate_limit)

abbrev pub window_of : String → AuthRateLimiter → Option RateWindow
window_of key l = find_by (is_window key) l.windows

counted_key : (now : ℕ) (w : RateWindow) → (count_request (restart now w)).1.key ≡ w.key
counted_key now w = ground arith

counted_once :
    (start now : ℕ) (w : RateWindow)
    → start ≤ w.started_at
    → w.requests ≤ auth_rate_limit
    → is_over now w.started_at ≡ false
    → Began start (some (count_request (restart now w)).1)
      × ((if (count_request (restart now w)).0 then 1 else 0) + w.requests
          ≡ (count_request (restart now w)).1.requests)
counted_once start now w late few runs =
    rw runs (elim (Bool-cases (leb auth_rate_limit w.requests)) [
      | inl full ↦ rw full ((late, few), omega arith)
      | inr room ↦ rw room ((late, ground arith), omega arith)
    ])

module _ (start now : ℕ) (key : String) (since : start ≤ now)
    (before : now < start + auth_rate_period) where
  clean_up_window :
      (l : AuthRateLimiter)
      → Began start (window_of key l)
      → window_of key (clean_up now l) ≡ window_of key l
  unfolding clean_up
  clean_up_window l began = elim (Bool-cases (is_over now l.last_cleanup)) [
    | inl over ↦ elim (Option-cases (window_of key l)) [
      | inl missing ↦ rw (over, missing) (still_missing (is_window key) _ l.windows missing)
      | inr (w, found) ↦
          let (late, few) = rw found at began in
          rw (over, found)
            (still_found (is_window key) (λ v. is_over now v.started_at) l.windows w found
              (ground arith))
    ]
    | inr recent ↦ rw recent
  ]

  -- A call with the key.
  allow_found_key :
      (l : AuthRateLimiter)
      → Began start (window_of key l)
      → Began start (window_of key (allow_found now key l (window_of key l)).1)
        × ((if (allow_found now key l (window_of key l)).0 then 1 else 0) + spent (window_of key l)
            ≡ spent (window_of key (allow_found now key l (window_of key l)).1))
  unfolding find_by
  allow_found_key l began = elim (Option-cases (window_of key l)) [
    | inl missing ↦ elim (Bool-cases (leb auth_rate_max_keys (length l.windows))) [
      | inl full ↦ rw (missing, full, missing) (tt, refl)
      | inr room ↦ rw (missing, room, eq_refl key) ((since, omega arith), refl)
    ]
    | inr (w, found) ↦
        let (late, few) = rw found at began in
        let runs : is_over now w.started_at ≡ false = ground arith in
        let counted =
          find_by-update_where_self (is_window key) (λ v. (count_request (restart now v)).1)
            l.windows (λ v h. ap (λ k. str_eq k key) (counted_key now v) ∙ h) in
        rw (found, counted, found) (counted_once start now w late few runs)
  ]

  -- A call with another key.
  allow_found_other :
      (l : AuthRateLimiter) (k : String)
      → str_eq k key ≡ false
      → window_of key (allow_found now k l (window_of k l)).1 ≡ window_of key l
  unfolding find_by
  allow_found_other l k other = elim (Option-cases (window_of k l)) [
    | inl missing ↦ rw missing (ground (arith, other))
    | inr (w, found) ↦ rw found (
        find_by-update_where_other (is_window k) (is_window key)
          (λ v. (count_request (restart now v)).1) l.windows
          (λ v h. ap (λ x. str_eq x key) (counted_key now v))
          (λ v h. ap (λ x. str_eq x key) ((eq_iff v.key k).0 h) ∙ other))
  ]

  allow_key :
      (l : AuthRateLimiter)
      → Began start (window_of key l)
      → Began start (window_of key (allow now key l).1)
        × ((if (allow now key l).0 then 1 else 0) + spent (window_of key l)
            ≡ spent (window_of key (allow now key l).1))
  unfolding allow
  allow_key l began =
      let cleaned = clean_up_window l began in
      let (b, s) = allow_found_key (clean_up now l) (rw cleaned began) in
      (b, ap (λ o. (if (allow now key l).0 then 1 else 0) + spent o) (sym cleaned) ∙ s)

  allow_other :
      (l : AuthRateLimiter) (k : String)
      → str_eq k key ≡ false
      → Began start (window_of key l)
      → window_of key (allow now k l).1 ≡ window_of key l
  unfolding allow
  allow_other l k other began = allow_found_other (clean_up now l) k other ∙ clean_up_window l began

-- The calls are in a period from `start` on.
abbrev pub InPeriod : ℕ → List (ℕ × String) → Type 0
InPeriod start [] = Unit
InPeriod start ((now, k) ∷ calls) =
    (start ≤ now) × (now < start + auth_rate_period) × InPeriod start calls

within_limit :
    (start : ℕ) (key : String) (calls : List (ℕ × String)) (l : AuthRateLimiter)
    → InPeriod start calls
    → Began start (window_of key l)
    → allowed key calls l + spent (window_of key l) ≤ auth_rate_limit
unfolding allowed
within_limit start key [] l timely began = elim (Option-cases (window_of key l)) [
  | inl missing ↦ rw missing (omega arith)
  | inr (w, found) ↦ let (late, few) = rw found at began in rw found (omega arith)
]
within_limit start key ((now, k) ∷ calls) l timely began = elim (Bool-cases (str_eq k key)) [
  | inl same ↦
      let key_eq : k ≡ key = (eq_iff k key).0 same in
      let (b, s) = allow_key start now key timely.0 timely.1 l began in
      let rest = within_limit start key calls (allow now key l).1 timely.2 b in
      rw (key_eq, eq_refl key) (omega arith)
  | inr other ↦
      let kept = allow_other start now key timely.0 timely.1 l k other began in
      let rest = within_limit start key calls (allow now k l).1 timely.2 (rw kept began) in
      rw other (omega (arith, rw kept at rest))
]

-- Whatever calls with other keys come between, a key that has no window when a period begins is
-- allowed at most `AUTH_RATE_LIMIT` requests in that period.
pub allowed_le :
    (start : ℕ) (key : String) (calls : List (ℕ × String)) (l : AuthRateLimiter)
    → InPeriod start calls
    → find_by (is_window key) l.windows ≡ none
    → allowed key calls l ≤ auth_rate_limit
allowed_le start key calls l timely unseen =
    let all = within_limit start key calls l timely (rw unseen tt) in
    omega (arith, rw unseen at all)
