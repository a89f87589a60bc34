-- ===== src/Restore/Policy.antt =====
-- The checks of a request's shape in crates/application/src/lib.rs.
use tasktips_cloud.Base.{
  ℕ, ◌≡◌, refl, ◌↔◌, ◌⊎◌, inl, inr, Bool, true, false, not, ◌||◌, Option, none, some, is_none,
  is_some, if◌then◌else◌, ℤ, pos, negsuc, below, arith,
}

pub data PolicyError : Type 0 where
  invalid_restore_target invalid_account_purge_phase : PolicyError

abbrev same_bool : Bool → Bool → Bool
same_bool true b = b
same_bool false b = not b

-- `is_some_and(|sequence| sequence < 0)`
abbrev is_negative : Option ℤ → Bool
is_negative none = false
is_negative (some sequence) = below sequence 0

unfoldable pub validate_restore_target : Option ℕ → Option ℤ → PolicyError ⊎ Unit {0}
validate_restore_target snapshot target =
    if same_bool (is_none snapshot) (is_none target) || is_negative target
    then inl invalid_restore_target
    else inr tt

unfoldable pub validate_account_purge_phase : Option ℕ → Bool → PolicyError ⊎ Unit {0}
validate_account_purge_phase export confirmed =
    if not (same_bool confirmed (is_some export)) then inl invalid_account_purge_phase else inr tt

-- The two modes of a restore.
pub data Target : Type 0 where
  to_snapshot : (snapshot : ℕ) → Target
  to_sequence : (sequence : ℕ) → Target

abbrev pub snapshot_of : Target → Option ℕ
snapshot_of (to_snapshot snapshot) = some snapshot
snapshot_of (to_sequence sequence) = none

abbrev pub sequence_of : Target → Option ℤ
sequence_of (to_snapshot snapshot) = none
sequence_of (to_sequence sequence) = some (pos sequence)

validate_restore_target_mode :
    (mode : Target) → validate_restore_target (snapshot_of mode) (sequence_of mode) ≡ inr tt
unfolding validate_restore_target
validate_restore_target_mode (to_snapshot snapshot) = refl
validate_restore_target_mode (to_sequence sequence) = ground arith

mode_of_valid :
    (snapshot : Option ℕ) (target : Option ℤ)
    → validate_restore_target snapshot target ≡ inr tt
    → (mode : Target) × (snapshot ≡ snapshot_of mode) × (target ≡ sequence_of mode)
unfolding validate_restore_target
mode_of_valid none none e = absurd (cc)
mode_of_valid none (some (pos n)) e = (to_sequence n, refl, refl)
mode_of_valid none (some (negsuc n)) e = absurd (cc)
mode_of_valid (some s) none e = (to_snapshot s, refl, refl)
mode_of_valid (some s) (some n) e = absurd (cc)

-- `validate_restore_target` accepts exactly the pairs that name one mode: a snapshot and no
-- sequence, or a sequence that is not negative and no snapshot.
pub validate_restore_target-eq-ok :
    (snapshot : Option ℕ) (target : Option ℤ)
    → (validate_restore_target snapshot target ≡ inr tt)
      ↔ ((mode : Target) × (snapshot ≡ snapshot_of mode) × (target ≡ sequence_of mode))
validate_restore_target-eq-ok snapshot target =
    (mode_of_valid snapshot target, λ (mode, s, t). rw (s, t) (validate_restore_target_mode mode))
