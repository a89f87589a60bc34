-- ===== src/Tests/Auth.antt =====
-- The sessions on the small database.
use tasktips_cloud.Base.{
  ℕ, ◌*◌, ◌≤◌, ◌≡◌, refl, true, false, none, some, [], ◌∷◌, List, arith, ◌⊎◌, find_by, any_by,
  count_by, update_where, ◌==◌,
}
use tasktips_cloud.Store.Errors.{ok, err, refresh_token_reuse}
use tasktips_cloud.Store.Schema.{Db, RefreshToken}
use tasktips_cloud.Auth.Rows.{
  Clock, NewRefreshToken, SessionRecord, second, active_members, family_active_limit, token_row,
  insert_refresh, lock_active_user, ensure_existing_device, ensure_device, insert_audit,
  insert_audit_nullable, revoke_family, touch_device,
}
use tasktips_cloud.Auth.Rotation.{
  Rotation, is_spent, family_healthy, mark_used, grant, refuse_reuse, rotate_refresh_token_inner,
}
use tasktips_cloud.Auth.Rotation.Steps.{Granted}
use tasktips_cloud.Auth.Rotation.Outcomes.{rotate-eq-ok}
use tasktips_cloud.Auth.Sessions.{
  create_login_session, open_session, stamp_login, logout_device_by_refresh_token, revoke_live,
  logout_device, revoke_device, validate_access, check_access,
}
use tasktips_cloud.Auth.Sessions.Idempotent.{web_logout_again}
use tasktips_cloud.Auth.History.{
  SessionOp, login, rotate, logout, access, session_step, session_run,
}
use tasktips_cloud.Auth.History.Dead.{replay_is_final}
use tasktips_cloud.Auth.History.Bound.{session_run_members}
use tasktips_cloud.Tests.Data.{start, user_row}

run : Unit {0}
unfolding create_login_session open_session stamp_login logout_device_by_refresh_token revoke_live
    rotate_refresh_token_inner family_healthy mark_used grant refuse_reuse active_members
    insert_refresh lock_active_user ensure_existing_device ensure_device insert_audit
    insert_audit_nullable revoke_family touch_device logout_device revoke_device validate_access
    check_access session_step session_run find_by any_by count_by update_where
run = tt

-- The instant `s` seconds after the epoch on both clocks.
abbrev at_second : ℕ → Clock
at_second s = record { utc = s * second; db = s * second }

abbrev fresh_token : ℕ → NewRefreshToken
fresh_token hash = record { token_hash = hash; family = 70; expires_at = 100000 * second }

abbrev logged_in : Db
logged_in = session_run ((at_second 10, login 1 2 (fresh_token 601) "q1") ∷ []) start

abbrev rotation : ℕ → ℕ → Rotation
rotation old new = record {
  old_hash = old;
  replacement = fresh_token new;
  expected_role = none;
  request = "q2";
}

abbrev spent : RefreshToken → ℕ → RefreshToken
spent t s = record t { used_at = some (s * second); revoked_at = some (s * second) }

-- The table after the first rotation, and the answer.
rotation_run :
    (rotate_refresh_token_inner (at_second 20) (rotation 601 602) logged_in).1.tokens
    ≡ token_row 1 2 (fresh_token 602) ∷ spent (token_row 1 2 (fresh_token 601)) 20 ∷ []
unfolding run
rotation_run = refl

abbrev rotated : Db
rotated = session_run ((at_second 20, rotate (rotation 601 602)) ∷ []) logged_in

-- A second use within thirty seconds is granted, a later one is not.
grace_run :
    (rotate_refresh_token_inner (at_second 40) (rotation 601 603) rotated).1.tokens
    ≡ token_row 1 2 (fresh_token 603) ∷ rotated.tokens
unfolding run
grace_run = refl

replay_run :
    (rotate_refresh_token_inner (at_second 90) (rotation 601 603) rotated).0
    ≡ err refresh_token_reuse
unfolding run
replay_run = refl

abbrev dead_end : List (Clock × SessionOp)
dead_end = (at_second 95, logout 1 2 "q3") ∷ (at_second 99, access 1 2 "user") ∷ []

abbrev last_member : RefreshToken
last_member = record (token_row 1 2 (fresh_token 602)) { revoked_at = some (90 * second) }

replay_is_final_example :
    (rotate_refresh_token_inner
      (at_second 120)
      (rotation 602 604)
      (session_run ((at_second 90, rotate (rotation 601 603)) ∷ dead_end) rotated)).0
    ≡ err refresh_token_reuse
unfolding run
replay_is_final_example =
    replay_is_final (at_second 90) (at_second 120) (rotation 601 603) (rotation 602 604) rotated
      (spent (token_row 1 2 (fresh_token 601)) 20) last_member dead_end refl refl refl refl
      (refl, (refl, tt)) refl refl

abbrev busy : List (Clock × SessionOp)
busy =
    (at_second 10, login 1 2 (fresh_token 601) "q1")
    ∷ (at_second 20, rotate (rotation 601 602))
    ∷ (at_second 21, rotate (rotation 601 603))
    ∷ (at_second 22, rotate (rotation 601 604))
    ∷ []

session_run_members_example :
    active_members (30 * second) 70 (session_run busy start) ≤ family_active_limit
unfolding run
session_run_members_example =
    session_run_members busy 0 (30 * second) 70 start
      (
        omega arith,
        omega arith,
        (
          omega arith,
          omega arith,
          (omega arith, omega arith, (omega arith, omega arith, omega arith)),
        ),
      )
      (refl, (refl, (refl, (refl, tt)))) (omega arith)

abbrev session : SessionRecord
session = record {
  user = record (user_row 1) { last_login_at = some (10 * second) };
  device = 2;
  family = 70;
}

rotate-eq-ok_example :
    (t : RefreshToken) × (find_by (λ x. x.token_hash == 601) logged_in.tokens ≡ some t)
    × ((is_spent t ≡ false) ⊎ (family_healthy (at_second 20) t logged_in ≡ true))
    × Granted (at_second 20) (rotation 601 602) t (is_spent t) logged_in session rotated
unfolding run
rotate-eq-ok_example = rotate-eq-ok (at_second 20) (rotation 601 602) logged_in rotated session refl

web_logout_again_example :
    logout_device_by_refresh_token
      (at_second 31)
      602
      "q5"
      (logout_device_by_refresh_token (at_second 30) 602 "q4" rotated).1
    ≡ (ok tt, (logout_device_by_refresh_token (at_second 30) 602 "q4" rotated).1)
unfolding run
web_logout_again_example =
    web_logout_again (at_second 30) (at_second 31) 602 "q4" "q5" rotated
      (logout_device_by_refresh_token (at_second 30) 602 "q4" rotated).1 refl
