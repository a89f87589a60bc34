-- ===== src/Auth/Sessions.antt =====
-- The other session operations of crates/persistence/src/lib.rs: login, the two logouts and the
-- check behind an access token.
pub mod Tokens
pub mod Idempotent
use tasktips_cloud.Base.{
  ℕ, Bool, true, false, ◌&&◌, String, Option, none, some, [], ◌∷◌, ◌==◌, ltb, is_none, str_eq,
  if◌then◌else◌, find_by, count_by, update_where,
}
use tasktips_cloud.Domain.{role_str}
use tasktips_cloud.Json.{num, object}
use tasktips_cloud.Store.Errors.{invalid_refresh_token, Result, ok, err, ◌>>=◌}
use tasktips_cloud.Store.Transaction.{done}
use tasktips_cloud.Store.Schema.{Db, User, Device, RefreshToken}
use tasktips_cloud.Auth.Rows.{
  Clock, NewRefreshToken, SessionRecord, lock_active_user, ensure_existing_device, ensure_device,
  insert_refresh, insert_audit, revoke, touch_device, commit_ok,
}

-- `UPDATE users SET last_login_at …` and `UPDATE devices SET last_seen_at …, last_login_at …`
unfoldable pub stamp_login : ℕ → ℕ → ℕ → Db → Db
stamp_login now user device db = record db {
  users = update_where (λ u. u.id == user) (λ u. record u { last_login_at = some now }) db.users;
  devices =
      update_where (λ d. d.id == device && d.owner == user)
        (λ d. record d { last_seen_at = some now; last_login_at = some now }) db.devices;
}

unfoldable pub open_session :
    Clock → ℕ → ℕ → NewRefreshToken → String → Db → Result (SessionRecord × Db)
open_session clock user device refresh request db = do
  u ← lock_active_user user db
  db₁ ← ensure_device user device db
  db₂ ← insert_refresh user device refresh db₁
  db₃ ←
      insert_audit user (some user) "auth.login" (object (("deviceId", num device) ∷ [])) request
        (stamp_login clock.db user device db₂)
  ok (
    record {
      user = record u { last_login_at = some (clock.utc) };
      device = device;
      family = refresh.family;
    },
    db₃,
  )

unfoldable pub create_login_session :
    Clock → ℕ → ℕ → NewRefreshToken → String → Db → Result SessionRecord × Db
unfolding open_session
create_login_session clock user device refresh request db =
    commit_ok db (open_session clock user device refresh request db)

abbrev pub is_device_token : ℕ → ℕ → RefreshToken → Bool
is_device_token user device t = t.user == user && t.device == device

unfoldable pub revoke_device : ℕ → ℕ → ℕ → Db → Db
revoke_device now user device db = record db {
  tokens = update_where (is_device_token user device) (revoke now) db.tokens;
}

unfoldable pub logout_device : Clock → ℕ → ℕ → String → Db → Result (Unit {0}) × Db
logout_device clock user device request db = commit_ok db (
    done (
      insert_audit user (some user) "auth.logout" (object (("deviceId", num device) ∷ [])) request
        (revoke_device clock.db user device db)))

abbrev pub is_live_device_token : ℕ → ℕ → RefreshToken → Bool
is_live_device_token user device t = is_device_token user device t && is_none t.revoked_at

-- `SET revoked_at = CURRENT_TIMESTAMP … AND revoked_at IS NULL`
unfoldable pub revoke_live : ℕ → ℕ → ℕ → Db → Db
revoke_live now user device db = record db {
  tokens =
      update_where (is_live_device_token user device) (λ t. record t { revoked_at = some now })
        db.tokens;
}

abbrev pub logout_found : Clock → String → Db → Option RefreshToken → Result (Unit {0} × Db)
logout_found clock request db none = ok (tt, db)
logout_found clock request db (some t) =
    if ltb 0 (count_by (is_live_device_token t.user t.device) db.tokens)
    then done (
        insert_audit t.user (some t.user) "auth.web.logout"
          (object (("deviceId", num t.device) ∷ [])) request
          (revoke_live clock.db t.user t.device db))
    else ok (tt, revoke_live clock.db t.user t.device db)

unfoldable pub logout_device_by_refresh_token : Clock → ℕ → String → Db → Result (Unit {0}) × Db
logout_device_by_refresh_token clock token_hash request db =
    commit_ok db
      (logout_found clock request db (find_by (λ t. t.token_hash == token_hash) db.tokens))

abbrev pub same_role : String → User → Result (Unit {0})
same_role role u = if str_eq (role_str u.role) role then ok tt else err invalid_refresh_token

unfoldable pub check_access : Clock → ℕ → ℕ → String → Db → Result (Unit {0} × Db)
check_access clock user device role db = do
  u ← lock_active_user user db
  same ← same_role role u
  alive ← ensure_existing_device user device db
  ok (tt, touch_device clock.db device db)

unfoldable pub validate_access : Clock → ℕ → ℕ → String → Db → Result (Unit {0}) × Db
unfolding check_access
validate_access clock user device role db = commit_ok db (check_access clock user device role db)
