-- ===== src/Auth/Rows.antt =====
-- The helpers of the session operations: accounts, devices, refresh tokens and audit events.
use tasktips_cloud.Base.{
  ℕ, Bool, true, ◌&&◌, String, Option, none, some, ◌∷◌, ◌==◌, ltb, is_none, is_some, unwrap_or,
  if◌then◌else◌, find_by, any_by, count_by, update_where,
}
pub use tasktips_cloud.Store.Transaction.{commit_ok, commit_ok-cases, commit_ok-eq-ok}
use tasktips_cloud.Domain.{is_active}
use tasktips_cloud.Json.{Json}
use tasktips_cloud.Store.Errors.{
  database, not_found, account_disabled, device_revoked, invalid_refresh_token, Result, ok, err,
}
use tasktips_cloud.Store.Schema.{Db, User, Device, RefreshToken}

-- The two clocks that an operation reads: `OffsetDateTime::now_utc()` of the process, and the time
-- at which the database began the transaction, `CURRENT_TIMESTAMP`.
pub record Clock : Type 0 where
  pub utc : ℕ
  pub db : ℕ

abbrev pub second : ℕ
second = 1000000000

-- `REFRESH_ROTATION_GRACE_SECONDS`
abbrev pub grace_seconds : ℕ
grace_seconds = 30

-- `REFRESH_FAMILY_ACTIVE_LIMIT`
abbrev pub family_active_limit : ℕ
family_active_limit = 4

pub record NewRefreshToken : Type 0 where
  pub token_hash : ℕ
  pub family : ℕ
  pub expires_at : ℕ

pub record SessionRecord : Type 0 where
  pub user : User
  pub device : ℕ
  pub family : ℕ

abbrev pub active_user : Option User → Result User
active_user none = err not_found
active_user (some u) = if is_active u.status then ok u else err account_disabled

unfoldable pub lock_active_user : ℕ → Db → Result User
lock_active_user user db = active_user (find_by (λ u. u.id == user) db.users)

abbrev pub live_device : Option Device → Result (Unit {0})
live_device none = err invalid_refresh_token
live_device (some d) = if is_some d.revoked_at then err device_revoked else ok tt

unfoldable pub ensure_existing_device : ℕ → ℕ → Db → Result (Unit {0})
ensure_existing_device user device db =
    live_device (find_by (λ d. d.id == device && d.owner == user) db.devices)

-- `VALUES ($1, $2, 'Unnamed device', 'unknown', 'unknown')`
abbrev pub unnamed_device : ℕ → ℕ → Device
unnamed_device user device = record {
  id = device;
  owner = user;
  last_seen_at = none;
  last_login_at = none;
  last_pull_at = none;
  last_push_at = none;
  revoked_at = none;
}

abbrev pub own_device : ℕ → ℕ → Db → Option Device → Result Db
own_device user device db none =
    ok (record db { devices = unnamed_device user device ∷ db.devices })
own_device user device db (some d) =
    if d.owner == user
    then if is_some d.revoked_at then err device_revoked else ok db
    else err not_found

unfoldable pub ensure_device : ℕ → ℕ → Db → Result Db
ensure_device user device db = own_device user device db (find_by (λ d. d.id == device) db.devices)

abbrev pub token_row : ℕ → ℕ → NewRefreshToken → RefreshToken
token_row user device refresh = record {
  user = user;
  device = device;
  token_hash = refresh.token_hash;
  family = refresh.family;
  expires_at = refresh.expires_at;
  used_at = none;
  revoked_at = none;
}

-- The insert, with the unique hash and the foreign key to the device of the user.
unfoldable pub insert_refresh : ℕ → ℕ → NewRefreshToken → Db → Result Db
insert_refresh user device refresh db =
    if any_by (λ t. t.token_hash == refresh.token_hash) db.tokens
    then err database
    else if any_by (λ d. d.id == device && d.owner == user) db.devices
    then ok (record db { tokens = token_row user device refresh ∷ db.tokens })
    else err database

abbrev pub is_user : Db → Option ℕ → Bool
is_user db none = true
is_user db (some user) = any_by (λ u. u.id == user) db.users

-- `insert_audit_nullable`, with the foreign keys to the users.
unfoldable pub insert_audit_nullable : Option ℕ → Option ℕ → String → Json → String → Db → Result Db
insert_audit_nullable actor subject action metadata request db =
    if is_user db actor && is_user db subject
    then ok (record db {
      audit =
          record {
            actor = actor;
            subject = subject;
            action = action;
            metadata = metadata;
            request = request;
          }
          ∷ db.audit;
    })
    else err database

unfoldable pub insert_audit : ℕ → Option ℕ → String → Json → String → Db → Result Db
unfolding insert_audit_nullable
insert_audit actor = insert_audit_nullable (some actor)

-- A member of the family that can still be rotated.
abbrev pub is_active_member : ℕ → ℕ → RefreshToken → Bool
is_active_member now family t =
    t.family == family && is_none t.used_at && is_none t.revoked_at && ltb now t.expires_at

-- `SELECT COUNT(*) FROM refresh_tokens WHERE family_id = $1 AND …`
unfoldable pub active_members : ℕ → ℕ → Db → ℕ
active_members now family db = count_by (is_active_member now family) db.tokens

-- `revoked_at = COALESCE(revoked_at, CURRENT_TIMESTAMP)`
abbrev pub revoke : ℕ → RefreshToken → RefreshToken
revoke now t = record t { revoked_at = some (unwrap_or t.revoked_at now) }

unfoldable pub revoke_family : ℕ → ℕ → Db → Db
revoke_family now family db = record db {
  tokens = update_where (λ t. t.family == family) (revoke now) db.tokens;
}

-- `UPDATE devices SET last_seen_at = CURRENT_TIMESTAMP WHERE id = $1`
unfoldable pub touch_device : ℕ → ℕ → Db → Db
touch_device now device db = record db {
  devices =
      update_where (λ d. d.id == device) (λ d. record d { last_seen_at = some now }) db.devices;
}
