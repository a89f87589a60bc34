-- ===== src/Auth/Rotation.antt =====
-- `rotate_refresh_token_inner` of crates/persistence/src/lib.rs: the rotation of a refresh token,
-- the grace window for concurrent clients, and the revocation of the family on reuse.
pub mod Steps
pub mod Families
pub mod Outcomes
use tasktips_cloud.Base.{
  ℕ, ◌-◌, ◌*◌, Bool, true, false, not, ◌&&◌, ◌||◌, String, Option, none, some, [], ◌∷◌, ◌==◌, ltb,
  leb, str_eq, is_some, unwrap_or, if◌then◌else◌, find_by, update_where,
}
use tasktips_cloud.Domain.{role_str}
use tasktips_cloud.Json.{Json, bool, num, str, object}
use tasktips_cloud.Store.Errors.{invalid_refresh_token, refresh_token_reuse, Result, ok, err, ◌>>=◌}
use tasktips_cloud.Store.Schema.{Db, User, RefreshToken}
use tasktips_cloud.Auth.Rows.{
  Clock, second, grace_seconds, family_active_limit, NewRefreshToken, SessionRecord,
  lock_active_user, ensure_existing_device, insert_refresh, insert_audit_nullable, insert_audit,
  active_members, revoke_family, touch_device, commit_ok,
}

-- `used_at` lies in the grace window. A `used_at` ahead of the clock does too.
abbrev pub in_grace_window : Clock → Option ℕ → Bool
in_grace_window clock none = false
in_grace_window clock (some used) = leb (clock.utc - used) (grace_seconds * second)

unfoldable pub family_healthy : Clock → RefreshToken → Db → Bool
family_healthy clock token db =
    in_grace_window clock token.used_at
    && ltb 0 (active_members clock.db token.family db)
    && ltb (active_members clock.db token.family db) family_active_limit

abbrev pub role_matches : Option String → User → Bool
role_matches none u = true
role_matches (some expected) u = str_eq (role_str u.role) expected

abbrev pub ensure_role : Bool → Result (Unit {0})
ensure_role true = ok tt
ensure_role false = err invalid_refresh_token

-- `SET used_at = CURRENT_TIMESTAMP, revoked_at = CURRENT_TIMESTAMP WHERE token_hash = $1`
unfoldable pub mark_used : ℕ → ℕ → Db → Db
mark_used now token_hash db = record db {
  tokens =
      update_where (λ t. t.token_hash == token_hash)
        (λ t. record t { used_at = some now; revoked_at = some now }) db.tokens;
}

-- What the caller gives: the hash of the old token, the replacement, the role that it expects.
pub record Rotation : Type 0 where
  pub old_hash : ℕ
  pub replacement : NewRefreshToken
  pub expected_role : Option String
  pub request : String

-- The revocation on reuse. A failing audit insert is ignored by the code, but it aborts the
-- transaction of the database, and then the commit commits nothing.
abbrev pub committed : Db → Result Db → Db
committed before (ok db) = db
committed before (err e) = before

unfoldable pub refuse_reuse : Clock → Rotation → RefreshToken → Db → Result SessionRecord × Db
refuse_reuse clock r token db = (
  err refresh_token_reuse,
  committed db (
      insert_audit_nullable (some token.user) (some token.user) "auth.refresh_failed"
        (object (
          ("reason", str "token_reuse")
          ∷ ("source", str (unwrap_or r.expected_role "refresh"))
          ∷ ("deviceId", num token.device)
          ∷ []))
        r.request (revoke_family clock.db token.family db)),
)

-- The part behind the test for reuse, up to the commit.
unfoldable pub grant : Clock → Rotation → RefreshToken → Bool → Db → Result (SessionRecord × Db)
grant clock r token grace db =
    if leb token.expires_at clock.utc then err invalid_refresh_token else do
      user ← lock_active_user token.user db
      checked ← ensure_role (role_matches r.expected_role user)
      alive ← ensure_existing_device token.user token.device db
      let db₁ = if grace then db else mark_used clock.db r.old_hash db
      db₂ ←
          insert_refresh token.user token.device (record (r.replacement) { family = token.family })
            db₁
      db₃ ←
          insert_audit token.user (some token.user) "auth.refresh"
            (object (("deviceId", num token.device) ∷ ("graceRotation", bool grace) ∷ [])) r.request
            (touch_device clock.db token.device db₂)
      ok (record { user = user; device = token.device; family = token.family }, db₃)

abbrev pub is_spent : RefreshToken → Bool
is_spent t = is_some t.used_at || is_some t.revoked_at

abbrev pub rotate_found : Clock → Rotation → Db → Option RefreshToken → Result SessionRecord × Db
rotate_found clock r db none = (err invalid_refresh_token, db)
rotate_found clock r db (some token) =
    if is_spent token
    then if family_healthy clock token db
      then commit_ok db (grant clock r token true db)
      else refuse_reuse clock r token db
    else commit_ok db (grant clock r token false db)

unfoldable pub rotate_refresh_token_inner : Clock → Rotation → Db → Result SessionRecord × Db
unfolding family_healthy grant refuse_reuse
rotate_refresh_token_inner clock r db =
    rotate_found clock r db (find_by (λ t. t.token_hash == r.old_hash) db.tokens)

-- `rotate_refresh_token` and `rotate_refresh_token_for_role`
unfoldable pub rotate_refresh_token :
    Clock → ℕ → NewRefreshToken → String → Db → Result SessionRecord × Db
unfolding rotate_refresh_token_inner
rotate_refresh_token clock old replacement request =
    rotate_refresh_token_inner clock (record {
      old_hash = old;
      replacement = replacement;
      expected_role = none;
      request = request;
    })

unfoldable pub rotate_refresh_token_for_role :
    Clock → ℕ → NewRefreshToken → String → String → Db → Result SessionRecord × Db
unfolding rotate_refresh_token_inner
rotate_refresh_token_for_role clock old replacement role request =
    rotate_refresh_token_inner clock (record {
      old_hash = old;
      replacement = replacement;
      expected_role = some role;
      request = request;
    })
