-- ===== src/Auth/Sessions/Tokens.antt =====
-- What login, the logouts and the check of an access token do to the refresh tokens.
use tasktips_cloud.Base.{
  ℕ, ◌≡◌, refl, ap, ◌∙◌, ◌⊎◌, inl, inr, String, some, [], ◌∷◌, ◌==◌, arith, Option-cases, find_by,
  update_where,
}
use tasktips_cloud.Json.{num, object}
use tasktips_cloud.Store.Errors.{ok, steps_of_ok}
use tasktips_cloud.Store.Schema.{Db, RefreshToken}
use tasktips_cloud.Auth.Rows.{
  Clock, NewRefreshToken, SessionRecord, lock_active_user, ensure_device, token_row, insert_refresh,
  insert_audit, insert_audit_nullable, revoke, touch_device, commit_ok, commit_ok-cases,
}
use tasktips_cloud.Auth.Rotation.Steps.{insert_refresh-eq-ok, insert_audit_nullable-eq-ok}
use tasktips_cloud.Auth.Sessions.{
  stamp_login, open_session, create_login_session, is_device_token, revoke_device, logout_found,
  logout_device, is_live_device_token, revoke_live, logout_device_by_refresh_token, check_access,
  validate_access,
}

ensure_device_tokens :
    (user device : ℕ) (db db' : Db) → ensure_device user device db ≡ ok db' → db'.tokens ≡ db.tokens
unfolding ensure_device
ensure_device_tokens user device db db' e = ground arith

stamp_login_tokens :
    (now user device : ℕ) (db : Db) → (stamp_login now user device db).tokens ≡ db.tokens
unfolding stamp_login
stamp_login_tokens now user device db = refl

login_tokens_of_steps :
    (clock : Clock) (user device : ℕ) (refresh : NewRefreshToken) (request : String)
    (db db₁ db₂ db₃ : Db)
    → ensure_device user device db ≡ ok db₁
    → insert_refresh user device refresh db₁ ≡ ok db₂
    → insert_audit user
        (some user)
        "auth.login"
        (object (("deviceId", num device) ∷ []))
        request
        (stamp_login clock.db user device db₂)
      ≡ ok db₃
    → db₃.tokens ≡ token_row user device refresh ∷ db.tokens
unfolding insert_audit stamp_login
login_tokens_of_steps clock user device refresh request db db₁ db₂ db₃ e₁ e₂ e₃ =
    ap (λ d. d.tokens)
      (insert_audit_nullable-eq-ok (some user) (some user) "auth.login"
        (object (("deviceId", num device) ∷ [])) request (stamp_login clock.db user device db₂) db₃
        e₃)
    ∙ ap (λ d. d.tokens) (insert_refresh-eq-ok user device refresh db₁ db₂ e₂)
    ∙ ap (λ ts. token_row user device refresh ∷ ts) (ensure_device_tokens user device db db₁ e₁)

open_session_tokens :
    (clock : Clock) (user device : ℕ) (refresh : NewRefreshToken) (request : String) (db db' : Db)
    (session : SessionRecord)
    → open_session clock user device refresh request db ≡ ok (session, db')
    → db'.tokens ≡ token_row user device refresh ∷ db.tokens
unfolding open_session
open_session_tokens clock user device refresh request db db' session e =
    let (u, e₁, account) = steps_of_ok (lock_active_user user db) _ e in
    let (db₁, e₂, owned) = steps_of_ok (ensure_device user device db) _ e₁ in
    let (db₂, e₃, inserted) = steps_of_ok (insert_refresh user device refresh db₁) _ e₂ in
    let (db₃, e₄, audited) = steps_of_ok (insert_audit user (some user) _ _ request _) _ e₃ in
    let tokens =
      login_tokens_of_steps clock user device refresh request db db₁ db₂ db₃ owned inserted
        audited in
    let same : db₃.tokens ≡ db'.tokens = cc in cc

pub create_login_session_tokens :
    (clock : Clock) (user device : ℕ) (refresh : NewRefreshToken) (request : String) (db : Db)
    → ((create_login_session clock user device refresh request db).1.tokens ≡ db.tokens)
      ⊎ ((create_login_session clock user device refresh request db).1.tokens
          ≡ token_row user device refresh ∷ db.tokens)
unfolding create_login_session
create_login_session_tokens clock user device refresh request db =
    elim (commit_ok-cases db (open_session clock user device refresh request db)) [
      | inl same ↦ inl (ap (λ d. d.tokens) same)
      | inr (session, db', opened, same) ↦ inr (
          ap (λ d. d.tokens) same
          ∙ open_session_tokens clock user device refresh request db db' session opened)
    ]

pub logout_device_tokens :
    (clock : Clock) (user device : ℕ) (request : String) (db : Db)
    → ((logout_device clock user device request db).1.tokens ≡ db.tokens)
      ⊎ ((logout_device clock user device request db).1.tokens
          ≡ update_where (is_device_token user device) (revoke clock.db) db.tokens)
unfolding logout_device insert_audit insert_audit_nullable revoke_device
logout_device_tokens clock user device request db = ground arith

logout_found_tokens :
    (clock : Clock) (request : String) (t : RefreshToken) (db : Db)
    → ((commit_ok db (logout_found clock request db (some t))).1.tokens ≡ db.tokens)
      ⊎ ((commit_ok db (logout_found clock request db (some t))).1.tokens
          ≡ update_where
              (is_live_device_token t.user t.device)
              (λ t. record t { revoked_at = some (clock.db) })
              db.tokens)
unfolding insert_audit insert_audit_nullable revoke_live
logout_found_tokens clock request t db = ground arith

pub logout_device_by_refresh_token_tokens :
    (clock : Clock) (token_hash : ℕ) (request : String) (db : Db)
    → ((logout_device_by_refresh_token clock token_hash request db).1.tokens ≡ db.tokens)
      ⊎ ((user : ℕ) × (device : ℕ) × ((logout_device_by_refresh_token clock token_hash request
              db).1.tokens
            ≡ update_where
                (is_live_device_token user device)
                (λ t. record t { revoked_at = some (clock.db) })
                db.tokens))
unfolding logout_device_by_refresh_token
logout_device_by_refresh_token_tokens clock token_hash request db =
    elim (Option-cases (find_by (λ t. t.token_hash == token_hash) db.tokens)) [
      | inl missing ↦ rw missing (inl refl)
      | inr (t, found) ↦ rw found (elim (logout_found_tokens clock request t db) [
        | inl same ↦ inl same
        | inr tokens ↦ inr (t.user, t.device, tokens)
      ])
    ]

pub validate_access_tokens :
    (clock : Clock) (user device : ℕ) (role : String) (db : Db)
    → (validate_access clock user device role db).1.tokens ≡ db.tokens
unfolding validate_access check_access touch_device
validate_access_tokens clock user device role db = ground arith
