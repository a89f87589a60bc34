-- ===== src/Auth/Sessions/Idempotent.antt =====
-- A repeated logout.
use tasktips_cloud.Base.{
  ℕ, ◌≡◌, refl, ap, ◌∙◌, inl, inr, false, String, some, ◌==◌, arith, Bool-cases, Option-cases,
  find_by, any_by, update_where, count_by_none, update_where_none, any_by-update_where_out,
  find_by-update_where_keep,
}
use tasktips_cloud.Store.Errors.{ok}
use tasktips_cloud.Store.Schema.{Db, RefreshToken}
use tasktips_cloud.Auth.Rows.{
  Clock, insert_audit, insert_audit_nullable, commit_ok, commit_ok-eq-ok,
}
use tasktips_cloud.Auth.Sessions.{
  is_live_device_token, revoke_live, logout_found, logout_device_by_refresh_token,
}

-- A device without live tokens: the logout changes nothing.
logout_found_quiet :
    (clock : Clock) (request : String) (t : RefreshToken) (db : Db)
    → any_by (is_live_device_token t.user t.device) db.tokens ≡ false
    → commit_ok db (logout_found clock request db (some t)) ≡ (ok tt, db)
unfolding revoke_live
logout_found_quiet clock request t db quiet = rw (
  count_by_none (is_live_device_token t.user t.device) db.tokens quiet,
  update_where_none (is_live_device_token t.user t.device)
      (λ t. record t { revoked_at = some (clock.db) }) db.tokens quiet,
)

-- A logout that succeeds leaves the device without live tokens.
logout_found_tokens_dead :
    (clock : Clock) (request : String) (t : RefreshToken) (db db' : Db)
    → logout_found clock request db (some t) ≡ ok (tt, db')
    → db'.tokens
      ≡ update_where
          (is_live_device_token t.user t.device)
          (λ t. record t { revoked_at = some (clock.db) })
          db.tokens
unfolding revoke_live insert_audit insert_audit_nullable
logout_found_tokens_dead clock request t db db' e = ground arith

repeated :
    (clock later : Clock) (request again : String) (t : RefreshToken) (db db' : Db) (hash : ℕ)
    → find_by (λ x. x.token_hash == hash) db.tokens ≡ some t
    → db'.tokens
      ≡ update_where
          (is_live_device_token t.user t.device)
          (λ t. record t { revoked_at = some (clock.db) })
          db.tokens
    → logout_device_by_refresh_token later hash again db' ≡ (ok tt, db')
unfolding logout_device_by_refresh_token
repeated clock later request again t db db' hash found tokens =
    let f = λ (t : RefreshToken). record t { revoked_at = some (clock.db) } in
    let found' =
      find_by-update_where_keep (is_live_device_token t.user t.device) (λ x. x.token_hash == hash) f
        db.tokens t (λ y. refl) found in
    let quiet =
      any_by-update_where_out (is_live_device_token t.user t.device)
        (is_live_device_token t.user t.device) f db.tokens (λ x h. h) (λ x. ground arith) in
    let quiet' : any_by (is_live_device_token t.user t.device) db'.tokens ≡ false =
      ap (any_by (is_live_device_token t.user t.device)) tokens ∙ quiet in
    let here = ap (find_by (λ x. x.token_hash == hash)) tokens ∙ found' in
    elim (Bool-cases (is_live_device_token t.user t.device t)) [
      | inl live ↦ rw (rw live at here) (logout_found_quiet later again (f t) db' quiet')
      | inr spent ↦ rw (rw spent at here) (logout_found_quiet later again t db' quiet')
    ]

-- A second logout with the same refresh token, after one that returned `Ok`, returns `Ok` and
-- changes nothing.
pub web_logout_again :
    (clock later : Clock) (token_hash : ℕ) (request again : String) (db db' : Db)
    → logout_device_by_refresh_token clock token_hash request db ≡ (ok tt, db')
    → logout_device_by_refresh_token later token_hash again db' ≡ (ok tt, db')
unfolding logout_device_by_refresh_token
web_logout_again clock later token_hash request again db db' e =
    elim (Option-cases (find_by (λ t. t.token_hash == token_hash) db.tokens)) [
      | inl missing ↦
          let e' = rw missing at e in let same : db ≡ db' = ap (λ p. p.1) e' in rw (← same, missing)
      | inr (t, found) ↦
          let step = commit_ok-eq-ok db db' _ tt (rw found at e) in
          repeated clock later request again t db db' token_hash found
            (logout_found_tokens_dead clock request t db db' step)
    ]
