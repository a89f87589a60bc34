-- ===== src/Auth/Rotation/Steps.antt =====
-- A granted rotation, taken apart into its steps.
use tasktips_cloud.Base.{
  ℕ, ◌≡◌, refl, ap, ◌∙◌, Bool, true, false, String, Option, some, List, ◌∷◌, leb, arith, Bool-cases,
  inl, inr, if◌then◌else◌,
}
use tasktips_cloud.Json.{Json}
use tasktips_cloud.Store.Errors.{Result, ok, steps_of_ok}
use tasktips_cloud.Store.Schema.{Db, User, RefreshToken}
use tasktips_cloud.Auth.Rows.{
  Clock, NewRefreshToken, SessionRecord, lock_active_user, ensure_existing_device, token_row,
  insert_refresh, insert_audit_nullable, insert_audit, touch_device,
}
use tasktips_cloud.Auth.Rotation.{Rotation, role_matches, ensure_role, mark_used, grant}

pub insert_refresh-eq-ok :
    (user device : ℕ) (refresh : NewRefreshToken) (db db' : Db)
    → insert_refresh user device refresh db ≡ ok db'
    → db' ≡ record db { tokens = token_row user device refresh ∷ db.tokens }
unfolding insert_refresh
insert_refresh-eq-ok user device refresh db db' e = ground arith

-- An audit event changes nothing else.
pub insert_audit_nullable-eq-ok :
    (actor subject : Option ℕ) (action : String) (metadata : Json) (request : String) (db db' : Db)
    → insert_audit_nullable actor subject action metadata request db ≡ ok db'
    → db' ≡ record db { audit = db'.audit }
unfolding insert_audit_nullable
insert_audit_nullable-eq-ok actor subject action metadata request db db' e = ground arith

-- The tokens that the insert, the touch of the device and the audit event leave.
granted_tokens :
    (clock user device : ℕ) (refresh : NewRefreshToken) (db₁ db₂ db₃ : Db) (action : String)
    (metadata : Json) (request : String)
    → insert_refresh user device refresh db₁ ≡ ok db₂
    → insert_audit user (some user) action metadata request (touch_device clock device db₂) ≡ ok db₃
    → db₃.tokens ≡ token_row user device refresh ∷ db₁.tokens
unfolding touch_device insert_audit
granted_tokens clock user device refresh db₁ db₂ db₃ action metadata request e₁ e₂ =
    ap (λ d. d.tokens)
      (insert_audit_nullable-eq-ok (some user) (some user) action metadata request
        (touch_device clock device db₂) db₃ e₂)
    ∙ ap (λ d. d.tokens) (insert_refresh-eq-ok user device refresh db₁ db₂ e₁)

ensure_role-eq-ok : (b : Bool) {u : Unit {0}} → ensure_role b ≡ ok u → b ≡ true
ensure_role-eq-ok true e = refl
ensure_role-eq-ok false e = absurd (cc)

module _ (clock : Clock) (r : Rotation) (token : RefreshToken) (grace : Bool) (db : Db) where
  -- The tokens before the insert.
  abbrev pub spent_tokens : List RefreshToken
  spent_tokens = (if grace then db else mark_used clock.db r.old_hash db).tokens

  pub record Granted (session : SessionRecord) (db' : Db) : Type 0 where
    pub unexpired : leb token.expires_at clock.utc ≡ false
    pub account : lock_active_user token.user db ≡ ok session.user
    pub role : role_matches r.expected_role session.user ≡ true
    pub alive : ensure_existing_device token.user token.device db ≡ ok tt
    pub device : session.device ≡ token.device
    pub family : session.family ≡ token.family
    pub tokens :
        db'.tokens
        ≡ token_row token.user token.device (record (r.replacement) { family = token.family })
          ∷ spent_tokens

  grant_steps :
      (user : User) (db₂ db₃ db' : Db) (session : SessionRecord)
      → leb token.expires_at clock.utc ≡ false
      → lock_active_user token.user db ≡ ok user
      → role_matches r.expected_role user ≡ true
      → ensure_existing_device token.user token.device db ≡ ok tt
      → db₃.tokens
        ≡ token_row token.user token.device (record (r.replacement) { family = token.family })
          ∷ spent_tokens
      → ◌≡◌ {A = Result (SessionRecord × Db)}
          (ok (record { user = user; device = token.device; family = token.family }, db₃))
          (ok (session, db'))
      → Granted session db'
  grant_steps user db₂ db₃ db' session unexpired account role alive tokens last =
      let same : session.user ≡ user = cc in
      record {
        unexpired = unexpired;
        account = cc;
        role = cc;
        alive = alive;
        device = cc;
        family = cc;
        tokens = cc;
      }

  pub grant-Granted :
      (session : SessionRecord) (db' : Db)
      → grant clock r token grace db ≡ ok (session, db')
      → Granted session db'
  unfolding grant touch_device insert_audit
  grant-Granted session db' e = elim (Bool-cases (leb token.expires_at clock.utc)) [
    | inl expired ↦ absurd (ground arith)
    | inr unexpired ↦
        let (user, e₁, account) =
          steps_of_ok (lock_active_user token.user db) _ (rw unexpired at e) in
        let (checked, e₂, role) =
          steps_of_ok (ensure_role (role_matches r.expected_role user)) _ e₁ in
        let (living, e₃, alive) =
          steps_of_ok (ensure_existing_device token.user token.device db) _ e₂ in
        let (db₂, e₄, inserted) =
          steps_of_ok
            (insert_refresh token.user token.device
              (record (r.replacement) { family = token.family })
              (if grace then db else mark_used clock.db r.old_hash db))
            _ e₃ in
        let (db₃, e₅, audited) =
          steps_of_ok (insert_audit token.user (some token.user) _ _ _ _) _ e₄ in
        grant_steps user db₂ db₃ db' session unexpired account (ensure_role-eq-ok _ role) alive
          (granted_tokens clock.db token.user token.device
            (record (r.replacement) { family = token.family }) _ db₂ db₃ _ _ r.request inserted
            audited)
          e₅
  ]
