-- ===== src/Auth/History/Bound.antt =====
-- `REFRESH_FAMILY_ACTIVE_LIMIT` bounds the members of a family that can still be rotated.
use tasktips_cloud.Base.{
  ℕ, suc, ◌≤◌, ◌<◌, ◌≡◌, inl, inr, Bool, true, false, not, some, List, [], ◌∷◌, ◌==◌, leb, arith,
  Bool-cases, find_by, any_by, count_by, update_where, count_by-update_where_le,
  count_by-update_where_lt, count_by_narrower, count_by_none, sym, ◌∙◌, ==_refl, any_by_narrower,
}
use tasktips_cloud.Store.Schema.{Db, RefreshToken}
use tasktips_cloud.Auth.Rows.{
  Clock, SessionRecord, NewRefreshToken, token_row, revoke, family_active_limit, is_active_member,
  active_members,
}
use tasktips_cloud.Auth.Rotation.{
  Rotation, is_spent, family_healthy, mark_used, rotate_refresh_token_inner,
}
use tasktips_cloud.Auth.Rotation.Steps.{Granted, spent_tokens}
use tasktips_cloud.Auth.Sessions.{is_live_device_token}
use tasktips_cloud.Auth.Rotation.Families.{kept, revoked, issued, rotate-RotationTokens}
use tasktips_cloud.Auth.Sessions.Tokens.{
  create_login_session_tokens, logout_device_tokens, logout_device_by_refresh_token_tokens,
  validate_access_tokens,
}
use tasktips_cloud.Auth.History.{
  SessionOp, login, rotate, logout, web_logout, access, session_step, session_run,
}

module _ (now family : ℕ) where
  abbrev pub members : List RefreshToken → ℕ
  members tokens = count_by (is_active_member now family) tokens

  members_cons :
      (t : RefreshToken) (tokens : List RefreshToken) → members (t ∷ tokens) ≤ suc (members tokens)
  unfolding count_by
  members_cons t tokens = ground arith

  members_other :
      (t : RefreshToken) (tokens : List RefreshToken)
      → (t.family == family) ≡ false
      → members (t ∷ tokens) ≡ members tokens
  unfolding count_by
  members_other t tokens other = ground arith

  -- A revocation adds no member.
  members_revoked :
      (test : RefreshToken → Bool) (f : RefreshToken → RefreshToken) (tokens : List RefreshToken)
      → ((x : RefreshToken) → is_active_member now family (f x) ≡ false)
      → members (update_where test f tokens) ≤ members tokens
  members_revoked test f tokens out =
      count_by-update_where_le test (is_active_member now family) f tokens (λ x h. out x)

healthy_members :
    (clock : Clock) (t : RefreshToken) (db : Db)
    → family_healthy clock t db ≡ true
    → members clock.db t.family db.tokens < family_active_limit
unfolding family_healthy active_members
healthy_members clock t db healthy = ground arith

-- A token that a rotation spends was a member.
fresh_member :
    (clock : Clock) (t : RefreshToken)
    → clock.db ≤ clock.utc
    → is_spent t ≡ false
    → leb t.expires_at clock.utc ≡ false
    → is_active_member clock.db t.family t ≡ true
fresh_member clock t skew fresh unexpired = ground (arith, ==_refl t.family)

module _ (clock : Clock) (r : Rotation) (db db' : Db) (t : RefreshToken) (session : SessionRecord)
    (skew : clock.db ≤ clock.utc)
    (found : find_by (λ x. x.token_hash == r.old_hash) db.tokens ≡ some t) where
  marked_members :
      (family : ℕ)
      → members clock.db family (mark_used clock.db r.old_hash db).tokens
        ≤ members clock.db family db.tokens
  unfolding mark_used
  marked_members family = members_revoked clock.db family _ _ db.tokens (λ x. ground arith)

  grace_members :
      Granted clock r t true db session db'
      → family_healthy clock t db ≡ true
      → members clock.db t.family db'.tokens ≤ family_active_limit
  grace_members g healthy = rw (g.tokens) (
      omega (arith, members_cons clock.db t.family _ db.tokens, healthy_members clock t db healthy))

  spent_members :
      Granted clock r t false db session db'
      → is_spent t ≡ false
      → members clock.db t.family db'.tokens ≤ members clock.db t.family db.tokens
  unfolding mark_used
  spent_members g fresh =
      let less =
        count_by-update_where_lt (λ x. x.token_hash == r.old_hash)
          (is_active_member clock.db t.family)
          (λ x. record x { used_at = some (clock.db); revoked_at = some (clock.db) }) db.tokens t
          (λ x h. ground arith) found (fresh_member clock t skew fresh g.unexpired) in
      rw (g.tokens) (omega (arith, members_cons clock.db t.family _ _, less))

  before_insert_bound :
      (family : ℕ) (grace : Bool)
      → members clock.db family (spent_tokens clock r t grace db)
        ≤ members clock.db family db.tokens
  before_insert_bound family true = omega arith
  before_insert_bound family false = marked_members family

  issued_members :
      (grace : Bool) (family : ℕ)
      → Granted clock r t grace db session db'
      → is_spent t ≡ grace
      → ((grace ≡ true) → family_healthy clock t db ≡ true)
      → members clock.db family db.tokens ≤ family_active_limit
      → members clock.db family db'.tokens ≤ family_active_limit
  issued_members grace family g spent healthy bound = elim (Bool-cases (t.family == family)) [
    | inl here ↦
        let same : t.family ≡ family = ground arith in
        elim (Bool-cases grace) [
          | inl yes_grace ↦ rw (sym same) (grace_members (rw yes_grace at g) (healthy yes_grace))
          | inr no_grace ↦
              let kept_at_most = spent_members (rw no_grace at g) (spent ∙ no_grace) in
              let bound' = rw (sym same) at bound in rw (sym same) (omega arith)
        ]
    | inr other ↦
        let apart =
          members_other clock.db family
            (token_row t.user t.device (record (r.replacement) { family = t.family }))
            (spent_tokens clock r t grace db) other in
        rw (g.tokens) (omega (arith, apart, bound, before_insert_bound family grace))
  ]

rotate_members :
    (clock : Clock) (r : Rotation) (db : Db) (family : ℕ)
    → clock.db ≤ clock.utc
    → members clock.db family db.tokens ≤ family_active_limit
    → members clock.db family (rotate_refresh_token_inner clock r db).1.tokens ≤ family_active_limit
rotate_members clock r db family skew bound = elim (rotate-RotationTokens clock r db) [
  | kept same ↦ rw same bound
  | revoked t tokens ↦ rw tokens (
      omega (
        arith,
        bound,
        members_revoked clock.db family (λ x. x.family == t.family) (revoke clock.db) db.tokens
            (λ x. ground arith),
      ))
  | issued t grace session db' found spent healthy g tokens ↦
      rw tokens
        (issued_members clock r db db' t session skew found grace family g spent healthy bound)
]

-- A login opens a family that no token has.
abbrev pub opens_new : SessionOp → Db → Bool
opens_new (login user device refresh request) db =
    not (any_by (λ t. t.family == refresh.family) db.tokens)
opens_new (rotate r) db = true
opens_new (logout user device request) db = true
opens_new (web_logout token_hash request) db = true
opens_new (access user device role) db = true

login_members :
    (now user device family : ℕ) (refresh : NewRefreshToken) (tokens : List RefreshToken)
    → any_by (λ t. t.family == refresh.family) tokens ≡ false
    → members now family tokens ≤ family_active_limit
    → members now family (token_row user device refresh ∷ tokens) ≤ family_active_limit
login_members now user device family refresh tokens unknown bound =
    elim (Bool-cases (refresh.family == family)) [
      | inl here ↦
          let same : refresh.family ≡ family = ground arith in
          let empty = count_by_none (is_active_member now refresh.family) tokens (
            any_by_narrower (λ t. t.family == refresh.family) (is_active_member now refresh.family)
              tokens (λ x h. ground arith) unknown) in
          let empty' = rw same at empty in
          omega (arith, members_cons now family (token_row user device refresh) tokens, empty')
      | inr other ↦ rw (members_other now family (token_row user device refresh) tokens other) bound
    ]

step_keeps_bound :
    (clock : Clock) (op : SessionOp) (db : Db) (family : ℕ)
    → clock.db ≤ clock.utc
    → opens_new op db ≡ true
    → members clock.db family db.tokens ≤ family_active_limit
    → members clock.db family (session_step clock op db).tokens ≤ family_active_limit
unfolding session_step
step_keeps_bound clock (login user device refresh request) db family skew unknown bound =
    elim (create_login_session_tokens clock user device refresh request db) [
      | inl same ↦ rw same bound
      | inr tokens ↦
          rw tokens
            (login_members clock.db user device family refresh db.tokens (ground arith) bound)
    ]
step_keeps_bound clock (rotate r) db family skew unknown bound =
    rotate_members clock r db family skew bound
step_keeps_bound clock (logout user device request) db family skew unknown bound =
    elim (logout_device_tokens clock user device request db) [
      | inl same ↦ rw same bound
      | inr tokens ↦ rw tokens (
          omega (
            arith,
            bound,
            members_revoked clock.db family _ (revoke clock.db) db.tokens (λ x. ground arith),
          ))
    ]
step_keeps_bound clock (web_logout token_hash request) db family skew unknown bound =
    elim (logout_device_by_refresh_token_tokens clock token_hash request db) [
      | inl same ↦ rw same bound
      | inr (user, device, tokens) ↦ rw tokens (
          omega (
            arith,
            bound,
            members_revoked clock.db family (is_live_device_token user device)
                (λ t. record t { revoked_at = some (clock.db) }) db.tokens (λ x. ground arith),
          ))
    ]
step_keeps_bound clock (access user device role) db family skew unknown bound =
    rw (validate_access_tokens clock user device role db) bound

-- Time takes members away and adds none.
members_later :
    (now later family : ℕ) (tokens : List RefreshToken)
    → now ≤ later
    → members later family tokens ≤ members now family tokens
members_later now later family tokens le =
    count_by_narrower (is_active_member now family) (is_active_member later family) tokens
      (λ x h. ground arith)

-- The clock of the database does not go back, and the process does not read an earlier one.
abbrev pub Timely : ℕ → ℕ → List (Clock × SessionOp) → Type 0
Timely later now [] = now ≤ later
Timely later now ((clock, op) ∷ ops) =
    (now ≤ clock.db) × (clock.db ≤ clock.utc) × Timely later clock.db ops

abbrev pub OpensNew : List (Clock × SessionOp) → Db → Type 0
OpensNew [] db = Unit
OpensNew ((clock, op) ∷ ops) db = (opens_new op db ≡ true) × OpensNew ops (session_step clock op db)

-- However logins, rotations, logouts and checks follow one another, a family never has more than
-- `REFRESH_FAMILY_ACTIVE_LIMIT` members that can be rotated, when it had no more at the start, the
-- clock of the database does not go back, no process clock is behind it, and each login brings a
-- new family.
pub session_run_members :
    (ops : List (Clock × SessionOp)) (now later family : ℕ) (db : Db)
    → Timely later now ops
    → OpensNew ops db
    → active_members now family db ≤ family_active_limit
    → active_members later family (session_run ops db) ≤ family_active_limit
unfolding active_members session_run
session_run_members [] now later family db timely new bound =
    omega (arith, bound, members_later now later family db.tokens timely)
session_run_members ((clock, op) ∷ ops) now later family db timely new bound =
    session_run_members ops clock.db later family (session_step clock op db) timely.2 new.1 (
      step_keeps_bound clock op db family timely.1 new.0
        (omega (arith, bound, members_later now clock.db family db.tokens timely.0)))
