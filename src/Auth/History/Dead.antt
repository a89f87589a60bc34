-- ===== src/Auth/History/Dead.antt =====
-- A family whose tokens are all revoked stays dead, whatever operations follow.
use tasktips_cloud.Base.{
  ℕ, ◌≡◌, inl, inr, Bool, true, false, ◌&&◌, some, List, [], ◌∷◌, ◌==◌, is_none, arith, Bool-cases,
  find_by, any_by, update_where, ==_refl, sym, ◌∙◌, any_by-update_where_outside,
  any_by-update_where_out, any_by_outside, any_by_narrower, count_by_none,
}
use tasktips_cloud.Store.Errors.{refresh_token_reuse, err}
use tasktips_cloud.Store.Schema.{Db, RefreshToken}
use tasktips_cloud.Auth.Rows.{
  Clock, SessionRecord, revoke, revoke_family, is_active_member, active_members,
  insert_audit_nullable,
}
use tasktips_cloud.Auth.Rotation.{
  Rotation, is_spent, family_healthy, mark_used, refuse_reuse, rotate_refresh_token_inner,
}
use tasktips_cloud.Auth.Rotation.Steps.{Granted}
use tasktips_cloud.Auth.Rotation.Families.{kept, revoked, issued, rotate-RotationTokens}
use tasktips_cloud.Auth.Sessions.Tokens.{
  create_login_session_tokens, logout_device_tokens, logout_device_by_refresh_token_tokens,
  validate_access_tokens,
}
use tasktips_cloud.Auth.History.{
  SessionOp, login, rotate, logout, web_logout, access, session_step, session_run, opens,
  NeverOpens,
}

abbrev pub is_unrevoked : ℕ → RefreshToken → Bool
is_unrevoked family t = t.family == family && is_none t.revoked_at

abbrev pub IsDead : ℕ → List RefreshToken → Type 0
IsDead family tokens = any_by (is_unrevoked family) tokens ≡ false

dead_active_members :
    (now family : ℕ) (db : Db) → IsDead family db.tokens → active_members now family db ≡ 0
unfolding active_members
dead_active_members now family db dead = count_by_none (is_active_member now family) db.tokens (
    any_by_narrower (is_unrevoked family) (is_active_member now family) db.tokens
      (λ x h. ground arith) dead)

dead_unhealthy :
    (clock : Clock) (t : RefreshToken) (db : Db)
    → IsDead t.family db.tokens
    → family_healthy clock t db ≡ false
unfolding family_healthy
dead_unhealthy clock t db dead = ground (arith, dead_active_members clock.db t.family db dead)

-- The found token of a dead family is spent.
dead_spent :
    (test : RefreshToken → Bool) (t : RefreshToken) (family : ℕ) (tokens : List RefreshToken)
    → find_by test tokens ≡ some t
    → (t.family == family) ≡ true
    → IsDead family tokens
    → is_spent t ≡ true
dead_spent test t family tokens found member dead =
    ground (arith, any_by_outside test (is_unrevoked family) tokens t found dead)

issued-IsDead :
    (clock : Clock) (r : Rotation) (db db' : Db) (t : RefreshToken) (grace : Bool)
    (session : SessionRecord) (family : ℕ)
    → Granted clock r t grace db session db'
    → (t.family == family) ≡ false
    → IsDead family db.tokens
    → IsDead family db'.tokens
unfolding mark_used any_by
issued-IsDead clock r db db' t grace session family g other dead =
    let marked =
      any_by-update_where_outside (λ x. x.token_hash == r.old_hash) (is_unrevoked family)
        (λ x. record x { used_at = some (clock.db); revoked_at = some (clock.db) }) db.tokens
        (λ x h. ground arith) dead in
    rw (g.tokens)
      (elim (Bool-cases grace) [ inl e ↦ rw (e, other, dead) | inr e ↦ rw (e, other, marked) ])

rotate-IsDead :
    (clock : Clock) (r : Rotation) (db : Db) (family : ℕ)
    → IsDead family db.tokens
    → IsDead family (rotate_refresh_token_inner clock r db).1.tokens
rotate-IsDead clock r db family dead = elim (rotate-RotationTokens clock r db) [
  | kept same ↦ rw same dead
  | revoked t tokens ↦ rw tokens (
      any_by-update_where_outside (λ x. x.family == t.family) (is_unrevoked family)
        (revoke clock.db) db.tokens (λ x h. ground arith) dead)
  | issued t grace session db' found spent healthy g tokens ↦
      rw tokens (elim (Bool-cases (t.family == family)) [
        | inl member ↦
            let same : t.family ≡ family = ground arith in
            let is_grace : grace ≡ true =
              sym spent ∙ dead_spent _ t family db.tokens found member dead in
            absurd (cc (healthy is_grace, dead_unhealthy clock t db (rw same dead)))
        | inr other ↦ issued-IsDead clock r db db' t grace session family g other dead
      ])
]

update_where-IsDead :
    (test : RefreshToken → Bool) (f : RefreshToken → RefreshToken) (family : ℕ)
    (tokens : List RefreshToken)
    → ((x : RefreshToken) → is_unrevoked family x ≡ false → is_unrevoked family (f x) ≡ false)
    → IsDead family tokens
    → IsDead family (update_where test f tokens)
update_where-IsDead test f family tokens keep dead =
    any_by-update_where_outside test (is_unrevoked family) f tokens keep dead

session_step-IsDead :
    (clock : Clock) (op : SessionOp) (db : Db) (family : ℕ)
    → opens family op ≡ false
    → IsDead family db.tokens
    → IsDead family (session_step clock op db).tokens
unfolding session_step any_by
session_step-IsDead clock (login user device refresh request) db family closed dead =
    elim (create_login_session_tokens clock user device refresh request db) [
      | inl same ↦ rw same dead
      | inr tokens ↦ rw tokens (rw (closed, dead))
    ]
session_step-IsDead clock (rotate r) db family closed dead = rotate-IsDead clock r db family dead
session_step-IsDead clock (logout user device request) db family closed dead =
    elim (logout_device_tokens clock user device request db) [
      | inl same ↦ rw same dead
      | inr tokens ↦
          rw tokens (update_where-IsDead _ (revoke clock.db) family _ (λ x h. ground arith) dead)
    ]
session_step-IsDead clock (web_logout token_hash request) db family closed dead =
    elim (logout_device_by_refresh_token_tokens clock token_hash request db) [
      | inl same ↦ rw same dead
      | inr (user, device, tokens) ↦
          rw tokens (update_where-IsDead _ _ family _ (λ x h. ground arith) dead)
    ]
session_step-IsDead clock (access user device role) db family closed dead =
    rw (validate_access_tokens clock user device role db) dead

session_run-IsDead :
    (ops : List (Clock × SessionOp)) (db : Db) (family : ℕ)
    → NeverOpens family ops
    → IsDead family db.tokens
    → IsDead family (session_run ops db).tokens
unfolding session_run
session_run-IsDead [] db family closed dead = dead
session_run-IsDead ((clock, op) ∷ ops) db family closed dead =
    session_run-IsDead ops (session_step clock op db) family closed.1
      (session_step-IsDead clock op db family closed.0 dead)

-- A member of a dead family is refused as reused.
dead-reuse :
    (clock : Clock) (r : Rotation) (db : Db) (t : RefreshToken)
    → find_by (λ x. x.token_hash == r.old_hash) db.tokens ≡ some t
    → IsDead t.family db.tokens
    → (rotate_refresh_token_inner clock r db).0 ≡ err refresh_token_reuse
unfolding rotate_refresh_token_inner refuse_reuse
dead-reuse clock r db t found dead = rw (
  found,
  dead_spent _ t t.family db.tokens found (==_refl t.family) dead,
  dead_unhealthy clock t db dead,
)

-- The refusal kills the family.
replay-IsDead :
    (clock : Clock) (r : Rotation) (db : Db) (t : RefreshToken)
    → find_by (λ x. x.token_hash == r.old_hash) db.tokens ≡ some t
    → is_spent t ≡ true
    → family_healthy clock t db ≡ false
    → any_by (λ u. u.id == t.user) db.users ≡ true
    → IsDead t.family (rotate_refresh_token_inner clock r db).1.tokens
unfolding rotate_refresh_token_inner refuse_reuse insert_audit_nullable revoke_family
replay-IsDead clock r db t found spent unhealthy user =
    rw (found, spent, unhealthy, user)
      (any_by-update_where_out (λ x. x.family == t.family) (is_unrevoked t.family) (revoke clock.db)
        db.tokens (λ x h. ground arith) (λ x. ground arith))

-- The replay of a spent token outside the grace window, or in a family that is not healthy, is
-- final, where the user of the token exists: after it, and after any operations that open no new
-- family under the same identifier, every token of the family is refused as reused.
pub replay_is_final :
    (clock later : Clock) (r again : Rotation) (db : Db) (t member : RefreshToken)
    (ops : List (Clock × SessionOp))
    → find_by (λ x. x.token_hash == r.old_hash) db.tokens ≡ some t
    → is_spent t ≡ true
    → family_healthy clock t db ≡ false
    → any_by (λ u. u.id == t.user) db.users ≡ true
    → NeverOpens t.family ops
    → find_by
        (λ x. x.token_hash == again.old_hash)
        (session_run ((clock, rotate r) ∷ ops) db).tokens
      ≡ some member
    → member.family ≡ t.family
    → (rotate_refresh_token_inner later again (session_run ((clock, rotate r) ∷ ops) db)).0
      ≡ err refresh_token_reuse
unfolding session_run session_step
replay_is_final clock later r again db t member ops found spent unhealthy user closed here same =
    dead-reuse later again (session_run ((clock, rotate r) ∷ ops) db) member here (
      rw same (
        session_run-IsDead ops (session_step clock (rotate r) db) t.family closed
          (replay-IsDead clock r db t found spent unhealthy user)))
