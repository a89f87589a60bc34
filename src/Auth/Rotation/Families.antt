-- ===== src/Auth/Rotation/Families.antt =====
-- What a rotation does to the members of a family, and what a refused one does.
use tasktips_cloud.Base.{
  ◌≡◌, refl, ap, ◌⊎◌, inl, inr, Bool, true, false, some, List, ◌==◌, arith, Bool-cases,
  Option-cases, find_by, update_where,
}
use tasktips_cloud.Store.Schema.{Db, RefreshToken}
use tasktips_cloud.Auth.Rows.{
  Clock, SessionRecord, insert_audit_nullable, revoke, revoke_family, commit_ok-cases,
}
use tasktips_cloud.Auth.Rotation.{
  Rotation, grant, refuse_reuse, family_healthy, is_spent, rotate_found, rotate_refresh_token_inner,
}
use tasktips_cloud.Auth.Rotation.Steps.{Granted, grant-Granted}

refuse_reuse_tokens :
    (clock : Clock) (r : Rotation) (t : RefreshToken) (db : Db)
    → ((refuse_reuse clock r t db).1.tokens ≡ db.tokens)
      ⊎ ((refuse_reuse clock r t db).1.tokens
          ≡ update_where (λ x. x.family == t.family) (revoke clock.db) db.tokens)
unfolding refuse_reuse insert_audit_nullable revoke_family
refuse_reuse_tokens clock r t db = ground arith

-- The three outcomes of a rotation.
pub data RotationTokens (clock : Clock) (r : Rotation) (db : Db) (after : List RefreshToken)
    : Type 0 where
  kept : after ≡ db.tokens → RotationTokens clock r db after
  revoked :
      (t : RefreshToken)
      → after ≡ update_where (λ x. x.family == t.family) (revoke clock.db) db.tokens
      → RotationTokens clock r db after
  issued :
      (t : RefreshToken) (grace : Bool) (session : SessionRecord) (db' : Db)
      → find_by (λ x. x.token_hash == r.old_hash) db.tokens ≡ some t
      → is_spent t ≡ grace
      → ((grace ≡ true) → family_healthy clock t db ≡ true)
      → Granted clock r t grace db session db'
      → after ≡ db'.tokens
      → RotationTokens clock r db after

rotate_found_tokens :
    (clock : Clock) (r : Rotation) (t : RefreshToken) (db : Db)
    → find_by (λ x. x.token_hash == r.old_hash) db.tokens ≡ some t
    → RotationTokens clock r db (rotate_found clock r db (some t)).1.tokens
rotate_found_tokens clock r t db found = elim (Bool-cases (is_spent t)) [
  | inl spent ↦ elim (Bool-cases (family_healthy clock t db)) [
    | inl healthy ↦
        rw (spent, healthy)
          (elim (commit_ok-cases db (grant clock r t true db)) [
            | inl same ↦ kept (ap (λ d. d.tokens) same)
            | inr (session, db', granted, same) ↦
                issued t true session db' found spent (λ _. healthy)
                  (grant-Granted clock r t true db session db' granted) (ap (λ d. d.tokens) same)
          ])
    | inr unhealthy ↦
        rw (spent, unhealthy)
          (elim (refuse_reuse_tokens clock r t db) [
            | inl same ↦ kept same
            | inr tokens ↦ revoked t tokens
          ])
  ]
  | inr fresh ↦ rw fresh (elim (commit_ok-cases db (grant clock r t false db)) [
    | inl same ↦ kept (ap (λ d. d.tokens) same)
    | inr (session, db', granted, same) ↦
        issued t false session db' found fresh (λ e. absurd (cc))
          (grant-Granted clock r t false db session db' granted) (ap (λ d. d.tokens) same)
  ])
]

pub rotate-RotationTokens :
    (clock : Clock) (r : Rotation) (db : Db)
    → RotationTokens clock r db (rotate_refresh_token_inner clock r db).1.tokens
unfolding rotate_refresh_token_inner
rotate-RotationTokens clock r db =
    elim (Option-cases (find_by (λ t. t.token_hash == r.old_hash) db.tokens)) [
      | inl missing ↦ rw missing (kept refl)
      | inr (t, found) ↦ rw found (rotate_found_tokens clock r t db found)
    ]
