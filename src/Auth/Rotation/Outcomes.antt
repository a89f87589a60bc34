-- ===== src/Auth/Rotation/Outcomes.antt =====
-- What a rotation that succeeds has checked.
use tasktips_cloud.Base.{
  ◌≡◌, ◌⊎◌, inl, inr, true, false, some, ◌==◌, Bool-cases, Option-cases, find_by,
}
use tasktips_cloud.Store.Errors.{ok}
use tasktips_cloud.Store.Schema.{Db, RefreshToken}
use tasktips_cloud.Auth.Rows.{Clock, SessionRecord, commit_ok-eq-ok}
use tasktips_cloud.Auth.Rotation.{
  Rotation, refuse_reuse, family_healthy, is_spent, rotate_refresh_token_inner,
}
use tasktips_cloud.Auth.Rotation.Steps.{Granted, grant-Granted}

-- A rotation that succeeds has found the old token. The token has not expired, its account is active
-- and has the expected role, and its device is not revoked. The session is for that user and device
-- and in the same family, and the tokens are the new one in front of the old table, in which the old
-- one is spent unless the rotation was in the grace window. A spent token is rotated only when its
-- family is healthy.
pub rotate-eq-ok :
    (clock : Clock) (r : Rotation) (db db' : Db) (session : SessionRecord)
    → rotate_refresh_token_inner clock r db ≡ (ok session, db')
    → (t : RefreshToken) × (find_by (λ x. x.token_hash == r.old_hash) db.tokens ≡ some t)
      × ((is_spent t ≡ false) ⊎ (family_healthy clock t db ≡ true))
      × Granted clock r t (is_spent t) db session db'
unfolding rotate_refresh_token_inner refuse_reuse
rotate-eq-ok clock r db db' session e =
    elim (Option-cases (find_by (λ t. t.token_hash == r.old_hash) db.tokens)) [
      | inl missing ↦ absurd (cc (rw missing at e))
      | inr (t, found) ↦
          let e₁ = rw found at e in
          elim (Bool-cases (is_spent t)) [
            | inl spent ↦ elim (Bool-cases (family_healthy clock t db)) [
              | inl healthy ↦ (
                t,
                found,
                inr healthy,
                rw spent (
                    grant-Granted clock r t true db session db'
                      (commit_ok-eq-ok db db' _ session (rw (spent, healthy) at e₁))),
              )
              | inr unhealthy ↦ absurd (cc (rw (spent, unhealthy) at e₁))
            ]
            | inr fresh ↦ (
              t,
              found,
              inl fresh,
              rw fresh (
                  grant-Granted clock r t false db session db'
                    (commit_ok-eq-ok db db' _ session (rw fresh at e₁))),
            )
          ]
    ]
