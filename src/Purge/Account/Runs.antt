-- ===== src/Purge/Account/Runs.antt =====
-- What `prepare_account_purge` has found and done where it returns Ok.
use tasktips_cloud.Base.{
  ℕ, ◌≡◌, sym, ap, ◌∙◌, ◌⊎◌, inl, inr, true, false, String, Option, some, none, List, ◌==◌, find_by,
  arith,
}
use tasktips_cloud.Store.Errors.{ok, steps_of_ok}
use tasktips_cloud.Store.Schema.{Db, User, JobKind, Job}
use tasktips_cloud.Store.Transaction.{commit_ok-eq-ok, ok_state, ok_value}
use tasktips_cloud.Json.{Json}
use tasktips_cloud.Purge.Jobs.{is_held, held_job, not_null, get, is_true, uuid_of}
use tasktips_cloud.Purge.Project.{set_payload}
use tasktips_cloud.Purge.Project.Runs.{StoredAgain, stored_or-eq-ok, held_job-eq-ok, not_null-eq-ok}
use tasktips_cloud.Purge.Account.{
  ensure_account_deleting, is_account_deleting, account_keys, delete_account, detached_account,
  detach_account, account_purge, prepare_account_purge,
}

pub record AccountDetached (payload : Json) (owner job lease : ℕ) (db : Db) (keys : List String)
    (db' : Db) : Type 0 where
  pub export : ℕ
  pub of_export : uuid_of (get "exportId" payload) ≡ ok export
  pub row : User
  pub found : find_by (λ u. u.id == owner) db.users ≡ some row
  pub deleting : is_account_deleting row.status ≡ true
  pub keys_are : keys ≡ account_keys owner export db
  pub state : db' ≡ set_payload job lease (detached_account export keys) (delete_account row db)

pub record AccountRun (now job lease : ℕ) (db : Db) (keys : List String) (db' : Db) : Type 0 where
  pub j : Job
  pub owner : ℕ
  pub held : find_by (is_held JobKind.account_purge now job lease) db.jobs ≡ some j
  pub owned : j.owner ≡ some owner
  pub outcome :
      StoredAgain j.payload db keys db'
      ⊎ (is_true (get "detached" j.payload) ≡ false)
        × AccountDetached j.payload owner job lease db keys db'

ensure_account_deleting-eq-ok :
    (o : Option User) (u : User)
    → ensure_account_deleting o ≡ ok u
    → (o ≡ some u) × (is_account_deleting u.status ≡ true)
ensure_account_deleting-eq-ok none u e = absurd (cc)
ensure_account_deleting-eq-ok (some v) u e = (ground arith, ground arith)

detach_account-AccountDetached :
    (payload : Json) (owner job lease : ℕ) (db : Db) (keys : List String) (db' : Db)
    → detach_account payload owner job lease db ≡ ok (keys, db')
    → AccountDetached payload owner job lease db keys db'
unfolding detach_account
detach_account-AccountDetached payload owner job lease db keys db' e =
    let (export, e₁, of_export) = steps_of_ok (uuid_of (get "exportId" payload)) _ e in
    let (u, e₂, deleting) =
      steps_of_ok (ensure_account_deleting (find_by (λ u. u.id == owner) db.users)) _ e₁ in
    let (found, is_) =
      ensure_account_deleting-eq-ok (find_by (λ u. u.id == owner) db.users) u deleting in
    let keys_are : account_keys owner export db ≡ keys = ok_value _ _ _ _ e₂ in
    record {
      export = export;
      of_export = of_export;
      row = u;
      found = found;
      deleting = is_;
      keys_are = sym keys_are;
      state =
          sym (ok_state _ _ _ _ e₂)
          ∙ ap (λ k. set_payload job lease (detached_account export k) (delete_account u db))
              keys_are;
    }

-- What a success has found: either the keys of an earlier run, or an account that is being deleted.
pub prepare_account_purge-AccountRun :
    (now job lease : ℕ) (db : Db) (keys : List String) (db' : Db)
    → prepare_account_purge now job lease db ≡ (ok keys, db')
    → AccountRun now job lease db keys db'
unfolding prepare_account_purge account_purge
prepare_account_purge-AccountRun now job lease db keys db' e =
    let e₀ = commit_ok-eq-ok db db' (account_purge now job lease db) keys e in
    let (j, e₁, held) = steps_of_ok (held_job JobKind.account_purge now job lease db) _ e₀ in
    let (owner, e₂, owned) = steps_of_ok (not_null j.owner) _ e₁ in
    let outcome =
      stored_or-eq-ok j.payload db (detach_account j.payload owner job lease db) keys db' e₂ in
    record {
      j = j;
      owner = owner;
      held = held_job-eq-ok JobKind.account_purge now job lease db j held;
      owned = not_null-eq-ok j.owner owner owned;
      outcome = elim outcome [
        | inl again ↦ inl again
        | inr (fresh, detached) ↦
            inr
              (fresh, detach_account-AccountDetached j.payload owner job lease db keys db' detached)
      ];
    }
