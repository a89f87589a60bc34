-- ===== src/Cleanup/Stops.antt =====
-- The cleanup never comes to the payloads.
use tasktips_cloud.Base.{◌≡◌, refl, inl, inr, Bool, Bool-cases, false, true, List}
use tasktips_cloud.Store.Errors.{PersistenceError, database, err}
use tasktips_cloud.Store.Schema.{Db}
use tasktips_cloud.Catalog.{
  expire_pending_snapshots, expire_bootstrap_manifests, expire_account_purge_exports,
}
use tasktips_cloud.Cleanup.{
  Object, Cleaner, delete_all, clean_bootstraps, clean_exports, cleanup_orphans,
}

-- What a run that fails has left alone.
pub record StopsEarly (db : Db) (run : Bool × Db × List Object) : Type 0 where
  pub fails : run.0 ≡ false
  pub payloads : run.1.payloads ≡ db.payloads
  pub idempotency : run.1.idempotency ≡ db.idempotency
  pub revisions : run.1.revisions ≡ db.revisions

failed_run :
    (db db₁ : Db) (objects : List Object)
    → db₁.payloads ≡ db.payloads
    → db₁.idempotency ≡ db.idempotency
    → db₁.revisions ≡ db.revisions
    → StopsEarly db (false, db₁, objects)
failed_run db db₁ objects p i r = record {
  fails = refl;
  payloads = p;
  idempotency = i;
  revisions = r;
}

exports-StopsEarly :
    (w : Cleaner) (db db₁ : Db) (why : PersistenceError) (p : Bool × List Object)
    → db₁.payloads ≡ db.payloads
    → db₁.idempotency ≡ db.idempotency
    → db₁.revisions ≡ db.revisions
    → StopsEarly db (clean_exports w p (err why, db₁))
exports-StopsEarly w db db₁ why (true, objects) = failed_run db db₁ objects
exports-StopsEarly w db db₁ why (false, objects) = failed_run db db₁ objects

bootstraps-StopsEarly :
    (w : Cleaner) (db db₁ : Db) (p : Bool × List Object)
    → db₁.payloads ≡ db.payloads
    → db₁.idempotency ≡ db.idempotency
    → db₁.revisions ≡ db.revisions
    → StopsEarly db (clean_bootstraps w p db₁)
unfolding expire_bootstrap_manifests expire_account_purge_exports
bootstraps-StopsEarly w db db₁ (false, objects) a b c = failed_run db db₁ objects a b c
bootstraps-StopsEarly w db db₁ (true, objects) a b c =
    let (keys, db₂) = expire_bootstrap_manifests w.now 1000 db₁ in
    let deleted = delete_all w keys objects in
    elim (Bool-cases deleted.0) [
      | inl done_ ↦ rw done_ (exports-StopsEarly w db db₂ database (true, deleted.1) a b c)
      | inr failed_ ↦ rw failed_ (failed_run db db₂ deleted.1 a b c)
    ]

-- Whatever the tables and the bucket hold, a run of the cleanup returns an error, with every payload
-- row and every idempotency record, expired or not, still in place.
pub cleanup_orphans-StopsEarly :
    (w : Cleaner) (db : Db) (objects : List Object) → StopsEarly db (cleanup_orphans w db objects)
unfolding cleanup_orphans expire_pending_snapshots expire_bootstrap_manifests
    expire_account_purge_exports
cleanup_orphans-StopsEarly w db objects =
    let (keys, db₁) = expire_pending_snapshots w.is_old db in
    bootstraps-StopsEarly w db db₁ (delete_all w keys objects) refl refl refl
