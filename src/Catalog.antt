-- ===== src/Catalog.antt =====
-- The catalog of payloads in crates/persistence/src/lib.rs: the registration, the lock under which
-- one content hash of a project is changed, and the statements that the worker's cleanup runs.
pub mod Ordered
use tasktips_cloud.Base.{
  ℕ, Bool, true, false, not, ◌&&◌, ◌||◌, String, Option, none, some, List, [], ◌∷◌, ◌++◌, map, ◌==◌,
  leb, ltb, str_eq, length, if◌then◌else◌, find_by, any_by, delete_where, update_where,
}
use tasktips_cloud.Store.Errors.{database, Result, ok, err, ◌>>=◌}
use tasktips_cloud.Store.Schema.{
  Db, Payload, Revision, Idempotency, Bootstrap, Snapshot, SnapshotStatus,
}
use tasktips_cloud.Store.Transaction.{commit_ok, done}
use tasktips_cloud.Sync.Push.{project_state}
use tasktips_cloud.Sync.Pull.{take}
use tasktips_cloud.Restore.Worker.{is_pending}
use tasktips_cloud.Purge.Rows.{select_where}

pub record StoredPayload : Type 0 where
  pub content_hash : String
  pub key : String
  pub size : ℕ
  pub media_type : String

-- `ON CONFLICT (project_id, content_hash)`
abbrev pub is_content : ℕ → String → Payload → Bool
is_content project hash p = p.project == project && str_eq p.content_hash hash

abbrev pub payload_row : ℕ → ℕ → ℕ → ℕ → StoredPayload → Payload
payload_row id user project now p = record {
  id = id;
  project = project;
  owner = user;
  content_hash = p.content_hash;
  key = p.key;
  created_at = now;
  size = p.size;
  media_type = p.media_type;
}

-- `DO NOTHING`; `id` is the UUID that the database draws.
unfoldable pub insert_payload : Payload → Db → Result Db
insert_payload p db =
    if any_by (is_content p.project p.content_hash) db.payloads
    then ok db
    else if any_by (λ q. q.id == p.id) db.payloads
    then err database
    else ok (record db { payloads = p ∷ db.payloads })

unfoldable pub add_payload : ℕ → ℕ → ℕ → ℕ → StoredPayload → Db → Result Db
unfolding insert_payload
add_payload id user project now p db = do
  (generation, sequence) ← project_state user project db
  insert_payload (payload_row id user project now p) db

unfoldable pub register_payload : ℕ → ℕ → ℕ → ℕ → StoredPayload → Db → Result (Unit {0}) × Db
unfolding add_payload
register_payload id user project now p db =
    commit_ok db (done (add_payload id user project now p db))

abbrev pub refers : ℕ → Option ℕ → Bool
refers payload none = false
refers payload (some p) = p == payload

-- `EXISTS (SELECT 1 FROM object_revisions r WHERE r.payload_id = p.id)`
abbrev pub is_referenced : Db → Payload → Bool
is_referenced db p = any_by (λ (r : Revision). refers p.id r.payload) db.revisions

abbrev pub is_old_orphan : Db → ℕ → Payload → Bool
is_old_orphan db older_than p = ltb p.created_at older_than && not (is_referenced db p)

abbrev pub key_of : Option Payload → Option String
key_of none = none
key_of (some p) = some (p.key)

pub data Privilege : Type 0 where
  select : Privilege
  insert : Privilege
  update : Privilege
  delete : Privilege

-- `GRANT SELECT,DELETE ON TABLE public.payloads TO tasktips_worker`
abbrev pub worker_has : Privilege → Bool
worker_has select = true
worker_has insert = false
worker_has update = false
worker_has delete = true

-- PostgreSQL asks for both before it runs `SELECT … FOR UPDATE`.
abbrev pub can_lock : (Privilege → Bool) → Bool
can_lock has = has select && has update

-- The query runs as tasktips_worker.
unfoldable pub unreferenced_payload_key : ℕ → String → ℕ → Db → Result (Option String)
unreferenced_payload_key project hash older_than db =
    if can_lock worker_has
    then ok (
        key_of
          (find_by (λ p. is_content project hash p && is_old_orphan db older_than p) db.payloads))
    else err database

unfoldable pub payload_is_referenced : ℕ → String → Db → Bool
payload_is_referenced project hash db = any_by (is_content project hash) db.payloads

unfoldable pub delete_payload_row : ℕ → String → Db → Db
delete_payload_row project hash db = record db {
  payloads = delete_where (λ p. is_content project hash p && not (is_referenced db p)) db.payloads;
}

-- `ORDER BY`, by insertion into a list that is in order.
module _ {ℓ} {A : Type ℓ} (before : A → A → Bool) where
  unfoldable pub insert_by : A → List A → List A
  insert_by x [] = x ∷ []
  insert_by x (y ∷ ys) = if before x y then x ∷ y ∷ ys else y ∷ insert_by x ys

  unfoldable pub order_by : List A → List A
  unfolding insert_by
  order_by [] = []
  order_by (x ∷ xs) = insert_by x (order_by xs)

-- `ORDER BY p.created_at, p.id`
abbrev pub older_payload : Payload → Payload → Bool
older_payload a b = ltb a.created_at b.created_at || a.created_at == b.created_at && leb a.id b.id

unfoldable pub unreferenced_payload_keys : ℕ → Db → List (ℕ × String)
unfolding order_by select_where
unreferenced_payload_keys older_than db =
    map (λ (p : Payload). (p.project, p.content_hash))
      (order_by older_payload (select_where (is_old_orphan db older_than) db.payloads))

-- The age of a snapshot is no column of the model: `is_old` says which snapshots are older than the
-- cutoff.
abbrev pub is_stale : (ℕ → Bool) → Snapshot → Bool
is_stale is_old s = is_pending s.status && is_old s.id

unfoldable pub expire_pending_snapshots : (ℕ → Bool) → Db → List String × Db
unfolding select_where
expire_pending_snapshots is_old db = (
  map (λ (s : Snapshot). s.key) (select_where (is_stale is_old) db.snapshots),
  record db {
    snapshots =
        update_where (is_stale is_old) (λ s. record s { status = SnapshotStatus.failed })
          db.snapshots;
  },
)

-- `limit.max(1)`
abbrev pub at_least_one : ℕ → ℕ
at_least_one limit = if limit == 0 then 1 else limit

-- The first rows of a table that have expired; `le` orders the keys as the database does.
abbrev pub earlier_record : (String → String → Bool) → Idempotency → Idempotency → Bool
earlier_record le a b =
    ltb a.expires_at b.expires_at || a.expires_at == b.expires_at && le a.request_key b.request_key

abbrev pub same_record : Idempotency → Idempotency → Bool
same_record a b =
    a.owner == b.owner
    && (a.device == b.device && (a.project == b.project && str_eq a.request_key b.request_key))

abbrev pub expired_records : (String → String → Bool) → ℕ → ℕ → Db → List Idempotency
expired_records le now limit db =
    take (at_least_one limit)
      (order_by (earlier_record le) (select_where (λ r. leb r.expires_at now) db.idempotency))

unfoldable pub purge_expired_idempotency_records : (String → String → Bool) → ℕ → ℕ → Db → ℕ × Db
unfolding order_by select_where
purge_expired_idempotency_records le now limit db =
    let expired = expired_records le now limit db in
    (
      length (select_where (λ r. any_by (same_record r) expired) db.idempotency),
      record db { idempotency = delete_where (λ r. any_by (same_record r) expired) db.idempotency },
    )

abbrev pub earlier_manifest : Bootstrap → Bootstrap → Bool
earlier_manifest a b =
    ltb a.expires_at b.expires_at || a.expires_at == b.expires_at && leb a.id b.id

unfoldable pub expire_bootstrap_manifests : ℕ → ℕ → Db → List String × Db
unfolding order_by select_where
expire_bootstrap_manifests now limit db =
    let expired =
      take (at_least_one limit)
        (order_by earlier_manifest (select_where (λ b. leb b.expires_at now) db.bootstraps)) in
    (
      map (λ (b : Bootstrap). b.key) expired,
      record db {
        bootstraps = delete_where (λ b. any_by (λ e. b.id == e.id) expired) db.bootstraps;
      },
    )

-- The line continuations of the literal leave no space in front of `WHERE` and `AND`, so the
-- statement is `… account_purge_exports eWHERE e.expires_at … CURRENT_TIMESTAMPAND …`, a syntax
-- error that the database returns whatever the tables hold.
unfoldable pub expire_account_purge_exports : ℕ → ℕ → Db → Result (List String) × Db
expire_account_purge_exports now limit db = (err database, db)

abbrev pub is_live_snapshot : Snapshot → Bool
is_live_snapshot s = live s.status
  where
    live : SnapshotStatus → Bool
    live SnapshotStatus.failed = false
    live _ = true

-- A set, here a list of which only the members count.
unfoldable pub referenced_payload_keys : ℕ → Db → List String
unfolding select_where
referenced_payload_keys now db =
    map (λ (p : Payload). p.key) db.payloads
    ++ map (λ (s : Snapshot). s.key) (select_where is_live_snapshot db.snapshots)
    ++ map (λ (b : Bootstrap). b.key) (select_where (λ b. ltb now b.expires_at) db.bootstraps)
