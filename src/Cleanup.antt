-- ===== src/Cleanup.antt =====
-- `cleanup_orphans` of crates/worker/src/main.rs with the two listings of
-- crates/object-store/src/lib.rs that it uses. The bucket is the list of its objects; the client of
-- the object store deletes a key or fails.
pub mod Backed
pub mod Stops
pub mod Refused
use tasktips_cloud.Base.{
  ℕ, ◌+◌, Bool, true, false, not, ◌&&◌, ◌||◌, String, Option, none, some, List, [], ◌∷◌, ltb,
  str_eq, code_points, has_prefix, if◌then◌else◌, any_by, delete_where,
}
use tasktips_cloud.Store.Errors.{Result, ok, err}
use tasktips_cloud.Store.Schema.{Db}
use tasktips_cloud.ObjectKeys.{UuidFormat, parse_payload_key}
use tasktips_cloud.Catalog.{
  unreferenced_payload_key, payload_is_referenced, delete_payload_row, unreferenced_payload_keys,
  expire_pending_snapshots, purge_expired_idempotency_records, expire_bootstrap_manifests,
  expire_account_purge_exports, referenced_payload_keys,
}

pub record Object : Type 0 where
  pub key : String
  pub last_modified : ℕ

-- The clock of the database, the cutoff, the snapshots that are older than it, the order of texts,
-- the crate uuid, and the deletions that the object store performs.
pub record Cleaner : Type 0 where
  pub now : ℕ
  pub cutoff : ℕ
  pub is_old : ℕ → Bool
  pub le : String → String → Bool
  pub uuid : UuidFormat
  pub deletes : String → Bool

abbrev pub has_key : String → Object → Bool
has_key key o = str_eq o.key key

unfoldable pub delete_key : Cleaner → String → List Object → Bool × List Object
delete_key w key objects =
    if w.deletes key then (true, delete_where (has_key key) objects) else (false, objects)

abbrev pub and_then : (List Object → Bool × List Object) → Bool × List Object → Bool × List Object
and_then next (true, objects) = next objects
and_then next (false, objects) = (false, objects)

-- `for key in keys { object_store.delete_key(&key).await?; }`
unfoldable pub delete_all : Cleaner → List String → List Object → Bool × List Object
unfolding delete_key
delete_all w [] objects = (true, objects)
delete_all w (k ∷ ks) objects = and_then (delete_all w ks) (delete_key w k objects)

abbrev pub forget_row : ℕ → String → Db → Bool × List Object → Bool × Db × List Object
forget_row project hash db (true, objects) = (true, delete_payload_row project hash db, objects)
forget_row project hash db (false, objects) = (false, db, objects)

abbrev pub prune_key :
    Cleaner → ℕ → String → Db → List Object → Result (Option String) → Bool × Db × List Object
prune_key w project hash db objects (err why) = (false, db, objects)
prune_key w project hash db objects (ok none) = (true, db, objects)
prune_key w project hash db objects (ok (some key)) =
    forget_row project hash db (delete_key w key objects)

-- The body of the loop over the candidates, under the lock on the project and the hash.
unfoldable pub prune_candidate : Cleaner → ℕ → String → Db → List Object → Bool × Db × List Object
unfolding unreferenced_payload_key delete_payload_row delete_key
prune_candidate w project hash db objects =
    prune_key w project hash db objects (unreferenced_payload_key project hash w.cutoff db)

abbrev pub goes_on_with :
    (Db → List Object → Bool × Db × List Object) → Bool × Db × List Object → Bool × Db × List Object
goes_on_with next (true, db, objects) = next db objects
goes_on_with next (false, db, objects) = (false, db, objects)

unfoldable pub prune_candidates :
    Cleaner → List (ℕ × String) → Db → List Object → Bool × Db × List Object
unfolding prune_candidate
prune_candidates w [] db objects = (true, db, objects)
prune_candidates w ((project, hash) ∷ rest) db objects =
    goes_on_with (prune_candidates w rest) (prune_candidate w project hash db objects)

abbrev pub clean_parsed :
    Cleaner → String → Db → List Object → Option (ℕ × ℕ × String) → Bool × List Object
clean_parsed w key db objects none = (true, objects)
clean_parsed w key db objects (some (owner, project, hash)) =
    if payload_is_referenced project hash db then (true, objects) else delete_key w key objects

-- The body of the loop over the stale keys, under the lock on what the key names.
unfoldable pub clean_stale_key : Cleaner → String → Db → List Object → Bool × List Object
unfolding payload_is_referenced delete_key
clean_stale_key w key db objects = clean_parsed w key db objects (parse_payload_key w.uuid key)

unfoldable pub clean_stale_keys : Cleaner → List String → Db → List Object → Bool × List Object
unfolding clean_stale_key
clean_stale_keys w [] db objects = (true, objects)
clean_stale_keys w (k ∷ ks) db objects =
    and_then (clean_stale_keys w ks db) (clean_stale_key w k db objects)

unfoldable pub within_codes : List ℕ → List ℕ → Bool
within_codes [] part = has_prefix [] part
within_codes (c ∷ s) part = has_prefix (c ∷ s) part || within_codes s part

-- `str::contains`
abbrev pub contains : String → String → Bool
contains s part = within_codes (code_points s) (code_points part)

-- `prefix("users/")`
abbrev pub is_listed : Object → Bool
is_listed o = has_prefix (code_points o.key) (code_points "users/")

-- `stale_payload_keys`, with the pages of the listing one after the other.
abbrev pub is_stale_object : ℕ → List String → Object → Bool
is_stale_object cutoff referenced o =
    is_listed o
    && contains o.key "/payloads/sha256/"
    && ltb o.last_modified cutoff
    && not (any_by (str_eq o.key) referenced)

unfoldable pub stale_payload_keys : ℕ → List String → List Object → List String
stale_payload_keys cutoff referenced [] = []
stale_payload_keys cutoff referenced (o ∷ os) =
    let rest = stale_payload_keys cutoff referenced os in
    if is_stale_object cutoff referenced o then o.key ∷ rest else rest

abbrev pub is_orphan : ℕ → List String → Object → Bool
is_orphan cutoff referenced o =
    is_listed o
    && (contains o.key "/uploads/" || contains o.key "/snapshots/" || contains o.key "/bootstrap/")
    && ltb o.last_modified cutoff
    && not (any_by (str_eq o.key) referenced)

unfoldable pub orphan_keys : ℕ → List String → List Object → List String
orphan_keys cutoff referenced [] = []
orphan_keys cutoff referenced (o ∷ os) =
    let rest = orphan_keys cutoff referenced os in
    if is_orphan cutoff referenced o then o.key ∷ rest else rest

-- The objects are deleted as the listing goes on.
unfoldable pub delete_orphans : Cleaner → List String → List Object → Bool × List Object
unfolding orphan_keys delete_all
delete_orphans w referenced objects = delete_all w (orphan_keys w.cutoff referenced objects) objects

-- From the stale payload objects on.
abbrev pub clean_objects : Cleaner → Bool × Db × List Object → Bool × Db × List Object
clean_objects w (false, db, objects) = (false, db, objects)
clean_objects w (true, db, objects) = with_db db (
    and_then (delete_orphans w (referenced_payload_keys w.now db)) (
      clean_stale_keys w (stale_payload_keys w.cutoff (referenced_payload_keys w.now db) objects) db
        objects))
  where
    with_db : Db → Bool × List Object → Bool × Db × List Object
    with_db d (done, os) = (done, d, os)

-- From the candidates on, behind the expired idempotency records.
abbrev pub clean_catalog : Cleaner → Db → Bool × List Object → Bool × Db × List Object
clean_catalog w db (false, objects) = (false, db, objects)
clean_catalog w db (true, objects) =
    let (deleted, db₁) = purge_expired_idempotency_records w.le w.now 1000 db in
    clean_objects w (prune_candidates w (unreferenced_payload_keys w.cutoff db₁) db₁ objects)

abbrev pub clean_exports :
    Cleaner → Bool × List Object → Result (List String) × Db → Bool × Db × List Object
clean_exports w (false, objects) (r, db) = (false, db, objects)
clean_exports w (true, objects) (err why, db) = (false, db, objects)
clean_exports w (true, objects) (ok keys, db) = clean_catalog w db (delete_all w keys objects)

abbrev pub clean_bootstraps : Cleaner → Bool × List Object → Db → Bool × Db × List Object
clean_bootstraps w (false, objects) db = (false, db, objects)
clean_bootstraps w (true, objects) db =
    let (keys, db₁) = expire_bootstrap_manifests w.now 1000 db in
    let deleted = delete_all w keys objects in
    if deleted.0
    then clean_exports w deleted (expire_account_purge_exports w.now 1000 db₁)
    else (false, db₁, deleted.1)

unfoldable pub cleanup_orphans : Cleaner → Db → List Object → Bool × Db × List Object
unfolding delete_all prune_candidates clean_stale_keys stale_payload_keys delete_orphans
    expire_pending_snapshots expire_bootstrap_manifests expire_account_purge_exports
    purge_expired_idempotency_records unreferenced_payload_keys referenced_payload_keys
cleanup_orphans w db objects =
    let (keys, db₁) = expire_pending_snapshots w.is_old db in
    clean_bootstraps w (delete_all w keys objects) db₁
