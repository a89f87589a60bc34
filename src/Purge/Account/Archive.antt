-- ===== src/Purge/Account/Archive.antt =====
-- The export phase of `process_account_purge_job` in crates/worker/src/main.rs, with what
-- `prepare_account_export` reads for it. The manifest in the archive is not modelled: of it, and of
-- the archive, the sizes and the hash are parameters.
use tasktips_cloud.Base.{
  ℕ, ◌+◌, Bool, true, false, ◌&&◌, ◌||◌, String, Option, none, some, List, [], ◌∷◌, map, ◌==◌, leb,
  ltb, concat, if◌then◌else◌, find_by,
}
use tasktips_cloud.Store.Errors.{account_purge_not_ready, Result, ok, err, ◌>>=◌}
use tasktips_cloud.Store.Schema.{Db, Payload, Export, JobKind}
use tasktips_cloud.Purge.Jobs.{not_null, held_job, get, uuid_of, renew_account_purge_lease}
use tasktips_cloud.Purge.Rows.{select_where}
use tasktips_cloud.Purge.Requests.{is_export_pending}
use tasktips_cloud.Purge.Account.{complete_account_export}

-- `AccountExportData`; a payload is its object key and its path in the archive.
pub record AccountExport : Type 0 where
  pub export : ℕ
  pub owner : ℕ
  pub key : String
  pub payloads : List (String × String)

abbrev pub pending_export : Option Export → Result Export
pending_export none = err account_purge_not_ready
pending_export (some e) = ok e

abbrev pub is_exportable : ℕ → ℕ → ℕ → Export → Bool
is_exportable now export owner e =
    e.id == export && (e.user == owner && (is_export_pending e.status && ltb now e.expires_at))

-- `ORDER BY project_id, content_hash`; the database compares the hashes.
abbrev pub payload_before : (String → String → Bool) → Payload → Payload → Bool
payload_before le a b =
    ltb a.project b.project || a.project == b.project && le a.content_hash b.content_hash

unfoldable pub insert_payload_row : (String → String → Bool) → Payload → List Payload → List Payload
insert_payload_row le p [] = p ∷ []
insert_payload_row le p (q ∷ qs) =
    if payload_before le p q then p ∷ q ∷ qs else q ∷ insert_payload_row le p qs

unfoldable pub order_payloads : (String → String → Bool) → List Payload → List Payload
unfolding insert_payload_row
order_payloads le [] = []
order_payloads le (p ∷ ps) = insert_payload_row le p (order_payloads le ps)

-- What the worker and its surroundings bring: the text of a UUID, the order of the database, the
-- size in bytes of an object of the store where it can be read, and of the manifest, the
-- limit of the temporary directory, and the hash and size of the finished archive, if the disk takes
-- it and the store accepts it.
pub record Exporter : Type 0 where
  pub uuid_text : ℕ → String
  pub le : String → String → Bool
  pub object_size : String → Option ℕ
  pub manifest_size : ℕ
  pub max_temp_bytes : ℕ
  pub archive : ℕ → Option (String × ℕ)
  pub uploads : String → Bool

unfoldable pub prepare_account_export : Exporter → ℕ → ℕ → ℕ → Db → Result AccountExport
unfolding held_job get order_payloads select_where
prepare_account_export x now job lease db = do
  j ← held_job JobKind.account_purge now job lease db
  owner ← not_null j.owner
  export ← uuid_of (get "exportId" j.payload)
  e ← pending_export (find_by (is_exportable now export owner) db.exports)
  ok (record {
    export = export;
    owner = owner;
    key = e.key;
    payloads =
        map
          (λ (p : Payload).
            (p.key, concat ("payloads/" ∷ x.uuid_text p.project ∷ "/" ∷ p.content_hash ∷ [])))
          (order_payloads x.le (select_where (λ p. p.owner == owner) db.payloads));
  })

abbrev pub u64_max : ℕ
u64_max = 18446744073709551615

-- `checked_add`, and then the limit.
abbrev pub add_bytes : ℕ → ℕ → Option ℕ → Option ℕ
add_bytes limit total none = none
add_bytes limit total (some size) =
    if leb (total + size) u64_max && leb (total + size) limit then some (total + size) else none

abbrev pub downloaded : (ℕ → Db → Option ℕ × Db) → Option ℕ → Result (Unit {0}) × Db → Option ℕ × Db
downloaded next (some total) (ok renewed, db) = next total db
downloaded next none (ok renewed, db) = (none, db)
downloaded next total (err why, db) = (none, db)

-- The loop over the payloads: each renews the lease first; the result is the number of bytes on the
-- disk.
unfoldable pub download : Exporter → ℕ → ℕ → ℕ → List (String × String) → ℕ → Db → Option ℕ × Db
download x now job lease [] total db = (some total, db)
download x now job lease ((key, path) ∷ rest) total db =
    downloaded (download x now job lease rest)
      (add_bytes x.max_temp_bytes total (x.object_size key))
      (renew_account_purge_lease now job lease db)

-- The archive has its own share of the limit, and is then uploaded and recorded.
abbrev pub pack : Exporter → ℕ → ℕ → ℕ → AccountExport → ℕ → Option (String × ℕ) → Db → Bool × Db
pack x now job lease found total none db = (false, db)
pack x now job lease found total (some (hash, size)) db =
    if leb (total + size) u64_max && leb (total + size) x.max_temp_bytes && x.uploads found.key
    then completed (complete_account_export now job lease found.export hash size db)
    else (false, db)
  where
    completed : Result (Unit {0}) × Db → Bool × Db
    completed (ok done, db') = (true, db')
    completed (err why, db') = (false, db')
