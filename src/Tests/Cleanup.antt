-- ===== src/Tests/Cleanup.antt =====
-- Runs of the cleanup, with UUIDs written in unary.
use tasktips_cloud.Base.{
  ◌≡◌, refl, true, false, String, List, [], ◌∷◌, str_eq, any_by, count_by, find_by, delete_where,
  All,
}
use tasktips_cloud.Store.Schema.{Db, Payload}
use tasktips_cloud.Catalog.{payload_is_referenced, purge_expired_idempotency_records}
use tasktips_cloud.ObjectKeys.{payload_key, parse_payload_key, split, parse_parts}
use tasktips_cloud.Cleanup.{
  Object, Cleaner, delete_key, clean_stale_key, clean_catalog, cleanup_orphans,
}
use tasktips_cloud.Cleanup.Backed.{IsKeyed, IsBacked, clean_stale_key-IsBacked}
use tasktips_cloud.Cleanup.Stops.{StopsEarly, cleanup_orphans-StopsEarly}
use tasktips_cloud.Cleanup.Refused.{clean_catalog_refused}
use tasktips_cloud.Tests.Keys.{format, hash}
use tasktips_cloud.Tests.Data.{start, note}

run : Unit {0}
unfolding payload_key parse_payload_key split parse_parts any_by count_by find_by delete_where
    payload_is_referenced delete_key clean_stale_key
run = tt

-- Two rows that no revision names: the note, stored under the key that the service gives it, and
-- one that is too young.
abbrev old : Payload
old = record note { content_hash = hash; key = payload_key format 1 3 hash }

abbrev young_hash : String
young_hash = "0123456789abcdef0123456789abcdef0123456789abcdef0123456789abcdef"

abbrev young : Payload
young = record note {
  id = 41;
  content_hash = young_hash;
  key = payload_key format 1 3 young_hash;
  created_at = 95;
}

abbrev catalog : Db
catalog = record start { payloads = old ∷ young ∷ [] }

abbrev lost_key : String
lost_key = payload_key format 1 4 hash

abbrev bucket : List Object
bucket =
    record { key = old.key; last_modified = 80 }
    ∷ record { key = young.key; last_modified = 95 }
    ∷ record { key = lost_key; last_modified = 70 }
    ∷ []

abbrev cleaner : Cleaner
cleaner = record {
  now = 100;
  cutoff = 90;
  is_old = λ n. true;
  le = str_eq;
  uuid = format;
  deletes = λ key. true;
}

catalog-IsKeyed : All (IsKeyed format) catalog.payloads
unfolding run
catalog-IsKeyed = (refl, (refl, tt))

bucket-IsBacked : IsBacked catalog.payloads bucket
unfolding run
bucket-IsBacked = (refl, (refl, tt))

-- The object of a project that is gone goes, the others stay.
stale_run :
    (clean_stale_key cleaner lost_key catalog bucket).1
    ≡ record { key = old.key; last_modified = 80 }
      ∷ record { key = young.key; last_modified = 95 }
      ∷ []
unfolding run
stale_run = refl

clean_stale_key-IsBacked_example :
    IsBacked catalog.payloads (clean_stale_key cleaner lost_key catalog bucket).1
unfolding run
clean_stale_key-IsBacked_example =
    clean_stale_key-IsBacked cleaner lost_key catalog bucket catalog-IsKeyed bucket-IsBacked

clean_catalog_refused_example :
    clean_catalog cleaner catalog (true, bucket)
    ≡ (false, (purge_expired_idempotency_records str_eq 100 1000 catalog).1, bucket)
unfolding run
clean_catalog_refused_example = clean_catalog_refused cleaner catalog bucket refl

cleanup_orphans-StopsEarly_example : StopsEarly catalog (cleanup_orphans cleaner catalog bucket)
cleanup_orphans-StopsEarly_example = cleanup_orphans-StopsEarly cleaner catalog bucket
