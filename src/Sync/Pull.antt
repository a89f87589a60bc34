-- ===== src/Sync/Pull.antt =====
-- `pull_page` of crates/persistence/src/lib.rs: the entries of a project's log after a sequence, a page
-- at a time.
pub mod Order
pub mod Pages
use tasktips_cloud.Base.{
  ℕ, ◌+◌, zero, suc, Bool, true, false, not, ◌&&◌, ◌||◌, String, Option, none, some, List, [], ◌∷◌,
  ◌==◌, ltb, leb, length, if◌then◌else◌, find_by, update_where, ℤ, below, above, to_natural,
}
use tasktips_cloud.Domain.{kind_str}
use tasktips_cloud.Store.Errors.{not_found, generation_mismatch, Result, ok, err, ◌>>=◌}
use tasktips_cloud.Store.Schema.{Db, Revision, Change, Device}
use tasktips_cloud.Store.Transaction.{commit_ok}
use tasktips_cloud.Sync.Push.{project_state}

pub record SyncRecord : Type 0 where
  pub kind : String
  pub id : String
  pub schema_version : Option ℕ
  pub revision : ℕ
  pub base_revision : Option ℕ
  pub content_hash : Option String
  pub changed_at : ℕ
  pub device : ℕ
  pub tombstone : Bool
  pub change_sequence : ℕ

pub record PullPage : Type 0 where
  pub generation : ℕ
  pub records : List SyncRecord
  pub has_more : Bool
  pub next_sequence : ℕ

abbrev pub sync_record : Revision → Change → SyncRecord
sync_record r c = record {
  kind = kind_str r.kind;
  id = r.object_id;
  schema_version = r.schema_version;
  revision = r.revision;
  base_revision = r.base_revision;
  content_hash = r.content_hash;
  changed_at = r.changed_at;
  device = r.device;
  tombstone = r.tombstone;
  change_sequence = c.sequence;
}

abbrev pub add_record : Change → Option Revision → List SyncRecord → List SyncRecord
add_record c none records = records
add_record c (some r) records = sync_record r c ∷ records

-- The join of the log with the revisions, `WHERE c.project_id = $1 AND c.sequence > $2`.
unfoldable pub log_records : ℕ → ℕ → List Revision → List Change → List SyncRecord
log_records project after revisions [] = []
log_records project after revisions (c ∷ cs) =
    let rest = log_records project after revisions cs in
    if c.project == project && ltb after c.sequence
    then add_record c (find_by (λ r. r.id == c.revision_id) revisions) rest
    else rest

-- `ORDER BY c.sequence`
unfoldable pub insert_record : SyncRecord → List SyncRecord → List SyncRecord
insert_record x [] = x ∷ []
insert_record x (y ∷ ys) =
    let rest = insert_record x ys in
    if leb x.change_sequence y.change_sequence then x ∷ y ∷ ys else y ∷ rest

unfoldable pub order_records : List SyncRecord → List SyncRecord
unfolding insert_record
order_records [] = []
order_records (x ∷ xs) = insert_record x (order_records xs)

-- `LIMIT`
unfoldable pub take {ℓ} : {A : Type ℓ} → ℕ → List A → List A
take zero xs = []
take (suc n) [] = []
take (suc n) (x ∷ xs) = x ∷ take n xs

-- `Vec::pop`
unfoldable pub pop {ℓ} : {A : Type ℓ} → List A → List A
pop [] = []
pop (x ∷ []) = []
pop (x ∷ y ∷ ys) = x ∷ pop (y ∷ ys)

-- The sequence of the last record.
unfoldable pub last_sequence : ℕ → List SyncRecord → ℕ
last_sequence after [] = after
last_sequence after (x ∷ xs) = last_sequence x.change_sequence xs

unfoldable pub page_of : ℕ → ℕ → ℕ → List SyncRecord → PullPage
unfolding take pop last_sequence
page_of generation after limit all =
    let fetched = take (suc limit) all in
    let has_more = ltb limit (length fetched) in
    let records = if has_more then pop fetched else fetched in
    record {
      generation = generation;
      records = records;
      has_more = has_more;
      next_sequence = last_sequence after records;
    }

abbrev pub ensure_generation : ℕ → ℕ → Result (Unit {0})
ensure_generation expected actual =
    if expected == actual then ok tt else err (generation_mismatch expected actual)

abbrev pub ensure_sequence : ℤ → ℕ → Result (Unit {0})
ensure_sequence after current =
    if below after 0 || above after current then err not_found else ok tt

-- Who pulls: the user, the device, the project, and the instant of the transaction.
pub record Puller : Type 0 where
  pub user : ℕ
  pub device : ℕ
  pub project : ℕ
  pub now : ℕ

abbrev pub pulled : ℕ → ℕ → Db → Db
pulled now device db = record db {
  devices =
      update_where (λ d. d.id == device) (λ d. record d { last_pull_at = some now }) db.devices;
}

unfoldable pub read_page : Puller → ℕ → ℤ → ℕ → Db → Result (PullPage × Db)
unfolding page_of order_records log_records
read_page by expected after limit db = do
  (generation, current) ← project_state by.user by.project db
  same ← ensure_generation expected generation
  reached ← ensure_sequence after current
  ok (
    page_of generation (to_natural after) limit
        (order_records (log_records by.project (to_natural after) db.revisions db.changes)),
    pulled by.now by.device db,
  )

unfoldable pub pull_page : Puller → ℕ → ℤ → ℕ → Db → Result PullPage × Db
unfolding read_page
pull_page by expected after limit db = commit_ok db (read_page by expected after limit db)
