-- ===== src/Sync/Bootstrap/Pages.antt =====
-- A device that follows the pages of a bootstrap manifest to the last.
use tasktips_cloud.Base.{
  ℕ, zero, suc, ◌+◌, ◌≤◌, ◌<◌, ◌≡◌, refl, ap, ◌∙◌, inl, inr, Bool-cases, true, false, some, List,
  ◌∷◌, ◌++◌, ◌==◌, arith, ltb, length, if◌then◌else◌, find_by, any_by, update_where, pos, below,
  any_by-update_where_same,
}
use tasktips_cloud.Json.{Json}
use tasktips_cloud.Store.Errors.{Result, ok, err}
use tasktips_cloud.Store.Schema.{Db, Bootstrap}
use tasktips_cloud.Sync.Push.{project_state}
use tasktips_cloud.Sync.Pull.{SyncRecord, Puller, take}
use tasktips_cloud.Sync.Bootstrap.Slices.{take-skip, take-take, take_all, skip-skip, length-skip}
use tasktips_cloud.Sync.Records.{records_of_json}
use tasktips_cloud.Sync.Bootstrap.{
  BootstrapPage, BootstrapFormat, skip, fetched, has_next, cut, is_completed, is_device_of,
  complete_bootstrap, complete_last,
}
use tasktips_cloud.Sync.Bootstrap.Manifests.{
  is_live_manifest, stored_items, read_manifest_page, bootstrap_manifest_page,
}

pub data Download : Type 0 where
  spent : Download
  refused : Download
  whole : List SyncRecord → Download

abbrev pub prepend : List SyncRecord → Download × Db → Download × Db
prepend rs (whole rest, db) = (whole (rs ++ rest), db)
prepend rs (spent, db) = (spent, db)
prepend rs (refused, db) = (refused, db)

abbrev pub follow : (Db → Download × Db) → Result BootstrapPage × Db → Download × Db
follow next (err why, db) = (refused, db)
follow next (ok page, db) =
    if page.has_more then prepend page.records (next db) else (whole page.records, db)

-- Each page is asked for at a time of its own, where the one before it ended.
unfoldable pub download : BootstrapFormat → (ℕ → Puller) → ℕ → ℕ → ℕ → ℕ → Db → Download × Db
download fmt by id limit zero offset db = (spent, db)
download fmt by id limit (suc fuel) offset db =
    follow (download fmt by id limit fuel (offset + limit))
      (bootstrap_manifest_page fmt (by offset) id (pos offset) limit db)

-- The completion is there afterwards, with which the device may push.
module _ (by : Puller) (generation sequence : ℕ) where
  abbrev Completes : Db → Type 0
  Completes db =
      (db' : Db) × (complete_bootstrap by generation sequence db ≡ ok db')
      × (any_by (is_completed by generation) db'.completions ≡ true)

  complete_bootstrap-Completes :
      (db : Db) → any_by (is_device_of by) db.devices ≡ true → Completes db
  unfolding complete_bootstrap any_by
  complete_bootstrap-Completes db known =
      elim (Bool-cases (any_by (is_completed by generation) db.completions)) [
        | inl again ↦ (
          record db {
            completions =
                update_where (is_completed by generation)
                  (λ c. record c { change_sequence = sequence }) db.completions;
          },
          rw again refl,
          any_by-update_where_same (is_completed by generation) (is_completed by generation)
                (λ c. record c { change_sequence = sequence }) db.completions (λ c. refl)
              ∙ again,
        )
        | inr first ↦ (
          record db {
            completions =
                record {
                  project = by.project;
                  owner = by.user;
                  device = by.device;
                  generation = generation;
                  change_sequence = sequence;
                }
                ∷ db.completions;
          },
          rw (first, known) refl,
          ground arith,
        )
      ]

-- The state in which the pages of a stored manifest can be read.
pub record Readable (fmt : BootstrapFormat) (by : Puller) (id generation sequence : ℕ)
    (records : List SyncRecord) (db : Db) : Type 0 where
  pub manifest : Bootstrap
  pub stored : Json
  pub current : ℕ
  pub found : find_by (is_live_manifest by id) db.bootstraps ≡ some manifest
  pub in_generation : manifest.generation ≡ generation
  pub at_sequence : manifest.change_sequence ≡ sequence
  pub has_items : stored_items manifest.manifest ≡ ok stored
  pub reads : records_of_json fmt.instant stored ≡ ok records
  pub state : project_state by.user by.project db ≡ ok (generation, current)
  pub within : sequence ≤ current

abbrev pub page_at : ℕ → ℕ → ℕ → ℕ → ℕ → List SyncRecord → BootstrapPage
page_at id generation sequence offset limit records = record {
  manifest_id = id;
  generation = generation;
  snapshot_sequence = sequence;
  records = cut limit (fetched offset limit records);
  has_more = has_next limit (fetched offset limit records);
}

module _ (fmt : BootstrapFormat) (by : Puller) (id generation sequence : ℕ)
    (records : List SyncRecord) (offset limit : ℕ) (db db' : Db)
    (ready : Readable fmt by id generation sequence records db) where
  page_read :
      complete_last by generation sequence (has_next limit (fetched offset limit records)) db
        ≡ ok db'
      → bootstrap_manifest_page fmt by id (pos offset) limit db
        ≡ (ok (page_at id generation sequence offset limit records), db')
  unfolding bootstrap_manifest_page read_manifest_page complete_bootstrap
  page_read last =
      let same : (generation == generation) ≡ true = ground arith in
      let positive : below (pos offset) 0 ≡ false = ground arith in
      let within : ltb ready.current sequence ≡ false = ground (arith, ready.within) in
      rw
        (
          ready.state, ready.found, ready.has_items, ready.in_generation, ready.at_sequence, same,
          within, positive, ready.reads, last,
        )
        refl

abbrev pub at_time : Puller → ℕ → Puller
at_time who t = record who { now = t }

-- Following the pages of a manifest from an offset on.
module _ (fmt : BootstrapFormat) (who : Puller) (times : ℕ → ℕ) (id generation sequence : ℕ)
    (records : List SyncRecord) (limit : ℕ) (some_room : 0 < limit) (db : Db)
    (ready : (k : ℕ) → Readable fmt (at_time who (times k)) id generation sequence records db)
    (known : any_by (is_device_of who) db.devices ≡ true) where
  abbrev Ends : ℕ → Download × Db → Type 0
  Ends offset (result, db') =
      (result ≡ whole (skip offset records))
      × (any_by (is_completed who generation) db'.completions ≡ true)

  prepend-Ends :
      (offset : ℕ) (r : Download × Db)
      → Ends (offset + limit) r
      → Ends offset (prepend (take limit (fetched offset limit records)) r)
  unfolding fetched
  prepend-Ends offset (whole rest, db') e =
      let xs = skip offset records in
      let follows : rest ≡ skip (offset + limit) records = cc (e.0) in
      (
        ap whole (
            ap (λ ys. ys ++ rest) (take-take limit xs)
            ∙ ap (λ ys. take limit xs ++ ys) (follows ∙ skip-skip offset limit records)
            ∙ take-skip limit xs),
        e.1,
      )
  prepend-Ends offset (spent, db') e = absurd (cc (e.0))
  prepend-Ends offset (refused, db') e = absurd (cc (e.0))

  shorter :
      (fuel offset : ℕ)
      → has_next limit (fetched offset limit records) ≡ true
      → length (skip offset records) < suc fuel
      → length (skip (offset + limit) records) < fuel
  unfolding fetched
  shorter fuel offset more enough =
      let less = length-skip limit (skip offset records) more in
      rw (skip-skip offset limit records) (omega (arith, less, enough, some_room))

  last_whole :
      (offset : ℕ)
      → has_next limit (fetched offset limit records) ≡ false
      → whole (fetched offset limit records) ≡ whole (skip offset records)
  unfolding fetched
  last_whole offset last = ap whole (take_all limit (skip offset records) last)

  pub download-Ends :
      (fuel offset : ℕ)
      → length (skip offset records) < fuel
      → Ends offset (download fmt (λ k. at_time who (times k)) id limit fuel offset db)
  unfolding download complete_bootstrap
  download-Ends zero offset enough = absurd (omega (arith, enough))
  download-Ends (suc fuel) offset enough =
      elim (Bool-cases (has_next limit (fetched offset limit records))) [
        | inl more ↦
            let page =
              page_read fmt (at_time who (times offset)) id generation sequence records offset limit
                db db (ready offset) (rw more refl) in
            rw (page, more)
              (prepend-Ends offset _
                (download-Ends fuel (offset + limit) (shorter fuel offset more enough)))
        | inr last ↦
            let (db', wrote, completed) =
              complete_bootstrap-Completes who generation sequence db known in
            let page =
              page_read fmt (at_time who (times offset)) id generation sequence records offset limit
                db db' (ready offset) (rw last wrote) in
            rw (page, last) (last_whole offset last, completed)
      ]
