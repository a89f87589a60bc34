-- ===== src/Sync/Bootstrap/Agree.antt =====
-- The two ways to read a page of the bootstrap.
use tasktips_cloud.Base.{
  ℕ, ◌≡◌, refl, sym, ap, ◌∙◌, inl, inr, Bool-cases, true, false, some, List, ◌==◌, arith, suc, ltb,
  pos, below,
}
use tasktips_cloud.Store.Errors.{Result, ok, err, ◌>>=◌}
use tasktips_cloud.Store.Schema.{Db}
use tasktips_cloud.Store.Transaction.{commit_ok}
use tasktips_cloud.Sync.Pull.{SyncRecord, Puller, take}
use tasktips_cloud.Sync.Pull.Pages.{pop-take, take_all as take_short}
use tasktips_cloud.Sync.Bootstrap.{
  BootstrapPage, BootstrapFormat, records_at, skip, fetched, has_next, popped, cut,
  complete_bootstrap, complete_last, read_bootstrap, bootstrap_page,
}
use tasktips_cloud.Sync.Bootstrap.Manifests.{bootstrap_manifest_page, read_manifest_page}
use tasktips_cloud.Sync.Bootstrap.Slices.{take-take, take_all}
use tasktips_cloud.Sync.Bootstrap.Pages.{page_at, Readable}

popped-cut :
    (offset limit : ℕ) (records : List SyncRecord)
    → popped limit (fetched offset limit records) ≡ cut limit (fetched offset limit records)
unfolding fetched
popped-cut offset limit records =
    let xs = skip offset records in
    pop-take limit xs ∙ elim (Bool-cases (has_next limit (take (suc limit) xs))) [
      | inl more ↦ rw more (sym (take-take limit xs))
      | inr last ↦ rw last (take_short limit xs last ∙ sym (take_all limit xs last))
    ]

-- The page without the identifier of its manifest.
abbrev pub unnamed : Result BootstrapPage × Db → Result BootstrapPage × Db
unnamed (err why, db) = (err why, db)
unnamed (ok page, db) = (ok (record page { manifest_id = 0 }), db)

unnamed_page :
    (db : Db) (completed : Result Db) (stored logged : BootstrapPage)
    → logged ≡ record stored { manifest_id = 0 }
    → commit_ok db (completed >>= λ db₁. ok (logged, db₁))
      ≡ unnamed (commit_ok db (completed >>= λ db₁. ok (stored, db₁)))
unnamed_page db (ok db₁) stored logged same = ap (λ page. (ok page, db₁)) same
unnamed_page db (err why) stored logged same = refl

-- Where a stored manifest has the objects of the log at its sequence, a page read from the log at
-- that sequence is the page of the manifest, but for the identifier, with the same error when the
-- completion cannot be recorded and the same state after it.
pub bootstrap_page-eq-manifest_page :
    (fmt : BootstrapFormat) (by : Puller) (id generation sequence offset limit : ℕ) (db : Db)
    → Readable fmt by id generation sequence (records_at fmt by.project sequence db) db
    → bootstrap_page fmt by (some generation) (some (pos sequence)) offset limit db
      ≡ unnamed (bootstrap_manifest_page fmt by id (pos offset) limit db)
unfolding bootstrap_page read_bootstrap bootstrap_manifest_page read_manifest_page
    complete_bootstrap
bootstrap_page-eq-manifest_page fmt by id generation sequence offset limit db ready =
    let same : (generation == generation) ≡ true = ground arith in
    let found = fetched offset limit (records_at fmt by.project sequence db) in
    let not_negative : below (pos sequence) 0 ≡ false = ground arith in
    let positive : below (pos offset) 0 ≡ false = ground arith in
    let within : ltb ready.current sequence ≡ false = ground (arith, ready.within) in
    rw
      (
        ready.state, ready.found, ready.has_items, ready.in_generation, ready.at_sequence, same,
        within, positive, not_negative, ready.reads,
      )
      (unnamed_page db (complete_last by generation sequence (has_next limit found) db)
        (page_at id generation sequence offset limit (records_at fmt by.project sequence db))
        (record (page_at 0 generation sequence offset limit
          (records_at fmt by.project sequence db)) { records = popped limit found })
        (ap
          (λ rs. record {
            manifest_id = 0;
            generation = generation;
            snapshot_sequence = sequence;
            records = rs;
            has_more = has_next limit found;
          })
          (popped-cut offset limit (records_at fmt by.project sequence db))))
