-- ===== src/Cleanup/Refused.antt =====
-- The pruning of the catalog, behind the statement that never succeeds.
use tasktips_cloud.Base.{
  ℕ, ◌≡◌, refl, ap, ◌∙◌, Bool, true, false, String, List, [], ◌∷◌, map, arith, any_by,
}
use tasktips_cloud.Store.Schema.{Db, Payload}
use tasktips_cloud.Purge.Rows.{select_where}
use tasktips_cloud.Catalog.{
  is_old_orphan, older_payload, order_by, unreferenced_payload_key, unreferenced_payload_keys,
  purge_expired_idempotency_records,
}
use tasktips_cloud.Catalog.Ordered.{any_by-order_by}
use tasktips_cloud.Cleanup.{
  Object, Cleaner, prune_candidate, prune_candidates, clean_objects, clean_catalog,
}

any_by-select_where_self {ℓ} :
    {A : Type ℓ} (test : A → Bool) (xs : List A)
    → any_by test (select_where test xs) ≡ any_by test xs
unfolding any_by select_where
any_by-select_where_self test [] = refl
any_by-select_where_self test (x ∷ xs) = ground (arith, any_by-select_where_self test xs)

first_of {ℓ} :
    {A : Type ℓ} (test : A → Bool) (xs : List A)
    → any_by test xs ≡ true
    → (x : A) × (rest : List A) × (xs ≡ x ∷ rest)
unfolding any_by
first_of test [] e = absurd (cc)
first_of test (x ∷ xs) e = (x, xs, refl)

-- An old payload without a revision is among the candidates.
some_candidate :
    (older_than : ℕ) (db : Db)
    → any_by (is_old_orphan db older_than) db.payloads ≡ true
    → (c : ℕ × String) × (rest : List (ℕ × String)) × (unreferenced_payload_keys older_than db
        ≡ c ∷ rest)
unfolding unreferenced_payload_keys
some_candidate older_than db e =
    let test = is_old_orphan db older_than in
    let (p, rest, first) = first_of test (order_by older_payload (select_where test db.payloads)) (
      any_by-order_by older_payload test (select_where test db.payloads)
      ∙ any_by-select_where_self test db.payloads
      ∙ e) in
    (
      (p.project, p.content_hash),
      map (λ (q : Payload). (q.project, q.content_hash)) rest,
      ap (map (λ (q : Payload). (q.project, q.content_hash))) first,
    )

-- The first candidate ends the loop.
prune_candidates_refused :
    (w : Cleaner) (c : ℕ × String) (rest : List (ℕ × String)) (db : Db) (objects : List Object)
    → prune_candidates w (c ∷ rest) db objects ≡ (false, db, objects)
unfolding prune_candidates prune_candidate unreferenced_payload_key
prune_candidates_refused w (project, hash) rest db objects = refl

-- As soon as one payload is older than the cutoff and without a revision, the part of the cleanup
-- behind the account exports fails: it has deleted expired idempotency records and nothing else, no
-- row of a payload and no object, although that payload is a candidate.
pub clean_catalog_refused :
    (w : Cleaner) (db : Db) (objects : List Object)
    → any_by (is_old_orphan db w.cutoff) db.payloads ≡ true
    → clean_catalog w db (true, objects)
      ≡ (false, (purge_expired_idempotency_records w.le w.now 1000 db).1, objects)
unfolding purge_expired_idempotency_records
clean_catalog_refused w db objects orphan =
    let db₁ = (purge_expired_idempotency_records w.le w.now 1000 db).1 in
    let (c, rest, listed) = some_candidate w.cutoff db₁ orphan in
    let stopped =
      ap (λ keys. prune_candidates w keys db₁ objects) listed
      ∙ prune_candidates_refused w c rest db₁ objects in
    ap (clean_objects w) stopped
