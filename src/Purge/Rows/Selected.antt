-- ===== src/Purge/Rows/Selected.antt =====
-- The rows that a deletion leaves, and the keys of those that it takes.
use tasktips_cloud.Base.{
  ℕ, ◌≡◌, refl, ap, ◌∙◌, inl, inr, Bool, Bool-cases, false, true, String, List, [], ◌∷◌, ◌==◌,
  arith, eq_iff, All, any_by, delete_where, str_eq,
}
use tasktips_cloud.Store.Schema.{
  Db, Payload, Revision, Head, Change, Completion, Idempotency, RestoreJob, Snapshot, Bootstrap,
  Attempt,
}
use tasktips_cloud.Purge.Rows.{Belongs, of_project, delete_rows, select_where, distinct}

-- The rows of a project or of an owner, table by table.
pub record Rows : Type 0 where
  pub payloads : List Payload
  pub revisions : List Revision
  pub heads : List Head
  pub changes : List Change
  pub completions : List Completion
  pub idempotency : List Idempotency
  pub restores : List RestoreJob
  pub snapshots : List Snapshot
  pub bootstraps : List Bootstrap
  pub attempts : List Attempt

unfoldable pub rows_of : Belongs → Db → Rows
rows_of b db = record {
  payloads = select_where b.payloads db.payloads;
  revisions = select_where b.revisions db.revisions;
  heads = select_where b.heads db.heads;
  changes = select_where b.changes db.changes;
  completions = select_where b.completions db.completions;
  idempotency = select_where b.idempotency db.idempotency;
  restores = select_where b.restores db.restores;
  snapshots = select_where b.snapshots db.snapshots;
  bootstraps = select_where b.bootstraps db.bootstraps;
  attempts = select_where b.attempts db.attempts;
}

abbrev pub no_rows : Rows
no_rows = record {
  payloads = [];
  revisions = [];
  heads = [];
  changes = [];
  completions = [];
  idempotency = [];
  restores = [];
  snapshots = [];
  bootstraps = [];
  attempts = [];
}

module _ {ℓ} {A : Type ℓ} (test : A → Bool) where
  pub select_where-delete_where_self : (xs : List A) → select_where test (delete_where test xs) ≡ []
  unfolding select_where delete_where
  select_where-delete_where_self [] = refl
  select_where-delete_where_self (x ∷ xs) = ground (arith, select_where-delete_where_self xs)

  pub select_where-delete_where_other :
      (other : A → Bool) (xs : List A)
      → ((x : A) → test x ≡ true → other x ≡ false)
      → select_where other (delete_where test xs) ≡ select_where other xs
  unfolding select_where delete_where
  select_where-delete_where_other other [] apart = refl
  select_where-delete_where_other other (x ∷ xs) apart =
      ground (arith, apart x, select_where-delete_where_other other xs apart)

apart_rows :
    (project other here : ℕ)
    → (project == other) ≡ false
    → (here == project) ≡ true
    → (here == other) ≡ false
apart_rows project other here apart t = ground arith

pub rows_of-delete_rows_self : (b : Belongs) (db : Db) → rows_of b (delete_rows b db) ≡ no_rows
unfolding rows_of delete_rows
rows_of-delete_rows_self b db i = record {
  payloads = select_where-delete_where_self b.payloads db.payloads i;
  revisions = select_where-delete_where_self b.revisions db.revisions i;
  heads = select_where-delete_where_self b.heads db.heads i;
  changes = select_where-delete_where_self b.changes db.changes i;
  completions = select_where-delete_where_self b.completions db.completions i;
  idempotency = select_where-delete_where_self b.idempotency db.idempotency i;
  restores = select_where-delete_where_self b.restores db.restores i;
  snapshots = select_where-delete_where_self b.snapshots db.snapshots i;
  bootstraps = select_where-delete_where_self b.bootstraps db.bootstraps i;
  attempts = select_where-delete_where_self b.attempts db.attempts i;
}

pub rows_of-delete_rows_other :
    (project other : ℕ) (db : Db)
    → (project == other) ≡ false
    → rows_of (of_project other) (delete_rows (of_project project) db)
      ≡ rows_of (of_project other) db
unfolding rows_of delete_rows
rows_of-delete_rows_other project other db apart i = record {
  payloads =
      select_where-delete_where_other (of_project project).payloads (of_project other).payloads
        db.payloads (λ r t. apart_rows project other r.project apart t) i;
  revisions =
      select_where-delete_where_other (of_project project).revisions (of_project other).revisions
        db.revisions (λ r t. apart_rows project other r.project apart t) i;
  heads =
      select_where-delete_where_other (of_project project).heads (of_project other).heads db.heads
        (λ r t. apart_rows project other r.project apart t) i;
  changes =
      select_where-delete_where_other (of_project project).changes (of_project other).changes
        db.changes (λ r t. apart_rows project other r.project apart t) i;
  completions =
      select_where-delete_where_other (of_project project).completions
        (of_project other).completions db.completions
        (λ r t. apart_rows project other r.project apart t) i;
  idempotency =
      select_where-delete_where_other (of_project project).idempotency
        (of_project other).idempotency db.idempotency
        (λ r t. apart_rows project other r.project apart t) i;
  restores =
      select_where-delete_where_other (of_project project).restores (of_project other).restores
        db.restores (λ r t. apart_rows project other r.project apart t) i;
  snapshots =
      select_where-delete_where_other (of_project project).snapshots (of_project other).snapshots
        db.snapshots (λ r t. apart_rows project other r.project apart t) i;
  bootstraps =
      select_where-delete_where_other (of_project project).bootstraps (of_project other).bootstraps
        db.bootstraps (λ r t. apart_rows project other r.project apart t) i;
  attempts =
      select_where-delete_where_other (of_project project).attempts (of_project other).attempts
        db.attempts (λ r t. apart_rows project other r.project apart t) i;
}

-- What holds of every text of a set holds of every text of the list that it was made from.
All_named :
    (P : String → Bool) (s : String) (rest : List String)
    → any_by (str_eq s) rest ≡ true
    → All (λ t. P t ≡ true) rest
    → P s ≡ true
unfolding any_by
All_named P s [] named all = absurd (cc)
All_named P s (t ∷ rest) named all = elim (Bool-cases (str_eq s t)) [
  | inl same ↦ ap P ((eq_iff s t).0 same) ∙ all.0
  | inr other ↦ All_named P s rest (ground arith) all.1
]

pub distinct-All :
    (P : String → Bool) (texts : List String)
    → All (λ t. P t ≡ true) (distinct texts)
    → All (λ t. P t ≡ true) texts
unfolding distinct
distinct-All P [] all = tt
distinct-All P (s ∷ rest) all = elim (Bool-cases (any_by (str_eq s) rest)) [
  | inl named ↦
      let others = distinct-All P rest (rw named at all) in
      (All_named P s rest named others, others)
  | inr new ↦ let both = rw new at all in (both.0, distinct-All P rest both.1)
]
