-- ===== src/Purge/Rows.antt =====
-- The rows of one project, or of one owner, and the statements that delete them.
pub mod Selected
use tasktips_cloud.Base.{
  ℕ, Bool, String, List, [], ◌∷◌, ◌++◌, map, ◌||◌, ◌==◌, str_eq, if◌then◌else◌, any_by,
  delete_where, code_points, ltb, ◌&&◌, true, false,
}
use tasktips_cloud.Store.Schema.{
  Db, Payload, Revision, Head, Change, Completion, Idempotency, RestoreJob, Snapshot, Bootstrap,
  Attempt,
}

-- A column of each table that belongs to a project: its project, or its owner.
pub record Belongs : Type 0 where
  pub payloads : Payload → Bool
  pub revisions : Revision → Bool
  pub heads : Head → Bool
  pub changes : Change → Bool
  pub completions : Completion → Bool
  pub idempotency : Idempotency → Bool
  pub restores : RestoreJob → Bool
  pub snapshots : Snapshot → Bool
  pub bootstraps : Bootstrap → Bool
  pub attempts : Attempt → Bool

-- `WHERE project_id = $1`
abbrev pub of_project : ℕ → Belongs
of_project project = record {
  payloads = λ r. r.project == project;
  revisions = λ r. r.project == project;
  heads = λ r. r.project == project;
  changes = λ r. r.project == project;
  completions = λ r. r.project == project;
  idempotency = λ r. r.project == project;
  restores = λ r. r.project == project;
  snapshots = λ r. r.project == project;
  bootstraps = λ r. r.project == project;
  attempts = λ r. r.project == project;
}

-- `WHERE owner_user_id = $1`
abbrev pub of_owner : ℕ → Belongs
of_owner owner = record {
  payloads = λ r. r.owner == owner;
  revisions = λ r. r.owner == owner;
  heads = λ r. r.owner == owner;
  changes = λ r. r.owner == owner;
  completions = λ r. r.owner == owner;
  idempotency = λ r. r.owner == owner;
  restores = λ r. r.owner == owner;
  snapshots = λ r. r.owner == owner;
  bootstraps = λ r. r.owner == owner;
  attempts = λ r. r.owner == owner;
}

-- The statements of the loop, from the completions to the payloads. The foreign keys lead from the
-- tables that come first to those that come later, within one project and one owner.
unfoldable pub delete_rows : Belongs → Db → Db
delete_rows b db = record db {
  completions = delete_where b.completions db.completions;
  idempotency = delete_where b.idempotency db.idempotency;
  attempts = delete_where b.attempts db.attempts;
  restores = delete_where b.restores db.restores;
  snapshots = delete_where b.snapshots db.snapshots;
  bootstraps = delete_where b.bootstraps db.bootstraps;
  changes = delete_where b.changes db.changes;
  heads = delete_where b.heads db.heads;
  revisions = delete_where b.revisions db.revisions;
  payloads = delete_where b.payloads db.payloads;
}

unfoldable pub select_where {ℓ} : {A : Type ℓ} → (A → Bool) → List A → List A
select_where test [] = []
select_where test (x ∷ xs) = if test x then x ∷ select_where test xs else select_where test xs

-- `UNION` returns no text twice; the order in which it does is the database's, here that of the
-- last occurrences.
unfoldable pub distinct : List String → List String
distinct [] = []
distinct (s ∷ rest) = if any_by (str_eq s) rest then distinct rest else s ∷ distinct rest

-- The keys of the objects that the rows name.
unfoldable pub row_keys : Belongs → Db → List String
unfolding select_where
row_keys b db =
    map (λ (r : Payload). r.key) (select_where b.payloads db.payloads)
    ++ map (λ (r : Snapshot). r.key) (select_where b.snapshots db.snapshots)
    ++ map (λ (r : Bootstrap). r.key) (select_where b.bootstraps db.bootstraps)

-- The order of Rust's strings: by their bytes in UTF-8, so by their code points.
unfoldable pub codes_before : List ℕ → List ℕ → Bool
codes_before [] t = true
codes_before (a ∷ s) [] = false
codes_before (a ∷ s) (b ∷ t) = ltb a b || a == b && codes_before s t

unfoldable pub insert_key : String → List String → List String
unfolding codes_before
insert_key s [] = s ∷ []
insert_key s (t ∷ rest) =
    if codes_before (code_points s) (code_points t) then s ∷ t ∷ rest else t ∷ insert_key s rest

-- `sort_unstable`
unfoldable pub sort_keys : List String → List String
unfolding insert_key
sort_keys [] = []
sort_keys (s ∷ rest) = insert_key s (sort_keys rest)
