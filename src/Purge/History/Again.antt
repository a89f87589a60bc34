-- ===== src/Purge/History/Again.antt =====
-- A detachment that is repeated, after a crash, a failure or a second claim.
use tasktips_cloud.Base.{
  ℕ, ◌≤◌, ◌≡◌, refl, ap, ◌∙◌, inl, inr, true, some, List, [], ◌∷◌, ◌==◌, arith, String, All,
  All_unique, Bool-cases, any_by, find_by, find_by-test, count_by, update_where, any_by_of_found,
  any_by_wider, any_by-update_where_same,
}
use tasktips_cloud.Json.{Json}
use tasktips_cloud.Store.Schema.{Job, JobKind}
use tasktips_cloud.Store.Errors.{ok}
use tasktips_cloud.Purge.Jobs.{is_running_with, is_held, text_items, texts_of}
use tasktips_cloud.Purge.History.Kept.{Stored, Keeps}

pub texts_of-text_items : (keys : List String) → texts_of (text_items keys) ≡ ok keys
unfolding texts_of text_items
texts_of-text_items [] = refl
texts_of-text_items (k ∷ ks) = rw (texts_of-text_items ks) refl

-- Where an identifier is unique, the row of a held job is the only one with it.
only_row :
    (kind : JobKind) (now job lease : ℕ) (jobs : List Job) (j : Job)
    → count_by (λ k. k.id == job) jobs ≤ 1
    → find_by (is_held kind now job lease) jobs ≡ some j
    → All (λ k. (k.id == job) ≡ true → k ≡ j) jobs
only_row kind now job lease jobs j one found =
    All_unique (λ k. k.id == job) (is_held kind now job lease) jobs j one (λ k t. ground arith)
      found

there_is :
    (kind : JobKind) (now job lease : ℕ) (jobs : List Job) (j : Job)
    → find_by (is_held kind now job lease) jobs ≡ some j
    → any_by (λ k. k.id == job) jobs ≡ true
there_is kind now job lease jobs j found =
    any_by_wider (is_held kind now job lease) (λ k. k.id == job) jobs (λ k t. ground arith)
      (any_by_of_found (is_held kind now job lease) jobs j found)

all_stored :
    (job : ℕ) (row : Job) (jobs : List Job)
    → All (λ k. (k.id == job) ≡ true → k ≡ row) jobs
    → All (λ k. (k.id == job) ≡ true → Stored row k) jobs
all_stored job row [] h = tt
all_stored job row (k ∷ ks) h = (
  λ here.
      let same = h.0 here in
      record {
        payload = ap (λ (j : Job). j.payload) same;
        owner = ap (λ (j : Job). j.owner) same;
        project = ap (λ (j : Job). j.project) same;
      },
  all_stored job row ks h.1,
)

-- The same after the payload of the row has been set.
all_set :
    (job : ℕ) (row : Job) (lease : ℕ) (payload : Json) (jobs : List Job)
    → is_running_with job lease row ≡ true
    → All (λ k. (k.id == job) ≡ true → k ≡ row) jobs
    → All
        (λ k. (k.id == job) ≡ true → Stored (record row { payload = payload }) k)
        (update_where (is_running_with job lease) (λ k. record k { payload = payload }) jobs)
unfolding update_where
all_set job row lease payload [] t h = tt
all_set job row lease payload (k ∷ ks) t h = elim (Bool-cases (is_running_with job lease k)) [
  | inl here ↦ rw here (
    λ there.
        let same = h.0 there in
        record {
          payload = refl;
          owner = ap (λ (j : Job). j.owner) same;
          project = ap (λ (j : Job). j.project) same;
        },
    all_set job row lease payload ks t h.1,
  )
  | inr elsewhere ↦ rw elsewhere (
    λ there. absurd (cc (ap (is_running_with job lease) (h.0 there), t, elsewhere)),
    all_set job row lease payload ks t h.1,
  )
]

abbrev pub with_payload : Json → Job → Job
with_payload payload j = record j { payload = payload }

-- The table after a detachment keeps what was stored.
pub set-Keeps :
    (kind : JobKind) (now job lease : ℕ) (payload : Json) (jobs : List Job) (j : Job)
    → count_by (λ k. k.id == job) jobs ≤ 1
    → find_by (is_held kind now job lease) jobs ≡ some j
    → Keeps job
        (with_payload payload j)
        (update_where (is_running_with job lease) (with_payload payload) jobs)
set-Keeps kind now job lease payload jobs j one found =
    let held = find_by-test (is_held kind now job lease) jobs j found in
    record {
      there =
          any_by-update_where_same (is_running_with job lease) (λ k. k.id == job)
            (with_payload payload) jobs (λ k. refl)
          ∙ there_is kind now job lease jobs j found;
      stored =
          all_set job j lease payload jobs (ground arith)
            (only_row kind now job lease jobs j one found);
    }

pub found-Keeps :
    (kind : JobKind) (now job lease : ℕ) (jobs : List Job) (j : Job)
    → count_by (λ k. k.id == job) jobs ≤ 1
    → find_by (is_held kind now job lease) jobs ≡ some j
    → Keeps job j jobs
found-Keeps kind now job lease jobs j one found = record {
  there = there_is kind now job lease jobs j found;
  stored = all_stored job j jobs (only_row kind now job lease jobs j one found);
}
