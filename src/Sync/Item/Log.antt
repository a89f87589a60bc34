-- ===== src/Sync/Item/Log.antt =====
-- The log of a project: its sequences run from 1 to the project's own without a gap, and a push
-- gives its applied items the next ones, in order.
use native.Mathlib.Numerals.{add-one}
use mathlib.Core.Path.{subst}
use tasktips_cloud.Base.{
  length, ==_refl, unwrap_or, ℕ, zero, suc, ◌+◌, ◌≡◌, refl, sym, ap, ◌∙◌, false, Option, some, List,
  [], ◌∷◌, ◌==◌, arith, Bool-cases, inl, inr, opt_eq, find_by, find_by-update_where_other,
  if◌then◌else◌,
}
use tasktips_cloud.Store.Errors.{ok}
use tasktips_cloud.Store.Schema.{Db, Project, Change}
use tasktips_cloud.Sync.Response.{PushItemResult, applied, conflict, rejected}
use tasktips_cloud.Sync.Item.{
  NewSyncRevision, head_revision, Checked, fits, refused, check_payload, push_checked, Pusher,
  push_item, push_items,
}
use tasktips_cloud.Sync.Item.Writes.{written, apply_item-eq-ok, push_items-cons}
use tasktips_cloud.Sync.Item.Cas.{
  sequence_of, found_sequence, sequence_of_found, sequence_of-written, Meets, push_item-Meets,
}

-- The sequences that a project has in the log, the latest first.
unfoldable pub sequences : ℕ → List Change → List ℕ
sequences project [] = []
sequences project (c ∷ cs) =
    if c.project == project then c.sequence ∷ sequences project cs else sequences project cs

-- n, n - 1, …, 1
unfoldable pub count_down : ℕ → List ℕ
count_down zero = []
count_down (suc n) = suc n ∷ count_down n

-- Every sequence up to the project's is in the log once.
abbrev pub IsGapless : ℕ → Db → Type 0
IsGapless project db =
    (n : ℕ) → sequence_of project db ≡ some n → sequences project db.changes ≡ count_down n

module _ (by : Pusher) (project : ℕ) where
  sequence_of-written_other :
      (id next sequence : ℕ) (r : NewSyncRevision) (payload : Option ℕ) (db : Db)
      → (project == by.project) ≡ false
      → sequence_of project (written by id r next sequence payload db) ≡ sequence_of project db
  unfolding sequence_of
  sequence_of-written_other id next sequence r payload db ne = ap found_sequence (
      find_by-update_where_other (λ q. q.id == by.project) (λ q. q.id == project)
        (λ q. record q { change_seq = sequence; updated_at = by.now }) db.projects (λ q t. refl)
        (λ q t. ground arith))

  written-IsGapless_other :
      (id next sequence : ℕ) (r : NewSyncRevision) (payload : Option ℕ) (db : Db)
      → (project == by.project) ≡ false
      → IsGapless project db
      → IsGapless project (written by id r next sequence payload db)
  unfolding sequences
  written-IsGapless_other id next sequence r payload db ne gapless n e =
      ground (arith, gapless n, sequence_of-written_other id next sequence r payload db ne)

count_down-add_one : (n : ℕ) → count_down (n + 1) ≡ (n + 1) ∷ count_down n
unfolding count_down
count_down-add_one n = rw add-one

written-IsGapless_self :
    (by : Pusher) (id next : ℕ) (r : NewSyncRevision) (payload : Option ℕ) (db : Db) (p : Project)
    → find_by (λ q. q.id == by.project) db.projects ≡ some p
    → IsGapless by.project db
    → IsGapless by.project (written by id r next (p.change_seq + 1) payload db)
unfolding sequences
written-IsGapless_self by id next r payload db p found gapless n e =
    let before = gapless p.change_seq (sequence_of_found by.project db p found) in
    let after = sequence_of-written by id r next (p.change_seq + 1) payload db p found in
    let grown : p.change_seq + 1 ≡ n = cc in
    rw (==_refl by.project, before, ← grown) (sym (count_down-add_one p.change_seq))

-- The log stays without a gap, for the project that is pushed to and for every other.
module _ (by : Pusher) (project : ℕ) where
  push_checked-IsGapless :
      (id : ℕ) (r : NewSyncRevision) (actual : Option ℕ) (db : Db) (c : Checked)
      (answer : PushItemResult) (db' : Db)
      → IsGapless project db
      → push_checked by id r actual db c ≡ ok (answer, db')
      → IsGapless project db'
  unfolding push_checked
  push_checked-IsGapless id r actual db (refused a) answer db' gapless e =
      let same : db' ≡ db = cc in rw same gapless
  push_checked-IsGapless id r actual db (fits payload) answer db' gapless e =
      let (p, found, answer_eq, db_eq) = apply_item-eq-ok by id r actual payload db answer db' e in
      rw db_eq (elim (Bool-cases (project == by.project)) [
        | inl same ↦
            let eq : by.project ≡ project = ground arith in
            subst
              (λ k.
                IsGapless k
                  (written by id r (unwrap_or actual 0 + 1) (p.change_seq + 1) payload db))
              eq (written-IsGapless_self by id _ r payload db p found (rw eq gapless))
        | inr other ↦ written-IsGapless_other by project id _ _ r payload db other gapless
      ])

  push_item-IsGapless :
      (id : ℕ) (r : NewSyncRevision) (db : Db) (answer : PushItemResult) (db' : Db)
      → IsGapless project db
      → push_item by id r db ≡ ok (answer, db')
      → IsGapless project db'
  unfolding push_item
  push_item-IsGapless id r db answer db' gapless e =
      elim (Bool-cases (opt_eq r.base_revision (head_revision by.project r.kind r.id db))) [
        | inl same ↦
            push_checked-IsGapless id r (head_revision by.project r.kind r.id db) db
              (check_payload by.project r db) answer db' gapless (rw same at e)
        | inr other ↦ let f = rw other at e in let same : db' ≡ db = cc in rw same gapless
      ]

  -- After a push the sequences of every project still run from 1 to the project's own.
  pub push_items-IsGapless :
      (ids : ℕ → ℕ) (rs : List NewSyncRevision) (db : Db) (answers : List PushItemResult) (db' : Db)
      → IsGapless project db
      → push_items by ids rs db ≡ ok (answers, db')
      → IsGapless project db'
  unfolding push_items
  push_items-IsGapless ids [] db answers db' gapless e = let same : db' ≡ db = cc in rw same gapless
  push_items-IsGapless ids (r ∷ rs) db answers db' gapless e =
      let (first, mid, rest, here, there, all) = push_items-cons by ids r rs db answers db' e in
      push_items-IsGapless (λ n. ids (n + 1)) rs mid rest db'
        (push_item-IsGapless (ids 0) r db first mid gapless here) there

-- The sequences of the applied items, in the order of the request.
abbrev pub applied_sequences : List PushItemResult → List ℕ
applied_sequences [] = []
applied_sequences (applied kind id revision sequence at ∷ rs) = sequence ∷ applied_sequences rs
applied_sequences (_ ∷ rs) = applied_sequences rs

-- s + 1, s + 2, …
abbrev pub count_up : ℕ → ℕ → List ℕ
count_up s zero = []
count_up s (suc n) = (s + 1) ∷ count_up (s + 1) n

module _ (by : Pusher) where
  -- The answers number the project's changes from `s` on.
  abbrev pub Numbers : ℕ → List PushItemResult → Db → Type 0
  Numbers s answers db' =
      (applied_sequences answers ≡ count_up s (length (applied_sequences answers)))
      × (sequence_of by.project db' ≡ some (s + length (applied_sequences answers)))

  Numbers-cons :
      (id : ℕ) (r : NewSyncRevision) (s : ℕ) (answer : PushItemResult) (rest : List PushItemResult)
      (db mid db' : Db)
      → sequence_of by.project db ≡ some s
      → Meets by id r db (answer, mid)
      → ((t : ℕ) → sequence_of by.project mid ≡ some t → Numbers t rest db')
      → Numbers s (answer ∷ rest) db'
  Numbers-cons id r s (applied kind key revision sequence at) rest db mid db' start m ih =
      let (t, was, grown) = m.6 in
      let same : t ≡ s = ground arith in
      let next : sequence ≡ s + 1 = omega arith in
      let (these, last) = ih sequence m.7 in
      (rw next (ap (λ l. (s + 1) ∷ l) (rw next at these)), last ∙ ap some (omega arith))
  Numbers-cons id r s (conflict kind key expected actual) rest db mid db' start m ih =
      ih s (rw (m.2) start)
  Numbers-cons id r s (rejected kind key code message details) rest db mid db' start m ih =
      ih s (rw (m.2) start)

  -- The applied items of a push get the next sequences of the project, one after another, and the
  -- project's own sequence grows by their number.
  pub push_items-sequences :
      (ids : ℕ → ℕ) (rs : List NewSyncRevision) (db : Db) (answers : List PushItemResult) (db' : Db)
      (s : ℕ)
      → sequence_of by.project db ≡ some s
      → push_items by ids rs db ≡ ok (answers, db')
      → Numbers s answers db'
  unfolding push_items
  push_items-sequences ids [] db answers db' s start e =
      let empty : answers ≡ [] = cc in
      let same : db' ≡ db = cc in rw (empty, same) (refl, start ∙ ap some (omega arith))
  push_items-sequences ids (r ∷ rs) db answers db' s start e =
      let (first, mid, rest, here, there, all) = push_items-cons by ids r rs db answers db' e in
      rw all (
        Numbers-cons (ids 0) r s first rest db mid db' start
          (push_item-Meets by (ids 0) r db first mid here)
          (λ t at. push_items-sequences (λ n. ids (n + 1)) rs mid rest db' t at there))
