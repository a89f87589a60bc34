-- ===== src/Sync/Item/Frame.antt =====
-- What a push leaves alone: the heads of other objects, and all that another project has.
use tasktips_cloud.Base.{
  ℕ, ◌+◌, ◌≡◌, refl, ap, ◌∙◌, true, false, String, Option, List, [], ◌∷◌, ◌==◌, str_eq, arith,
  eq_iff, Bool-cases, ◌⊎◌, inl, inr, opt_eq, find_by-upsert_other,
}
use tasktips_cloud.Domain.{ObjectKind, kind_eq}
use tasktips_cloud.Store.Errors.{ok}
use tasktips_cloud.Store.Schema.{Db, Head}
use tasktips_cloud.Sync.Response.{PushItemResult}
use tasktips_cloud.Sync.Item.{
  NewSyncRevision, is_head, head_revision, found_revision, Checked, fits, refused, check_payload,
  push_checked, Pusher, push_item, push_items,
}
use tasktips_cloud.Sync.Item.Writes.{head_row, written, apply_item-eq-ok, push_items-cons}
use tasktips_cloud.Sync.Item.Cas.{kind_eq_sound, is_head_self}

-- The item is about another object.
abbrev pub IsApart : ℕ → ObjectKind → String → ℕ → NewSyncRevision → Type 0
IsApart project kind key project' r =
    ((project' == project) ≡ false) ⊎ ((kind_eq r.kind kind ≡ false) ⊎ (str_eq r.id key ≡ false))

is_head_apart :
    (project : ℕ) (kind : ObjectKind) (key : String) (by : ℕ) (r : NewSyncRevision) (h : Head)
    → IsApart project kind key by r
    → is_head by r.kind r.id h ≡ true
    → is_head project kind key h ≡ false
is_head_apart project kind key by r h apart t = ground (
  arith,
  eq_iff h.object_id r.id,
  eq_iff h.object_id key,
  eq_iff r.id key,
  kind_eq_sound h.kind r.kind,
)

-- The result and the state that it leaves alone.
module _ (by : Pusher) (project : ℕ) (kind : ObjectKind) (key : String) where
  head_revision-written_other :
      (id next sequence : ℕ) (r : NewSyncRevision) (payload : Option ℕ) (db : Db)
      → IsApart project kind key by.project r
      → head_revision project kind key (written by id r next sequence payload db)
        ≡ head_revision project kind key db
  unfolding head_revision
  head_revision-written_other id next sequence r payload db apart = ap found_revision (
      find_by-upsert_other (is_head by.project r.kind r.id) (is_head project kind key)
        (λ h. record h { revision = next; revision_id = id }) (head_row by id r next) db.heads
        (λ h t. refl) (λ h t. is_head_apart project kind key by.project r h apart t)
        (is_head_apart project kind key by.project r (head_row by id r next) apart
          (is_head_self by id r next)))

  push_checked_other :
      (id : ℕ) (r : NewSyncRevision) (actual : Option ℕ) (db : Db) (c : Checked)
      (answer : PushItemResult) (db' : Db)
      → IsApart project kind key by.project r
      → push_checked by id r actual db c ≡ ok (answer, db')
      → head_revision project kind key db' ≡ head_revision project kind key db
  unfolding push_checked
  push_checked_other id r actual db (refused a) answer db' apart e =
      ap (head_revision project kind key) (let same : db' ≡ db = cc in same)
  push_checked_other id r actual db (fits payload) answer db' apart e =
      let (p, found, answer_eq, db_eq) = apply_item-eq-ok by id r actual payload db answer db' e in
      ap (head_revision project kind key) db_eq
      ∙ head_revision-written_other id _ _ r payload db apart

  push_item_other :
      (id : ℕ) (r : NewSyncRevision) (db : Db) (answer : PushItemResult) (db' : Db)
      → IsApart project kind key by.project r
      → push_item by id r db ≡ ok (answer, db')
      → head_revision project kind key db' ≡ head_revision project kind key db
  unfolding push_item
  push_item_other id r db answer db' apart e =
      elim (Bool-cases (opt_eq r.base_revision (head_revision by.project r.kind r.id db))) [
        | inl same ↦
            push_checked_other id r (head_revision by.project r.kind r.id db) db
              (check_payload by.project r db) answer db' apart (rw same at e)
        | inr other ↦
            let f = rw other at e in
            ap (head_revision project kind key) (let same : db' ≡ db = cc in same)
      ]

  -- The items are about other objects.
  abbrev pub AreApart : List NewSyncRevision → Type 0
  AreApart [] = Unit
  AreApart (r ∷ rs) = IsApart project kind key by.project r × AreApart rs

  -- A push does not move the head of an object that it does not name.
  pub push_items_other :
      (ids : ℕ → ℕ) (rs : List NewSyncRevision) (db : Db) (answers : List PushItemResult) (db' : Db)
      → AreApart rs
      → push_items by ids rs db ≡ ok (answers, db')
      → head_revision project kind key db' ≡ head_revision project kind key db
  unfolding push_items
  push_items_other ids [] db answers db' apart e =
      ap (head_revision project kind key) (let same : db' ≡ db = cc in same)
  push_items_other ids (r ∷ rs) db answers db' apart e =
      let (first, mid, rest, here, there, all) = push_items-cons by ids r rs db answers db' e in
      push_items_other (λ n. ids (n + 1)) rs mid rest db' apart.1 there
      ∙ push_item_other (ids 0) r db first mid apart.0 here

-- The states differ in the projects, the revisions, the heads and the log at most.
abbrev pub SameElsewhere : Db → Db → Type 0
SameElsewhere db db' =
    record db' {
      projects = db.projects;
      revisions = db.revisions;
      heads = db.heads;
      changes = db.changes;
    }
    ≡ db

SameElsewhere-trans : (a b c : Db) → SameElsewhere a b → SameElsewhere b c → SameElsewhere a c
SameElsewhere-trans a b c p q =
    ap {A = Db} {B = Db}
      (λ d. record d {
        projects = a.projects;
        revisions = a.revisions;
        heads = a.heads;
        changes = a.changes;
      })
      q
    ∙ p

module _ (by : Pusher) where
  push_checked-SameElsewhere :
      (id : ℕ) (r : NewSyncRevision) (actual : Option ℕ) (db : Db) (c : Checked)
      (answer : PushItemResult) (db' : Db)
      → push_checked by id r actual db c ≡ ok (answer, db')
      → SameElsewhere db db'
  unfolding push_checked
  push_checked-SameElsewhere id r actual db (refused a) answer db' e =
      let same : db' ≡ db = cc in rw same
  push_checked-SameElsewhere id r actual db (fits payload) answer db' e =
      let (p, found, answer_eq, db_eq) = apply_item-eq-ok by id r actual payload db answer db' e in
      rw db_eq

  -- A push of items leaves the other tables alone.
  pub push_items-SameElsewhere :
      (ids : ℕ → ℕ) (rs : List NewSyncRevision) (db : Db) (answers : List PushItemResult) (db' : Db)
      → push_items by ids rs db ≡ ok (answers, db')
      → SameElsewhere db db'
  unfolding push_items
  push_items-SameElsewhere ids [] db answers db' e = let same : db' ≡ db = cc in rw same
  push_items-SameElsewhere ids (r ∷ rs) db answers db' e =
      let (first, mid, rest, here, there, all) = push_items-cons by ids r rs db answers db' e in
      SameElsewhere-trans db mid db' (one (ids 0) r db first mid here)
        (push_items-SameElsewhere (λ n. ids (n + 1)) rs mid rest db' there)
    where
      one :
          (id : ℕ) (r : NewSyncRevision) (db : Db) (answer : PushItemResult) (db' : Db)
          → push_item by id r db ≡ ok (answer, db')
          → SameElsewhere db db'
      one id r db answer db' e =
          elim (Bool-cases (opt_eq r.base_revision (head_revision by.project r.kind r.id db))) [
            | inl same ↦
                push_checked-SameElsewhere id r (head_revision by.project r.kind r.id db) db
                  (check_payload by.project r db) answer db' (rw (same, push_item) at e)
            | inr other ↦ let f = rw (other, push_item) at e in let same : db' ≡ db = cc in rw same
          ]
