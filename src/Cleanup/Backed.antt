-- ===== src/Cleanup/Backed.antt =====
-- The check of a stale key takes no object of a payload in the catalog.
use tasktips_cloud.Base.{
  ℕ, ◌≡◌, refl, sym, ap, ◌∙◌, inl, inr, Bool-cases, Option-cases, false, true, some, some-injective,
  String, List, [], ◌∷◌, arith, All, str_eq, eq_iff, any_by, delete_where,
}
use tasktips_cloud.Store.Schema.{Db, Payload}
use tasktips_cloud.ObjectKeys.{UuidFormat, parse_payload_key}
use tasktips_cloud.Catalog.{is_content, payload_is_referenced}
use tasktips_cloud.Cleanup.{Object, Cleaner, has_key, delete_key, clean_stale_key}

-- The key of a row names the project and the hash of the row.
abbrev pub IsKeyed : UuidFormat → Payload → Type 0
IsKeyed u p = parse_payload_key u p.key ≡ some (p.owner, p.project, p.content_hash)

-- The object of each row is in the bucket.
abbrev pub IsBacked : List Payload → List Object → Type 0
IsBacked payloads objects = All (λ p. any_by (has_key p.key) objects ≡ true) payloads

other_key : (a b c : String) → str_eq a b ≡ true → str_eq c b ≡ false → str_eq a c ≡ false
other_key a b c same apart = elim (Bool-cases (str_eq a c)) [
  | inr differ ↦ differ
  | inl equal ↦ absurd (cc (ap (λ t. str_eq t b) ((eq_iff a c).0 equal), same, apart))
]

any_by-delete_where_other :
    (key other : String) (objects : List Object)
    → str_eq other key ≡ false
    → any_by (has_key other) (delete_where (has_key key) objects) ≡ any_by (has_key other) objects
unfolding any_by delete_where
any_by-delete_where_other key other [] apart = refl
any_by-delete_where_other key other (o ∷ os) apart = elim (Bool-cases (has_key key o)) [
  | inl here ↦
      let there = other_key o.key key other here apart in
      ground (arith, any_by-delete_where_other key other os apart)
  | inr there ↦ ground (arith, any_by-delete_where_other key other os apart)
]

-- Deleting a key that no row has keeps the rows backed.
deleted-IsBacked :
    (w : Cleaner) (key : String) (payloads : List Payload) (objects : List Object)
    → any_by (λ (p : Payload). str_eq p.key key) payloads ≡ false
    → IsBacked payloads objects
    → IsBacked payloads (delete_key w key objects).1
unfolding delete_key any_by
deleted-IsBacked w key [] objects none_ backed = tt
deleted-IsBacked w key (p ∷ ps) objects none_ backed =
    (head, deleted-IsBacked w key ps objects (ground arith) backed.1)
  where
    head : any_by (has_key p.key) (delete_key w key objects).1 ≡ true
    head = elim (Bool-cases (w.deletes key)) [
      | inl deletes ↦
          rw deletes (any_by-delete_where_other key p.key objects (ground arith) ∙ backed.0)
      | inr refuses ↦ rw refuses backed.0
    ]

is_content_of :
    (p : Payload) (project : ℕ) (hash : String)
    → p.project ≡ project
    → p.content_hash ≡ hash
    → is_content project hash p ≡ true
is_content_of p project hash a b = let same = (eq_iff p.content_hash hash).1 b in ground arith

not_content :
    (p : Payload) (ps : List Payload) (project : ℕ) (hash : String)
    → any_by (is_content project hash) (p ∷ ps) ≡ false
    → is_content project hash p ≡ false
unfolding any_by
not_content p ps project hash e = ground arith

-- A row with this key is a row of what the key names.
named_row :
    (u : UuidFormat) (key : String) (owner project : ℕ) (hash : String) (payloads : List Payload)
    → parse_payload_key u key ≡ some (owner, project, hash)
    → All (IsKeyed u) payloads
    → any_by (is_content project hash) payloads ≡ false
    → any_by (λ (p : Payload). str_eq p.key key) payloads ≡ false
unfolding any_by
named_row u key owner project hash [] parsed keyed none_ = refl
named_row u key owner project hash (p ∷ ps) parsed keyed none_ =
    elim (Bool-cases (str_eq p.key key)) [
      | inr differ ↦ ground (arith, named_row u key owner project hash ps parsed keyed.1)
      | inl same ↦
          let parts =
            some-injective (p.owner, p.project, p.content_hash) (owner, project, hash)
              (sym keyed.0 ∙ ap (parse_payload_key u) ((eq_iff p.key key).0 same) ∙ parsed) in
          let in_project : p.project ≡ project = ap (λ t. t.1) parts in
          let in_hash : p.content_hash ≡ hash = ap (λ t. t.2) parts in
          absurd (
            cc (
              is_content_of p project hash in_project in_hash,
              not_content p ps project hash none_,
            ))
    ]

-- Whatever the key, checking it and deleting its object keeps every row backed.
pub clean_stale_key-IsBacked :
    (w : Cleaner) (key : String) (db : Db) (objects : List Object)
    → All (IsKeyed w.uuid) db.payloads
    → IsBacked db.payloads objects
    → IsBacked db.payloads (clean_stale_key w key db objects).1
unfolding clean_stale_key payload_is_referenced
clean_stale_key-IsBacked w key db objects keyed backed =
    elim (Option-cases (parse_payload_key w.uuid key)) [
      | inl none_ ↦ rw none_ backed
      | inr ((owner, project, hash), parsed) ↦
          elim (Bool-cases (any_by (is_content project hash) db.payloads)) [
            | inl there ↦ rw (parsed, there) backed
            | inr gone ↦
                rw (parsed, gone)
                  (deleted-IsBacked w key db.payloads objects
                    (named_row w.uuid key owner project hash db.payloads parsed keyed gone) backed)
          ]
    ]
