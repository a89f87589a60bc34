-- ===== src/Routes/Revisions.antt =====
-- The declared revision of an item that the validation lets through.
use tasktips_cloud.Base.{
  ℕ, ◌+◌, ◌≡◌, sym, ap, ◌∙◌, true, String, Option, none, some, unwrap_or, arith, ℤ, pos,
}
use tasktips_cloud.Domain.{ObjectKind}
use tasktips_cloud.Store.Errors.{ok}
use tasktips_cloud.Store.Schema.{Db}
use tasktips_cloud.Sync.Response.{applied}
use tasktips_cloud.Sync.Item.{NewSyncRevision, Pusher, push_item, head_revision}
use tasktips_cloud.Sync.Item.Cas.{push_item-Meets}
use tasktips_cloud.Routes.{validate_revision_fields}

-- The base revision as the `i64` of the request.
abbrev pub base_of_request : Option ℕ → Option ℤ
base_of_request none = none
base_of_request (some n) = some (pos n)

validated_revision :
    (kind : ObjectKind) (id : String) (revision : ℕ) (base : Option ℕ) (device authenticated : ℕ)
    → validate_revision_fields kind id (pos revision) (base_of_request base) device authenticated
      ≡ true
    → revision ≡ unwrap_or base 0 + 1
unfolding validate_revision_fields
validated_revision kind id revision none device authenticated e = ground arith
validated_revision kind id revision (some n) device authenticated e = ground arith

-- An item that the validation lets through and the push applies gets the revision that the client
-- declared, and its object's head is at that revision.
pub declared_revision :
    (by : Pusher) (new_id : ℕ) (r : NewSyncRevision) (revision device authenticated : ℕ)
    (db db' : Db) (kind : ObjectKind) (key : String) (applied_revision sequence at : ℕ)
    → validate_revision_fields r.kind r.id
        (pos revision)
        (base_of_request r.base_revision)
        device
        authenticated
      ≡ true
    → push_item by new_id r db ≡ ok (applied kind key applied_revision sequence at, db')
    → (applied_revision ≡ revision) × (head_revision by.project r.kind r.id db' ≡ some revision)
declared_revision by new_id r revision device authenticated db db' kind key applied_revision
      sequence at valid pushed =
    let meets =
      push_item-Meets by new_id r db (applied kind key applied_revision sequence at) db' pushed in
    let same : applied_revision ≡ revision =
      meets.4
      ∙ sym (validated_revision r.kind r.id revision r.base_revision device authenticated valid) in
    (same, meets.5 ∙ ap (λ n. some n) same)
