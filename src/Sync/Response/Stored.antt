-- ===== src/Sync/Response/Stored.antt =====
-- What the migration of stored responses keeps.
use tasktips_cloud.Base.{
  ℕ, ◌≡◌, refl, ap, ◌∙◌, false, String, List, [], ◌∷◌, str_eq, arith, eq_iff, none, some,
}
use tasktips_cloud.Json.{Json, Fields, end, field}
use tasktips_cloud.Sync.Response.{
  TimeFormat, PushItemResult, applied, conflict, rejected, result_fields, results_json,
  response_json, insert_field, get_field, migrate_entry, migrate_fields, migrate_items,
  migrate_stored_push_response,
}

-- A key that the migration leaves alone.
abbrev pub IsCurrentKey : String → Type 0
IsCurrentKey k =
    (str_eq k "change_sequence" ≡ false)
    × (str_eq k "expected_revision" ≡ false)
    × (str_eq k "actual_revision" ≡ false)
    × (str_eq k "changed_at" ≡ false)

abbrev IsAbsent : String → Fields → Type 0
IsAbsent k end = Unit
IsAbsent k (field j v fs) = (str_eq j k ≡ false) × IsAbsent k fs

abbrev append_fields : Fields → Fields → Fields
append_fields end gs = gs
append_fields (field k v fs) gs = field k v (append_fields fs gs)

insert_field_absent :
    (k : String) (v : Json) (fs : Fields)
    → IsAbsent k fs
    → insert_field k v fs ≡ append_fields fs (field k v end)
unfolding insert_field
insert_field_absent k v end h = refl
insert_field_absent k v (field j w fs) h = ground (arith, insert_field_absent k v fs h.1)

-- The keys of an object are current, and no two are the same.
abbrev pub IsCurrent : Fields → Type 0
IsCurrent end = Unit
IsCurrent (field k v fs) = IsCurrentKey k × IsAbsent k fs × IsCurrent fs

-- No key of the second object is one of the first.
abbrev AreNew : Fields → Fields → Type 0
AreNew acc end = Unit
AreNew acc (field k v fs) = IsAbsent k acc × AreNew acc fs

IsAbsent-append :
    (k : String) (fs gs : Fields) → IsAbsent k fs → IsAbsent k gs → IsAbsent k (append_fields fs gs)
IsAbsent-append k end gs h g = g
IsAbsent-append k (field j v fs) gs h g = (h.0, IsAbsent-append k fs gs h.1 g)

AreNew-append :
    (acc : Fields) (k : String) (v : Json) (fs : Fields)
    → AreNew acc fs
    → IsAbsent k fs
    → AreNew (append_fields acc (field k v end)) fs
AreNew-append acc k v end h a = tt
AreNew-append acc k v (field j w fs) h a = (
  IsAbsent-append j acc (field k v end) h.0 (ground (arith, eq_iff j k, eq_iff k j), tt),
  AreNew-append acc k v fs h.1 a.1,
)

append_fields_assoc :
    (fs gs hs : Fields)
    → append_fields (append_fields fs gs) hs ≡ append_fields fs (append_fields gs hs)
append_fields_assoc end gs hs = refl
append_fields_assoc (field k v fs) gs hs = ap (field k v) (append_fields_assoc fs gs hs)

migrate_entry_current :
    (fmt : TimeFormat) (k : String) (v : Json) (acc : Fields)
    → IsCurrentKey k
    → migrate_entry fmt k v acc ≡ insert_field k v acc
migrate_entry_current fmt k v acc h = rw (h.0, h.1, h.2, h.3)

migrate_fields_from :
    (fmt : TimeFormat) (acc fs : Fields)
    → IsCurrent fs
    → AreNew acc fs
    → migrate_fields fmt acc fs ≡ append_fields acc fs
unfolding migrate_fields
migrate_fields_from fmt acc end c n = append_end acc
  where
    append_end : (gs : Fields) → gs ≡ append_fields gs end
    append_end end = refl
    append_end (field k v gs) = ap (field k v) (append_end gs)
migrate_fields_from fmt acc (field k v fs) c n =
    rw (migrate_entry_current fmt k v acc c.0, insert_field_absent k v acc n.0)
      (migrate_fields_from fmt (append_fields acc (field k v end)) fs c.2
          (AreNew-append acc k v fs n.1 c.1)
        ∙ append_fields_assoc acc (field k v end) fs)

AreNew-end : (fs : Fields) → AreNew end fs
AreNew-end end = tt
AreNew-end (field k v fs) = (tt, AreNew-end fs)

pub migrate_fields_current :
    (fmt : TimeFormat) (fs : Fields) → IsCurrent fs → migrate_fields fmt end fs ≡ fs
migrate_fields_current fmt fs c = migrate_fields_from fmt end fs c (AreNew-end fs)

result_fields-IsCurrent : (fmt : TimeFormat) (r : PushItemResult) → IsCurrent (result_fields fmt r)
unfolding result_fields
result_fields-IsCurrent fmt (applied kind id revision sequence at) = ground arith
result_fields-IsCurrent fmt (conflict kind id expected actual) = ground arith
result_fields-IsCurrent fmt (rejected kind id code message none) = ground arith
result_fields-IsCurrent fmt (rejected kind id code message (some d)) = ground arith

migrate-results_json :
    (fmt : TimeFormat) (rs : List PushItemResult)
    → migrate_items fmt (results_json fmt rs) ≡ results_json fmt rs
unfolding migrate_items results_json
migrate-results_json fmt [] = refl
migrate-results_json fmt (r ∷ rs) = cc (
  migrate-results_json fmt rs,
  migrate_fields_current fmt (result_fields fmt r) (result_fields-IsCurrent fmt r),
)

-- A response in the present format is replayed as it was stored.
pub migrate-response_json :
    (fmt : TimeFormat) (generation : ℕ) (rs : List PushItemResult)
    → migrate_stored_push_response fmt (response_json fmt generation rs)
      ≡ response_json fmt generation rs
unfolding migrate_stored_push_response response_json get_field insert_field
migrate-response_json fmt generation rs = rw (migrate-results_json fmt rs)
