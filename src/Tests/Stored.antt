-- ===== src/Tests/Stored.antt =====
-- A stored response in the former encoding.
use tasktips_cloud.Base.{◌≡◌, refl, some, none, List, [], ◌∷◌, str_eq}
use tasktips_cloud.Domain.{ObjectKind}
use tasktips_cloud.Json.{num, str, arr, object, items, null}
use tasktips_cloud.Sync.Response.{
  TimeFormat, PushItemResult, applied, conflict, result_fields, results_json, response_json,
  insert_field, get_field, rsplit_space, join_stamp, migrate_text, migrate_legacy_timestamp,
  migrate_fields, migrate_items, migrate_results, migrate_stored_push_response,
}
use tasktips_cloud.Sync.Response.Legacy.{has_no_space, legacy_fields, legacy_items, legacy_json}

run : Unit {0}
unfolding migrate_stored_push_response migrate_results migrate_items migrate_fields insert_field
    get_field migrate_legacy_timestamp migrate_text rsplit_space join_stamp response_json
    results_json result_fields legacy_json legacy_items legacy_fields has_no_space
run = tt

abbrev instant_format : TimeFormat
instant_format = record {
  format = λ t. "2026-09-18T09:16:47.108554Z";
  parses = λ s. str_eq s "2026-09-18T09:16:47.108554Z";
  parses-format = λ t. refl;
}

abbrev answers : List PushItemResult
answers =
    applied ObjectKind.todo "01M2SWVB7N4P6GABVVGQTDF4BE" 1 3 1789722
    ∷ conflict ObjectKind.classification "classification" none (some 1)
    ∷ []

-- The stored response of the test in the source.
migrated_run :
    migrate_stored_push_response instant_format (
      object (
        ("generation", num 1)
        ∷ (
          "results",
          arr (
              items (
                object (
                  ("status", str "applied")
                  ∷ ("kind", str "todo")
                  ∷ ("id", str "01M2SWVB7N4P6GABVVGQTDF4BE")
                  ∷ ("revision", num 1)
                  ∷ ("change_sequence", num 3)
                  ∷ ("changed_at", str "2026-09-18 09:16:47.108554 +00:00:00")
                  ∷ [])
                ∷ object (
                    ("status", str "conflict")
                    ∷ ("kind", str "classification")
                    ∷ ("id", str "classification")
                    ∷ ("expected_revision", null)
                    ∷ ("actual_revision", num 1)
                    ∷ [])
                ∷ [])),
        )
        ∷ []))
    ≡ response_json instant_format 1 answers
unfolding run
migrated_run = refl
