-- ===== src/Tests/Push.antt =====
-- The push on the small database.
use tasktips_cloud.Base.{
  ◌≡◌, refl, true, false, none, some, [], ◌∷◌, List, String, ℕ, arith, ◌⊎◌, inl, inr, find_by,
  any_by, delete_where, update_where, upsert,
}
use tasktips_cloud.Domain.{ObjectKind, max_payload_bytes}
use tasktips_cloud.Store.Errors.{ok, err, idempotency_conflict}
use tasktips_cloud.Store.Schema.{Db}
use tasktips_cloud.Sync.Response.{PushItemResult, applied, conflict, rejected, response_json}
use tasktips_cloud.Sync.Item.{
  NewSyncRevision, head_revision, valid_media_type, push_item, push_items,
}
use tasktips_cloud.Routes.{is_crockford, str_len, valid_object_id, validate_revision_fields}
use tasktips_cloud.Routes.Revisions.{declared_revision}
use tasktips_cloud.Sync.Item.Writes.{written}
use tasktips_cloud.Sync.Item.Cas.{Meets, push_item-Meets, sequence_of}
use tasktips_cloud.Sync.Item.Log.{sequences, count_down, IsGapless, Numbers, push_items-sequences}
use tasktips_cloud.Sync.Item.Frame.{push_items_other}
use tasktips_cloud.Sync.Push.Ran.{
  Ran, Replayed, finished, push_with_outcome-eq-ok, push_with_outcome-IsGapless,
}
use tasktips_cloud.Sync.Push.Atomic.{KeepsOnError, push_with_outcome-KeepsOnError}
use tasktips_cloud.Sync.Push.Replay.{at, push_with_outcome_replay, push_with_outcome_other_content}
use tasktips_cloud.Sync.Push.{PushOutcome, push_with_outcome}
use tasktips_cloud.Tests.Data.{plain_format, start, pusher, ids, create, delete, missing, request}

run : Unit {0}
unfolding push_with_outcome push_items push_item find_by any_by delete_where update_where upsert
    max_payload_bytes valid_media_type
run = tt

abbrev answers : List PushItemResult
answers =
    applied ObjectKind.todo "A" 1 1 90
    ∷ applied ObjectKind.todo "A" 2 2 95
    ∷ rejected ObjectKind.image "B" "PAYLOAD_NOT_FOUND" "payload 不存在" none
    ∷ conflict ObjectKind.todo "A" none (some 2)
    ∷ []

abbrev after : Db
after = written pusher 501 delete 2 2 none (written pusher 500 create 1 1 (some 40) start)

-- A creation, a deletion on top of it, an item without its payload, and a second creation.
push_items_run :
    push_items pusher ids (create ∷ delete ∷ missing ∷ create ∷ []) start ≡ ok (answers, after)
unfolding run
push_items_run = refl

push_item-Meets_example :
    Meets pusher 500 create start
      (applied ObjectKind.todo "A" 1 1 90, written pusher 500 create 1 1 (some 40) start)
unfolding run
push_item-Meets_example =
    push_item-Meets pusher 500 create start (applied ObjectKind.todo "A" 1 1 90)
      (written pusher 500 create 1 1 (some 40) start) refl

push_items-sequences_example : Numbers pusher 0 answers after
unfolding run sequence_of
push_items-sequences_example =
    push_items-sequences pusher ids (create ∷ delete ∷ missing ∷ create ∷ []) start answers after 0
      refl refl

push_items_other_example :
    head_revision 3 ObjectKind.todo "B" after ≡ head_revision 3 ObjectKind.todo "B" start
unfolding run
push_items_other_example =
    push_items_other pusher 3 ObjectKind.todo "B" ids (create ∷ delete ∷ missing ∷ create ∷ [])
      start answers after (inr (inr refl), (inr (inr refl), (inr (inl refl), (inr (inr refl), tt))))
      refl

abbrev outcome : PushOutcome
outcome = record { response = response_json plain_format 1 answers; replayed = false }

abbrev items : List NewSyncRevision
items = create ∷ delete ∷ missing ∷ create ∷ []

abbrev final : Db
final = finished pusher request outcome.response after

push_run : push_with_outcome plain_format pusher ids request items start ≡ (ok outcome, final)
unfolding run
push_run = refl

push_with_outcome-eq-ok_example :
    Ran plain_format pusher ids request items start outcome final
    ⊎ Replayed plain_format pusher ids request items start outcome final
push_with_outcome-eq-ok_example =
    push_with_outcome-eq-ok plain_format pusher ids request items start outcome final push_run

start-IsGapless : IsGapless 3 start
unfolding sequences count_down sequence_of run
start-IsGapless n e = let zero_eq : 0 ≡ n = ground arith in rw (← zero_eq)

push_with_outcome-IsGapless_example :
    IsGapless 3 (push_with_outcome plain_format pusher ids request items start).1
push_with_outcome-IsGapless_example =
    push_with_outcome-IsGapless plain_format pusher ids request items 3 start start-IsGapless

push_with_outcome-KeepsOnError_example :
    KeepsOnError start
      (push_with_outcome plain_format pusher ids (record request { generation = 2 }) items start)
push_with_outcome-KeepsOnError_example =
    push_with_outcome-KeepsOnError plain_format pusher ids (record request { generation = 2 }) items
      start

push_with_outcome_replay_example :
    push_with_outcome plain_format (at pusher 5000) ids request [] final
    ≡ (ok (record { response = outcome.response; replayed = true }), final)
push_with_outcome_replay_example =
    push_with_outcome_replay plain_format pusher ids ids request request items [] start outcome
      final 5000 push_run refl (omega arith) refl refl

push_with_outcome_other_content_example :
    push_with_outcome plain_format (at pusher 5000) ids (record request { hash = "h2" }) items final
    ≡ (err idempotency_conflict, final)
push_with_outcome_other_content_example =
    push_with_outcome_other_content plain_format pusher ids ids request
      (record request { hash = "h2" }) items items start outcome final 5000 push_run refl
      (omega arith) refl refl

-- A note's identifier has 26 digits of Crockford's base 32.
abbrev ulid : String
ulid = "01ARZ3NDEKTSV4RRFFQ69G5FAV"

ulid_run : valid_object_id ObjectKind.todo ulid ≡ true
unfolding run valid_object_id is_crockford str_len
ulid_run = refl

abbrev titled : NewSyncRevision
titled = record create { id = ulid }

abbrev first_revision : ℕ
first_revision = 1

declared_revision_example :
    (first_revision ≡ 1)
    × (head_revision 3 ObjectKind.todo ulid (written pusher 500 titled 1 1 (some 40) start)
        ≡ some 1)
unfolding run validate_revision_fields valid_object_id is_crockford str_len
declared_revision_example =
    declared_revision pusher 500 titled 1 2 2 start (written pusher 500 titled 1 1 (some 40) start)
      ObjectKind.todo ulid first_revision 1 90 refl refl
