-- ===== src/Queue/DeadLetter.antt =====
-- src/queue/dead_letter.rs: the move of a job to the dead-letter stream and the manual retry from
-- it, as the commands that are issued in order.
pub mod Retry
use klass_mobile_backend.Prelude.{
  String, Bool, true, false, Option, none, some, List, [], ◌∷◌, ◌++◌, map, str_eq, if◌then◌else◌,
}
use klass_mobile_backend.Prelude.Int.{ℤ, pos}
use klass_mobile_backend.Prelude.Result.{Result, ok, err}
use klass_mobile_backend.Prelude.Decimal.{show_int}
use klass_mobile_backend.Queue.{
  Codec, Value, Values, array, bulk_string, simple_string, int, nil, cons, value_to_str, Fields,
}

abbrev pub dlq_stream_key : String
dlq_stream_key = "klass:media-gen-dlq"

abbrev pub max_retry_attempts : ℤ
max_retry_attempts = pos 3

pub data DlqCommand : Type 0 where
  xadd_dlq : Fields → DlqCommand
  mark_failed : String → String → String → ℤ → DlqCommand
  xdel : String → DlqCommand
  enqueue : String → String → ℤ → DlqCommand

-- The fields of the dead letter; `payload` is its JSON text.
unfoldable pub dlq_fields : String → ℤ → String → Fields
dlq_fields generation_id attempt payload =
    ("generation_id", generation_id) ∷ ("attempt", show_int attempt) ∷ ("payload", payload) ∷ []

-- Both steps are tried, and the result of neither shows: the call answers `Ok(())`.
unfoldable pub send_to_dlq : String → ℤ → String → String → String → List DlqCommand
send_to_dlq generation_id attempt error_code error_message payload =
    xadd_dlq (dlq_fields generation_id attempt payload)
    ∷ mark_failed generation_id error_code error_message attempt
    ∷ []

module _ (C : Codec) where
  -- One pair of the loop over `chunks(2)`: `next` is the search in the later pairs. A key that is
  -- no text ends it.
  match_pair : Option String → Value → String → Option String → String → Option String
  match_pair none value generation_id next id = none
  match_pair (some key) value generation_id next id =
      if str_eq key "generation_id"
      then elim (value_to_str C value) [
        | none ↦ none
        | some v ↦ if str_eq v generation_id then some id else next
      ]
      else next

  unfoldable pub match_fields : Values → String → String → Option String
  unfolding match_pair
  match_fields nil generation_id id = none
  match_fields (cons k nil) generation_id id = none
  match_fields (cons k (cons v rest)) generation_id id =
      match_pair (value_to_str C k) v generation_id (match_fields rest generation_id id) id

  match_in : Option String → Value → String → Option String
  unfolding match_fields
  match_in (some id) (array fields) generation_id = match_fields fields generation_id id
  match_in _ _ generation_id = none

  -- The closure of `filter_map`: the id of an item whose generation is this one.
  match_item : Value → String → Option String
  unfolding match_in
  match_item (array (cons id (cons fields more))) generation_id =
      match_in (value_to_str C id) fields generation_id
  match_item _ generation_id = none

  push : Option String → List String → List String
  push none ids = ids
  push (some id) ids = id ∷ ids

  unfoldable pub match_items : Values → String → List String
  unfolding match_item push
  match_items nil generation_id = []
  match_items (cons item items) generation_id =
      push (match_item item generation_id) (match_items items generation_id)

  -- The ids to delete, from the reply of XRANGE.
  unfoldable pub matching_ids : Option Value → String → List String
  unfolding match_items
  matching_ids (some (array items)) generation_id = match_items items generation_id
  matching_ids _ generation_id = []

  after_delete : List String → String → Result String String → Result String Bool × List DlqCommand
  after_delete [] generation_id enqueued = (ok false, [])
  after_delete (id ∷ ids) generation_id enqueued = (
    elim enqueued [ ok entry ↦ ok true | err m ↦ err m ],
    map xdel (id ∷ ids) ++ (enqueue generation_id "" (pos 1) ∷ []),
  )

  -- `retry_from_dlq` with `delete_dlq_entry` in it: the reply of XRANGE (or the error before it)
  -- and the result of the enqueue are what Redis answers.
  unfoldable pub retry_from_dlq :
      String
      → Result String (Option Value)
      → Result String String
      → Result String Bool × List DlqCommand
  unfolding matching_ids after_delete
  retry_from_dlq generation_id (err m) enqueued = (err m, [])
  retry_from_dlq generation_id (ok entries) enqueued =
      after_delete (matching_ids entries generation_id) generation_id enqueued
