-- ===== src/Queue/Streams.antt =====
-- src/queue/redis_streams.rs (`enqueue`) and the reader of src/queue/worker.rs: the fields that a
-- job is enqueued with, and how the reply of XREADGROUP is parsed into entries.
pub mod Roundtrip
use mathlib.Core.Option
use klass_mobile_backend.Prelude.{
  ℕ, String, ◌<>◌, Bool, not, Option, none, some, List, [], ◌∷◌, ◌++◌, str_eq, if◌then◌else◌,
}
use klass_mobile_backend.Prelude.Int.{ℤ, pos}
use klass_mobile_backend.Prelude.Result.{Result, ok, err}
use klass_mobile_backend.Prelude.Decimal.{show_int, parse_i64}
use klass_mobile_backend.Queue.{
  Codec, Value, Values, array, bulk_string, simple_string, int, nil, cons, value_to_str, Fields,
}

abbrev pub stream_key : String
stream_key = "klass:media-gen"

abbrev pub consumer_group : String
consumer_group = "klass-workers"

-- The fields after `XADD klass:media-gen *`; `now` is the current time as text.
unfoldable pub enqueue_fields : String → String → ℤ → String → Fields
enqueue_fields generation_id job_id attempt now =
    ("generation_id", generation_id)
    ∷ ("job_id", job_id)
    ∷ ("attempt", show_int attempt)
    ∷ ("enqueued_at", now)
    ∷ []

-- What `create_consumer_group` makes of the answer of XGROUP CREATE: `busy` tells whether the
-- message of the error holds "BUSYGROUP".
unfoldable pub group_result {ℓ} :
    {A : Type ℓ} → (String → Bool) → Result String A → Result String (Unit {0})
group_result busy (ok a) = ok tt
group_result busy (err m) = if busy m then ok tt else err m

-- `payload`, the same four values as JSON, is left out: nothing reads it.
pub record StreamEntry : Type 0 where
  pub id : String
  pub generation_id : String
  pub job_id : Option String
  pub attempt : ℤ

-- `HashMap::get` where `insert` puts a pair in front.
unfoldable pub get : String → Fields → Option String
get k [] = none
get k ((j, v) ∷ m) = if str_eq j k then some v else get k m

unfoldable pub unwrap_or_default : Option String → String
unwrap_or_default none = ""
unwrap_or_default (some s) = s

module _ (C : Codec) where
  insert_field : Option String → Option String → Fields → Fields
  unfolding unwrap_or_default
  insert_field none v m = m
  insert_field (some k) v m = (k, unwrap_or_default v) ∷ m

  -- The loop over `chunks(2)`; a last chunk of one value is skipped.
  unfoldable pub read_fields : Values → Fields → Fields
  unfolding insert_field
  read_fields nil m = m
  read_fields (cons k nil) m = m
  read_fields (cons k (cons v rest)) m =
      read_fields rest (insert_field (value_to_str C k) (value_to_str C v) m)

  -- `result.push((entry_id, fields))`, where the fields are an array.
  push_message : String → Value → Option (List (String × Fields)) → Option (List (String × Fields))
  unfolding read_fields
  push_message id (array fields) rest = Option.map (λ l. (id, read_fields fields []) ∷ l) rest
  push_message id _ rest = rest

  with_id :
      Option String → Value → Option (List (String × Fields)) → Option (List (String × Fields))
  unfolding push_message
  with_id none fields rest = none
  with_id (some id) fields rest = push_message id fields rest

  -- One message; `rest` is the result of the messages after it. Only an id that is no text ends
  -- the whole loop with `none`.
  message : Value → Option (List (String × Fields)) → Option (List (String × Fields))
  unfolding with_id
  message (array (cons id (cons fields more))) rest = with_id (value_to_str C id) fields rest
  message _ rest = rest

  unfoldable pub messages : Values → Option (List (String × Fields))
  unfolding message
  messages nil = some []
  messages (cons msg msgs) = message msg (messages msgs)

  unfoldable pub extract_messages : Value → Option (List (String × Fields))
  unfolding messages
  extract_messages (array (cons name (cons (array msgs) more))) = messages msgs
  extract_messages _ = none

  non_empty : Option String → Option String
  non_empty none = none
  non_empty (some v) = if str_eq v "" then none else some v

  attempt_or_one : Option ℤ → ℤ
  attempt_or_one none = pos 1
  attempt_or_one (some a) = a

  parse_attempt : Option String → Option ℤ
  parse_attempt none = none
  parse_attempt (some v) = parse_i64 v

  unfoldable pub entry_of : String × Fields → StreamEntry
  unfolding unwrap_or_default non_empty attempt_or_one parse_attempt
  entry_of (id, fields) = record {
    id = id;
    generation_id = unwrap_or_default (get "generation_id" fields);
    job_id = non_empty (get "job_id" fields);
    attempt = attempt_or_one (parse_attempt (get "attempt" fields));
  }

  entries_of : Option (List (String × Fields)) → List StreamEntry
  unfolding entry_of
  entries_of none = []
  entries_of (some []) = []
  entries_of (some (m ∷ ms)) = entry_of m ∷ entries_of (some ms)

  streams : Values → List StreamEntry
  unfolding extract_messages entries_of
  streams nil = []
  streams (cons s ss) = entries_of (extract_messages s) ++ streams ss

  -- What `read_messages` makes of the reply, `none` for a reply that is nil.
  unfoldable pub read_messages : Option Value → List StreamEntry
  unfolding streams
  read_messages (some (array ss)) = streams ss
  read_messages _ = []
