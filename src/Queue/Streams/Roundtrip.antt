-- ===== src/Queue/Streams/Roundtrip.antt =====
-- Jobs go through the stream unchanged: what `enqueue` writes is what `read_messages` reads.
use klass_mobile_backend.Prelude.{
  String, ◌≡◌, refl, none, some, List, [], ◌∷◌, map, str_eq, ap, if◌then◌else◌,
}
use mathlib.Core.List.{append-nil}
use klass_mobile_backend.Prelude.Int.{ℤ}
use klass_mobile_backend.Prelude.Decimal.{show_int}
use klass_mobile_backend.Prelude.Decimal.Laws.{Fits64, parse_i64-show_int}
use klass_mobile_backend.Queue.{
  Codec, Value, Values, array, bulk_string, nil, cons, value_to_str, Fields,
}
use klass_mobile_backend.Queue.Streams.{
  StreamEntry, enqueue_fields, messages, extract_messages, entry_of, entries_of, get, read_messages,
}

-- A job as it is enqueued, with the id that Redis gives it.
pub record Job : Type 0 where
  pub id : String
  pub generation_id : String
  pub job_id : String
  pub attempt : ℤ
  pub now : String

abbrev pub AllFit : List Job → Type 0
AllFit [] = Unit
AllFit (j ∷ js) = Fits64 j.attempt × AllFit js

-- The entry of a job: no job id where the text is empty.
abbrev pub as_entry : Job → StreamEntry
as_entry j = record {
  id = j.id;
  generation_id = j.generation_id;
  job_id = if str_eq j.job_id "" then none else some j.job_id;
  attempt = j.attempt;
}

module _ (C : Codec) where
  abbrev pub bulk : String → Value
  bulk s = bulk_string (C.bytes s)

  -- How Redis sends the fields of an entry: names and values in turn.
  abbrev pub send_fields : Fields → Values
  send_fields [] = nil
  send_fields ((k, v) ∷ m) = cons (bulk k) (cons (bulk v) (send_fields m))

  abbrev pub send_job : Job → Value
  send_job j = array (
      cons (bulk j.id)
        (cons (array (send_fields (enqueue_fields j.generation_id j.job_id j.attempt j.now))) nil))

  abbrev pub send_jobs : List Job → Values
  send_jobs [] = nil
  send_jobs (j ∷ js) = cons (send_job j) (send_jobs js)

  -- The reply of XREADGROUP for one stream.
  abbrev pub send_stream : String → List Job → Value
  send_stream name js =
      array (cons (array (cons (bulk name) (cons (array (send_jobs js)) nil))) nil)

  pub value_to_str-bulk : (s : String) → value_to_str C (bulk s) ≡ some s
  unfolding value_to_str
  value_to_str-bulk s = ap some (C.from_utf8_lossy-bytes s)

  read_back : Job → String × Fields
  read_back j = (
    j.id,
    ("enqueued_at", j.now)
        ∷ ("attempt", show_int j.attempt)
        ∷ ("job_id", j.job_id)
        ∷ ("generation_id", j.generation_id)
        ∷ [],
  )

  messages-send_jobs : (js : List Job) → messages C (send_jobs js) ≡ some (map read_back js)
  unfolding messages enqueue_fields read_back
  messages-send_jobs [] = refl
  messages-send_jobs (j ∷ js) = simp (value_to_str-bulk, messages-send_jobs js)

  entry_of-read_back : (j : Job) → Fits64 j.attempt → entry_of C (read_back j) ≡ as_entry j
  unfolding entry_of read_back get
  entry_of-read_back j h = simp (parse_i64-show_int j.attempt h)

  entries_of-read_back :
      (js : List Job) → AllFit js → entries_of C (some (map read_back js)) ≡ map as_entry js
  unfolding entries_of
  entries_of-read_back [] h = refl
  entries_of-read_back (j ∷ js) h = simp (entry_of-read_back j h.0, entries_of-read_back js h.1)

  -- Where attempts fit an `i64`, the worker reads of a stream exactly the jobs that were enqueued,
  -- in their order: the generation, the job id unless it is empty, and the attempt.
  pub read_messages-send_stream :
      (name : String) (js : List Job)
      → AllFit js
      → read_messages C (some (send_stream name js)) ≡ map as_entry js
  unfolding read_messages extract_messages
  read_messages-send_stream name js h =
      rw (messages-send_jobs js, entries_of-read_back js h) (append-nil _)
