-- ===== src/Queue/Worker.antt =====
-- src/queue/worker.rs: the event loop's decisions. A spawned task is `finish_entry`: it takes the
-- result of the workflow and gives the breaker after it and the commands that it issues, in order.
-- The waits, Redis and the dead-letter service stand for themselves as commands. Here the operations of
-- one task or of one poll on the two atomics follow each other without another task in between;
-- Queue/Worker/Atomics has them one by one.
pub mod Backoff
pub mod Circuit
pub mod Atomics
pub mod Retries
pub mod Claim
use text.Mathlib.Text.{find?}
use klass_mobile_backend.Prelude.{
  ℕ, zero, ◌+◌, ◌-◌, ◌*◌, ◌%◌, ◌^◌, min, String, Bool, true, false, not, ◌&&◌, ◌||◌, Option, none,
  some, List, [], ◌∷◌, ◌++◌, ltb, leb, ◌==◌, if◌then◌else◌,
}
use klass_mobile_backend.Prelude.Int.{ℤ, pos, negsuc, pos_part, ◌+ℤ◌, ◌-ℤ◌, ltb_ℤ}
use klass_mobile_backend.Prelude.Word.{wrap64}
use klass_mobile_backend.Prelude.Result.{Result, ok, err}
use klass_mobile_backend.Prelude.Decimal.{show_int}
use klass_mobile_backend.Queue.{Fields}
use klass_mobile_backend.Queue.Streams.{StreamEntry}

abbrev pub idle_timeout_secs : ℕ
idle_timeout_secs = 300

abbrev pub max_tries : ℤ
max_tries = pos 3

abbrev pub claim_interval : ℕ
claim_interval = 6

abbrev pub base_backoff_secs : ℕ
base_backoff_secs = 10

abbrev pub max_backoff_secs : ℕ
max_backoff_secs = 90

abbrev pub circuit_breaker_threshold : ℕ
circuit_breaker_threshold = 5

abbrev pub circuit_breaker_cooldown_secs : ℕ
circuit_breaker_cooldown_secs = 60

-- `(attempt - 1).max(0) as u32`.
unfoldable pub backoff_shift : ℤ → ℕ
backoff_shift attempt = pos_part (wrap64 (attempt -ℤ pos 1)) % 2 ^ 32

-- The shift takes its amount modulo 64; the product saturates.
unfoldable pub compute_backoff : ℤ → ℕ → ℕ → ℕ
unfolding backoff_shift
compute_backoff attempt base_secs max_secs =
    min (min (base_secs * 2 ^ (backoff_shift attempt % 64)) (2 ^ 64 - 1)) max_secs

unfoldable pub contains : String → String → Bool
contains s t = elim (find? s t) [ none ↦ false | some i ↦ true ]

-- `lower` is `str::to_lowercase`.
unfoldable pub is_retryable_error : (String → String) → String → Bool
is_retryable_error to_lowercase error_msg =
    let lower = to_lowercase error_msg in
    if contains lower "artifact_invalid"
    then false
    else if contains lower "incoming request payload failed validation"
    then false
    else if contains lower "contract validation failed"
        && not (contains lower "timeout")
        && not (contains lower "connection")
    then false
    else if contains lower "missing required" || contains lower "validation error"
    then false
    else true

-- The two atomics that the tasks share.
pub record Breaker : Type 0 where
  pub consecutive_failures : ℕ  -- u32
  pub circuit_open_until : ℕ  -- u64, 0 while the circuit is closed

abbrev pub closed : Breaker
closed = record { consecutive_failures = 0; circuit_open_until = 0 }

pub data Poll : Type 0 where
  skip : ℕ → Poll  -- sleep that many seconds, then look again
  read : Poll

-- The head of the loop, at the epoch second `now`.
unfoldable pub check_circuit : Breaker → ℕ → Breaker × Poll
check_circuit b now =
    let open_until = b.circuit_open_until in
    if ltb 0 open_until && ltb now open_until
    then (b, skip (min (open_until - now) 5))
    else if ltb 0 open_until && leb open_until now
    then (record { consecutive_failures = 0; circuit_open_until = 0 }, read)
    else (b, read)

pub data Command : Type 0 where
  xack : String → Command
  xadd : Fields → Command
  send_to_dlq : String → ℤ → String → String → Command
  sleep : ℕ → Command

-- `fetch_add`, and the circuit opens at the threshold. `now` is the loop's time of the read.
unfoldable pub count_failure : Breaker → ℕ → Breaker
count_failure b now =
    let new_failures = (b.consecutive_failures + 1) % 2 ^ 32 in
    record {
      consecutive_failures = new_failures;
      circuit_open_until =
          if leb circuit_breaker_threshold new_failures
          then (now + circuit_breaker_cooldown_secs) % 2 ^ 64
          else b.circuit_open_until;
    }

-- Without a connection the task returns before its command.
pub when_connected : Bool → List Command → List Command
when_connected connected commands = if connected then commands else []

unfoldable pub with_job_id : Option String → Fields → Fields
with_job_id none rest = rest
with_job_id (some job_id) rest = ("job_id", job_id) ∷ rest

-- The fields of the XADD that enqueues a job again.
unfoldable pub requeue_fields : StreamEntry → ℤ → String → Fields
requeue_fields entry attempt now =
    ("generation_id", entry.generation_id)
    ∷ with_job_id entry.job_id (("attempt", show_int attempt) ∷ ("enqueued_at", now) ∷ [])

-- What a task does with the message of a workflow's error.
unfoldable pub handle_error :
    (String → String) → Bool → ℕ → String → Breaker → StreamEntry → String → Breaker × List Command
unfolding when_connected
handle_error lower connected now now_text b entry error_msg =
    let new_attempt = wrap64 (entry.attempt +ℤ pos 1) in
    if not (is_retryable_error lower error_msg)
    then (
      count_failure b now,
      send_to_dlq entry.generation_id entry.attempt "PERMANENT_ERROR" error_msg
          ∷ when_connected connected (xack entry.id ∷ []),
    )
    else if ltb_ℤ max_tries new_attempt
    then (
      count_failure b now,
      send_to_dlq entry.generation_id new_attempt "WORKFLOW_FAILED" error_msg
          ∷ when_connected connected (xack entry.id ∷ []),
    )
    else (
      b,
      sleep (compute_backoff entry.attempt base_backoff_secs max_backoff_secs)
          ∷ when_connected connected
              (xack entry.id ∷ xadd (requeue_fields entry new_attempt now_text) ∷ []),
    )

-- The end of a spawned task. `connected` tells whether the pool gave a connection; the error is the
-- text of the workflow's error.
unfoldable pub finish_entry :
    (String → String)
    → Bool
    → ℕ
    → String
    → Breaker
    → StreamEntry
    → Result String (Unit {0})
    → Breaker × List Command
unfolding handle_error when_connected
finish_entry lower connected now now_text b entry (ok done) = (
  record { consecutive_failures = 0; circuit_open_until = 0 },
  when_connected connected (xack entry.id ∷ []),
)
finish_entry lower connected now now_text b entry (err error_msg) =
    handle_error lower connected now now_text b entry error_msg
