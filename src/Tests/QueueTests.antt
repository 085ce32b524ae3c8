-- ===== src/Tests/QueueTests.antt =====
-- The queue of src/queue at concrete jobs.
use klass_mobile_backend.Prelude.{
  ℕ, ◌+◌, ◌*◌, ◌^◌, ◌≤◌, ◌<◌, ◌≡◌, ◌↔◌, refl, String, true, false, none, some, eq_iff, List, [],
  ◌∷◌, length, min, arith,
}
use klass_mobile_backend.Prelude.Int.{pos}
use klass_mobile_backend.Prelude.Result.{ok, err}
use klass_mobile_backend.Queue.{array, nil}
use klass_mobile_backend.Queue.Streams.{StreamEntry, read_messages}
use klass_mobile_backend.Queue.Streams.Roundtrip.{Job, send_stream, read_messages-send_stream}
use klass_mobile_backend.Queue.Worker.{
  Breaker, skip, read, closed, check_circuit, compute_backoff, is_retryable_error, finish_entry,
  contains,
}
use klass_mobile_backend.Queue.Worker.Backoff.{compute_backoff_exact, compute_backoff_period}
use klass_mobile_backend.Queue.Worker.Circuit.{
  Event, poll, finish, run, step, all_sent, open_iff_five_failures, check_circuit_open,
}
use klass_mobile_backend.Queue.Worker.Atomics.{
  Thread, Move, enter, turn, operate, pick, move, moves, idle,
}
use klass_mobile_backend.Queue.Worker.Atomics.Interleaved.{streak, Five, opened_after_five}
use klass_mobile_backend.Queue.Worker.Retries.{
  AccountsFor, requeued, runs, AllRetryable, finish_entry_accounts, retry_next, job_runs,
}
use klass_mobile_backend.Queue.Worker.Claim.{claim_pending, send_pending, claim_pending_all}
use klass_mobile_backend.Queue.DeadLetter.{xdel, enqueue, retry_from_dlq}
use klass_mobile_backend.Queue.DeadLetter.Retry.{Letter, send_letters, retry_from_dlq-send_letters}
use klass_mobile_backend.Tests.CodePoints.{code_points}

abbrev job : Job
job = record { id = "7-0"; generation_id = "g1"; job_id = ""; attempt = pos 2; now = "t" }

read_messages-send_stream_example :
    read_messages code_points (some (send_stream code_points "klass:media-gen" (job ∷ [])))
    ≡ record { id = "7-0"; generation_id = "g1"; job_id = none; attempt = pos 2 } ∷ []
read_messages-send_stream_example =
    read_messages-send_stream code_points "klass:media-gen" (job ∷ []) (omega arith)

abbrev first_try : StreamEntry
first_try = record { id = "1-0"; generation_id = "g1"; job_id = some "j1"; attempt = pos 1 }

abbrev same_text : String → String
same_text s = s

timeout_retryable : is_retryable_error same_text "http timeout" ≡ true
unfolding is_retryable_error contains
timeout_retryable = refl

invalid_permanent : is_retryable_error same_text "artifact_invalid" ≡ false
unfolding is_retryable_error contains
invalid_permanent = refl

finish_entry_accounts_example :
    AccountsFor same_text first_try
      (err "http timeout")
      true
      (finish_entry same_text true 100 "t" closed first_try (err "http timeout")).1
finish_entry_accounts_example =
    finish_entry_accounts same_text 100 "t" closed first_try true (err "http timeout")

retry_next_at :
    requeued code_points "2-0"
      (finish_entry same_text true 100 "t" closed first_try (err "http timeout")).1
    ≡ some (record first_try { id = "2-0"; attempt = pos 2 })
retry_next_at =
    retry_next code_points same_text 100 "2-0" "t" "http timeout" closed first_try 1 refl
      (omega arith) (ground (arith, eq_iff "j1" "")) timeout_retryable

abbrev three : List String
three = "http timeout" ∷ "http timeout" ∷ "http timeout" ∷ []

job_runs_example :
    (runs code_points same_text 100 "2-0" "t" first_try three ≤ 3)
    × (AllRetryable code_points same_text 100 "2-0" "t" three
        → 3 ≤ length three
        → runs code_points same_text 100 "2-0" "t" first_try three ≡ 3)
job_runs_example =
    job_runs code_points same_text 100 "2-0" "t" first_try three refl
      (ground (arith, eq_iff "j1" ""))

compute_backoff_exact_at : compute_backoff (pos 2) 10 90 ≡ min (10 * 2 ^ 1) 90
compute_backoff_exact_at = compute_backoff_exact 1 10 90 (omega arith) (omega arith)

compute_backoff_period_at : compute_backoff (pos 65) 10 90 ≡ compute_backoff (pos 1) 10 90
compute_backoff_period_at = compute_backoff_period 0 10 90 (omega arith)

abbrev failing : Event
failing = finish true 100 "t" first_try (err "artifact_invalid")

abbrev storm : List Event
storm = failing ∷ failing ∷ failing ∷ failing ∷ poll 120 ∷ failing ∷ poll 140 ∷ []

abbrev before : Breaker
before = record { consecutive_failures = 9; circuit_open_until = 90 }

open_iff_five_failures_example :
    let n = all_sent same_text closed storm in
    let after = run same_text (step same_text before (poll 95)) storm in
    (after.consecutive_failures ≡ n) × ((0 < after.circuit_open_until) ↔ (5 ≤ n))
open_iff_five_failures_example =
    open_iff_five_failures same_text before (poll 95) 100 storm (omega arith, omega arith)
      (omega arith) (omega arith)

-- Five failing tasks, of which the last two operate in turns.
abbrev five_fail : List Move
five_fail =
    enter (Thread.failing 100)
    ∷ turn 0
    ∷ enter (Thread.failing 100)
    ∷ turn 0
    ∷ enter (Thread.failing 100)
    ∷ turn 0
    ∷ enter (Thread.failing 101)
    ∷ enter (Thread.failing 102)
    ∷ turn 1
    ∷ turn 0
    ∷ turn 0
    ∷ []

opened_after_five_example :
    let m = moves five_fail idle in
    (m.atomics.consecutive_failures ≡ streak m.log)
    × (0 < m.atomics.circuit_open_until → Five m.log)
opened_after_five_example = opened_after_five five_fail (omega arith) (omega arith)

five_open : (moves five_fail idle).atomics.circuit_open_until ≡ 162
unfolding moves move pick operate
five_open = refl

check_circuit_open_at :
    let b : Breaker = record { consecutive_failures = 5; circuit_open_until = 160 } in
    (100 < 160
      → (s : ℕ) × (check_circuit b 100 ≡ (b, skip s)) × (0 < s) × (s ≤ 5) × (100 + s ≤ 160))
    × (160 ≤ 100 → check_circuit b 100 ≡ (closed, read))
check_circuit_open_at =
    check_circuit_open (record { consecutive_failures = 5; circuit_open_until = 160 }) 100
      (omega arith)

claim_pending_all_at :
    (claim_pending code_points 12 (ok (some (array (send_pending code_points ("1-0" ∷ []) nil))))).1
    ≡ ok ("1-0" ∷ [])
claim_pending_all_at = claim_pending_all code_points 2 0 ("1-0" ∷ []) nil (refl, tt) (omega arith)

abbrev letter : Letter
letter = record { id = "9-0"; generation_id = "g1"; attempt = pos 4; payload = "{}" }

retry_from_dlq-send_letters_example :
    retry_from_dlq code_points "g1"
      (ok (some (array (send_letters code_points (letter ∷ [])))))
      (ok "10-0")
    ≡ (ok true, xdel "9-0" ∷ enqueue "g1" "" (pos 1) ∷ [])
retry_from_dlq-send_letters_example =
    retry_from_dlq-send_letters code_points "g1" (letter ∷ []) (ok "10-0")
