-- ===== src/Queue/Worker/Circuit.antt =====
-- The circuit breaker of the worker, over any order of polls and of tasks that end.
use klass_mobile_backend.Prelude.{
  ℕ, suc, ◌+◌, ◌-◌, ◌^◌, min, ◌≤◌, ◌<◌, ◌≡◌, ◌↔◌, String, Bool, List, [], ◌∷◌, length, arith,
}
use klass_mobile_backend.Prelude.Result.{Result, ok, err}
use klass_mobile_backend.Queue.Streams.{StreamEntry}
use klass_mobile_backend.Queue.Worker.Retries.{dead_letters, failures, only_acked, requeued_too}
use klass_mobile_backend.Prelude.{Bool-cases, inl, inr}
use klass_mobile_backend.Prelude.Int.{pos, ◌+ℤ◌, ltb_ℤ}
use klass_mobile_backend.Prelude.Word.{wrap64}
use klass_mobile_backend.Prelude.{refl, ap, ◌∙◌}
use klass_mobile_backend.Queue.Worker.{
  xack, is_retryable_error, when_connected, Breaker, handle_error, skip, read, closed,
  check_circuit, finish_entry, count_failure,
}

-- A poll of the loop, or the end of a task that was spawned after the poll at that time.
pub data Event : Type 0 where
  poll : ℕ → Event
  finish : Bool → ℕ → String → StreamEntry → Result String (Unit {0}) → Event

abbrev pub time : Event → ℕ
time (poll now) = now
time (finish connected now now_text entry result) = now

-- The epoch seconds of the events leave room for the cooldown in a `u64`.
abbrev pub InTime : List Event → Type 0
InTime [] = Unit
InTime (e ∷ es) = (time e + 60 < 2 ^ 64) × InTime es

module _ (lower : String → String) where
  unfoldable pub step : Breaker → Event → Breaker
  step b (poll now) = (check_circuit b now).0
  step b (finish connected now now_text entry result) =
      (finish_entry lower connected now now_text b entry result).0

  unfoldable pub run : Breaker → List Event → Breaker
  unfolding step
  run b [] = b
  run b (e ∷ es) = run (step b e) es

  -- How many dead letters the ends of tasks send.
  unfoldable pub all_sent : Breaker → List Event → ℕ
  unfolding step
  all_sent b [] = 0
  all_sent b (poll now ∷ es) = all_sent (step b (poll now)) es
  all_sent b (finish connected now now_text entry result ∷ es) =
      length (dead_letters (finish_entry lower connected now now_text b entry result).1)
      + all_sent (step b (finish connected now now_text entry result)) es

  -- A success, or a poll that finds the cooldown over.
  abbrev pub Restarts : Breaker → Event → Type 0
  Restarts b (poll now) = (0 < b.circuit_open_until) × (b.circuit_open_until ≤ now)
  Restarts b (finish connected now now_text entry result) = result ≡ ok tt

  -- After that, for a time: no task succeeds, the tasks that fail were read at `start` or later, and no
  -- poll comes a minute or more after it.
  abbrev pub NoRestart : ℕ → List Event → Type 0
  NoRestart start [] = Unit
  NoRestart start (poll now ∷ es) = (now < start + 60) × NoRestart start es
  NoRestart start (finish connected now now_text entry result ∷ es) =
      (start ≤ now) × (now + 60 < 2 ^ 64) × (failures result ≡ 1) × NoRestart start es

  zero_more : (n : ℕ) → n + 0 ≡ n
  zero_more n = omega arith

  sum : (a b c : ℕ) → a + (b + c) ≡ (a + b) + c
  sum a b c = omega arith

  record Inv (start n : ℕ) (b : Breaker) : Type 0 where
    counted : b.consecutive_failures ≡ n
    opened : 5 ≤ n → start + 60 ≤ b.circuit_open_until
    failed : 0 < b.circuit_open_until → 5 ≤ n

  count_failure-Inv :
      (start n now : ℕ) (b : Breaker)
      → suc n < 2 ^ 32
      → start ≤ now
      → now + 60 < 2 ^ 64
      → Inv start n b
      → Inv start (n + 1) (count_failure b now)
  unfolding count_failure
  count_failure-Inv start n now b small later fits h = ground arith

  poll-Inv :
      (start n now : ℕ) (b : Breaker)
      → now < start + 60
      → Inv start n b
      → Inv start n (check_circuit b now).0
  unfolding check_circuit
  poll-Inv start n now b early h = ground arith

  -- A failure is counted exactly when it is sent to the dead letters.
  failure-Inv :
      (start n now : ℕ) (b : Breaker) (connected : Bool) (now_text : String) (entry : StreamEntry)
      (m : String)
      → suc n < 2 ^ 32
      → start ≤ now
      → now + 60 < 2 ^ 64
      → Inv start n b
      → let r = finish_entry lower connected now now_text b entry (err m) in
        Inv start (n + length (dead_letters r.1)) r.0 × (length (dead_letters r.1) ≤ 1)
  unfolding finish_entry handle_error
  failure-Inv start n now b connected now_text entry m small later fits h =
      let one : length
            (entry.generation_id ∷ dead_letters (when_connected connected (xack entry.id ∷ [])))
          ≡ 1 =
        ap (λ (l : List String). suc (length l)) (only_acked lower now now_text b entry connected).2
        ∙ omega arith in
      let counted = count_failure-Inv start n now b small later fits h in
      elim (Bool-cases (is_retryable_error lower m)) [
        | inl t ↦ elim (Bool-cases (ltb_ℤ (pos 3) (wrap64 (entry.attempt +ℤ pos 1)))) [
          | inl l ↦ rw (t, l) ((rw one counted, omega (arith, one)))
          | inr f ↦
              let none_sent =
                ap (λ (l : List String). length l)
                  (requeued_too lower now now_text b entry connected
                    (wrap64 (entry.attempt +ℤ pos 1))).2 in
              rw (t, f) (rw none_sent (rw (zero_more n) h, omega arith))
        ]
        | inr f ↦ rw f ((rw one counted, omega (arith, one)))
      ]

  run-Inv :
      (start n : ℕ) (b : Breaker) (es : List Event)
      → n + length es < 2 ^ 32
      → NoRestart start es
      → Inv start n b
      → Inv start (n + all_sent b es) (run b es)
  unfolding run all_sent step
  run-Inv start n b [] small calm h = rw (zero_more n) h
  run-Inv start n b (poll now ∷ es) small calm h =
      run-Inv start n (check_circuit b now).0 es (omega arith) calm.1
        (poll-Inv start n now b calm.0 h)
  run-Inv start n b (finish connected now now_text entry (ok done) ∷ es) small calm h =
      absurd (omega (arith, calm.2))
  run-Inv start n b (finish connected now now_text entry (err m) ∷ es) small calm h =
      let r = finish_entry lower connected now now_text b entry (err m) in
      let (next, few) =
        failure-Inv start n now b connected now_text entry m (omega arith) calm.0 calm.1 h in
      rw (sum n (length (dead_letters r.1)) (all_sent r.0 es))
        (run-Inv start (n + length (dead_letters r.1)) r.0 es (omega (arith, few)) calm.3 next)

  restarted : (b : Breaker) (e : Event) → Restarts b e → step b e ≡ closed
  unfolding step check_circuit finish_entry
  restarted b (poll now) r = ground arith
  restarted b (finish connected now now_text entry result) r = rw r refl

  -- Whatever the breaker was before: after a success, or a poll that finds the cooldown over,
  -- take fewer than 2 ^ 32 polls and failing tasks, where the tasks were read at a time `start`
  -- or later and the polls come less than a minute after it. Then the counter is the number of
  -- jobs that these tasks sent to the dead letters, retries not counted, and the circuit has a
  -- time to stay open exactly when they are five or more. The end of each task is taken in one
  -- piece.
  pub open_iff_five_failures :
      (b : Breaker) (e : Event) (start : ℕ) (es : List Event)
      → Restarts b e
      → NoRestart start es
      → length es < 2 ^ 32
      → let n = all_sent closed es in
        let after = run (step b e) es in
        (after.consecutive_failures ≡ n) × ((0 < after.circuit_open_until) ↔ (5 ≤ n))
  open_iff_five_failures b e start es r calm small =
      let begin : Inv start 0 closed = ground arith in
      let end = run-Inv start 0 closed es (omega arith) calm begin in
      rw (restarted b e r) (
        end.counted ∙ omega arith,
        (
          λ is_open. omega (arith, end.failed is_open),
          λ five. omega (arith, end.opened (omega arith)),
        ),
      )

-- While the circuit is open the loop reads nothing: it sleeps at least one second and at most five,
-- and never past the end of the cooldown. From then on it reads, with the breaker closed.
pub check_circuit_open :
    (b : Breaker) (now : ℕ)
    → 0 < b.circuit_open_until
    → (now < b.circuit_open_until
        → (s : ℕ) × (check_circuit b now ≡ (b, skip s))
          × (0 < s)
          × (s ≤ 5)
          × (now + s ≤ b.circuit_open_until))
      × (b.circuit_open_until ≤ now → check_circuit b now ≡ (closed, read))
unfolding check_circuit
check_circuit_open b now h = (
  λ before.
      (min (b.circuit_open_until - now) 5, ground arith, omega arith, omega arith, omega arith),
  λ after. ground arith,
)
