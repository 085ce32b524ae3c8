-- ===== src/Queue/Worker/Atomics.antt =====
-- The operations of src/queue/worker.rs on the two atomics, one by one, with those of the other tasks in
-- between: each load, store and fetch_add is a step of its own.
pub mod Interleaved
use klass_mobile_backend.Prelude.{
  ℕ, zero, suc, ◌+◌, ◌-◌, ◌%◌, ◌^◌, ◌≤◌, ◌<◌, ◌≡◌, refl, ap, ◌∙◌, Bool, true, false, ◌&&◌, Option,
  none, some, List, [], ◌∷◌, ◌++◌, length, arith, ltb, leb, if◌then◌else◌, inl, inr, ◌⊎◌,
}
use mathlib.Core.Option
use klass_mobile_backend.Prelude.Result.{Result, ok, err}
use klass_mobile_backend.Prelude.Filter.{All}
use klass_mobile_backend.Queue.Streams.{StreamEntry}
use klass_mobile_backend.Queue.Worker.{
  Breaker, closed, circuit_breaker_threshold, circuit_breaker_cooldown_secs, check_circuit,
  count_failure, finish_entry,
}

-- Where a task or the loop stands, by its next operation. `failing` is at the fetch_add and `opening` at
-- the store after it; `succeeding` and `closing` are at the two stores of a success; `polling` is at
-- the load of the loop, `resetting` and `zeroing` at its two stores after the cooldown.
pub data Thread : Type 0 where
  failing opening polling : ℕ → Thread
  succeeding closing resetting zeroing : Thread

-- The next operation: the atomics after it, and where the thread stands then.
unfoldable pub operate : Thread → Breaker → Breaker × Option Thread
operate (failing now) b =
    let new_failures = (b.consecutive_failures + 1) % 2 ^ 32 in
    (
      record b { consecutive_failures = new_failures },
      if leb circuit_breaker_threshold new_failures
          then some (opening ((now + circuit_breaker_cooldown_secs) % 2 ^ 64))
          else none,
    )
operate (opening cooldown_until) b = (record b { circuit_open_until = cooldown_until }, none)
operate succeeding b = (record b { consecutive_failures = 0 }, some closing)
operate closing b = (record b { circuit_open_until = 0 }, none)
operate (polling now) b =
    let open_until = b.circuit_open_until in
    (b, if ltb 0 open_until && leb open_until now then some resetting else none)
operate resetting b = (record b { circuit_open_until = 0 }, some zeroing)
operate zeroing b = (record b { consecutive_failures = 0 }, none)

-- A thread without another one in between: it has three operations at most.
unfoldable pub alone : ℕ → Option Thread → Breaker → Breaker
alone zero t b = b
alone (suc n) none b = b
alone (suc n) (some t) b = let r = operate t b in alone n r.1 r.0

-- The atomics, the threads that stand somewhere, and the operations on the counter so far, the latest
-- first: true for a fetch_add, false for a store of zero.
pub record Machine : Type 0 where
  pub atomics : Breaker
  pub threads : List Thread
  pub log : List Bool

-- A thread comes in at its first operation, or the thread at a position does its next one.
pub data Move : Type 0 where
  enter : Thread → Move
  turn : ℕ → Move

-- What an operation does to the counter.
abbrev pub logged : Thread → List Bool → List Bool
logged (failing now) log = true ∷ log
logged succeeding log = false ∷ log
logged zeroing log = false ∷ log
logged _ log = log

abbrev pub put : Option Thread → List Thread → List Thread
put none ts = ts
put (some t) ts = t ∷ ts

-- The thread at a position, and the others.
unfoldable pub pick : ℕ → List Thread → Option (Thread × List Thread)
pick n [] = none
pick zero (t ∷ ts) = some (t, ts)
pick (suc n) (t ∷ ts) = Option.map (λ (r : Thread × List Thread). (r.0, t ∷ r.1)) (pick n ts)

abbrev pub turned : Option (Thread × List Thread) → Machine → Machine
turned none m = m
turned (some (t, ts)) m =
    let r = operate t m.atomics in
    record { atomics = r.0; threads = put r.1 ts; log = logged t m.log }

unfoldable pub move : Move → Machine → Machine
move (enter t) m = record m { threads = t ∷ m.threads }
move (turn n) m = turned (pick n m.threads) m

unfoldable pub moves : List Move → Machine → Machine
moves [] m = m
moves (e ∷ es) m = moves es (move e m)

abbrev pub idle : Machine
idle = record { atomics = closed; threads = []; log = [] }

-- A thread without another in between does what the functions on both atomics say.
alone-failing : (b : Breaker) (now : ℕ) → alone 3 (some (failing now)) b ≡ count_failure b now
unfolding alone operate count_failure
alone-failing b now = ground arith

alone-succeeding : (b : Breaker) → alone 3 (some succeeding) b ≡ closed
unfolding alone operate
alone-succeeding b = refl

alone-polling : (b : Breaker) (now : ℕ) → alone 3 (some (polling now)) b ≡ (check_circuit b now).0
unfolding alone operate check_circuit
alone-polling b now = ground arith
