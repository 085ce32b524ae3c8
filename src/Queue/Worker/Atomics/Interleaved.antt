-- ===== src/Queue/Worker/Atomics/Interleaved.antt =====
-- The breaker of the worker in any interleaving of the operations of its tasks and its loop.
use klass_mobile_backend.Prelude.{
  ℕ, zero, suc, ◌+◌, ◌%◌, ◌^◌, ◌≤◌, ◌<◌, ◌≡◌, refl, Bool, true, false, Option, none, some, List, [],
  ◌∷◌, length, arith, if◌then◌else◌, inl, inr, ◌⊎◌,
}
use mathlib.Core.Option
use klass_mobile_backend.Prelude.Filter.{All}
use klass_mobile_backend.Queue.Worker.{Breaker}
use klass_mobile_backend.Queue.Worker.Atomics.{
  Thread, failing, opening, polling, succeeding, closing, resetting, zeroing, operate, Machine,
  Move, enter, turn, logged, put, pick, turned, move, moves, idle,
}

-- Tasks and the loop come in at their first operation.
abbrev pub IsFirst : Thread → Type 0
IsFirst (failing now) = now + 60 < 2 ^ 64
IsFirst (polling now) = Unit
IsFirst succeeding = Unit
IsFirst _ = ⊥

abbrev pub AllFirst : List Move → Type 0
AllFirst [] = Unit
AllFirst (enter t ∷ es) = IsFirst t × AllFirst es
AllFirst (turn n ∷ es) = AllFirst es

-- The fetch_adds since the last store of zero.
abbrev pub streak : List Bool → ℕ
streak [] = 0
streak (true ∷ log) = suc (streak log)
streak (false ∷ log) = 0

-- Somewhere in the log there are five fetch_adds with no store of zero in between.
abbrev pub Five : List Bool → Type 0
Five [] = ⊥
Five (x ∷ log) = (5 ≤ streak (x ∷ log)) ⊎ Five log

IsWarranted : List Bool → Thread → Type 0
IsWarranted log (failing now) = now + 60 < 2 ^ 64
IsWarranted log (opening cooldown_until) = Five log
IsWarranted log t = Unit

record Inv (m : Machine) : Type 0 where
  counted : m.atomics.consecutive_failures ≡ streak m.log
  opened : 0 < m.atomics.circuit_open_until → Five m.log
  warranted : All (IsWarranted m.log) m.threads

more : (x : Bool) (log : List Bool) (t : Thread) → IsWarranted log t → IsWarranted (x ∷ log) t
unfolding IsWarranted
more x log (failing now) w = w
more x log (opening u) w = inr w
more x log (polling now) w = tt
more x log succeeding w = tt
more x log closing w = tt
more x log resetting w = tt
more x log zeroing w = tt

All-more :
    (x : Bool) (log : List Bool) (ts : List Thread)
    → All (IsWarranted log) ts
    → All (IsWarranted (x ∷ log)) ts
All-more x log [] w = tt
All-more x log (t ∷ ts) w = (more x log t w.0, All-more x log ts w.1)

put_if :
    (c : Bool) (log : List Bool) (t : Thread) (ts : List Thread)
    → (c ≡ true → IsWarranted log t)
    → All (IsWarranted log) ts
    → All (IsWarranted log) (put (if c then some t else none) ts)
put_if true log t ts w all = (w refl, all)
put_if false log t ts w all = all

operate-Inv :
    (t : Thread) (b : Breaker) (ts : List Thread) (log : List Bool)
    → suc (streak log) < 2 ^ 32
    → b.consecutive_failures ≡ streak log
    → (0 < b.circuit_open_until → Five log)
    → IsWarranted log t
    → All (IsWarranted log) ts
    → Inv (turned (some (t, ts)) (record { atomics = b; threads = t ∷ ts; log = log }))
unfolding operate IsWarranted
operate-Inv (failing now) b ts log small c o w all =
    let new : (b.consecutive_failures + 1) % 2 ^ 32 ≡ suc (streak log) = rw c (omega arith) in
    record {
      counted = new;
      opened = λ h. inr (o h);
      warranted =
          put_if _ (true ∷ log) (opening _) ts (λ h. inl (ground (arith, new, h)))
            (All-more true log ts all);
    }
operate-Inv (opening u) b ts log small c o w all = record {
  counted = c;
  opened = λ _. w;
  warranted = all;
}
operate-Inv (polling now) b ts log small c o w all = record {
  counted = c;
  opened = o;
  warranted = put_if _ log resetting ts (λ h. tt) all;
}
operate-Inv succeeding b ts log small c o w all = record {
  counted = refl;
  opened = λ h. inr (o h);
  warranted = (tt, All-more false log ts all);
}
operate-Inv closing b ts log small c o w all = record {
  counted = c;
  opened = λ h. absurd (omega arith);
  warranted = all;
}
operate-Inv resetting b ts log small c o w all = record {
  counted = c;
  opened = λ h. absurd (omega arith);
  warranted = (tt, all);
}
operate-Inv zeroing b ts log small c o w all = record {
  counted = refl;
  opened = λ h. inr (o h);
  warranted = All-more false log ts all;
}

Picked : (Thread → Type 0) → Option (Thread × List Thread) → Type 0
Picked P none = Unit
Picked P (some (t, ts)) = P t × All P ts

Picked-map :
    (P : Thread → Type 0) (t : Thread) (o : Option (Thread × List Thread))
    → P t
    → Picked P o
    → Picked P (Option.map (λ (r : Thread × List Thread). (r.0, t ∷ r.1)) o)
unfolding Picked
Picked-map P t none p h = tt
Picked-map P t (some (u, us)) p h = (h.0, (p, h.1))

Picked-pick : (P : Thread → Type 0) (n : ℕ) (ts : List Thread) → All P ts → Picked P (pick n ts)
unfolding pick Picked
Picked-pick P n [] h = tt
Picked-pick P zero (t ∷ ts) h = h
Picked-pick P (suc n) (t ∷ ts) h = Picked-map P t (pick n ts) h.0 (Picked-pick P n ts h.1)

streak-length : (log : List Bool) → streak log ≤ length log
streak-length [] = omega arith
streak-length (true ∷ log) = omega (arith, streak-length log)
streak-length (false ∷ log) = omega arith

logged-length : (t : Thread) (log : List Bool) → length (logged t log) ≤ suc (length log)
logged-length (failing now) log = omega arith
logged-length (opening u) log = omega arith
logged-length (polling now) log = omega arith
logged-length succeeding log = omega arith
logged-length closing log = omega arith
logged-length resetting log = omega arith
logged-length zeroing log = omega arith

turned-Inv :
    (o : Option (Thread × List Thread)) (m : Machine)
    → suc (length m.log) < 2 ^ 32
    → Picked (IsWarranted m.log) o
    → Inv m
    → Inv (turned o m) × (length (turned o m).log ≤ suc (length m.log))
unfolding Picked
turned-Inv none m small p h = (h, omega arith)
turned-Inv (some (t, ts)) m small p h = (
  operate-Inv t m.atomics ts m.log (omega (arith, streak-length m.log)) h.counted h.opened p.0 p.1,
  logged-length t m.log,
)

first : (log : List Bool) (t : Thread) → IsFirst t → IsWarranted log t
unfolding IsWarranted
first log (failing now) f = f
first log (polling now) f = tt
first log succeeding f = tt
first log (opening u) f = absurd f
first log closing f = absurd f
first log resetting f = absurd f
first log zeroing f = absurd f

moves-Inv :
    (es : List Move) (m : Machine)
    → length m.log + length es < 2 ^ 32
    → AllFirst es
    → Inv m
    → Inv (moves es m)
unfolding moves move
moves-Inv [] m small f h = h
moves-Inv (enter t ∷ es) m small f h =
    moves-Inv es (record m { threads = t ∷ m.threads }) (omega arith) f.1
      (record {
        counted = h.counted;
        opened = h.opened;
        warranted = (first m.log t f.0, h.warranted);
      })
moves-Inv (turn n ∷ es) m small f h =
    let (next, few) =
      turned-Inv (pick n m.threads) m (omega arith) (Picked-pick _ n m.threads h.warranted) h in
    moves-Inv es (turned (pick n m.threads) m) (omega (arith, few)) f next

-- Let failing and succeeding tasks and polls of the loop come in, at times that leave room for
-- the cooldown, and do their operations on the atomics in any interleaving, in fewer than 2 ^ 32
-- steps. Then the counter is the number of fetch_adds since it was last stored as zero, and while
-- the circuit has a time to stay open there were, at some time, five fetch_adds with no store of
-- zero in between.
pub opened_after_five :
    (es : List Move)
    → length es < 2 ^ 32
    → AllFirst es
    → let m = moves es idle in
      (m.atomics.consecutive_failures ≡ streak m.log)
      × (0 < m.atomics.circuit_open_until → Five m.log)
opened_after_five es small f =
    let begin : Inv idle = record {
      counted = refl;
      opened = λ h. absurd (omega arith);
      warranted = tt;
    } in
    let end = moves-Inv es idle (omega arith) f begin in (end.counted, end.opened)
