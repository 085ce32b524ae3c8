-- ===== src/Lifecycle/Paths.antt =====
-- Sequences of transitions.
use klass_mobile_backend.Prelude.{ℕ, zero, suc, ◌+◌, ◌≤◌, ◌≡◌, ◌⊎◌, inl, inr, refl, true, arith}
use mathlib.Core.Path.{subst₂}
use klass_mobile_backend.Lifecycle.{
  MediaGenerationStatus, queued, interpreting, classified, generating, uploading, publishing,
  completed, failed, cancelled, is_terminal, can_transition, order_index, status_before,
}
use klass_mobile_backend.Lifecycle.Matrix.{can_transition-grows}

-- `Steps n s t`: `n` allowed transitions lead from `s` to `t`.
pub data Steps : ℕ → MediaGenerationStatus → MediaGenerationStatus → Type 0 where
  here : {s : MediaGenerationStatus} → Steps zero s s
  step :
      {n : ℕ} {s t u : MediaGenerationStatus}
      → can_transition s t ≡ true
      → Steps n t u
      → Steps (suc n) s u

pub Steps-append :
    {m n : ℕ} {s t u : MediaGenerationStatus}
    → Steps m s t
    → Steps n t u
    → (k : ℕ) × (k ≡ m + n) × Steps k s u
Steps-append {n = n} here q = (n, omega arith, q)
Steps-append (step h r) q = let (k, e, p) = Steps-append r q in (suc k, omega (arith, e), step h p)

-- Each transition of a sequence goes up in the order by one at least.
pub Steps-order :
    {n : ℕ} {s t : MediaGenerationStatus} → Steps n s t → n + order_index s ≤ order_index t
Steps-order here = omega arith
Steps-order (step {s = s} {t = t} h r) =
    omega (arith, (can_transition-grows s t h).1, Steps-order r)

-- Nothing leaves a terminal status: the sequence is empty and the status stays.
pub terminal-Steps :
    {n : ℕ} {s t : MediaGenerationStatus} → is_terminal s ≡ true → Steps n s t → (n ≡ 0) × (s ≡ t)
terminal-Steps h here = (refl, refl)
terminal-Steps h (step {s = s} {t = t} c r) = ground (arith, can_transition-grows s t c)

-- How many transitions lead to `completed` from a status, where any do.
abbrev pub distance : MediaGenerationStatus → ℕ
distance queued = 6
distance interpreting = 5
distance classified = 4
distance generating = 3
distance uploading = 2
distance publishing = 1
distance _ = 0

distance-step :
    (s t : MediaGenerationStatus)
    → can_transition s t ≡ true
    → ((t ≡ failed) ⊎ (t ≡ cancelled)) ⊎ (distance s ≡ suc (distance t))
unfolding can_transition
distance-step s t h = ground arith

failed_stays : {n : ℕ} → Steps n failed completed → ⊥
unfolding is_terminal
failed_stays r = ground (arith, terminal-Steps refl r)

cancelled_stays : {n : ℕ} → Steps n cancelled completed → ⊥
unfolding is_terminal
cancelled_stays r = ground (arith, terminal-Steps refl r)

length-of-Steps :
    {n : ℕ} {s t : MediaGenerationStatus} → Steps n s t → t ≡ completed → n ≡ distance s
length-of-Steps here e = ground arith
length-of-Steps (step {n = n} {s = s} {t = t} h r) e = elim (distance-step s t h) [
  | inl (inl f) ↦ absurd (failed_stays (subst₂ (Steps n) f e r))
  | inl (inr c) ↦ absurd (cancelled_stays (subst₂ (Steps n) c e r))
  | inr d ↦ omega (arith, length-of-Steps r e)
]

-- A sequence that ends in `completed` skips no status: its length is the distance of its start,
-- six from `queued`.
pub Steps-completed : {n : ℕ} {s : MediaGenerationStatus} → Steps n s completed → n ≡ distance s
Steps-completed r = length-of-Steps r refl

-- A status is before each status that one or more transitions lead to.
pub status_before_of_Steps :
    {n : ℕ} {s t : MediaGenerationStatus} → Steps (suc n) s t → status_before s t ≡ true
unfolding status_before
status_before_of_Steps (step {s = s} {t = t} c r) =
    ground (arith, can_transition-grows s t c, Steps-order r)
