-- ===== src/Lifecycle/Matrix.antt =====
-- The transition matrix against the list form and the order of the statuses.
use klass_mobile_backend.Prelude.{◌<◌, ◌≡◌, ◌↔◌, ◌||◌, Bool, true, false, List, [], ◌∷◌, arith}
use klass_mobile_backend.Lifecycle.{
  MediaGenerationStatus, terminal, is_terminal, can_transition, next_statuses, order_index,
  status_before, status_eq,
}

abbrev pub contains : List MediaGenerationStatus → MediaGenerationStatus → Bool
contains [] t = false
contains (s ∷ ss) t = status_eq s t || contains ss t

pub status_eq_iff : (s t : MediaGenerationStatus) → (status_eq s t ≡ true) ↔ (s ≡ t)
unfolding status_eq
status_eq_iff s t = ground arith

-- The matrix allows exactly the statuses that the list of next statuses holds.
pub can_transition-eq-contains :
    (s t : MediaGenerationStatus) → can_transition s t ≡ contains (next_statuses s) t
unfolding can_transition next_statuses status_eq
can_transition-eq-contains s t = ground arith

-- A status is terminal exactly when it is in the list of terminal statuses.
pub is_terminal-eq-contains : (s : MediaGenerationStatus) → is_terminal s ≡ contains terminal s
unfolding is_terminal status_eq
is_terminal-eq-contains s = ground arith

-- An allowed transition leaves a status that is not terminal and goes up in the order.
pub can_transition-grows :
    (s t : MediaGenerationStatus)
    → can_transition s t ≡ true
    → (is_terminal s ≡ false) × (order_index s < order_index t)
unfolding can_transition is_terminal order_index
can_transition-grows s t h = ground arith

-- A status is before a checkpoint by `status_before` whenever it may go there directly.
pub status_before_of_can_transition :
    (s t : MediaGenerationStatus) → can_transition s t ≡ true → status_before s t ≡ true
unfolding can_transition status_before
status_before_of_can_transition s t h = ground arith
