-- ===== src/Orchestrator/Audit/Service/Calls.antt =====
-- Sequences of calls of the audit trail on one generation, against the machine of the lifecycle.
use klass_mobile_backend.Prelude.{
  ℕ, ◌≤◌, ◌≡◌, refl, sym, ap, ◌∙◌, inl, inr, String, Bool, true, false, ◌⊎◌, Option, some, List, [],
  ◌∷◌, length, arith,
}
use klass_mobile_backend.Prelude.Int.{ℤ}
use klass_mobile_backend.Lifecycle.{
  MediaGenerationStatus, failed, can_transition, from_str, as_str, status_eq,
}
use klass_mobile_backend.Lifecycle.Paths.{Steps, here, step, Steps-append}
use klass_mobile_backend.Lifecycle.Wire.{from_str_iff, from_str-as_str}
use klass_mobile_backend.Json.{Json}
use klass_mobile_backend.Orchestrator.{Generation}
use klass_mobile_backend.Orchestrator.Audit.{AuditEnv}
use klass_mobile_backend.Orchestrator.Audit.Service.{Reply, initialize, transition}
use klass_mobile_backend.Orchestrator.Audit.Service.Failures.{record_attempt_failure, mark_failed}
use klass_mobile_backend.Orchestrator.Audit.Service.Cases.{
  IsRefused, IsTransition-transition, initialize-cases,
}
use klass_mobile_backend.Orchestrator.Audit.Service.FailureCases.{
  is_stuck, record_attempt_failure-cases, mark_failed-cases,
}

module _ (E : AuditEnv) where
  -- A call that writes, with its arguments.
  pub data Call : Type 0 where
    initialize_call : E.Instant → Call
    transition_call :
        E.Instant → MediaGenerationStatus → Option Json → Option ℤ → Option Json → Call
    attempt_call :
        E.Instant → (code message : String) → Bool → Option Json → Option ℤ → Option Json → Call
    failed_call :
        E.Instant → (code message : String) → Bool → Option Json → Option ℤ → Option Json → Call

  unfoldable pub run : String → Call → Option Generation → Reply
  run id (initialize_call now) row = initialize E id now row
  run id (transition_call now to c a j) row = transition E id now to c a j row
  run id (attempt_call now code message r c a j) row =
      record_attempt_failure E id now code message r c a j row
  run id (failed_call now code message r c a j) row = mark_failed E id now code message r c a j row

  unfoldable pub run_all : String → List Call → Option Generation → Option Generation
  run_all id [] row = row
  run_all id (c ∷ cs) row = run_all id cs (run id c row).1

  -- The row has a status that at most n transitions lead to.
  abbrev pub IsReached : ℕ → MediaGenerationStatus → Option Generation → Type 0
  IsReached most s row =
      (g : Generation) × (t : MediaGenerationStatus) × (n : ℕ) × (row ≡ some g)
      × (from_str g.status ≡ some t)
      × (n ≤ most)
      × Steps n s t

  module _ (g : Generation) (s : MediaGenerationStatus) (h : from_str g.status ≡ some s) where
    IsReached-refused : (r : Reply) → IsRefused g r → IsReached 1 s r.1
    IsReached-refused r (f, e) = (g, s, 0, ap (λ q. q.1) e, h, omega arith, here)

    IsReached-still :
        {row : Option Generation} (g' : Generation)
        → row ≡ some g'
        → g.status ≡ g'.status
        → IsReached 1 s row
    IsReached-still g' e k = (g', s, 0, e, ap from_str (sym k) ∙ h, omega arith, here)

    IsReached-moved :
        {row : Option Generation} (g' : Generation) (t : MediaGenerationStatus)
        → can_transition s t ≡ true
        → row ≡ some g'
        → g'.status ≡ as_str t
        → IsReached 1 s row
    IsReached-moved g' t c e k =
        (g', t, 1, e, ap from_str k ∙ from_str-as_str t, omega arith, step c here)

    -- Each status that a failure changes may go to `failed`, or is failed.
    fails : is_stuck s ≡ false → (s ≡ failed) ⊎ (can_transition s failed ≡ true)
    unfolding can_transition status_eq
    fails k = ground arith

    IsReached-run : (id : String) (c : Call) → IsReached 1 s (run id c (some g)).1
    unfolding run as_str
    IsReached-run id (initialize_call now) = elim (initialize-cases E id now g) [
      | inl r ↦ IsReached-refused _ r
      | inr (inl (p, _, _, e)) ↦ IsReached-still g (ap (λ q. q.1) e) refl
      | inr (inr e) ↦ IsReached-still _ (ap (λ q. q.1) e) refl
    ]
    IsReached-run id (transition_call now to c a j) =
        elim (IsTransition-transition E id now to c a j g s h) [
          | inl r ↦ IsReached-refused _ r
          | inr (inl (_, (p, _, e))) ↦ IsReached-still _ (ap (λ q. q.1) e) refl
          | inr (inr (k, (p, _, e))) ↦ IsReached-moved _ to k (ap (λ q. q.1) e) refl
        ]
    IsReached-run id (attempt_call now code message r c a j) =
        elim (record_attempt_failure-cases E id now code message r c a j g) [
          | inl f ↦ IsReached-refused _ f
          | inr (p, _, e) ↦ IsReached-still _ (ap (λ q. q.1) e) refl
        ]
    IsReached-run id (failed_call now code message r c a j) =
        elim (mark_failed-cases E id now code message r c a j g s h) [
          | inl f ↦ IsReached-refused _ f
          | inr (p, m, _, _, k, e) ↦ elim (fails k) [
            | inl y ↦
                IsReached-still _ (ap (λ q. q.1) e) ((from_str_iff g.status s).0 h ∙ ap as_str y)
            | inr n ↦ IsReached-moved _ failed n (ap (λ q. q.1) e) refl
          ]
        ]

  -- Whatever calls are made on a generation whose status is known, in whatever order: the status that
  -- it has after is known too, and allowed transitions lead to it, one for a call at most.
  pub calls_refine_lifecycle :
      (id : String) (calls : List Call) (g : Generation) (s : MediaGenerationStatus)
      → from_str g.status ≡ some s
      → IsReached (length calls) s (run_all id calls (some g))
  unfolding run_all
  calls_refine_lifecycle id [] g s h = (g, s, 0, refl, h, omega arith, here)
  calls_refine_lifecycle id (c ∷ cs) g s h =
      let (g1, t1, n1, e1, h1, b1, p1) = IsReached-run g s h id c in
      let (g2, t2, n2, e2, h2, b2, p2) = calls_refine_lifecycle id cs g1 t1 h1 in
      let (n, len, path) = Steps-append p1 p2 in
      (g2, t2, n, ap (run_all id cs) e1 ∙ e2, h2, omega (arith, b1, b2, len), path)
