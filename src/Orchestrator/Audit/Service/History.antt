-- ===== src/Orchestrator/Audit/Service/History.antt =====
-- The length of the history over sequences of calls.
use mathlib.Core.Option.{some-injective}
use mathlib.Core.Path.{subst}
use klass_mobile_backend.Prelude.{
  ◌≤◌, ◌≡◌, refl, sym, ap, ◌∙◌, inl, inr, String, Option, some, List, [], ◌∷◌, length, arith,
}
use klass_mobile_backend.Lifecycle.{MediaGenerationStatus, from_str}
use klass_mobile_backend.Json.{
  Json, null, boolean, number, decimal, string, array, object, get, find,
}
use klass_mobile_backend.Orchestrator.{Generation}
use klass_mobile_backend.Orchestrator.Audit.{AuditEnv, history_limit}
use klass_mobile_backend.Orchestrator.Audit.Payload.{as_history, build_base_payload}
use klass_mobile_backend.Orchestrator.Audit.Payload.Frames.{length-push_event}
use klass_mobile_backend.Orchestrator.Audit.Service.{current_payload}
use klass_mobile_backend.Orchestrator.Audit.Service.Cases.{
  IsTransition-transition, initialize-cases,
}
use klass_mobile_backend.Orchestrator.Audit.Service.FailureCases.{
  record_attempt_failure-cases, mark_failed-cases,
}
use klass_mobile_backend.Orchestrator.Audit.Service.Calls.{
  Call, initialize_call, transition_call, attempt_call, failed_call, run, run_all,
  calls_refine_lifecycle,
}
use klass_mobile_backend.Orchestrator.Audit.Service.Records.{
  events, IsStated-repeat_status, IsStated-move_status,
}
use klass_mobile_backend.Orchestrator.Audit.Service.FailureRecords.{
  IsBounded, IsBounded-fail_attempt, IsFailed-fail_payload,
}

module _ (E : AuditEnv) where
  -- The row's history, or that of the payload that stands for a null one, is within the limit.
  abbrev pub IsBoundedRow : Option Generation → Type 0
  IsBoundedRow row =
      (g : Generation) × (row ≡ some g)
      × ((now : E.Instant) → IsBounded (current_payload E now g.orchestration_audit_payload))

  IsBounded-current :
      (p : Json) → IsBounded p → (now : E.Instant) → IsBounded (current_payload E now (some p))
  unfolding current_payload build_base_payload get find as_history
  IsBounded-current null b now = omega arith
  IsBounded-current (boolean x) b now = b
  IsBounded-current (number x) b now = b
  IsBounded-current (decimal x) b now = b
  IsBounded-current (string x) b now = b
  IsBounded-current (array x) b now = b
  IsBounded-current (object x) b now = b

  IsBounded-base : (now : E.Instant) → IsBounded (build_base_payload E now)
  unfolding build_base_payload get find as_history
  IsBounded-base now = omega arith

  bounded_row :
      {row : Option Generation} (g' : Generation) (p : Json)
      → row ≡ some g'
      → g'.orchestration_audit_payload ≡ some p
      → IsBounded p
      → IsBoundedRow row
  bounded_row g' p e k b = (
    g',
    e,
    λ now. subst (λ o. IsBounded (current_payload E now o)) (sym k) (IsBounded-current p b now),
  )

  -- One call keeps the history within the limit.
  IsBoundedRow-run :
      (id : String) (call : Call E) (g : Generation) (s : MediaGenerationStatus)
      → from_str g.status ≡ some s
      → ((now : E.Instant) → IsBounded (current_payload E now g.orchestration_audit_payload))
      → IsBoundedRow (run E id call (some g)).1
  unfolding run
  IsBoundedRow-run id (initialize_call now) g s h b = elim (initialize-cases E id now g) [
    | inl (f, k) ↦ (g, ap (λ q. q.1) k, b)
    | inr (inl (p, _, _, k)) ↦ (g, ap (λ q. q.1) k, b)
    | inr (inr k) ↦ bounded_row _ _ (ap (λ q. q.1) k) refl (IsBounded-base now)
  ]
  IsBoundedRow-run id (transition_call now to c a j) g s h b =
      elim (IsTransition-transition E id now to c a j g s h) [
        | inl (f, k) ↦ (g, ap (λ q. q.1) k, b)
        | inr (inl (_, (p, r, k))) ↦
            let (_, kept) = IsStated-repeat_status E now to a j _ p r in
            bounded_row _ p (ap (λ q. q.1) k) refl
              (subst (λ es. length es ≤ history_limit) (sym kept) (b now))
        | inr (inr (_, (p, r, k))) ↦
            let (_, (f, _, e)) = IsStated-move_status E now g.status s to c a j _ p r in
            bounded_row _ p (ap (λ q. q.1) k) refl
              (subst (λ es. length es ≤ history_limit) (sym e) (length-push_event _ _))
      ]
  IsBoundedRow-run id (attempt_call now code message r c a j) g s h b =
      elim (record_attempt_failure-cases E id now code message r c a j g) [
        | inl (f, k) ↦ (g, ap (λ q. q.1) k, b)
        | inr (p, (v, _, e), k) ↦
            bounded_row _ p (ap (λ q. q.1) k) refl
              (IsBounded-fail_attempt E now code message r c a j _ p e)
      ]
  IsBoundedRow-run id (failed_call now code message r c a j) g s h b =
      elim (mark_failed-cases E id now code message r c a j g s h) [
        | inl (f, k) ↦ (g, ap (λ q. q.1) k, b)
        | inr (p, m, x, _, _, k) ↦
            let (_, _, _, _, keeps) =
              IsFailed-fail_payload E now code message r c a j _ p g.status s x in
            bounded_row _ p (ap (λ q. q.1) k) refl (keeps (b now))
      ]

  bounded_all :
      (id : String) (calls : List (Call E)) (g : Generation) (s : MediaGenerationStatus)
      → from_str g.status ≡ some s
      → ((now : E.Instant) → IsBounded (current_payload E now g.orchestration_audit_payload))
      → IsBoundedRow (run_all E id calls (some g))
  unfolding run_all
  bounded_all id [] g s h b = (g, refl, b)
  bounded_all id (call ∷ calls) g s h b =
      let (g1, e1, b1) = IsBoundedRow-run id call g s h b in
      let (g2, t, n, e2, h2, _, _) = calls_refine_lifecycle E id (call ∷ []) g s h in
      let same : g2 ≡ g1 = some-injective _ _ (sym e2 ∙ e1) in
      subst IsBoundedRow (sym (ap (run_all E id calls) e1))
        (bounded_all id calls g1 t (ap (λ x. from_str x.status) (sym same) ∙ h2) b1)

  -- Whatever calls are made on a generation with at most 50 events in its history: it has at most 50
  -- events after them. A row without a payload counts as one with the payload that it would get.
  pub history_bounded :
      (id : String) (calls : List (Call E)) (g : Generation) (s : MediaGenerationStatus)
      → from_str g.status ≡ some s
      → ((now : E.Instant)
          → length (events (current_payload E now g.orchestration_audit_payload)) ≤ 50)
      → IsBoundedRow (run_all E id calls (some g))
  history_bounded id calls g s h b = bounded_all id calls g s h b
