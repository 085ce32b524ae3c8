-- ===== src/Orchestrator/Audit/Service/FailureRecords.antt =====
-- What a recorded failure leaves in the payload and in the row.
use mathlib.Core.Bool.{true≢false}
use mathlib.Core.Option.{some-injective}
use mathlib.Core.Path.{subst}
use klass_mobile_backend.Prelude.{
  ◌≤◌, ◌≡◌, ◌≢◌, refl, sym, ap, ◌∙◌, inl, inr, String, Bool, true, false, not, ◌&&◌, Option, some,
  length, if◌then◌else◌,
}
use klass_mobile_backend.Prelude.Int.{ℤ}
use klass_mobile_backend.Prelude.Result.{ok, ok≢err, ok_injective}
use klass_mobile_backend.Lifecycle.{
  MediaGenerationStatus, completed, failed, cancelled, can_transition, from_str, status_eq,
  order_index,
}
use klass_mobile_backend.Json.{Json, string, get, set, set_inner, ◌>>=◌}
use klass_mobile_backend.Json.Members.{bind_some, get-set_same, get-set_other}
use klass_mobile_backend.Orchestrator.{Generation}
use klass_mobile_backend.Orchestrator.Audit.{AuditEnv, history_limit, sanitize_message}
use klass_mobile_backend.Orchestrator.Audit.Context.{filter_context}
use klass_mobile_backend.Orchestrator.Audit.Payload.{
  apply_runtime_metadata, apply_transition_timing, update_provider_trace, as_history,
  append_history,
}
use klass_mobile_backend.Orchestrator.Audit.Payload.Frames.{
  length-push_event, history-append_history, get-update_provider_trace, get-apply_runtime_metadata,
}
use klass_mobile_backend.Orchestrator.Audit.Service.{current_payload}
use klass_mobile_backend.Orchestrator.Audit.Service.Failures.{
  set_failed, failure_event, error_summary, log_failure, fail_payload, fail_attempt, mark_failed,
}
use klass_mobile_backend.Orchestrator.Audit.Service.FailureCases.{is_stuck, mark_failed-cases}
use klass_mobile_backend.Orchestrator.Audit.Service.Records.{events}

abbrev pub IsBounded : Json → Type 0
IsBounded p = length (events p) ≤ history_limit

IsBounded-after : (event p q : Json) → append_history event p ≡ some q → IsBounded q
IsBounded-after event p q h =
    subst (λ es. length es ≤ history_limit) (sym (history-append_history event p q h))
      (length-push_event (events p) event)

IsBounded-same :
    (p q : Json) → get "status_history" q ≡ get "status_history" p → IsBounded p → IsBounded q
IsBounded-same p q e b = subst (λ o. length (as_history o) ≤ history_limit) (sym e) b

stuck_completed : is_stuck completed ≡ false → ⊥
unfolding status_eq order_index
stuck_completed h = true≢false h

stuck_cancelled : is_stuck cancelled ≡ false → ⊥
unfolding status_eq order_index
stuck_cancelled h = true≢false h

module _ (E : AuditEnv) where
  IsBounded-log_failure :
      (now : E.Instant) (text : String) (from : MediaGenerationStatus) (c : Option Json)
      (a : Option ℤ) (error p q : Json)
      → log_failure E now text from c a error p ≡ some q
      → IsBounded p
      → IsBounded q
  unfolding log_failure
  IsBounded-log_failure now text from c a error p q h b =
      logged (not (status_eq from failed) && can_transition from failed) h
    where
      logged :
          (t : Bool)
          → (if t
              then (apply_transition_timing E now from failed p >>= λ timed.
                  filter_context c >>= λ f.
                  append_history (failure_event E now text a f error) timed)
              else some p)
            ≡ some q
          → IsBounded q
      logged false e = subst IsBounded (some-injective _ _ e) b
      logged true e =
          let (p1, _, e1) = bind_some (apply_transition_timing E now from failed p) _ q e in
          let (f, _, e2) = bind_some (filter_context c) _ q e1 in IsBounded-after _ p1 q e2

  module _ (now : E.Instant) (code message : String) (r : Bool) (c : Option Json) (a : Option ℤ)
      (j : Option Json) (p q : Json) where
    pub IsBounded-fail_attempt : fail_attempt E now code message r c a j p ≡ some q → IsBounded q
    unfolding fail_attempt
    IsBounded-fail_attempt h =
        let (p1, _, h1) = bind_some (apply_runtime_metadata E now a j p) _ q h in
        let (error, _, h2) = bind_some (error_summary code message r c) _ q h1 in
        let (p2, _, h3) = bind_some (set "latest_error" error p1) _ q h2 in
        let (p3, _, h4) = bind_some (set_inner "timing" "total_duration_ms" _ p2) _ q h3 in
        let (f, _, h5) = bind_some (filter_context c) _ q h4 in IsBounded-after _ p3 q h5

    -- The payload of a failure names the status and the error.
    pub IsFailed-fail_payload :
        (text : String) (from : MediaGenerationStatus)
        → fail_payload E now text from code message r c a j p ≡ some q
        → (error : Json) × (error_summary code message r c ≡ some error)
          × (get "current_status" q ≡ some (string "failed"))
          × (get "latest_error" q ≡ some error)
          × (IsBounded p → IsBounded q)
    unfolding fail_payload
    IsFailed-fail_payload text from h =
        let (p1, e1, h1) = bind_some (apply_runtime_metadata E now a j p) _ q h in
        let (error, e2, h2) = bind_some (error_summary code message r c) _ q h1 in
        let (p2, e3, h3) = bind_some (log_failure E now text from c a error p1) _ q h2 in
        let (p3, e4, h4) = bind_some (set "current_status" (string "failed") p2) _ q h3 in
        let (p4, e5, h5) = bind_some (update_provider_trace p3) _ q h4 in
        (
          error,
          e2,
          get-set_other "current_status" "latest_error" _ p4 q h5 refl
              ∙ get-update_provider_trace "current_status" p3 p4 e5 refl
              ∙ get-set_same "current_status" _ p2 p3 e4,
          get-set_same "latest_error" _ p4 q h5,
          λ b.
              IsBounded-same p2 q
                (get-set_other "status_history" "latest_error" _ p4 q h5 refl
                  ∙ get-update_provider_trace "status_history" p3 p4 e5 refl
                  ∙ get-set_other "status_history" "current_status" _ p2 p3 e4 refl)
                (IsBounded-log_failure now text from c a error p1 p2 e3 (
                  IsBounded-same p p1
                    (get-apply_runtime_metadata E "status_history" now a j p p1 e1 refl) b)),
        )

  module _ (id : String) (now : E.Instant) (code message : String) (r : Bool) (c : Option Json)
      (a : Option ℤ) (j : Option Json) (g : Generation) (from : MediaGenerationStatus) where
    -- The row after, for a payload p: failed, with the caller's code and the sanitized message; the
    -- payload says so too.
    abbrev pub IsFailure : Json → Type 0
    IsFailure p =
        (m : String) × (error : Json) × (g' : Generation) × (sanitize_message message ≡ some m)
        × (error_summary code message r c ≡ some error)
        × ((mark_failed E id now code message r c a j (some g)).1 ≡ some g')
        × (g'.status ≡ "failed")
        × (g'.generation_status ≡ some "failed")
        × (g'.error_code ≡ some code)
        × (g'.error_message ≡ some m)
        × (g'.orchestration_audit_payload ≡ some p)
        × (get "current_status" p ≡ some (string "failed"))
        × (get "latest_error" p ≡ some error)
        × (from ≢ completed)
        × (from ≢ cancelled)

    -- A failure that is recorded leaves the status `failed` in both columns and in the payload, and
    -- the caller's code with the sanitized message; a completed or cancelled generation has none.
    pub mark_failed-IsFailure :
        (p : Json)
        → from_str g.status ≡ some from
        → (mark_failed E id now code message r c a j (some g)).0 ≡ ok p
        → IsFailure p
    mark_failed-IsFailure p h e = elim (mark_failed-cases E id now code message r c a j g from h) [
      | inl (f, k) ↦ absurd (ok≢err p f (sym e ∙ ap (λ q. q.0) k))
      | inr (q, m, x, y, free, k) ↦
          let qp : q ≡ p = ok_injective (sym (ap (λ q. q.0) k) ∙ e) in
          let (error, made, status, latest, _) =
            IsFailed-fail_payload now code message r c a j
              (current_payload E now g.orchestration_audit_payload) p g.status from
              (x ∙ ap some qp) in
          (
            m,
            error,
            set_failed code m g p,
            y,
            made,
            ap (λ x. x.1) k ∙ ap (λ x. some (set_failed code m g x)) qp,
            refl,
            refl,
            refl,
            refl,
            refl,
            status,
            latest,
            (λ is. stuck_completed (ap is_stuck (sym is) ∙ free)),
            (λ is. stuck_cancelled (ap is_stuck (sym is) ∙ free)),
          )
    ]
