-- ===== src/Orchestrator/Audit/Service/Records.antt =====
-- What the payload of a successful call says: the status, the error and the history.
use klass_mobile_backend.Prelude.{
  ◌≡◌, refl, sym, ap, ◌∙◌, ◌⊎◌, inl, inr, String, true, Option, none, some, List,
}
use klass_mobile_backend.Prelude.Int.{ℤ}
use klass_mobile_backend.Prelude.Result.{ok, ok≢err, ok_injective}
use klass_mobile_backend.Lifecycle.{MediaGenerationStatus, can_transition, from_str, as_str}
use klass_mobile_backend.Lifecycle.Wire.{from_str-as_str}
use klass_mobile_backend.Json.{Json, null, string, get, set}
use klass_mobile_backend.Json.Members.{bind_some, get-set_same, get-set_other}
use klass_mobile_backend.Orchestrator.{Generation}
use klass_mobile_backend.Orchestrator.Audit.{AuditEnv}
use klass_mobile_backend.Orchestrator.Audit.Context.{filter_context}
use klass_mobile_backend.Orchestrator.Audit.Payload.{
  apply_runtime_metadata, apply_transition_timing, update_provider_trace, push_event, as_history,
}
use klass_mobile_backend.Orchestrator.Audit.Payload.Frames.{
  history-append_history, get-append_history, get-update_provider_trace, get-apply_runtime_metadata,
  get-apply_transition_timing,
}
use klass_mobile_backend.Orchestrator.Audit.Service.{
  current_payload, repeat_status, transition_event, move_status, transition, clear_error,
  set_status,
}
use klass_mobile_backend.Orchestrator.Audit.Service.Cases.{IsTransition-transition}

abbrev pub events : Json → List Json
events p = as_history (get "status_history" p)

module _ (E : AuditEnv) where
  -- The payload that names the status and has no error.
  abbrev pub IsStated : MediaGenerationStatus → Json → Type 0
  IsStated to p =
      (get "current_status" p ≡ some (string (as_str to))) × (get "latest_error" p ≡ some null)

  pub IsStated-repeat_status :
      (now : E.Instant) (to : MediaGenerationStatus) (a : Option ℤ) (j : Option Json) (p q : Json)
      → repeat_status E now to a j p ≡ some q
      → IsStated to q × (events q ≡ events p)
  unfolding repeat_status
  IsStated-repeat_status now to a j p q h =
      let (p1, e1, h1) = bind_some (apply_runtime_metadata E now a j p) _ q h in
      let (p2, e2, e3) = bind_some (set "current_status" (string (as_str to)) p1) _ q h1 in
      (
        (
          get-set_other "current_status" "latest_error" _ p2 q e3 refl
              ∙ get-set_same "current_status" _ p1 p2 e2,
          get-set_same "latest_error" _ p2 q e3,
        ),
        ap as_history (
            get-set_other "status_history" "latest_error" _ p2 q e3 refl
            ∙ get-set_other "status_history" "current_status" _ p1 p2 e2 refl
            ∙ get-apply_runtime_metadata E "status_history" now a j p p1 e1 refl),
      )

  pub IsStated-move_status :
      (now : E.Instant) (text : String) (from to : MediaGenerationStatus) (c : Option Json)
      (a : Option ℤ) (j : Option Json) (p q : Json)
      → move_status E now text from to c a j p ≡ some q
      → IsStated to q
        × ((f : Json) × (filter_context c ≡ some f)
            × (events q ≡ push_event (events p) (transition_event E now text to a f)))
  unfolding move_status
  IsStated-move_status now text from to c a j p q h =
      let (p1, e1, h1) = bind_some (apply_runtime_metadata E now a j p) _ q h in
      let (p2, e2, h2) = bind_some (apply_transition_timing E now from to p1) _ q h1 in
      let (p3, e3, h3) = bind_some (set "current_status" (string (as_str to)) p2) _ q h2 in
      let (p4, e4, h4) = bind_some (update_provider_trace p3) _ q h3 in
      let (p5, e5, h5) = bind_some (set "latest_error" null p4) _ q h4 in
      let (f, e6, e7) = bind_some (filter_context c) _ q h5 in
      let same =
        get-set_other "status_history" "latest_error" _ p4 p5 e5 refl
        ∙ get-update_provider_trace "status_history" p3 p4 e4 refl
        ∙ get-set_other "status_history" "current_status" _ p2 p3 e3 refl
        ∙ get-apply_transition_timing E "status_history" now from to p1 p2 e2 refl
        ∙ get-apply_runtime_metadata E "status_history" now a j p p1 e1 refl in
      (
        (
          get-append_history "current_status" _ p5 q e7 refl
              ∙ get-set_other "current_status" "latest_error" _ p4 p5 e5 refl
              ∙ get-update_provider_trace "current_status" p3 p4 e4 refl
              ∙ get-set_same "current_status" _ p2 p3 e3,
          get-append_history "latest_error" _ p5 q e7 refl ∙ get-set_same "latest_error" _ p4 p5 e5,
        ),
        (
          f,
          e6,
          history-append_history _ p5 q e7
              ∙ ap (λ o. push_event (as_history o) (transition_event E now text to a f)) same,
        ),
      )

  module _ (id : String) (now : E.Instant) (to : MediaGenerationStatus) (c : Option Json)
      (a : Option ℤ) (j : Option Json) (g : Generation) (from : MediaGenerationStatus) where
    abbrev before : Json
    before = current_payload E now g.orchestration_audit_payload

    -- The row after, for a payload p: the new status, the payload and no error. The payload names the
    -- status and no error. Its history is as before where the status was the same, and else has one
    -- more event at the end, with the oldest dropped beyond 50.
    abbrev pub IsRecorded : Json → Type 0
    IsRecorded p =
        (g' : Generation) × ((transition E id now to c a j (some g)).1 ≡ some g')
        × (from_str g'.status ≡ some to)
        × (g'.orchestration_audit_payload ≡ some p)
        × (g'.error_code ≡ none)
        × (g'.error_message ≡ none)
        × IsStated to p
        × (((from ≡ to) × (events p ≡ events (current_payload E now g.orchestration_audit_payload)))
            ⊎ ((can_transition from to ≡ true)
                × ((f : Json) × (filter_context c ≡ some f)
                    × (events p
                        ≡ push_event (events (current_payload E now g.orchestration_audit_payload))
                            (transition_event E now g.status to a f)))))

    -- A transition that succeeds records itself in the row and in the payload that it returns.
    pub transition-IsRecorded :
        (p : Json)
        → from_str g.status ≡ some from
        → (transition E id now to c a j (some g)).0 ≡ ok p
        → IsRecorded p
    transition-IsRecorded p h e = elim (IsTransition-transition E id now to c a j g from h) [
      | inl (f, k) ↦ absurd (ok≢err p f (sym e ∙ ap (λ q. q.0) k))
      | inr (inl (same, (q, r, k))) ↦
          let qp : q ≡ p = ok_injective (sym (ap (λ x. x.0) k) ∙ e) in
          let (stated, kept) = IsStated-repeat_status now to a j before p (r ∙ ap some qp) in
          (
            clear_error g p,
            ap (λ x. x.1) k ∙ ap (λ x. some (clear_error g x)) qp,
            h ∙ ap some same,
            refl,
            refl,
            refl,
            stated,
            inl (same, kept),
          )
      | inr (inr (allowed, (q, r, k))) ↦
          let qp : q ≡ p = ok_injective (sym (ap (λ x. x.0) k) ∙ e) in
          let (stated, logged) =
            IsStated-move_status now g.status from to c a j before p (r ∙ ap some qp) in
          (
            set_status to g p,
            ap (λ x. x.1) k ∙ ap (λ x. some (set_status to g x)) qp,
            from_str-as_str to,
            refl,
            refl,
            refl,
            stated,
            inr (allowed, logged),
          )
    ]
