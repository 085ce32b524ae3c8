-- ===== src/Orchestrator/Audit/Service/Cases.antt =====
-- The outcomes of each operation on a row.
use klass_mobile_backend.Prelude.{
  ◌≡◌, refl, sym, ◌∙◌, ◌⊎◌, inl, inr, String, Bool, true, false, Option, none, some, Bool-cases,
}
use mathlib.Core.Path.{subst}
use klass_mobile_backend.Prelude.Int.{ℤ}
use klass_mobile_backend.Prelude.Result.{ok, err}
use klass_mobile_backend.Lifecycle.{MediaGenerationStatus, can_transition, from_str, status_eq}
use klass_mobile_backend.Lifecycle.Matrix.{status_eq_iff}
use klass_mobile_backend.Json.{Json, ◌>>=◌}
use klass_mobile_backend.Orchestrator.{Generation}
use klass_mobile_backend.Orchestrator.Audit.{AuditEnv, invalid_transition}
use klass_mobile_backend.Orchestrator.Audit.Payload.{build_base_payload, apply_runtime_metadata}
use klass_mobile_backend.Orchestrator.Audit.Service.{
  Failure, returned, panicked, Reply, commit, clear_error, set_status, set_payload, with_uuid,
  has_payload, initialize, initialize_found, initialize_row, current_payload, repeat_status,
  move_status, reject, transition_from, transition_found, transition,
}

-- The operation failed and the row is as it was.
abbrev pub IsRefused : Generation → Reply → Type 0
IsRefused g r = (f : Failure) × (r ≡ (err f, some g))

-- The operation gave a payload p with the property, and the row is `f p`.
abbrev pub IsDone : (Json → Type 0) → (Json → Generation) → Reply → Type 0
IsDone P f r = (p : Json) × P p × (r ≡ (ok p, some (f p)))

pub commit-cases :
    (g : Generation) (x : Option Json) (f : Json → Generation)
    → IsRefused g (commit (some g) (x >>= λ p. some (p, f p)))
      ⊎ IsDone (λ p. x ≡ some p) f (commit (some g) (x >>= λ p. some (p, f p)))
commit-cases g none f = inl (panicked, refl)
commit-cases g (some p) f = inr (p, refl, refl)

module _ (E : AuditEnv) where
  pub IsRefused-with_uuid :
      (id : String) (g : Generation) (r : Reply)
      → (b : Bool) → E.parse_uuid id ≡ b
      → IsRefused g (with_uuid E id (some g) r) ⊎ (with_uuid E id (some g) r ≡ r)
  unfolding with_uuid
  IsRefused-with_uuid id g r true h = inr (rw h refl)
  IsRefused-with_uuid id g r false h = inl (rw h (_, refl))

  module _ (id : String) (now : E.Instant) (to : MediaGenerationStatus) (context : Option Json)
      (attempt : Option ℤ) (job_context : Option Json) (g : Generation) where
    abbrev worked_on : Json
    worked_on = current_payload E now g.orchestration_audit_payload

    -- A transition: the same status again, or an allowed one.
    abbrev pub IsTransition : MediaGenerationStatus → Reply → Type 0
    IsTransition from r =
        IsRefused g r
        ⊎ (((from ≡ to)
              × IsDone (λ p. repeat_status E now to attempt job_context worked_on ≡ some p)
                  (clear_error g) r)
            ⊎ ((can_transition from to ≡ true)
                × IsDone
                    (λ p.
                      move_status E now g.status from to context attempt job_context worked_on
                      ≡ some p)
                    (set_status to g) r))

    IsTransition-from :
        (from : MediaGenerationStatus)
        → IsTransition from (transition_from E now to context attempt job_context g from)
    unfolding transition_from reject
    IsTransition-from from = elim (Bool-cases (status_eq from to)) [
      | inl t ↦
          rw t
            (elim (commit-cases g (repeat_status E now to attempt job_context worked_on)
              (clear_error g)) [
                | inl r ↦ inl r
                | inr d ↦ inr (inl ((status_eq_iff from to).0 t, d))
              ])
      | inr f ↦ rw f (elim (Bool-cases (can_transition from to)) [
        | inl c ↦
            rw c
              (elim (commit-cases g
                (move_status E now g.status from to context attempt job_context worked_on)
                (set_status to g)) [ inl r ↦ inl r | inr d ↦ inr (inr (refl, d)) ])
        | inr c ↦ rw c (inl (rejected (apply_runtime_metadata E now attempt job_context worked_on)))
      ])
    ]
      where
        rejected : (o : Option Json) → IsRefused g (reject E from to (some g) o)
        rejected none = (panicked, refl)
        rejected (some _) = (returned (invalid_transition from to), refl)

    -- The outcomes of `transition`.
    pub IsTransition-transition :
        (from : MediaGenerationStatus)
        → from_str g.status ≡ some from
        → IsTransition from (transition E id now to context attempt job_context (some g))
    unfolding transition transition_found
    IsTransition-transition from h =
        let found : transition_found E id now to context attempt job_context (some g)
            ≡ transition_from E now to context attempt job_context g from =
          rw h refl in
        elim (IsRefused-with_uuid id g
          (transition_found E id now to context attempt job_context (some g)) (E.parse_uuid id)
          refl) [
            | inl r ↦ inl r
            | inr e ↦ subst (IsTransition from) (sym (e ∙ found)) (IsTransition-from from)
          ]

  -- The outcomes of `initialize`: the payload is kept, or a new one is written.
  pub initialize-cases :
      (id : String) (now : E.Instant) (g : Generation)
      → IsRefused g (initialize E id now (some g))
        ⊎ (((p : Json) × (g.orchestration_audit_payload ≡ some p)
              × (has_payload p ≡ true)
              × (initialize E id now (some g) ≡ (ok p, some g)))
            ⊎ (initialize E id now (some g)
                ≡ (ok (build_base_payload E now), some (set_payload g (build_base_payload E now)))))
  unfolding initialize initialize_found initialize_row
  initialize-cases id now g =
      elim (IsRefused-with_uuid id g (initialize_found E id now (some g)) (E.parse_uuid id) refl) [
        | inl r ↦ inl r
        | inr e ↦ inr (row g.orchestration_audit_payload refl e)
      ]
    where
      row :
          (o : Option Json)
          → g.orchestration_audit_payload ≡ o
          → initialize E id now (some g) ≡ initialize_row E now g o
          → ((p : Json) × (g.orchestration_audit_payload ≡ some p)
              × (has_payload p ≡ true)
              × (initialize E id now (some g) ≡ (ok p, some g)))
            ⊎ (initialize E id now (some g)
                ≡ (ok (build_base_payload E now), some (set_payload g (build_base_payload E now))))
      row none h e = inr e
      row (some p) h e = elim (Bool-cases (has_payload p)) [
        | inl t ↦ inl (p, h, t, e ∙ rw t refl)
        | inr f ↦ inr (e ∙ rw f refl)
      ]
