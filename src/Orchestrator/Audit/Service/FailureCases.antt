-- ===== src/Orchestrator/Audit/Service/FailureCases.antt =====
-- The outcomes on a row of the operations that record a failure.
use klass_mobile_backend.Prelude.{
  ◌≡◌, refl, sym, ◌∙◌, ◌⊎◌, inl, inr, String, Bool, false, ◌||◌, Option, none, some, Bool-cases,
}
use mathlib.Core.Path.{subst}
use klass_mobile_backend.Prelude.Int.{ℤ}
use klass_mobile_backend.Prelude.Result.{ok}
use klass_mobile_backend.Lifecycle.{
  MediaGenerationStatus, completed, cancelled, from_str, status_eq,
}
use klass_mobile_backend.Json.{Json, ◌>>=◌}
use klass_mobile_backend.Orchestrator.{Generation}
use klass_mobile_backend.Orchestrator.Audit.{AuditEnv, sanitize_message}
use klass_mobile_backend.Orchestrator.Audit.Service.{
  panicked, Reply, commit, set_payload, current_payload,
}
use klass_mobile_backend.Orchestrator.Audit.Service.Failures.{
  set_failed, fail_attempt, store_payload, record_on, record_attempt_failure_found,
  record_attempt_failure, fail_payload, mark_failed_from, mark_failed_found, mark_failed,
}
use klass_mobile_backend.Orchestrator.Audit.Service.Cases.{IsRefused, IsDone, IsRefused-with_uuid}

-- The statuses that a failure does not change.
abbrev pub is_stuck : MediaGenerationStatus → Bool
is_stuck from = status_eq from completed || status_eq from cancelled

module _ (E : AuditEnv) (id : String) (now : E.Instant) (code message : String) (retryable : Bool)
    (context : Option Json) (attempt : Option ℤ) (job_context : Option Json) (g : Generation) where
  abbrev attempted : Reply
  attempted =
      record_attempt_failure E id now code message retryable context attempt job_context (some g)

  abbrev IsAttempt : Reply → Type 0
  IsAttempt r =
      IsRefused g r
      ⊎ IsDone
          (λ p.
            (v : Json) × (g.orchestration_audit_payload ≡ some v)
            × (fail_attempt E now code message retryable context attempt job_context
                  (current_payload E now (some v))
                ≡ some p))
          (set_payload g) r

  IsAttempt-record_on :
      (o : Option Json)
      → g.orchestration_audit_payload ≡ o
      → IsAttempt (record_on E now code message retryable context attempt job_context g o)
  unfolding record_on
  IsAttempt-record_on none h = inl (_, refl)
  IsAttempt-record_on (some v) h =
      stored
        (fail_attempt E now code message retryable context attempt job_context
          (current_payload E now (some v)))
        refl
    where
      stored :
          (x : Option Json)
          → fail_attempt E now code message retryable context attempt job_context
              (current_payload E now (some v))
            ≡ x
          → IsAttempt (store_payload E (some g) x)
      stored none e = inl (panicked, refl)
      stored (some p) e = inr (p, (v, h, e), refl)

  -- The outcomes of `record_attempt_failure`.
  pub record_attempt_failure-cases :
      IsAttempt (
        record_attempt_failure E id now code message retryable context attempt job_context (some g))
  unfolding record_attempt_failure record_attempt_failure_found
  record_attempt_failure-cases =
      let found =
        record_attempt_failure_found E now code message retryable context attempt job_context
          (some g) in
      elim (IsRefused-with_uuid E id g found (E.parse_uuid id) refl) [
        | inl r ↦ inl r
        | inr e ↦ subst IsAttempt (sym e) (IsAttempt-record_on g.orchestration_audit_payload refl)
      ]

  -- The payload and the sanitized message of a failure.
  abbrev IsMarked : MediaGenerationStatus → Reply → Type 0
  IsMarked from r =
      IsRefused g r
      ⊎ ((p : Json) × (m : String) × (fail_payload E now g.status from code message retryable
              context attempt job_context (current_payload E now g.orchestration_audit_payload)
            ≡ some p)
          × (sanitize_message message ≡ some m)
          × (is_stuck from ≡ false)
          × (r ≡ (ok p, some (set_failed code m g p))))

  IsMarked-from :
      (from : MediaGenerationStatus)
      → IsMarked from
          (mark_failed_from E id now code message retryable context attempt job_context g from)
  unfolding mark_failed_from
  IsMarked-from from = elim (Bool-cases (is_stuck from)) [
    | inl t ↦ rw t (inl (_, refl))
    | inr f ↦ rw f (
        both
          (fail_payload E now g.status from code message retryable context attempt job_context
            (current_payload E now g.orchestration_audit_payload))
          (sanitize_message message))
  ]
    where
      both :
          (x : Option Json) (y : Option String)
          → IsRefused g (commit (some g) (x >>= λ p. y >>= λ m. some (p, set_failed code m g p)))
            ⊎ ((p : Json) × (m : String) × (x ≡ some p)
                × (y ≡ some m)
                × (false ≡ false)
                × (commit (some g) (x >>= λ p. y >>= λ m. some (p, set_failed code m g p))
                    ≡ (ok p, some (set_failed code m g p))))
      both none y = inl (panicked, refl)
      both (some p) none = inl (panicked, refl)
      both (some p) (some m) = inr (p, m, refl, refl, refl, refl)

  -- The outcomes of `mark_failed`.
  pub mark_failed-cases :
      (from : MediaGenerationStatus)
      → from_str g.status ≡ some from
      → IsMarked from
          (mark_failed E id now code message retryable context attempt job_context (some g))
  unfolding mark_failed mark_failed_found
  mark_failed-cases from h =
      let found =
        mark_failed_found E id now code message retryable context attempt job_context (some g) in
      let known_status : found
          ≡ mark_failed_from E id now code message retryable context attempt job_context g from =
        rw h refl in
      elim (IsRefused-with_uuid E id g found (E.parse_uuid id) refl) [
        | inl r ↦ inl r
        | inr e ↦ subst (IsMarked from) (sym (e ∙ known_status)) (IsMarked-from from)
      ]
