-- ===== src/Orchestrator/Audit/Service/Failures.antt =====
-- The operations of `AuditTrailService` that record a failure, and the reader of the payload.
use klass_mobile_backend.Prelude.{
  String, Bool, not, ◌&&◌, ◌||◌, Option, none, some, [], ◌∷◌, if◌then◌else◌,
}
use klass_mobile_backend.Prelude.Int.{ℤ, pos}
use klass_mobile_backend.Prelude.Result.{ok, err}
use klass_mobile_backend.Lifecycle.{
  MediaGenerationStatus, completed, failed, cancelled, can_transition, from_str, status_eq,
}
use klass_mobile_backend.Json.{Json, boolean, number, string, get, set, set_inner, or_null, ◌>>=◌}
use klass_mobile_backend.Orchestrator.{Generation}
use klass_mobile_backend.Orchestrator.Audit.{
  AuditEnv, not_found, database, terminal_state, sanitize_message,
}
use klass_mobile_backend.Orchestrator.Audit.Context.{filter_context, safe_throwable_context}
use klass_mobile_backend.Orchestrator.Audit.Payload.{
  or_default, number_or_null, json_object, build_base_payload, apply_runtime_metadata,
  apply_transition_timing, calculate_total_duration, append_history, update_provider_trace,
}
use klass_mobile_backend.Orchestrator.Audit.Service.{
  Reply, commit, refuse, panicked, set_payload, with_uuid, current_payload, known,
}

abbrev pub set_failed : String → String → Generation → Json → Generation
set_failed code message g payload = record g {
  status = "failed";
  generation_status = some "failed";
  orchestration_audit_payload = some payload;
  error_code = some code;
  error_message = some message;
  generation_error_code = some code;
  generation_error_message = some message;
}

-- The error that the payload keeps.
unfoldable pub error_summary : String → String → Bool → Option Json → Option Json
error_summary code message retryable context = do
  sanitized ← sanitize_message message
  some (
      json_object (
        ("error_code", string code)
        ∷ ("error_class", string "orchestrator::AuditTrailService")
        ∷ ("message", string sanitized)
        ∷ ("retryable", boolean retryable)
        ∷ ("safe_context", safe_throwable_context context)
        ∷ []))

module _ (E : AuditEnv) where
  unfoldable pub attempt_event : E.Instant → Option ℤ → Json → Json → Json → Json
  attempt_event now attempt context error payload = json_object (
      ("event_type", string "attempt_failed")
      ∷ ("status", or_null (get "current_status" payload))
      ∷ ("attempt", number (or_default (pos 0) attempt))
      ∷ ("at", string (E.to_rfc3339 now))
      ∷ ("context", context)
      ∷ ("error", error)
      ∷ [])

  unfoldable pub fail_attempt :
      E.Instant
      → (code message : String) → Bool
      → Option Json
      → Option ℤ
      → Option Json
      → Json
      → Option Json
  fail_attempt now code message retryable context attempt job_context payload = do
    applied ← apply_runtime_metadata E now attempt job_context payload
    error ← error_summary code message retryable context
    noted ← set "latest_error" error applied
    timed ←
        set_inner "timing" "total_duration_ms"
          (number_or_null (calculate_total_duration E now applied)) noted
    filtered ← filter_context context
    append_history (attempt_event now attempt filtered error timed) timed

  -- The statement changes no row where there is none, and this is not an error.
  abbrev pub store_payload : Option Generation → Option Json → Reply
  store_payload row none = (err panicked, row)
  store_payload none (some p) = (ok p, none)
  store_payload (some g) (some p) = (ok p, some (set_payload g p))

  -- The query reads the column as a value that is not NULL, so NULL is an error of the driver.
  unfoldable pub record_on :
      E.Instant
      → (code message : String) → Bool
      → Option Json
      → Option ℤ
      → Option Json
      → Generation
      → Option Json
      → Reply
  record_on now code message retryable context attempt job_context g none = refuse database (some g)
  record_on now code message retryable context attempt job_context g (some v) =
      store_payload (some g) (
        fail_attempt now code message retryable context attempt job_context
          (current_payload E now (some v)))

  unfoldable pub record_attempt_failure_found :
      E.Instant
      → (code message : String) → Bool
      → Option Json
      → Option ℤ
      → Option Json
      → Option Generation
      → Reply
  record_attempt_failure_found now code message retryable context attempt job_context none =
      store_payload none (
        fail_attempt now code message retryable context attempt job_context
          (build_base_payload E now))
  record_attempt_failure_found now code message retryable context attempt job_context (some g) =
      record_on now code message retryable context attempt job_context g
        g.orchestration_audit_payload

  unfoldable pub record_attempt_failure :
      String
      → E.Instant
      → (code message : String) → Bool
      → Option Json
      → Option ℤ
      → Option Json
      → Option Generation
      → Reply
  record_attempt_failure id now code message retryable context attempt job_context row =
      with_uuid E id row
        (record_attempt_failure_found now code message retryable context attempt job_context row)

  unfoldable pub failure_event : E.Instant → String → Option ℤ → Json → Json → Json
  failure_event now from_text attempt context error = json_object (
      ("event_type", string "status_transition")
      ∷ ("from_status", string from_text)
      ∷ ("to_status", string "failed")
      ∷ ("attempt", number (or_default (pos 0) attempt))
      ∷ ("at", string (E.to_rfc3339 now))
      ∷ ("context", context)
      ∷ ("error", error)
      ∷ [])

  -- The timing and the history of a failure, where the status is not failed yet.
  unfoldable pub log_failure :
      E.Instant
      → String
      → MediaGenerationStatus
      → Option Json
      → Option ℤ
      → Json
      → Json
      → Option Json
  log_failure now from_text from context attempt error payload =
      let logged = (do
        timed ← apply_transition_timing E now from failed payload
        filtered ← filter_context context
        append_history (failure_event now from_text attempt filtered error) timed) in
      if not (status_eq from failed) && can_transition from failed then logged else some payload

  unfoldable pub fail_payload :
      E.Instant
      → String
      → MediaGenerationStatus
      → (code message : String) → Bool
      → Option Json
      → Option ℤ
      → Option Json
      → Json
      → Option Json
  fail_payload now from_text from code message retryable context attempt job_context payload = do
    applied ← apply_runtime_metadata E now attempt job_context payload
    error ← error_summary code message retryable context
    logged ← log_failure now from_text from context attempt error applied
    stated ← set "current_status" (string "failed") logged
    traced ← update_provider_trace stated
    set "latest_error" error traced

  unfoldable pub mark_failed_from :
      String
      → E.Instant
      → (code message : String) → Bool
      → Option Json
      → Option ℤ
      → Option Json
      → Generation
      → MediaGenerationStatus
      → Reply
  mark_failed_from id now code message retryable context attempt job_context g from =
      let payload = current_payload E now g.orchestration_audit_payload in
      let marked = commit (some g) (do
        p ←
            fail_payload now g.status from code message retryable context attempt job_context
              payload
        sanitized ← sanitize_message message
        some (p, set_failed code sanitized g p)) in
      if status_eq from completed || status_eq from cancelled
      then refuse (terminal_state id from) (some g)
      else marked

  unfoldable pub mark_failed_found :
      String
      → E.Instant
      → (code message : String) → Bool
      → Option Json
      → Option ℤ
      → Option Json
      → Option Generation
      → Reply
  mark_failed_found id now code message retryable context attempt job_context none =
      refuse (not_found id) none
  mark_failed_found id now code message retryable context attempt job_context (some g) =
      known g.status (some g) (from_str g.status)
        (mark_failed_from id now code message retryable context attempt job_context g)

  unfoldable pub mark_failed :
      String
      → E.Instant
      → (code message : String) → Bool
      → Option Json
      → Option ℤ
      → Option Json
      → Option Generation
      → Reply
  mark_failed id now code message retryable context attempt job_context row =
      with_uuid E id row
        (mark_failed_found id now code message retryable context attempt job_context row)

  unfoldable pub get_payload_found : String → Option Generation → Option Json → Reply
  get_payload_found id row (some v) = (ok v, row)
  get_payload_found id none none = refuse (not_found id) none
  get_payload_found id (some g) none = refuse database (some g)

  unfoldable pub get_payload : String → Option Generation → Reply
  get_payload id row =
      with_uuid E id row (get_payload_found id row (row >>= λ g. g.orchestration_audit_payload))
