-- ===== src/Orchestrator/Audit/Service.antt =====
-- The operations of `AuditTrailService` on the row that has the generation's id, where there is one.
-- Each is one transaction under a row lock: what fails or panics in it leaves the row as it was.
pub mod Failures
pub mod Cases
pub mod FailureCases
pub mod Calls
pub mod Records
pub mod FailureRecords
pub mod History
pub mod Totality
use klass_mobile_backend.Prelude.{
  String, ◌<>◌, Bool, true, false, not, ◌&&◌, ◌||◌, Option, none, some, [], ◌∷◌, str_eq,
  if◌then◌else◌,
}
use klass_mobile_backend.Prelude.Int.{ℤ, pos}
use klass_mobile_backend.Prelude.Result.{Result, ok, err}
use klass_mobile_backend.Lifecycle.{
  MediaGenerationStatus, completed, failed, cancelled, can_transition, from_str, as_str, status_eq,
}
use klass_mobile_backend.Json.{
  Json, null, boolean, number, string, object, get, set, set_inner, or_null, ◌>>=◌,
}
use klass_mobile_backend.Orchestrator.{Generation}
use klass_mobile_backend.Orchestrator.Audit.{
  AuditEnv, AuditTrailError, not_found, invalid_transition, database, terminal_state, payload_error,
  schema_version, sanitize_message,
}
use klass_mobile_backend.Orchestrator.Audit.Context.{filter_context, safe_throwable_context}
use klass_mobile_backend.Orchestrator.Audit.Payload.{
  or_default, number_or_null, json_object, build_base_payload, apply_runtime_metadata,
  apply_transition_timing, calculate_total_duration, append_history, update_provider_trace,
}

-- How an operation fails: with the error that it returns, or by a panic.
pub data Failure : Type 0 where
  returned : AuditTrailError → Failure
  panicked : Failure

abbrev pub Reply : Type 0
Reply = Result Failure Json × Option Generation

-- The commit of a new row and the payload in it; nothing is written after a panic.
abbrev pub commit : Option Generation → Option (Json × Generation) → Reply
commit row none = (err panicked, row)
commit row (some (payload, g)) = (ok payload, some g)

abbrev pub refuse : AuditTrailError → Option Generation → Reply
refuse e row = (err (returned e), row)

-- A payload of the right schema that has a history, whatever that is.
unfoldable pub is_current : Option Json → Bool → Bool
is_current (some (string version)) has_history = str_eq version schema_version && has_history
is_current _ has_history = false

abbrev is_some {ℓ} : {A : Type ℓ} → Option A → Bool
is_some none = false
is_some (some _) = true

unfoldable pub has_payload : Json → Bool
unfolding is_current
has_payload v = is_current (get "schema_version" v) (is_some (get "status_history" v))

-- The statement that ends a transition, and the one where the status is the same already.
abbrev pub clear_error : Generation → Json → Generation
clear_error g payload = record g {
  orchestration_audit_payload = some payload;
  error_code = none;
  error_message = none;
}

abbrev pub set_status : MediaGenerationStatus → Generation → Json → Generation
set_status to g payload = record g {
  status = as_str to;
  orchestration_audit_payload = some payload;
  error_code = none;
  error_message = none;
}

abbrev pub set_payload : Generation → Json → Generation
set_payload g payload = record g { orchestration_audit_payload = some payload }

-- The rest of an operation, where the row's status is one of the statuses.
abbrev pub known :
    String
    → Option Generation
    → Option MediaGenerationStatus
    → (MediaGenerationStatus → Reply)
    → Reply
known text row none rest = refuse (payload_error ("Unknown status: " <> text)) row
known text row (some s) rest = rest s

module _ (E : AuditEnv) where
  -- The payload to work on: the row's, where it is not null, else a new one.
  unfoldable pub current_payload : E.Instant → Option Json → Json
  current_payload now none = build_base_payload E now
  current_payload now (some null) = build_base_payload E now
  current_payload now (some v) = v

  unfoldable pub with_uuid : String → Option Generation → Reply → Reply
  with_uuid id row reply =
      if E.parse_uuid id then reply else refuse (payload_error ("Invalid UUID: " <> id)) row

  unfoldable pub initialize_row : E.Instant → Generation → Option Json → Reply
  initialize_row now g none =
      let base = build_base_payload E now in (ok base, some (set_payload g base))
  initialize_row now g (some v) =
      let base = build_base_payload E now in
      if has_payload v then (ok v, some g) else (ok base, some (set_payload g base))

  unfoldable pub initialize_found : String → E.Instant → Option Generation → Reply
  initialize_found id now none = refuse (not_found id) none
  initialize_found id now (some g) = initialize_row now g g.orchestration_audit_payload

  unfoldable pub initialize : String → E.Instant → Option Generation → Reply
  initialize id now row = with_uuid id row (initialize_found id now row)

  -- The payload where the status stays.
  unfoldable pub repeat_status :
      E.Instant → MediaGenerationStatus → Option ℤ → Option Json → Json → Option Json
  repeat_status now to attempt job_context payload = do
    applied ← apply_runtime_metadata E now attempt job_context payload
    stated ← set "current_status" (string (as_str to)) applied
    set "latest_error" null stated

  unfoldable pub transition_event :
      E.Instant → String → (to : MediaGenerationStatus) → Option ℤ → Json → Json
  transition_event now from_text to attempt context = json_object (
      ("event_type", string "status_transition")
      ∷ ("from_status", string from_text)
      ∷ ("to_status", string (as_str to))
      ∷ ("attempt", number (or_default (pos 0) attempt))
      ∷ ("at", string (E.to_rfc3339 now))
      ∷ ("context", context)
      ∷ [])

  -- The payload of a transition to another status.
  unfoldable pub move_status :
      E.Instant
      → (from_text : String) → (from to : MediaGenerationStatus) → Option Json
      → Option ℤ
      → Option Json
      → Json
      → Option Json
  move_status now from_text from to context attempt job_context payload = do
    applied ← apply_runtime_metadata E now attempt job_context payload
    timed ← apply_transition_timing E now from to applied
    stated ← set "current_status" (string (as_str to)) timed
    traced ← update_provider_trace stated
    cleared ← set "latest_error" null traced
    filtered ← filter_context context
    append_history (transition_event now from_text to attempt filtered) cleared

  -- A panic before the check of the transition comes from the runtime metadata.
  unfoldable pub reject :
      (from to : MediaGenerationStatus) → Option Generation → Option Json → Reply
  reject from to row none = (err panicked, row)
  reject from to row (some _) = refuse (invalid_transition from to) row

  unfoldable pub transition_from :
      E.Instant
      → (to : MediaGenerationStatus) → Option Json
      → Option ℤ
      → Option Json
      → Generation
      → MediaGenerationStatus
      → Reply
  transition_from now to context attempt job_context g from =
      let payload = current_payload now g.orchestration_audit_payload in
      let same =
        commit (some g)
          (do p ← repeat_status now to attempt job_context payload; some (p, clear_error g p)) in
      let moved = commit (some g) (do
        p ← move_status now g.status from to context attempt job_context payload
        some (p, set_status to g p)) in
      if status_eq from to
      then same
      else if not (can_transition from to)
      then reject from to (some g) (apply_runtime_metadata E now attempt job_context payload)
      else moved

  unfoldable pub transition_found :
      String
      → E.Instant
      → MediaGenerationStatus
      → Option Json
      → Option ℤ
      → Option Json
      → Option Generation
      → Reply
  transition_found id now to context attempt job_context none = refuse (not_found id) none
  transition_found id now to context attempt job_context (some g) =
      known g.status (some g) (from_str g.status)
        (transition_from now to context attempt job_context g)

  unfoldable pub transition :
      String
      → E.Instant
      → MediaGenerationStatus
      → Option Json
      → Option ℤ
      → Option Json
      → Option Generation
      → Reply
  transition id now to context attempt job_context row =
      with_uuid id row (transition_found id now to context attempt job_context row)
