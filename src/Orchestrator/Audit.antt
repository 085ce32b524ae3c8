-- ===== src/Orchestrator/Audit.antt =====
-- src/orchestrator/audit_trail.rs: the audit payload of a media generation. Here the types and the
-- sanitizer of messages; the filter of contexts, the payload's updates and the service are children.
pub mod Messages
pub mod Context
pub mod Payload
pub mod Service
use klass_mobile_backend.Prelude.{
  ℕ, String, Bool, true, false, Option, none, some, ltb, if◌then◌else◌, ◌≡◌,
}
use klass_mobile_backend.Prelude.Int.{ℤ}
use klass_mobile_backend.Prelude.Text.{space, is_whitespace, trim, len, slice_to}
use klass_mobile_backend.Json.{Json, null}
use klass_mobile_backend.Lifecycle.{MediaGenerationStatus}

-- What is called of the crates chrono and uuid: the clock's instants, their text and their
-- milliseconds, the parser of texts, and whether a text is a UUID; and of PostgreSQL's `->> 0`, the
-- text of a value's first element.
pub record AuditEnv : Type 1 where
  pub Instant : Type 0
  pub to_rfc3339 : Instant → String
  pub parse_from_rfc3339 : String → Option Instant
  pub timestamp_millis : Instant → ℤ
  pub parse_uuid : String → Bool
  pub first_text : Json → Option String

abbrev pub schema_version : String
schema_version = "media_generation_orchestration_audit.v1"

abbrev pub history_limit : ℕ
history_limit = 50

-- A database error is one constructor: which error the driver gives is not modelled.
pub data AuditTrailError : Type 0 where
  not_found : String → AuditTrailError
  invalid_transition : (from to : MediaGenerationStatus) → AuditTrailError
  database : AuditTrailError
  terminal_state : String → MediaGenerationStatus → AuditTrailError
  payload_error : String → AuditTrailError

-- The fold of `sanitize_message`: a run of white space becomes one space.
unfoldable pub collapse : Bool → String → String
collapse prev_space String.[] = String.[]
collapse prev_space (String.◌∷◌ c s) =
    let after_space = collapse true s in
    let after_char = collapse false s in
    if is_whitespace c
    then if prev_space then after_space else String.◌∷◌ space after_space
    else String.◌∷◌ c after_char

unfoldable pub limit_message : String → Option String
limit_message collapsed = if ltb 240 (len collapsed) then slice_to 240 collapsed else some collapsed

-- `none` is the panic of the slice.
unfoldable pub sanitize_message : String → Option String
unfolding limit_message
sanitize_message message = limit_message (trim (collapse false message))
