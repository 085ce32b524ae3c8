-- ===== src/Orchestrator/Workflow.antt =====
-- src/orchestrator/workflow.rs: the workflow of a generation, step after step on the row that has
-- the generation's id, where there is one. The spans and logs of `timed_step` are left out.
pub mod Process
pub mod Keeps
pub mod Paths
pub mod Terminal
use klass_mobile_backend.Prelude.{
  String, ◌<>◌, Bool, true, false, Option, none, some, [], ◌∷◌, str_eq, not, ◌&&◌, if◌then◌else◌,
}
use klass_mobile_backend.Prelude.Int.{ℤ, pos}
use klass_mobile_backend.Prelude.Result.{Result, ok, err}
use klass_mobile_backend.Lifecycle.{
  MediaGenerationStatus, interpreting, classified, generating, publishing, completed, is_terminal,
  from_str, status_before,
}
use klass_mobile_backend.Json.{Json, null, boolean, string, get, or_null, str_at, pointer2}
use klass_mobile_backend.Json
use klass_mobile_backend.Orchestrator.{Generation}
use klass_mobile_backend.Orchestrator.Audit.{AuditEnv, AuditTrailError}
use klass_mobile_backend.Orchestrator.Audit.Payload.{json_object, text_or_null, or_default}
use klass_mobile_backend.Orchestrator.Audit.Service.{
  Reply, Failure, returned, panicked, initialize, transition,
}

-- What the errors of crates carry is left out.
pub data WorkflowError : Type 0 where
  not_found : String → WorkflowError
  step_failed : (step message : String) → WorkflowError
  audit_trail : AuditTrailError → WorkflowError
  decision_error : String → WorkflowError
  step_provider : String → WorkflowError
  database : WorkflowError
  invalid_uuid : WorkflowError

pub data WorkflowFailure : Type 0 where
  errored : WorkflowError → WorkflowFailure
  crashed : WorkflowFailure

-- An asynchronous function on the row: its result, and the row after it.
abbrev pub Effect {ℓ} : Type ℓ → Type ℓ
Effect A = Option Generation → Result WorkflowFailure A × Option Generation

abbrev pub after {ℓ κ} :
    {A : Type ℓ} {B : Type κ}
    → (A → Effect B)
    → Result WorkflowFailure A × Option Generation
    → Result WorkflowFailure B × Option Generation
after f (ok a, row) = f a row
after f (err e, row) = (err e, row)

infixl 5 ◌>>=◌ ◌>>◌
abbrev pub ◌>>=◌ {ℓ κ} : {A : Type ℓ} {B : Type κ} → Effect A → (A → Effect B) → Effect B
m >>= f = λ row. after f (m row)

abbrev pub ◌>>◌ {κ} : {B : Type κ} → Effect (Unit {0}) → Effect B → Effect B
m >> k = m >>= λ _. k

abbrev pub return {ℓ} : {A : Type ℓ} → A → Effect A
return a row = (ok a, row)

abbrev pub fail {ℓ} : {A : Type ℓ} → WorkflowError → Effect A
fail e row = (err (errored e), row)

abbrev pub done : Effect (Unit {0})
done = return tt

abbrev pub when : Bool → Effect (Unit {0}) → Effect (Unit {0})
when true m = m
when false m = done

-- The callbacks that the workflow is given, and `DecisionService::resolve`.
pub record StepTraits : Type 0 where
  pub interpret : String → Effect Json
  pub resolve : String → Json → Option String → Option Json → Effect Json
  pub draft : String → Effect Json
  pub submit_job : String → String → Effect (Unit {0})
  pub publish : String → Effect Json
  pub compose : String → Effect Json

-- The error of the audit trail as one of the workflow, and its payload not used.
unfoldable pub audited : Reply → Result WorkflowFailure (Unit {0}) × Option Generation
audited (ok payload, row) = (ok tt, row)
audited (err (returned e), row) = (err (errored (audit_trail e)), row)
audited (err panicked, row) = (err crashed, row)

abbrev pub text : Option Json → Option String
text o = Json.◌>>=◌ o Json.as_str

abbrev pub named : Option String → Bool
named none = false
named (some s) = not (str_eq s "")

abbrev pub is_some {ℓ} : {A : Type ℓ} → Option A → Bool
is_some none = false
is_some (some _) = true

-- `->> 'schema_version'` is neither NULL nor empty.
unfoldable pub named_value : Option Json → Bool
named_value none = false
named_value (some null) = false
named_value (some (string s)) = not (str_eq s "")
named_value (some _) = true

unfoldable pub has_schema : Option Json → Bool
has_schema none = false
has_schema (some payload) = named_value (get "schema_version" payload)

unfoldable pub is_interpretation_only : Option String → Bool
is_interpretation_only (some source) = str_eq source "interpretation_only"
is_interpretation_only none = false

unfoldable pub draft_source : Option Json → Option String
draft_source none = none
draft_source (some payload) = text (pointer2 "content_draft" "source" payload)

unfoldable pub classified_row : Generation → Bool
classified_row g =
    has_schema g.interpretation_payload
    && has_schema g.generation_spec_payload
    && named g.resolved_output_type
    && not (is_interpretation_only (draft_source g.decision_payload))

unfoldable pub published_row : Generation → Bool
published_row g = is_some g.topic_id && is_some g.content_id && is_some g.recommended_project_id

-- `->> 'triggered' = 'true'`; NULL counts as false.
unfoldable pub is_true : Option Json → Bool
is_true (some (boolean b)) = b
is_true (some (string s)) = str_eq s "true"
is_true _ = false

unfoldable pub is_fallback : Option Json → Bool
is_fallback none = false
is_fallback (some payload) = is_true (pointer2 "fallback" "triggered" payload)

-- A query that finds nothing on a missing row.
abbrev pub on_row {ℓ} : {A : Type ℓ} → A → (Generation → A) → Option Generation → A
on_row d f none = d
on_row d f (some g) = f g

-- The instants at which `process` calls the audit trail.
pub record Clock (E : AuditEnv) : Type 0 where
  pub at_start : E.Instant
  pub at_interpreting : E.Instant
  pub at_classified : E.Instant
  pub at_generating : E.Instant
  pub at_publishing : E.Instant
  pub at_completed : E.Instant

unfoldable pub known_status : String → Option MediaGenerationStatus → Effect MediaGenerationStatus
known_status s (some status) = return status
known_status s none = fail (step_failed "get_status" ("Unknown status: " <> s))

unfoldable pub read_status : String → Effect MediaGenerationStatus
read_status id none = fail (not_found id) none
read_status id (some g) = known_status g.status (from_str g.status) (some g)

-- `generation_status = 'processing'` is NULL on a NULL column, which the query does not read.
unfoldable pub processing : Option String → Effect Bool
processing none = fail database
processing (some s) = return (str_eq s "processing")

unfoldable pub read_processing : Effect Bool
read_processing none = (ok false, none)
read_processing (some g) = processing g.generation_status (some g)

abbrev pub set_processing : Generation → Generation
set_processing g = record g { generation_status = some "processing" }

abbrev pub update_row : (Generation → Generation) → Effect (Unit {0})
update_row f none = (ok tt, none)
update_row f (some g) = (ok tt, some (f g))

abbrev pub read {ℓ} : {A : Type ℓ} → (Option Generation → A) → Effect A
read f row = (ok (f row), row)

module _ (E : AuditEnv) (id : String) where
  -- `parse_uuid(generation_id)?` in front of a query.
  unfoldable pub checked {ℓ} : {A : Type ℓ} → Effect A → Effect A
  checked m = if E.parse_uuid id then m else fail invalid_uuid

  unfoldable pub get_status : Effect MediaGenerationStatus
  get_status = checked (read_status id)

  unfoldable pub before : MediaGenerationStatus → Effect Bool
  before checkpoint = do current ← get_status; return (status_before current checkpoint)

  unfoldable pub has_classification : Effect Bool
  has_classification = checked (read (on_row false classified_row))

  unfoldable pub has_publication_entities : Effect Bool
  has_publication_entities = checked (read (on_row false published_row))

  unfoldable pub has_final_delivery_payload : Effect Bool
  has_final_delivery_payload = checked (read (on_row false (λ g. has_schema g.delivery_payload)))

  unfoldable pub get_decision_context : Effect Json
  get_decision_context = checked (read (on_row null (λ g. or_null g.decision_payload)))
