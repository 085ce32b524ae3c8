-- ===== src/Tests/OrchestratorTests.antt =====
-- The orchestrator at concrete rows. An instant is its number of milliseconds, printed in decimal,
-- and callbacks change nothing.
use klass_mobile_backend.Prelude.{
  ℕ, zero, suc, ◌⊎◌, ◌≤◌, ◌≡◌, refl, String, true, not, Option, none, some, List, [], ◌∷◌, length,
  arith,
}
use Prim.Native.Char.{char}
use klass_mobile_backend.Prelude.Int.{pos}
use klass_mobile_backend.Prelude.Decimal.{show_nat}
use klass_mobile_backend.Prelude.Result.{Result, ok, ok_or}
use klass_mobile_backend.Prelude.Text.{
  is_empty, is_ascii, len, is_whitespace, trim, trim_start, trim_end, len_utf8, slice_to,
}
use klass_mobile_backend.Lifecycle
use klass_mobile_backend.Json
use klass_mobile_backend.Lifecycle.{
  MediaGenerationStatus, queued, interpreting, classified, generating, completed, failed, from_str,
  can_transition, status_eq, status_before, order_index, is_terminal,
}
use klass_mobile_backend.Lifecycle.Paths.{Steps, here, step}
use klass_mobile_backend.Json.{
  Json, null, boolean, number, string, array, object, of_list, of_members, get, pointer2, as_str,
  Props, find, set, insert, update, update_found,
}
use klass_mobile_backend.Orchestrator.{Generation}
use klass_mobile_backend.Orchestrator.Audit.{AuditEnv, sanitize_message, limit_message, collapse}
use klass_mobile_backend.Orchestrator.Audit.Messages.{sanitize_message-ascii}
use klass_mobile_backend.Orchestrator.Audit.Context.{
  filter_context, filter_context_inner, filter_members, close, filter_text, truncate, filter_items,
  keep_text, insert_text, insert_items, insert_nested, object_or_null,
}
use klass_mobile_backend.Orchestrator.Audit.Context.Shape.{members_ok, filter_context_shape}
use klass_mobile_backend.Orchestrator.Audit.Payload.{
  build_base_payload, json_object, apply_runtime_metadata, copy_job_context, as_history,
  apply_transition_timing, add_duration, start_processing, update_provider_trace, default_member,
  append_history,
}
use klass_mobile_backend.Orchestrator.Audit.Service.{
  Failure, transition, initialize, initialize_found, initialize_row, has_payload, is_current,
  move_status, with_uuid, transition_found, transition_from, current_payload,
}
use klass_mobile_backend.Orchestrator.Audit.Service.Failures.{
  mark_failed, mark_failed_found, mark_failed_from, fail_payload, log_failure, error_summary,
}
use klass_mobile_backend.Orchestrator.Audit.Service.Calls.{
  Call, initialize_call, transition_call, run_all, IsReached, calls_refine_lifecycle,
}
use klass_mobile_backend.Orchestrator.Audit.Service.Records.{IsRecorded, transition-IsRecorded}
use klass_mobile_backend.Orchestrator.Audit.Service.FailureRecords.{
  IsFailure, mark_failed-IsFailure,
}
use klass_mobile_backend.Orchestrator.Audit.Service.History.{IsBoundedRow, history_bounded}
use klass_mobile_backend.Orchestrator.Audit.Service.Totality.{IsSoundRow, path_is_taken}
use klass_mobile_backend.Orchestrator.Audit.Payload.Sound.{IsSound-base}
use klass_mobile_backend.Orchestrator.Workflow.{
  StepTraits, Clock, return, audited, checked, get_status, read_status, known_status, before,
  has_classification, classified_row, has_schema, get_decision_context, read_processing, processing,
}
use klass_mobile_backend.Orchestrator.Workflow.Process.{
  process, run_steps, ensure_classified, ensure_generated, advance, move_to, submit, classify,
  finish, classification_context, generation_context,
}
use klass_mobile_backend.Orchestrator.Workflow.Keeps.{QuietSteps, lifecycle_status}
use klass_mobile_backend.Orchestrator.Workflow.Paths.{
  process_refines_lifecycle, process_stops_at_generating,
}
use klass_mobile_backend.Orchestrator.Workflow.Terminal.{process-terminal}

abbrev env : AuditEnv
env = record {
  Instant = ℕ;
  to_rfc3339 = show_nat;
  parse_from_rfc3339 = λ s. none;
  timestamp_millis = pos;
  parse_uuid = λ s. not (is_empty s);
  first_text = λ v. none;
}

abbrev pub row : String → Option Json → Generation
row text payload = record {
  status = text;
  generation_status = some "pending";
  preferred_output_type = none;
  resolved_output_type = none;
  interpretation_payload = none;
  generation_spec_payload = none;
  decision_payload = none;
  delivery_payload = none;
  orchestration_audit_payload = payload;
  topic_id = none;
  content_id = none;
  recommended_project_id = none;
  error_code = none;
  error_message = none;
  generation_error_code = none;
  generation_error_message = none;
  mime_type = none;
  teacher_id = none;
  generator_service_response = none;
  storage_path = none;
  file_url = none;
  thumbnail_url = none;
}

abbrev new_row : Generation
new_row = row "queued" none

sanitize_message-ascii_example :
    (t : String) × (sanitize_message " render  failed " ≡ some t) × (len t ≤ 240)
unfolding is_ascii
sanitize_message-ascii_example = sanitize_message-ascii " render  failed " refl

abbrev letters_then : ℕ → String → String
letters_then zero s = s
letters_then (suc n) s = String.◌∷◌ (char 97 tt) (letters_then n s)

-- The slice of a message panics inside a character.
sanitize_message_panics : sanitize_message (letters_then 239 "éb") ≡ none
unfolding sanitize_message limit_message collapse is_whitespace trim trim_start trim_end is_empty
    len len_utf8 slice_to
sanitize_message_panics = refl

abbrev context : Json
context = json_object (
    ("step", string " render ")
    ∷ ("none", null)
    ∷ ("tries", array (of_list (number (pos 1) ∷ null ∷ [])))
    ∷ (
      "inner",
      json_object (("deep", json_object (("x", boolean true) ∷ [])) ∷ ("y", boolean true) ∷ []),
    )
    ∷ [])

abbrev filtered : Json
filtered = json_object (
    ("step", string "render")
    ∷ ("tries", array (of_list (number (pos 1) ∷ [])))
    ∷ ("inner", json_object (("y", boolean true) ∷ []))
    ∷ [])

filter_context_at : filter_context (some context) ≡ some filtered
unfolding filter_context filter_context_inner filter_members close filter_text truncate filter_items
    keep_text insert_text insert_items insert_nested object_or_null insert sanitize_message
    limit_message collapse is_whitespace trim trim_start trim_end is_empty len len_utf8 slice_to
filter_context_at = refl

filter_context_shape_example :
    (null ≡ filtered) ⊎ ((ps : Props) × (object ps ≡ filtered) × (members_ok 1 ps ≡ true))
filter_context_shape_example = filter_context_shape (some context) filtered filter_context_at

abbrev two_calls : List (Call env)
two_calls =
    initialize_call 10 ∷ transition_call 20 interpreting (some context) (some (pos 1)) none ∷ []

calls_refine_lifecycle_example :
    IsReached env (length two_calls) queued (run_all env "g1" two_calls (some new_row))
unfolding from_str
calls_refine_lifecycle_example = calls_refine_lifecycle env "g1" two_calls new_row queued refl

history_bounded_example : IsBoundedRow env (run_all env "g1" two_calls (some new_row))
unfolding from_str current_payload build_base_payload get find as_history
history_bounded_example =
    history_bounded env "g1" two_calls new_row queued refl (λ now. omega arith)

path_is_taken_example :
    (g' : Generation) × (run_all env "g1"
        (transition_call 20 interpreting (some context) none none
          ∷ transition_call 20 classified (some context) none none
          ∷ [])
        (some new_row)
      ≡ some g')
    × (from_str g'.status ≡ some classified)
    × IsSoundRow env g'
unfolding from_str can_transition is_empty current_payload
path_is_taken_example =
    path_is_taken env "g1" refl 20 (some context) filtered filter_context_at none none
      (step {t = interpreting} refl (step refl here)) new_row refl (λ now. IsSound-base env now)

abbrev payload_of : Result Failure Json → Json
payload_of r = ok_or null r

abbrev moved : Result Failure Json
moved = (transition env "g1" 20 interpreting none none none (some new_row)).0

transition-IsRecorded_example :
    IsRecorded env "g1" 20 interpreting none none none new_row queued (payload_of moved)
unfolding from_str transition transition_found transition_from with_uuid current_payload
    build_base_payload is_empty status_eq can_transition apply_runtime_metadata copy_job_context
    update update_found get find set insert order_index move_status apply_transition_timing
    add_duration start_processing update_provider_trace default_member filter_context append_history
    pointer2 as_str
transition-IsRecorded_example =
    transition-IsRecorded env "g1" 20 interpreting none none none new_row queued (payload_of moved)
      refl refl

abbrev failing : Result Failure Json
failing = (mark_failed env "g1" 20 "timeout" "no answer" true none none none (some new_row)).0

mark_failed-IsFailure_example :
    IsFailure env "g1" 20 "timeout" "no answer" true none none none new_row queued
      (payload_of failing)
unfolding from_str mark_failed mark_failed_found mark_failed_from fail_payload log_failure
    error_summary with_uuid current_payload build_base_payload is_empty status_eq can_transition
    apply_runtime_metadata copy_job_context update update_found get find set insert order_index
    apply_transition_timing add_duration start_processing update_provider_trace default_member
    filter_context append_history sanitize_message limit_message collapse is_whitespace trim
    trim_start trim_end len len_utf8 slice_to pointer2 as_str
mark_failed-IsFailure_example =
    mark_failed-IsFailure env "g1" 20 "timeout" "no answer" true none none none new_row queued
      (payload_of failing) refl refl

abbrev silent : StepTraits
silent = record {
  interpret = λ id. return null;
  resolve = λ id v o w. return null;
  draft = λ id. return null;
  submit_job = λ id jid. return tt;
  publish = λ id. return null;
  compose = λ id. return null;
}

abbrev quiet : QuietSteps silent
quiet = record {
  interpret = λ id r. refl;
  resolve = λ id v o w r. refl;
  draft = λ id r. refl;
  submit_job = λ id jid r. refl;
  publish = λ id r. refl;
  compose = λ id r. refl;
}

abbrev clock : Clock env
clock = record {
  at_start = 10;
  at_interpreting = 20;
  at_classified = 30;
  at_generating = 40;
  at_publishing = 50;
  at_completed = 60;
}

process_refines_lifecycle_example :
    (t : MediaGenerationStatus) × (lifecycle_status
        (process env "g1" none none clock silent (some "j1") (some new_row)).1
      ≡ some t)
    × ((n : ℕ) × Steps n queued t)
unfolding from_str
process_refines_lifecycle_example =
    process_refines_lifecycle env "g1" none none clock silent quiet (some "j1") new_row queued refl

process_stops_at_generating_example :
    (t : MediaGenerationStatus) × (lifecycle_status
        (process env "g1" none none clock silent none (some new_row)).1
      ≡ some t)
    × (order_index t ≤ 3)
unfolding from_str order_index
process_stops_at_generating_example =
    process_stops_at_generating env "g1" none none clock silent quiet none new_row queued refl
      (omega arith)

-- A run with a job leaves the generation to the renderer.
abbrev after_run : Option Generation
after_run = (process env "g1" none none clock silent (some "j1") (some new_row)).1

abbrev columns : Option Generation → List (Option String)
columns none = []
columns (some g) = some g.status ∷ g.generation_status ∷ []

after_run-columns : columns after_run ≡ some "generating" ∷ some "processing" ∷ []
unfolding process audited initialize initialize_found initialize_row checked get_status read_status
    known_status before run_steps ensure_classified ensure_generated advance move_to submit classify
    has_classification classified_row has_schema get_decision_context read_processing processing
    finish classification_context generation_context from_str transition transition_found
    transition_from with_uuid current_payload build_base_payload is_empty status_eq can_transition
    apply_runtime_metadata copy_job_context update update_found get find set insert order_index
    move_status apply_transition_timing add_duration start_processing update_provider_trace
    default_member filter_context filter_context_inner filter_members close filter_text truncate
    insert_text insert_items insert_nested object_or_null append_history pointer2 as_str
    sanitize_message limit_message collapse is_whitespace trim trim_start trim_end len len_utf8
    slice_to status_before is_terminal Json.or_null Lifecycle.as_str
after_run-columns = refl

abbrev base : Json
base = build_base_payload env 10

process-terminal_example :
    process env "g1" none none clock silent (some "j1") (some (row "failed" (some base)))
    ≡ (ok tt, some (row "failed" (some base)))
unfolding from_str is_empty is_terminal has_payload is_current build_base_payload get find
process-terminal_example =
    process-terminal env "g1" none none clock silent (some "j1") (row "failed" (some base)) failed
      base refl refl refl refl refl
