-- ===== src/Orchestrator/Audit/Payload.antt =====
-- The updates of the audit payload in src/orchestrator/audit_trail.rs. A function that writes to the
-- payload returns the new one, and `none` where the write panics.
pub mod Frames
pub mod Sound
use mathlib.Core.Option
use klass_mobile_backend.Prelude.{
  ℕ, ◌-◌, String, Bool, true, false, Option, none, some, List, [], ◌∷◌, ◌++◌, ltb, length, drop,
  str_eq, if◌then◌else◌,
}
use klass_mobile_backend.Prelude.Int.{ℤ, pos, negsuc, ◌+ℤ◌, ◌-ℤ◌}
use klass_mobile_backend.Prelude.Text.{is_empty}
use klass_mobile_backend.Prelude.Word.{wrap32, wrap64}
use klass_mobile_backend.Lifecycle.{MediaGenerationStatus, queued, is_terminal, as_str, status_eq}
use klass_mobile_backend.Json.{
  Json, Elems, Props, null, number, string, array, object, no_members, of_list, to_list, of_members,
  get, set, set_inner, insert, update, str_at, pointer2, as_i64, ◌>>=◌,
}
use klass_mobile_backend.Json
use klass_mobile_backend.Orchestrator.Audit.{AuditEnv, schema_version, history_limit}

abbrev pub or_default {ℓ} : {A : Type ℓ} → A → Option A → A
or_default d none = d
or_default d (some a) = a

-- `json!` of an optional text, and of an optional integer.
abbrev pub text_or_null : Option String → Json
text_or_null none = null
text_or_null (some s) = string s

abbrev pub number_or_null : Option ℤ → Json
number_or_null none = null
number_or_null (some z) = number z

abbrev pub json_object : List (String × Json) → Json
json_object ms = object (of_members ms)

abbrev pub unnamed_model : Json
unnamed_model = json_object (("name", null) ∷ ("model", null) ∷ [])

abbrev pub default_trace : Json
default_trace = json_object (
    ("interpretation", unnamed_model)
    ∷ ("generator", unnamed_model)
    ∷ ("delivery", unnamed_model)
    ∷ [])

-- `.max(0)`.
abbrev pub at_least_zero : ℤ → ℤ
at_least_zero (pos n) = pos n
at_least_zero (negsuc n) = pos 0

-- `job_map.insert(key, v)` on `payload["job"]`, where that is an object.
unfoldable pub insert_into : String → Option Json → Json → Option Json
insert_into key (some v) (object job) = some (object (insert key v job))
insert_into key _ job = some job

unfoldable pub copy_job_context : Option Json → Json → Option Json
copy_job_context none payload = some payload
copy_job_context (some jc) payload =
    update "job"
      (λ job0. do
        job1 ← insert_into "connection" (Option.map string (str_at "connection" jc)) job0
        job2 ← insert_into "queue" (Option.map string (str_at "queue" jc)) job1
        job3 ← insert_into "tries" (get "tries" jc) job2
        job4 ← insert_into "timeout_seconds" (get "timeout_seconds" jc) job3
        insert_into "backoff_seconds" (get "backoff_seconds" jc) job4)
      payload

-- The attempt that is recorded: the caller's, else the one that the payload holds, as an `i32`.
unfoldable pub current_attempt : Option ℤ → Json → ℤ
current_attempt (some attempt) payload = attempt
current_attempt none payload =
    wrap32 (or_default (pos 0) (pointer2 "job" "attempt" payload >>= as_i64))

-- One more event, and the oldest ones beyond the limit dropped.
unfoldable pub push_event : List Json → Json → List Json
push_event history event =
    let pushed = history ++ (event ∷ []) in
    if ltb history_limit (length pushed)
    then drop (length pushed - history_limit) pushed
    else pushed

-- The array that the payload holds as its history, empty where it holds none.
unfoldable pub as_history : Option Json → List Json
as_history (some (array events)) = to_list events
as_history _ = []

unfoldable pub append_history : Json → Json → Option Json
append_history event payload =
    set "status_history"
      (array (of_list (push_event (as_history (get "status_history" payload)) event))) payload

unfoldable pub default_member : Option Json → String → Json → Json → Option Json
default_member none key v payload = set key v payload
default_member (some _) key v payload = some payload

unfoldable pub update_provider_trace : Json → Option Json
update_provider_trace payload =
    default_member (get "provider_trace" payload) "provider_trace" default_trace payload

-- `processing_started_at` is set once, and for no transition to `queued`.
unfoldable pub start_processing : Option String → MediaGenerationStatus → Json → Json → Option Json
start_processing (some _) to now payload = some payload
start_processing none to now payload =
    let started = update "timing" (set "processing_started_at" now) payload in
    if status_eq to queued then some payload else started

unfoldable pub completed_at : Bool → Json → Json → Json
completed_at true now payload = now
completed_at false now payload = Json.or_null (pointer2 "timing" "completed_at" payload)

module _ (E : AuditEnv) where
  unfoldable pub build_base_payload : E.Instant → Json
  build_base_payload now =
      let at = string (E.to_rfc3339 now) in
      json_object (
        ("schema_version", string schema_version)
        ∷ ("current_status", string "queued")
        ∷ ("resolved_output_type", null)
        ∷ ("provider_trace", default_trace)
        ∷ (
          "job",
          json_object (
              ("connection", null)
              ∷ ("queue", null)
              ∷ ("tries", null)
              ∷ ("timeout_seconds", null)
              ∷ ("backoff_seconds", null)
              ∷ ("attempt", number (pos 0))
              ∷ ("last_run_at", null)
              ∷ []),
        )
        ∷ (
          "timing",
          json_object (
              ("queued_at", at)
              ∷ ("processing_started_at", null)
              ∷ ("last_transition_at", at)
              ∷ ("completed_at", null)
              ∷ ("total_duration_ms", null)
              ∷ ("status_durations_ms", object no_members)
              ∷ []),
        )
        ∷ ("latest_error", null)
        ∷ (
          "status_history",
          array (
              of_list (
                json_object (
                  ("event_type", string "status_transition")
                  ∷ ("from_status", null)
                  ∷ ("to_status", string "queued")
                  ∷ ("attempt", number (pos 0))
                  ∷ ("at", at)
                  ∷ ("context", json_object (("reason", string "generation_created") ∷ []))
                  ∷ [])
                ∷ [])),
        )
        ∷ [])

  unfoldable pub apply_runtime_metadata : E.Instant → Option ℤ → Option Json → Json → Option Json
  apply_runtime_metadata now attempt job_context payload = do
    copied ← copy_job_context job_context payload
    update "job"
        (λ job. do
          counted ← set "attempt" (number (current_attempt attempt copied)) job
          set "last_run_at" (string (E.to_rfc3339 now)) counted)
        copied

  unfoldable pub parse_timestamp : String → Option E.Instant
  parse_timestamp s = if is_empty s then none else E.parse_from_rfc3339 s

  unfoldable pub duration_since : E.Instant → E.Instant → ℤ
  duration_since now ts = at_least_zero (E.timestamp_millis now -ℤ E.timestamp_millis ts)

  unfoldable pub calculate_total_duration : E.Instant → Json → Option ℤ
  calculate_total_duration now payload = do
    queued_at ← pointer2 "timing" "queued_at" payload >>= Json.as_str
    queued_ts ← parse_timestamp queued_at
    some (duration_since now queued_ts)

  -- The time in the status that is left is added to what the payload has for it.
  unfoldable pub add_duration : E.Instant → MediaGenerationStatus → Json → Option Json
  add_duration now from payload =
      let last = or_default "" (pointer2 "timing" "last_transition_at" payload >>= Json.as_str) in
      let duration = duration_since now (or_default now (parse_timestamp last)) in
      update "timing"
        (update "status_durations_ms" (λ sd.
          let current = or_default (pos 0) (get (as_str from) sd >>= as_i64) in
          set (as_str from) (number (wrap64 (current +ℤ duration))) sd))
        payload

  unfoldable pub apply_transition_timing :
      E.Instant → (from to : MediaGenerationStatus) → Json → Option Json
  apply_transition_timing now from to payload =
      let now_text = string (E.to_rfc3339 now) in
      do
        counted ← add_duration now from payload
        started ←
            start_processing (pointer2 "timing" "processing_started_at" counted >>= Json.as_str) to
              now_text counted
        update "timing"
            (λ timing. do
              queued_at ←
                  set "queued_at"
                    (or_default now_text
                      (Option.map string (pointer2 "timing" "queued_at" started >>= Json.as_str)))
                    timing
              moved ← set "last_transition_at" now_text queued_at
              ended ← set "completed_at" (completed_at (is_terminal to) now_text started) moved
              set "total_duration_ms" (number_or_null (calculate_total_duration now started)) ended)
            started
