-- ===== src/Orchestrator/Workflow/Process.antt =====
-- The steps of `process` in src/orchestrator/workflow.rs.
use klass_mobile_backend.Prelude.{
  String, Bool, true, false, Option, none, some, [], ◌∷◌, not, if◌then◌else◌,
}
use klass_mobile_backend.Prelude.Int.{ℤ, pos}
use klass_mobile_backend.Lifecycle.{
  MediaGenerationStatus, interpreting, classified, generating, publishing, completed, is_terminal,
}
use klass_mobile_backend.Json.{Json, null, boolean, string, get, or_null, str_at, pointer2}
use klass_mobile_backend.Json
use klass_mobile_backend.Orchestrator.{Generation}
use klass_mobile_backend.Orchestrator.Audit.{AuditEnv}
use klass_mobile_backend.Orchestrator.Audit.Payload.{json_object, text_or_null, or_default}
use klass_mobile_backend.Orchestrator.Audit.Service.{initialize, transition}
use klass_mobile_backend.Orchestrator.Workflow.{
  Effect, ◌>>=◌, ◌>>◌, return, done, when, StepTraits, Clock, audited, is_fallback, on_row, read,
  update_row, set_processing, read_processing, checked, get_status, before, has_classification,
  has_publication_entities, has_final_delivery_payload, get_decision_context,
}

module _ (E : AuditEnv) (id : String) where
  module _ (attempt : ℤ) (job_context : Option Json) where
    unfoldable pub move_to : E.Instant → MediaGenerationStatus → Json → Effect (Unit {0})
    move_to now to context row =
        audited (transition E id now to (some context) (some attempt) job_context row)

    -- A step's transition, where the status is before E id it.
    unfoldable pub advance : E.Instant → MediaGenerationStatus → Effect Json → Effect (Unit {0})
    advance now to context = do early ← before E id to; when early (context >>= move_to now to)

    unfoldable pub classification_context : Json → Json
    classification_context decision = json_object (
        ("step", string "classification")
        ∷ ("decision_source", or_null (get "decision_source" decision))
        ∷ ("reason_code", or_null (get "reason_code" decision))
        ∷ ("content_draft_source", or_null (pointer2 "content_draft" "source" decision))
        ∷ ("resolved_output_type", or_null (get "resolved_output_type" decision))
        ∷ [])

    module _ (clock : Clock E) (T : StepTraits) where
      unfoldable pub classify : Effect (Unit {0})
      classify = do
        interpretation ← T.interpret id
        preferred ← checked E id (read (on_row none (λ g. g.preferred_output_type)))
        resolved ← T.resolve id interpretation preferred none
        drafted ← T.draft id
        again ← T.resolve id interpretation preferred (some drafted)
        done

      unfoldable pub ensure_classified : Effect (Unit {0})
      ensure_classified = do
        advance clock.at_interpreting interpreting
            (return (json_object (("step", string "interpretation") ∷ [])))
        ready ← has_classification E id
        when (not ready) classify
        advance clock.at_classified classified
            (get_decision_context E id >>= λ decision. return (classification_context decision))

      unfoldable pub generation_context : Option String → Option String → Json
      generation_context job_id resolved_type = json_object (
          ("step", string "generation")
          ∷ ("job_id", text_or_null job_id)
          ∷ ("resolved_output_type", text_or_null resolved_type)
          ∷ [])

      unfoldable pub submit : Option String → Effect (Unit {0})
      submit none = done
      submit (some jid) = do T.submit_job id jid; checked E id (update_row set_processing)

      unfoldable pub ensure_generated : Option String → Effect (Unit {0})
      ensure_generated job_id = do
        advance clock.at_generating generating (
            checked E id (read (on_row none (λ g. g.resolved_output_type))) >>= λ resolved_type.
            return (generation_context job_id resolved_type))
        submit job_id

      unfoldable pub ensure_published : Effect (Unit {0})
      ensure_published = do
        reused ← has_publication_entities E id
        let reuse = advance clock.at_publishing publishing (
            return (
              json_object (
                ("step", string "publication")
                ∷ ("reused_publication_entities", boolean true)
                ∷ [])))
        let publish = T.publish id >>= λ published. done
        if reused then reuse else publish

      unfoldable pub delivery_context : Option Generation → Json
      delivery_context row =
          let payload = or_null (on_row none (λ g. g.delivery_payload) row) in
          json_object (
            ("step", string "delivery")
            ∷ ("delivery_fallback", boolean (is_fallback (some payload)))
            ∷ (
              "delivery_provider",
              text_or_null (Json.◌>>=◌ (pointer2 "response_meta" "provider" payload) E.first_text),
            )
            ∷ (
              "delivery_model",
              text_or_null (Json.◌>>=◌ (pointer2 "response_meta" "model" payload) E.first_text),
            )
            ∷ [])

      unfoldable pub ensure_completed : Effect (Unit {0})
      ensure_completed = do
        delivered ← has_final_delivery_payload E id
        when (not delivered) (T.compose id >>= λ composed. done)
        advance clock.at_completed completed (checked E id (read delivery_context))

      unfoldable pub finish : Bool → Effect (Unit {0})
      finish true = done
      finish false = do ensure_published; ensure_completed

      unfoldable pub run_steps : Option String → Effect (Unit {0})
      run_steps job_id = do
        ensure_classified
        ensure_generated job_id
        halted ← checked E id read_processing
        finish halted

  -- `process`: the attempt is 1 where the caller gives none.
  unfoldable pub process :
      Option ℤ → Option Json → Clock E → StepTraits → Option String → Effect (Unit {0})
  process attempt job_context clock T job_id = do
    (λ row. audited (initialize E id clock.at_start row))
    status ← get_status E id
    when (not (is_terminal status))
        (run_steps (or_default (pos 1) attempt) job_context clock T job_id)
