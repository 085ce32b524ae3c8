-- ===== src/Orchestrator/Workflow/Terminal.antt =====
-- `process` on a generation that is at its end.
use klass_mobile_backend.Prelude.{◌≡◌, refl, ap, ◌∙◌, String, true, Option, some, not}
use klass_mobile_backend.Prelude.Int.{ℤ, pos}
use klass_mobile_backend.Prelude.Result.{ok}
use klass_mobile_backend.Lifecycle.{MediaGenerationStatus, from_str, is_terminal}
use klass_mobile_backend.Json.{Json}
use klass_mobile_backend.Orchestrator.{Generation}
use klass_mobile_backend.Orchestrator.Audit.{AuditEnv}
use klass_mobile_backend.Orchestrator.Audit.Payload.{or_default}
use klass_mobile_backend.Orchestrator.Audit.Service.{
  initialize, initialize_found, initialize_row, with_uuid, has_payload,
}
use klass_mobile_backend.Orchestrator.Workflow.{
  StepTraits, Clock, audited, checked, get_status, read_status, known_status, after, when, ◌>>=◌,
}
use klass_mobile_backend.Orchestrator.Workflow.Process.{process, run_steps}

module _ (E : AuditEnv) (now : E.Instant) (g : Generation) (p : Json) where
  row_kept :
      (o : Option Json)
      → o ≡ some p
      → has_payload p ≡ true
      → initialize_row E now g o ≡ (ok p, some g)
  unfolding initialize_row
  row_kept o e h = ap (initialize_row E now g) e ∙ rw h refl

  initialized :
      (id : String)
      → E.parse_uuid id ≡ true
      → g.orchestration_audit_payload ≡ some p
      → has_payload p ≡ true
      → initialize E id now (some g) ≡ (ok p, some g)
  unfolding initialize initialize_found with_uuid
  initialized id u e h =
      let opened : initialize E id now (some g)
          ≡ initialize_row E now g g.orchestration_audit_payload =
        rw u refl in
      opened ∙ row_kept g.orchestration_audit_payload e h

status_read :
    (E : AuditEnv) (id : String) (g : Generation) (s : MediaGenerationStatus)
    → E.parse_uuid id ≡ true
    → from_str g.status ≡ some s
    → get_status E id (some g) ≡ (ok s, some g)
unfolding get_status checked read_status known_status
status_read E id g s u h = rw u (rw h refl)

-- A run on a generation that is completed, failed or cancelled, and has its audit payload, succeeds,
-- calls no callback and changes nothing.
pub process-terminal :
    (E : AuditEnv) (id : String) (attempt : Option ℤ) (job_context : Option Json) (clock : Clock E)
    (T : StepTraits) (job_id : Option String) (g : Generation) (s : MediaGenerationStatus)
    (p : Json)
    → E.parse_uuid id ≡ true
    → from_str g.status ≡ some s
    → is_terminal s ≡ true
    → g.orchestration_audit_payload ≡ some p
    → has_payload p ≡ true
    → process E id attempt job_context clock T job_id (some g) ≡ (ok tt, some g)
unfolding process audited
process-terminal E id attempt job_context clock T job_id g s p u h t k v =
    let run = λ (status : MediaGenerationStatus).
      when (not (is_terminal status))
        (run_steps E id (or_default (pos 1) attempt) job_context clock T job_id) in
    let read : after (λ (_ : Unit {0}). get_status E id >>= run)
          (audited (initialize E id clock.at_start (some g)))
        ≡ after run (get_status E id (some g)) =
      ap (λ r. after (λ (_ : Unit {0}). get_status E id >>= run) (audited r))
        (initialized E clock.at_start g p id u k v) in
    read
    ∙ ap (after run) (status_read E id g s u h)
    ∙ ap
        (λ b.
          when (not b) (run_steps E id (or_default (pos 1) attempt) job_context clock T job_id)
            (some g))
        t
