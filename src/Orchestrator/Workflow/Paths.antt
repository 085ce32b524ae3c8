-- ===== src/Orchestrator/Workflow/Paths.antt =====
-- Where `process` takes the status of a generation, for callbacks that leave it alone.
use klass_mobile_backend.Prelude.{ℕ, ◌≤◌, ◌≡◌, String, Option, some, true, arith}
use klass_mobile_backend.Prelude.Int.{ℤ}
use klass_mobile_backend.Lifecycle.{MediaGenerationStatus, can_transition, order_index, from_str}
use klass_mobile_backend.Lifecycle.Paths.{Steps, here, step, Steps-append}
use klass_mobile_backend.Json.{Json}
use klass_mobile_backend.Orchestrator.{Generation}
use klass_mobile_backend.Orchestrator.Audit.{AuditEnv}
use klass_mobile_backend.Orchestrator.Workflow.{StepTraits, Clock}
use klass_mobile_backend.Orchestrator.Workflow.Process.{process}
use klass_mobile_backend.Orchestrator.Workflow.Keeps.{
  Keeps, Keeps-process, QuietSteps, is_checkpoint, lifecycle_status,
}

abbrev IsReachable : MediaGenerationStatus → MediaGenerationStatus → Type 0
IsReachable s t = (n : ℕ) × Steps n s t

IsReachable-closed :
    (s t to : MediaGenerationStatus)
    → is_checkpoint to ≡ true
    → IsReachable s t
    → can_transition t to ≡ true
    → IsReachable s to
IsReachable-closed s t to k (n, p) c = let (m, _, q) = Steps-append p (step c here) in (m, q)

-- At most `generating` in the order: none of the steps gets to `uploading`.
stays_early :
    (t to : MediaGenerationStatus)
    → is_checkpoint to ≡ true
    → order_index t ≤ 3
    → can_transition t to ≡ true
    → order_index to ≤ 3
unfolding order_index can_transition
stays_early t to k h c = ground arith

module _ (E : AuditEnv) (id : String) (attempt : Option ℤ) (job_context : Option Json)
    (clock : Clock E) (T : StepTraits) (quiet : QuietSteps T) (job_id : Option String)
    (g : Generation) (s : MediaGenerationStatus) (h : from_str g.status ≡ some s) where
  -- Whatever the callbacks do but change the status, and whether the run ends well, with an error or
  -- by a panic: allowed transitions lead from the status before it to the status after it.
  pub process_refines_lifecycle :
      (t : MediaGenerationStatus) × (lifecycle_status
          (process E id attempt job_context clock T job_id (some g)).1
        ≡ some t)
      × ((n : ℕ) × Steps n s t)
  process_refines_lifecycle =
      Keeps.keeps
        (Keeps-process (IsReachable s) (IsReachable-closed s) E id attempt job_context clock T quiet
          job_id)
        (some g) (s, h, (0, here))

  -- A generation that is not past `generating` is not past it after a run: no run completes it.
  pub process_stops_at_generating :
      order_index s ≤ 3
      → (t : MediaGenerationStatus) × (lifecycle_status
            (process E id attempt job_context clock T job_id (some g)).1
          ≡ some t)
        × (order_index t ≤ 3)
  process_stops_at_generating early =
      Keeps.keeps
        (Keeps-process (λ t. order_index t ≤ 3) stays_early E id attempt job_context clock T quiet
          job_id)
        (some g) (s, h, early)
