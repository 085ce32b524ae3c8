-- ===== src/Tests/LifecycleTests.antt =====
-- The statuses of src/orchestrator/lifecycle.rs at concrete values.
use klass_mobile_backend.Prelude.{ℕ, ◌≡◌, ◌↔◌, refl, none, some, true}
use klass_mobile_backend.Prelude.Int.{pos, negsuc}
use klass_mobile_backend.Lifecycle.{
  queued, uploading, publishing, completed, failed, is_terminal, can_transition, next_statuses,
  status_before, from_proto_value, to_proto_value, from_str, as_str,
}
use klass_mobile_backend.Lifecycle.Matrix.{contains, can_transition-eq-contains}
use klass_mobile_backend.Lifecycle.Paths.{
  here, step, distance, Steps-completed, terminal-Steps, status_before_of_Steps,
}
use klass_mobile_backend.Lifecycle.Wire.{from_proto_value_iff, from_str_iff}

proto_unknown : from_proto_value (negsuc 0) ≡ none
unfolding from_proto_value
proto_unknown = refl

can_transition-eq-contains_at :
    can_transition queued failed ≡ contains (next_statuses queued) failed
can_transition-eq-contains_at = can_transition-eq-contains queued failed

Steps-completed_example : 2 ≡ distance uploading
unfolding can_transition
Steps-completed_example =
    Steps-completed {n = 2} {s = uploading} (step {t = publishing} refl (step refl here))

status_before_of_Steps_at : status_before uploading completed ≡ true
unfolding can_transition
status_before_of_Steps_at =
    status_before_of_Steps {n = 1} {s = uploading} {t = completed}
      (step {t = publishing} refl (step refl here))

terminal-Steps_at : (◌≡◌ {A = ℕ} 0 0) × (failed ≡ failed)
unfolding is_terminal
terminal-Steps_at = terminal-Steps {n = 0} {s = failed} {t = failed} refl here

from_proto_value_iff_at :
    (from_proto_value (pos 7) ≡ some completed) ↔ (pos 7 ≡ to_proto_value completed)
from_proto_value_iff_at = from_proto_value_iff (pos 7) completed

from_str_iff_at : (from_str "failed" ≡ some failed) ↔ ("failed" ≡ as_str failed)
from_str_iff_at = from_str_iff "failed" failed
