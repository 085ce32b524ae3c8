-- ===== src/Orchestrator/Audit/Payload/Frames.antt =====
-- Which members of the payload an update leaves alone, and what becomes of the history.
use klass_mobile_backend.Prelude.{
  ◌-◌, ◌≤◌, ◌≡◌, refl, sym, ap, ◌∙◌, String, Bool, true, false, Option, none, some, List, [], ◌∷◌,
  ◌++◌, ltb, length, length-drop, str_eq, if◌then◌else◌, arith, Bool-cases, inl, inr, tests,
}
use klass_mobile_backend.Prelude.Int.{ℤ}
use klass_mobile_backend.Lifecycle.{MediaGenerationStatus, status_eq, queued}
use klass_mobile_backend.Json.{Json, get, set, update, of_list, to_list}
use klass_mobile_backend.Json.Members.{bind_some, get-set_same, get-set_other, get-update_other}
use mathlib.Core.Option.{some-injective}
use klass_mobile_backend.Orchestrator.Audit.{AuditEnv, history_limit}
use klass_mobile_backend.Orchestrator.Audit.Payload.{
  copy_job_context, apply_runtime_metadata, apply_transition_timing, add_duration, start_processing,
  update_provider_trace, default_member, push_event, as_history, append_history, default_trace,
}

-- The history never grows beyond the limit.
pub length-push_event :
    (history : List Json) (event : Json) → length (push_event history event) ≤ history_limit
unfolding push_event
length-push_event history event = elim (Bool-cases (ltb 50 (length (history ++ (event ∷ []))))) [
  | inl t ↦ rw t (
      omega
        (tests, t, length-drop (length (history ++ (event ∷ [])) - 50) (history ++ (event ∷ []))))
  | inr f ↦ rw f (ground (arith, f))
]

to_list-of_list : (vs : List Json) → to_list (of_list vs) ≡ vs
to_list-of_list [] = refl
to_list-of_list (v ∷ vs) = ap (λ l. v ∷ l) (to_list-of_list vs)

pub history-append_history :
    (event p q : Json)
    → append_history event p ≡ some q
    → as_history (get "status_history" q) ≡ push_event (as_history (get "status_history" p)) event
unfolding append_history as_history
history-append_history event p q h =
    ap as_history (get-set_same "status_history" _ p q h) ∙ to_list-of_list _

pub get-append_history :
    (k : String) (event p q : Json)
    → append_history event p ≡ some q
    → str_eq "status_history" k ≡ false
    → get k q ≡ get k p
unfolding append_history
get-append_history k event p q h ne = get-set_other k "status_history" _ p q h ne

pub get-update_provider_trace :
    (k : String) (p q : Json)
    → update_provider_trace p ≡ some q
    → str_eq "provider_trace" k ≡ false
    → get k q ≡ get k p
unfolding update_provider_trace default_member
get-update_provider_trace k p q h ne = found (get "provider_trace" p) h
  where
    found :
        (o : Option Json)
        → default_member o "provider_trace" default_trace p ≡ some q
        → get k q ≡ get k p
    found none e = get-set_other k "provider_trace" _ p q e ne
    found (some _) e = ap (get k) (sym (some-injective _ _ e))

get-copy_job_context :
    (k : String) (c : Option Json) (p q : Json)
    → copy_job_context c p ≡ some q
    → str_eq "job" k ≡ false
    → get k q ≡ get k p
unfolding copy_job_context
get-copy_job_context k none p q h ne = ap (get k) (sym (some-injective _ _ h))
get-copy_job_context k (some c) p q h ne = get-update_other k "job" _ p q h ne

get-start_processing :
    (k : String) (o : Option String) (to : MediaGenerationStatus) (now p q : Json)
    → start_processing o to now p ≡ some q
    → str_eq "timing" k ≡ false
    → get k q ≡ get k p
unfolding start_processing
get-start_processing k (some _) to now p q h ne = ap (get k) (sym (some-injective _ _ h))
get-start_processing k none to now p q h ne = started (status_eq to queued) h
  where
    started :
        (b : Bool)
        → (if b then some p else update "timing" (set "processing_started_at" now) p) ≡ some q
        → get k q ≡ get k p
    started true e = ap (get k) (sym (some-injective _ _ e))
    started false e = get-update_other k "timing" _ p q e ne

module _ (E : AuditEnv) where
  pub get-apply_runtime_metadata :
      (k : String) (now : E.Instant) (attempt : Option ℤ) (c : Option Json) (p q : Json)
      → apply_runtime_metadata E now attempt c p ≡ some q
      → str_eq "job" k ≡ false
      → get k q ≡ get k p
  unfolding apply_runtime_metadata
  get-apply_runtime_metadata k now attempt c p q h ne =
      let (m, e1, e2) = bind_some (copy_job_context c p) _ q h in
      get-update_other k "job" _ m q e2 ne ∙ get-copy_job_context k c p m e1 ne

  pub get-apply_transition_timing :
      (k : String) (now : E.Instant) (from to : MediaGenerationStatus) (p q : Json)
      → apply_transition_timing E now from to p ≡ some q
      → str_eq "timing" k ≡ false
      → get k q ≡ get k p
  unfolding apply_transition_timing add_duration
  get-apply_transition_timing k now from to p q h ne =
      let (m, e1, e2) = bind_some (add_duration E now from p) _ q h in
      let (n, e3, e4) = bind_some (start_processing _ to _ m) _ q e2 in
      get-update_other k "timing" _ n q e4 ne
      ∙ get-start_processing k _ to _ m n e3 ne
      ∙ get-update_other k "timing" _ p m e1 ne
