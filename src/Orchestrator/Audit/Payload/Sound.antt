-- ===== src/Orchestrator/Audit/Payload/Sound.antt =====
-- Payloads on which no update panics.
use mathlib.Core.Path.{subst}
use mathlib.Core.Option.{some-injective}
use klass_mobile_backend.Prelude.{
  ◌≡◌, refl, sym, ap, ◌∙◌, inl, inr, String, Bool, true, false, Option, none, some, str_eq,
  if◌then◌else◌, Option-cases,
}
use klass_mobile_backend.Prelude.Int.{ℤ}
use klass_mobile_backend.Lifecycle.{MediaGenerationStatus, status_eq, queued}
use klass_mobile_backend.Json.{Json, object, get, find, set, insert, update, ◌>>=◌}
use klass_mobile_backend.Json.Members.{get-set_other, get-update_other}
use klass_mobile_backend.Json.Objects.{IsObject, IsObject-set, update-IsObject}
use klass_mobile_backend.Orchestrator.Audit.{AuditEnv}
use klass_mobile_backend.Orchestrator.Audit.Payload.{
  insert_into, copy_job_context, apply_runtime_metadata, add_duration, start_processing,
  apply_transition_timing, update_provider_trace, default_member, append_history,
  build_base_payload,
}

-- The durations of a timing are an object, where it has them.
abbrev pub IsTiming : Json → Type 0
IsTiming t = IsObject t × ((d : Json) → get "status_durations_ms" t ≡ some d → IsObject d)

-- The payload is an object; so are its job and its timing, where it has them.
abbrev pub IsSound : Json → Type 0
IsSound p =
    IsObject p
    × ((j : Json) → get "job" p ≡ some j → IsObject j)
    × ((t : Json) → get "timing" p ≡ some t → IsTiming t)

-- A write of another member keeps a payload sound.
pub IsSound-kept :
    (p q : Json)
    → IsSound p
    → IsObject q
    → get "job" q ≡ get "job" p
    → get "timing" q ≡ get "timing" p
    → IsSound q
IsSound-kept p q (_, j, t) o ej et = (o, (λ v e. j v (sym ej ∙ e)), λ v e. t v (sym et ∙ e))

pub IsSound-set :
    (k : String) (v p : Json)
    → IsSound p
    → str_eq k "job" ≡ false
    → str_eq k "timing" ≡ false
    → (q : Json) × (set k v p ≡ some q) × IsSound q
IsSound-set k v p s j t =
    let (q, e, o) = IsObject-set k v p s.0 in
    (
      q,
      e,
      IsSound-kept p q s o (get-set_other "job" k v p q e j) (get-set_other "timing" k v p q e t),
    )

-- Two steps that succeed one after the other.
abbrev pub Succeeds : (Json → Type 0) → Option Json → Type 0
Succeeds R o = (q : Json) × (o ≡ some q) × R q

pub chain :
    {R S : Json → Type 0} {o : Option Json} {f : Json → Option Json}
    → Succeeds R o
    → ((q : Json) → R q → Succeeds S (f q))
    → Succeeds S (o >>= f)
chain {f = f} (q, e, r) h = let (x, fx, s) = h q r in (x, ap (λ m. m >>= f) e ∙ fx, s)

inserted :
    (k : String) (v : Option Json) (j : Json) → IsObject j → Succeeds IsObject (insert_into k v j)
unfolding insert_into
inserted k none j o = (j, refl, o)
inserted k (some v) j (ps, e) =
    (object (insert k v ps), ap (insert_into k (some v)) e, (insert k v ps, refl))

-- An update of the job that gives an object.
job_updated :
    (f : Json → Option Json) (p : Json)
    → IsSound p
    → ((j : Json) → IsObject j → Succeeds IsObject (f j))
    → Succeeds IsSound (update "job" f p)
job_updated f p s h =
    let (q, e, o, r) = update-IsObject IsObject "job" f p s.0 (λ w g. h w (s.1 w g)) in
    (q, e, (o, r, λ t g. s.2 t (sym (get-update_other "timing" "job" f p q e refl) ∙ g)))

timing_updated :
    (f : Json → Option Json) (p : Json)
    → IsSound p
    → ((t : Json) → IsTiming t → Succeeds IsTiming (f t))
    → Succeeds IsSound (update "timing" f p)
timing_updated f p s h =
    let (q, e, o, r) = update-IsObject IsTiming "timing" f p s.0 (λ w g. h w (s.2 w g)) in
    (q, e, (o, (λ j g. s.1 j (sym (get-update_other "job" "timing" f p q e refl) ∙ g)), r))

IsTiming-set :
    (k : String) (v t : Json)
    → str_eq k "status_durations_ms" ≡ false
    → IsTiming t
    → Succeeds IsTiming (set k v t)
IsTiming-set k v t n (o, d) =
    let (q, e, oq) = IsObject-set k v t o in
    (q, e, (oq, λ x g. d x (sym (get-set_other "status_durations_ms" k v t q e n) ∙ g)))

copied : (c : Option Json) (p : Json) → IsSound p → Succeeds IsSound (copy_job_context c p)
unfolding copy_job_context
copied none p s = (p, refl, s)
copied (some c) p s = job_updated _ p s (λ j o. chain (inserted "connection" _ j o) (λ j1 o1.
    chain (inserted "queue" _ j1 o1) (λ j2 o2. chain (inserted "tries" _ j2 o2) (λ j3 o3.
      chain (inserted "timeout_seconds" _ j3 o3) (λ j4 o4. inserted "backoff_seconds" _ j4 o4)))))

started :
    (o : Option String) (to : MediaGenerationStatus) (now p : Json)
    → IsSound p
    → Succeeds IsSound (start_processing o to now p)
unfolding start_processing
started (some _) to now p s = (p, refl, s)
started none to now p s = either (status_eq to queued)
  where
    either :
        (b : Bool)
        → Succeeds IsSound
            (if b then some p else update "timing" (set "processing_started_at" now) p)
    either true = (p, refl, s)
    either false = timing_updated _ p s (λ t h. IsTiming-set "processing_started_at" now t refl h)

pub traced : (p : Json) → IsSound p → Succeeds IsSound (update_provider_trace p)
unfolding update_provider_trace default_member
traced p s = elim (Option-cases (get "provider_trace" p)) [
  | inl n ↦ rw n (IsSound-set "provider_trace" _ p s refl refl)
  | inr (_, e) ↦ rw e (p, refl, s)
]

pub appended : (event p : Json) → IsSound p → Succeeds IsSound (append_history event p)
unfolding append_history
appended event p s = IsSound-set "status_history" _ p s refl refl

module _ (E : AuditEnv) (now : E.Instant) where
  pub applied :
      (a : Option ℤ) (c : Option Json) (p : Json)
      → IsSound p
      → Succeeds IsSound (apply_runtime_metadata E now a c p)
  unfolding apply_runtime_metadata
  applied a c p s = chain (copied c p s) (λ q sq.
      job_updated _ q sq
        (λ j o. chain (IsObject-set "attempt" _ j o) (λ j1 o1. IsObject-set "last_run_at" _ j1 o1)))

  counted :
      (from : MediaGenerationStatus) (p : Json)
      → IsSound p
      → Succeeds IsSound (add_duration E now from p)
  unfolding add_duration
  counted from p s = timing_updated _ p s (λ t h.
      let (q, e, o, r) =
        update-IsObject IsObject "status_durations_ms" _ t h.0
          (λ d g. IsObject-set _ _ d (h.1 d g)) in
      (q, e, (o, r)))

  pub timed :
      (from to : MediaGenerationStatus) (p : Json)
      → IsSound p
      → Succeeds IsSound (apply_transition_timing E now from to p)
  unfolding apply_transition_timing
  timed from to p s = chain (counted from p s) (λ p1 s1. chain (started _ to _ p1 s1) (λ p2 s2.
      timing_updated _ p2 s2 (λ t h. chain (IsTiming-set "queued_at" _ t refl h) (λ t1 h1.
        chain (IsTiming-set "last_transition_at" _ t1 refl h1) (λ t2 h2.
          chain (IsTiming-set "completed_at" _ t2 refl h2)
            (λ t3 h3. IsTiming-set "total_duration_ms" _ t3 refl h3))))))

  pub IsSound-base : IsSound (build_base_payload E now)
  unfolding build_base_payload get find
  IsSound-base = (
    (_, refl),
    (λ j e. (_, sym (some-injective _ _ e))),
    λ t e.
        subst IsTiming (some-injective _ _ e) ((_, refl), λ d g. (_, sym (some-injective _ _ g))),
  )
