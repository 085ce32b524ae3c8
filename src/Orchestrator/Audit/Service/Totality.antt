-- ===== src/Orchestrator/Audit/Service/Totality.antt =====
-- Transitions that cannot fail, one by one and along a path of the lifecycle.
use klass_mobile_backend.Prelude.{
  ℕ, ◌≡◌, refl, ap, ◌∙◌, String, true, false, Option, some, List, [], ◌∷◌, arith,
}
use klass_mobile_backend.Prelude.Int.{ℤ}
use klass_mobile_backend.Prelude.Result.{ok}
use klass_mobile_backend.Lifecycle.{MediaGenerationStatus, can_transition, from_str, status_eq}
use klass_mobile_backend.Lifecycle.Matrix.{can_transition-grows}
use klass_mobile_backend.Lifecycle.Paths.{Steps, here, step}
use klass_mobile_backend.Lifecycle.Wire.{from_str-as_str}
use klass_mobile_backend.Json.{Json, null, boolean, number, decimal, string, array, object, ◌>>=◌}
use klass_mobile_backend.Orchestrator.{Generation}
use klass_mobile_backend.Orchestrator.Audit.{AuditEnv}
use klass_mobile_backend.Orchestrator.Audit.Context.{filter_context}
use klass_mobile_backend.Orchestrator.Audit.Payload.Sound.{
  IsSound, IsSound-set, IsSound-base, applied, timed, traced, appended, Succeeds, chain,
}
use klass_mobile_backend.Orchestrator.Audit.Service.{
  commit, set_status, with_uuid, current_payload, move_status, transition_from, transition_found,
  transition,
}
use klass_mobile_backend.Orchestrator.Audit.Service.Calls.{Call, transition_call, run, run_all}

different : (s t : MediaGenerationStatus) → can_transition s t ≡ true → status_eq s t ≡ false
unfolding status_eq
different s t c = ground (arith, can_transition-grows s t c)

module _ (E : AuditEnv) where
  current-IsSound :
      (now : E.Instant) (p : Json) → IsSound p → IsSound (current_payload E now (some p))
  unfolding current_payload
  current-IsSound now null s = IsSound-base E now
  current-IsSound now (boolean x) s = s
  current-IsSound now (number x) s = s
  current-IsSound now (decimal x) s = s
  current-IsSound now (string x) s = s
  current-IsSound now (array x) s = s
  current-IsSound now (object x) s = s

  -- The payload to work on is sound, at whatever instant.
  abbrev pub IsSoundRow : Generation → Type 0
  IsSoundRow g = (now : E.Instant) → IsSound (current_payload E now g.orchestration_audit_payload)

  module _ (id : String) (valid : E.parse_uuid id ≡ true) (now : E.Instant) (context : Option Json)
      (filtered : Json) (passes : filter_context context ≡ some filtered) (attempt : Option ℤ)
      (job_context : Option Json) where
    move-Succeeds :
        (text : String) (from to : MediaGenerationStatus) (p : Json)
        → IsSound p
        → Succeeds IsSound (move_status E now text from to context attempt job_context p)
    unfolding move_status
    move-Succeeds text from to p s = chain (applied E now attempt job_context p s) (λ p1 s1.
        chain (timed E now from to p1 s1) (λ p2 s2.
          chain (IsSound-set "current_status" _ p2 s2 refl refl) (λ p3 s3.
            chain (traced p3 s3) (λ p4 s4.
              chain (IsSound-set "latest_error" _ p4 s4 refl refl) (λ p5 s5.
                chain {R = λ _. Unit {0}} (filtered, passes, tt) (λ f _. appended _ p5 s5))))))

    -- An allowed transition on a sound row, with a context that can be filtered, succeeds, and the row
    -- is sound after it.
    pub transition_succeeds :
        (g : Generation) (from to : MediaGenerationStatus)
        → from_str g.status ≡ some from
        → can_transition from to ≡ true
        → IsSoundRow g
        → (p : Json) × (transition E id now to context attempt job_context (some g)
            ≡ (ok p, some (set_status to g p)))
          × IsSound p
    unfolding transition with_uuid transition_found transition_from
    transition_succeeds g from to h c s =
        let payload = current_payload E now g.orchestration_audit_payload in
        let (p, e, sound) = move-Succeeds g.status from to payload (s now) in
        let moved : commit (some g) (
              move_status E now g.status from to context attempt job_context payload >>= λ q.
              some (q, set_status to g q))
            ≡ (ok p, some (set_status to g p)) =
          ap (λ o. commit (some g) (o >>= λ q. some (q, set_status to g q))) e in
        (p, rw (valid, h, different from to c, c) moved, sound)

    -- The transition calls along a path.
    abbrev pub calls_along : {n : ℕ} {s t : MediaGenerationStatus} → Steps n s t → List (Call E)
    calls_along here = []
    calls_along (step {t = t} c r) =
        transition_call now t context attempt job_context ∷ calls_along r

    -- Each path of the lifecycle is taken: the calls along it, made on a sound row at its start,
    -- leave a sound row at its end.
    pub path_is_taken :
        {n : ℕ} {s t : MediaGenerationStatus} (path : Steps n s t) (g : Generation)
        → from_str g.status ≡ some s
        → IsSoundRow g
        → (g' : Generation) × (run_all E id (calls_along path) (some g) ≡ some g')
          × (from_str g'.status ≡ some t)
          × IsSoundRow g'
    unfolding run_all run
    path_is_taken here g h s = (g, refl, h, s)
    path_is_taken (step {s = from} {t = to} c r) g h s =
        let (p, e, sound) = transition_succeeds g from to h c s in
        let (g', e', h', s') =
          path_is_taken r (set_status to g p) (from_str-as_str to)
            (λ later. current-IsSound later p sound) in
        (g', ap (λ x. run_all E id (calls_along r) x.1) e ∙ e', h', s')
