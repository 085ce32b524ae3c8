-- ===== src/Orchestrator/Workflow/Keeps.antt =====
-- What the steps of the workflow keep of the status, for callbacks that leave the status alone.
use mathlib.Core.Path.{subst}
use mathlib.Core.Option.{none-ne-some}
use klass_mobile_backend.Prelude.{
  ◌≡◌, refl, sym, ap, ◌∙◌, inl, inr, String, Bool, true, false, Option, none, some, not,
  if◌then◌else◌,
}
use klass_mobile_backend.Prelude.Int.{ℤ}
use klass_mobile_backend.Prelude.Result.{Result, ok, err}
use klass_mobile_backend.Lifecycle.{
  MediaGenerationStatus, interpreting, classified, generating, publishing, completed,
  can_transition, from_str, is_terminal,
}
use klass_mobile_backend.Lifecycle.Wire.{from_str-as_str}
use klass_mobile_backend.Json.{Json}
use klass_mobile_backend.Orchestrator.{Generation}
use klass_mobile_backend.Orchestrator.Audit.{AuditEnv}
use klass_mobile_backend.Orchestrator.Audit.Service.{Reply, returned, panicked, initialize}
use klass_mobile_backend.Orchestrator.Audit.Service.Cases.{
  IsTransition-transition, initialize-cases,
}
use klass_mobile_backend.Orchestrator.Workflow.{
  Effect, WorkflowError, WorkflowFailure, ◌>>=◌, after, return, fail, when, StepTraits, Clock,
  audited, on_row, read, known_status, read_status, processing, read_processing, update_row,
  set_processing, checked, get_status, before, has_classification, has_publication_entities,
  has_final_delivery_payload, get_decision_context,
}
use klass_mobile_backend.Orchestrator.Workflow.Process.{
  move_to, advance, classify, ensure_classified, submit, ensure_generated, ensure_published,
  ensure_completed, finish, run_steps, process,
}

-- The status of the row, where there is a row and its status is one.
abbrev pub lifecycle_status : Option Generation → Option MediaGenerationStatus
lifecycle_status none = none
lifecycle_status (some g) = from_str g.status

-- The callback leaves the status alone, whether it succeeds or not.
abbrev pub IsQuiet {ℓ} : {A : Type ℓ} → Effect A → Type 0
IsQuiet m = (row : Option Generation) → lifecycle_status (m row).1 ≡ lifecycle_status row

pub record QuietSteps (T : StepTraits) : Type 0 where
  pub interpret : (id : String) → IsQuiet (T.interpret id)
  pub resolve :
      (id : String) (v : Json) (o : Option String) (w : Option Json) → IsQuiet (T.resolve id v o w)
  pub draft : (id : String) → IsQuiet (T.draft id)
  pub submit_job : (id jid : String) → IsQuiet (T.submit_job id jid)
  pub publish : (id : String) → IsQuiet (T.publish id)
  pub compose : (id : String) → IsQuiet (T.compose id)

-- The statuses that the workflow moves a generation to.
abbrev pub is_checkpoint : MediaGenerationStatus → Bool
is_checkpoint interpreting = true
is_checkpoint classified = true
is_checkpoint generating = true
is_checkpoint publishing = true
is_checkpoint completed = true
is_checkpoint _ = false

module _ (Q : MediaGenerationStatus → Type 0)
    (closed : (t to : MediaGenerationStatus)
      → is_checkpoint to ≡ true
      → Q t
      → can_transition t to ≡ true
      → Q to) where
  -- The row's status has the property.
  abbrev pub IsAt : Option Generation → Type 0
  IsAt row = (t : MediaGenerationStatus) × (lifecycle_status row ≡ some t) × Q t

  -- The effect keeps it, whether it succeeds or not.
  pub record Keeps {ℓ} {A : Type ℓ} (m : Effect A) : Type 0 where
    pub keeps : (row : Option Generation) → IsAt row → IsAt (m row).1

  Keeps-after {ℓ κ} :
      {A : Type ℓ} {B : Type κ} (f : A → Effect B)
      → ((a : A) → Keeps (f a))
      → (r : Result WorkflowFailure A × Option Generation) → IsAt r.1
      → IsAt (after f r).1
  Keeps-after f h (ok a, row) p = Keeps.keeps (h a) row p
  Keeps-after f h (err e, row) p = p

  Keeps-bind {ℓ κ} :
      {A : Type ℓ} {B : Type κ} {m : Effect A} {f : A → Effect B}
      → Keeps m
      → ((a : A) → Keeps (f a))
      → Keeps (m >>= f)
  Keeps-bind {m = m} {f = f} h k = record {
    keeps = λ row p. Keeps-after f k (m row) (Keeps.keeps h row p);
  }

  Keeps-quiet {ℓ} : {A : Type ℓ} (m : Effect A) → IsQuiet m → Keeps m
  Keeps-quiet m q = record { keeps = λ row p. (p.0, q row ∙ p.1, p.2) }

  Keeps-return {ℓ} : {A : Type ℓ} {a : A} → Keeps (return a)
  Keeps-return = record { keeps = λ row p. p }

  Keeps-fail {ℓ} : {A : Type ℓ} {e : WorkflowError} → Keeps (fail {A = A} e)
  Keeps-fail = record { keeps = λ row p. p }

  Keeps-when : (b : Bool) {m : Effect (Unit {0})} → Keeps m → Keeps (when b m)
  Keeps-when true h = h
  Keeps-when false h = Keeps-return

  Keeps-if {ℓ} :
      {A : Type ℓ} (b : Bool) {m n : Effect A} → Keeps m → Keeps n → Keeps (if b then m else n)
  Keeps-if true h k = h
  Keeps-if false h k = k

  -- An effect that never writes.
  abbrev IsPure {ℓ} : {A : Type ℓ} → Effect A → Type 0
  IsPure m = (row : Option Generation) → (m row).1 ≡ row

  Keeps-pure {ℓ} : {A : Type ℓ} {m : Effect A} → IsPure m → Keeps m
  Keeps-pure h = record { keeps = λ row p. subst IsAt (sym (h row)) p }

  module _ (E : AuditEnv) (id : String) where
    Keeps-checked {ℓ} : {A : Type ℓ} {m : Effect A} → Keeps m → Keeps (checked E id m)
    unfolding checked
    Keeps-checked h = Keeps-if (E.parse_uuid id) h Keeps-fail

    Keeps-read {ℓ} : {A : Type ℓ} (f : Option Generation → A) → Keeps (checked E id (read f))
    Keeps-read f = Keeps-checked (Keeps-pure (λ row. refl))

    IsPure-known_status :
        (text : String) (o : Option MediaGenerationStatus) → IsPure (known_status text o)
    unfolding known_status
    IsPure-known_status text none row = refl
    IsPure-known_status text (some t) row = refl

    IsPure-read_status : IsPure (read_status id)
    unfolding read_status
    IsPure-read_status none = refl
    IsPure-read_status (some g) = IsPure-known_status g.status (from_str g.status) (some g)

    IsPure-processing : (o : Option String) → IsPure (processing o)
    unfolding processing
    IsPure-processing none row = refl
    IsPure-processing (some s) row = refl

    IsPure-read_processing : IsPure read_processing
    unfolding read_processing
    IsPure-read_processing none = refl
    IsPure-read_processing (some g) = IsPure-processing g.generation_status (some g)

    kept_processing : (row : Option Generation) → IsAt row → IsAt (update_row set_processing row).1
    kept_processing none p = p
    kept_processing (some g) p = p

    Keeps-get_status : Keeps (get_status E id)
    unfolding get_status
    Keeps-get_status = Keeps-checked (Keeps-pure IsPure-read_status)

    Keeps-before : (c : MediaGenerationStatus) → Keeps (before E id c)
    unfolding before
    Keeps-before c = Keeps-bind Keeps-get_status (λ t. Keeps-return)

    row-audited : (r : Reply) → (audited r).1 ≡ r.1
    unfolding audited
    row-audited (ok p, row) = refl
    row-audited (err (returned e), row) = refl
    row-audited (err panicked, row) = refl

    audited-IsAt : (r : Reply) → IsAt r.1 → IsAt (audited r).1
    audited-IsAt r p = subst IsAt (sym (row-audited r)) p

    module _ (attempt : ℤ) (job_context : Option Json) where
      moved-IsAt :
          (now : E.Instant) (to : MediaGenerationStatus) (c : Json)
          → is_checkpoint to ≡ true
          → (row : Option Generation) → IsAt row
          → IsAt (move_to E id attempt job_context now to c row).1
      unfolding move_to
      moved-IsAt now to c k none (t, e, h) = absurd (none-ne-some _ e)
      moved-IsAt now to c k (some g) (t, e, h) =
          audited-IsAt _
            (elim (IsTransition-transition E id now to (some c) (some attempt) job_context g t e) [
              | inl (f, r) ↦ subst IsAt (sym (ap (λ x. x.1) r)) (t, e, h)
              | inr (inl (_, (p, _, r))) ↦ subst IsAt (sym (ap (λ x. x.1) r)) (t, e, h)
              | inr (inr (can, (p, _, r))) ↦
                  subst IsAt (sym (ap (λ x. x.1) r)) (to, from_str-as_str to, closed t to k h can)
            ])

      Keeps-advance :
          (now : E.Instant) (to : MediaGenerationStatus) {c : Effect Json}
          → is_checkpoint to ≡ true
          → Keeps c
          → Keeps (advance E id attempt job_context now to c)
      unfolding advance
      Keeps-advance now to k h =
          Keeps-bind (Keeps-before to) (λ early.
            Keeps-when early (Keeps-bind h (λ v. record { keeps = moved-IsAt now to v k })))

      module _ (clock : Clock E) (T : StepTraits) (quiet : QuietSteps T) where
        Keeps-classify : Keeps (classify E id attempt job_context clock T)
        unfolding classify
        Keeps-classify = Keeps-bind (Keeps-quiet (T.interpret id) (quiet.interpret id)) (λ v.
            Keeps-bind (Keeps-read (on_row none (λ g. g.preferred_output_type))) (λ o.
              Keeps-bind (Keeps-quiet (T.resolve id v o none) (quiet.resolve id v o none)) (λ r.
                Keeps-bind (Keeps-quiet (T.draft id) (quiet.draft id)) (λ d.
                  Keeps-bind
                    (Keeps-quiet (T.resolve id v o (some d)) (quiet.resolve id v o (some d)))
                    (λ a. Keeps-return)))))

        Keeps-ensure_classified : Keeps (ensure_classified E id attempt job_context clock T)
        unfolding ensure_classified has_classification get_decision_context
        Keeps-ensure_classified =
            Keeps-bind (Keeps-advance clock.at_interpreting interpreting refl Keeps-return) (λ u.
              Keeps-bind (Keeps-read _) (λ ready.
                Keeps-bind (Keeps-when (not ready) Keeps-classify) (λ v.
                  Keeps-advance clock.at_classified classified refl
                    (Keeps-bind (Keeps-read _) (λ c. Keeps-return)))))

        Keeps-submit : (j : Option String) → Keeps (submit E id attempt job_context clock T j)
        unfolding submit
        Keeps-submit none = Keeps-return
        Keeps-submit (some jid) =
            Keeps-bind (Keeps-quiet (T.submit_job id jid) (quiet.submit_job id jid))
              (λ u. Keeps-checked (record { keeps = kept_processing }))

        Keeps-ensure_generated :
            (j : Option String) → Keeps (ensure_generated E id attempt job_context clock T j)
        unfolding ensure_generated
        Keeps-ensure_generated j =
            Keeps-bind
              (Keeps-advance clock.at_generating generating refl
                (Keeps-bind (Keeps-read _) (λ c. Keeps-return)))
              (λ u. Keeps-submit j)

        Keeps-ensure_published : Keeps (ensure_published E id attempt job_context clock T)
        unfolding ensure_published has_publication_entities
        Keeps-ensure_published = Keeps-bind (Keeps-read _) (λ reused.
            Keeps-if reused (Keeps-advance clock.at_publishing publishing refl Keeps-return)
              (Keeps-bind (Keeps-quiet (T.publish id) (quiet.publish id)) (λ v. Keeps-return)))

        Keeps-ensure_completed : Keeps (ensure_completed E id attempt job_context clock T)
        unfolding ensure_completed has_final_delivery_payload
        Keeps-ensure_completed = Keeps-bind (Keeps-read _) (λ delivered.
            Keeps-bind
              (Keeps-when (not delivered)
                (Keeps-bind (Keeps-quiet (T.compose id) (quiet.compose id)) (λ v. Keeps-return)))
              (λ u. Keeps-advance clock.at_completed completed refl (Keeps-read _)))

        Keeps-finish : (b : Bool) → Keeps (finish E id attempt job_context clock T b)
        unfolding finish
        Keeps-finish true = Keeps-return
        Keeps-finish false = Keeps-bind Keeps-ensure_published (λ u. Keeps-ensure_completed)

        Keeps-run_steps : (j : Option String) → Keeps (run_steps E id attempt job_context clock T j)
        unfolding run_steps
        Keeps-run_steps j = Keeps-bind Keeps-ensure_classified (λ u.
            Keeps-bind (Keeps-ensure_generated j) (λ v.
              Keeps-bind (Keeps-checked (Keeps-pure IsPure-read_processing))
                (λ halted. Keeps-finish halted)))

    initialized-IsAt :
        (now : E.Instant) (row : Option Generation)
        → IsAt row
        → IsAt (audited (initialize E id now row)).1
    initialized-IsAt now none (t, e, h) = absurd (none-ne-some _ e)
    initialized-IsAt now (some g) p = audited-IsAt _ (elim (initialize-cases E id now g) [
      | inl (f, r) ↦ subst IsAt (sym (ap (λ x. x.1) r)) p
      | inr (inl (_, _, _, r)) ↦ subst IsAt (sym (ap (λ x. x.1) r)) p
      | inr (inr r) ↦ subst IsAt (sym (ap (λ x. x.1) r)) p
    ])

    pub Keeps-process :
        (attempt : Option ℤ) (job_context : Option Json) (clock : Clock E) (T : StepTraits)
        → QuietSteps T
        → (job_id : Option String) → Keeps (process E id attempt job_context clock T job_id)
    unfolding process
    Keeps-process attempt job_context clock T quiet job_id =
        Keeps-bind (record { keeps = initialized-IsAt clock.at_start })
          (λ u. Keeps-bind Keeps-get_status (λ status.
            Keeps-when (not (is_terminal status))
              (Keeps-run_steps _ job_context clock T quiet job_id)))
