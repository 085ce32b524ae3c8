-- ===== src/Orchestrator/Submission/Blocked.antt =====
-- src/orchestrator/submission.rs: a request whose generation has ended cannot be submitted again.
use klass_mobile_backend.Prelude.{
  ℕ, ◌≡◌, ◌≢◌, refl, sym, ap, ap₂, ◌∙◌, String, true, false, Option, none, some, [], ◌∷◌, arith,
  ◌==◌, if◌then◌else◌, Bool-cases, inl, inr,
}
use mathlib.Core.Path.{subst}
use mathlib.Core.Option.{none-ne-some}
use klass_mobile_backend.Prelude.Int.{ℤ}
use klass_mobile_backend.Prelude.Filter.{All}
use klass_mobile_backend.Prelude.Result.{err}
use klass_mobile_backend.Orchestrator.Submission.{
  SubmissionEnv, CreateInput, CreateResult, Outcome, Row, Rows, Call, database, unique_violation,
  is_terminal_status, is_active_for, find_active, first_of, newer, has_key, conflicts, attempt,
  fingerprint_of,
}
use klass_mobile_backend.Orchestrator.Submission.Create.{new_row, look_again, create_or_reuse}
use klass_mobile_backend.Orchestrator.Submission.Reuse.{
  Succeeds, IsAlone, Same, inserts, looks_again, find_active-same, str_eq_self,
}

-- The status of the generation becomes another; the other columns stay.
abbrev pub set_status : ℕ → String → Rows → Rows
set_status id status [] = []
set_status id status (r ∷ rs) =
    let rest = set_status id status rs in
    if r.id == id then record r { status = status } ∷ rest else r ∷ rest

abbrev NoneActive : ℤ → String → Rows → Type 0
NoneActive teacher fingerprint = All (λ r. is_active_for teacher fingerprint r ≡ false)

first_of-some : (r : Row) (o : Option Row) → first_of r o ≢ none
unfolding first_of
first_of-some r none h = none-ne-some _ (sym h)
first_of-some r (some t) h = elim (Bool-cases (newer t r)) [
  | inl e ↦ none-ne-some t (sym (rw e at h))
  | inr e ↦ none-ne-some r (sym (rw e at h))
]

module _ (teacher : ℤ) (fingerprint : String) where
  none_active :
      (rows : Rows)
      → find_active teacher fingerprint rows ≡ none
      → NoneActive teacher fingerprint rows
  unfolding find_active
  none_active [] h = tt
  none_active (r ∷ rows) h = elim (Bool-cases (is_active_for teacher fingerprint r)) [
    | inl t ↦ absurd (first_of-some r _ (rw t at h))
    | inr f ↦ (f, none_active rows (rw f at h))
  ]

  find_active-none :
      (rows : Rows)
      → NoneActive teacher fingerprint rows
      → find_active teacher fingerprint rows ≡ none
  unfolding find_active
  find_active-none [] h = refl
  find_active-none (r ∷ rows) h = rw h.0 (find_active-none rows h.1)

  ended :
      (r : Row) (status : String)
      → is_terminal_status status ≡ true
      → is_active_for teacher fingerprint (record r { status = status }) ≡ false
  ended r status t = rw t (ground arith)

  -- A status at which a generation ends makes no row active.
  set_status-NoneActive :
      (id : ℕ) (status : String)
      → is_terminal_status status ≡ true
      → (rows : Rows) → NoneActive teacher fingerprint rows
      → NoneActive teacher fingerprint (set_status id status rows)
  set_status-NoneActive id status t [] h = tt
  set_status-NoneActive id status t (r ∷ rows) h = elim (Bool-cases (r.id == id)) [
    | inl e ↦ rw e (ended r status t, set_status-NoneActive id status t rows h.1)
    | inr e ↦ rw e (h.0, set_status-NoneActive id status t rows h.1)
  ]

nat_self : (n : ℕ) → (n == n) ≡ true
nat_self n = ground arith

module _ (E : SubmissionEnv) (i j : CreateInput) (same : Same E i j) (c d : Call) where
  -- The request's row after its generation has ended, with the rows that were there before.
  abbrev ended_rows : String → Rows → Rows
  ended_rows status rows = set_status c.new_id status (new_row E c i ∷ rows)

  ended_rows-inactive :
      (status : String) (rows : Rows)
      → is_terminal_status status ≡ true
      → find_active i.teacher_id (fingerprint_of E i) rows ≡ none
      → find_active i.teacher_id (fingerprint_of E i) (ended_rows status rows) ≡ none
  unfolding new_row
  ended_rows-inactive status rows t e = rw (nat_self c.new_id) (
      find_active-none i.teacher_id (fingerprint_of E i) _ (
        ended i.teacher_id (fingerprint_of E i) (new_row E c i) status t,
        set_status-NoneActive i.teacher_id (fingerprint_of E i) c.new_id status t rows
            (none_active i.teacher_id (fingerprint_of E i) rows e),
      ))

  ended_rows-conflicts :
      (status : String) (rows : Rows) → conflicts (new_row E d j) (ended_rows status rows) ≡ true
  unfolding conflicts has_key new_row
  ended_rows-conflicts status rows =
      rw (nat_self c.new_id)
        (rw (same.fingerprint, str_eq_self (fingerprint_of E j)) (ground arith))

  module _ (s : Succeeds c) (t : Succeeds d) where
    ended_lem :
        (status : String) (rows : Rows)
        → is_terminal_status status ≡ true
        → find_active i.teacher_id (fingerprint_of E i) rows ≡ none
        → IsAlone d
        → create_or_reuse E d j (ended_rows status rows)
          ≡ (err (database unique_violation), ended_rows status rows)
    unfolding look_again
    ended_lem status rows e f b =
        let all = ended_rows status rows in
        let free : find_active j.teacher_id (fingerprint_of E j) all ≡ none =
          find_active-same E i j same all ∙ ended_rows-inactive status rows e f in
        let alone : d.meanwhile (d.between all) ≡ all =
          b.meanwhile (d.between all) ∙ b.between all in
        let clash =
          ap (conflicts (new_row E d j)) (b.between all) ∙ ended_rows-conflicts status rows in
        looks_again E d t j all free clash
        ∙ ap₂ (look_again E d j) alone
            (ap (find_active j.teacher_id (fingerprint_of E j)) alone ∙ free)
        ∙ ap (λ o. attempt {A = CreateResult} o all (err (database unique_violation), all))
            t.rollback_again

    -- After a submission that has inserted a generation, and the end of that generation, the same
    -- request always fails with the violation of the unique key: nothing clears the key. No statement
    -- fails by itself, and no other transaction takes part.
    pub ended_is_blocked :
        (status : String) (rows : Rows)
        → is_terminal_status status ≡ true
        → find_active i.teacher_id (fingerprint_of E i) rows ≡ none
        → conflicts (new_row E c i) rows ≡ false
        → IsAlone c
        → IsAlone d
        → let after = set_status c.new_id status (create_or_reuse E c i rows).1 in
          create_or_reuse E d j after ≡ (err (database unique_violation), after)
    unfolding look_again
    ended_is_blocked status rows e f n a b =
        let first : (create_or_reuse E c i rows).1 ≡ new_row E c i ∷ rows =
          ap (λ (o : Outcome CreateResult). o.1)
            (inserts E c s i rows f (ap (conflicts (new_row E c i)) (a.between rows) ∙ n))
          ∙ ap (λ l. new_row E c i ∷ l) (a.between rows) in
        subst
          (λ l.
            create_or_reuse E d j (set_status c.new_id status l)
            ≡ (err (database unique_violation), set_status c.new_id status l))
          (sym first) (ended_lem status rows e f b)
