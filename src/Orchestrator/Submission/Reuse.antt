-- ===== src/Orchestrator/Submission/Reuse.antt =====
-- src/orchestrator/submission.rs: the same request, submitted again or at the same time.
use klass_mobile_backend.Prelude.{
  ℕ, ◌≡◌, refl, sym, ap, ap₂, ◌∙◌, String, true, false, Option, none, some, ◌∷◌, arith, str_eq,
  eq_iff,
}
use klass_mobile_backend.Prelude.Int.{ℤ, eq_ℤ, eq_ℤ_iff}
use klass_mobile_backend.Prelude.Result.{ok, err}
use klass_mobile_backend.Orchestrator.Submission.{
  SubmissionEnv, CreateInput, CreateResult, Outcome, Row, Rows, Call, is_terminal_status,
  find_active, has_key, conflicts, attempt, fingerprint_of,
}
use klass_mobile_backend.Orchestrator.Submission.Create.{
  new_row, reused, look_again, after_violation, insert_failed, inserted, insert_with,
  insert_or_retry, reuse_or_insert, create_or_reuse,
}

-- No statement of the call fails.
pub record Succeeds (c : Call) : Type 0 where
  pub begin : c.begin ≡ none
  pub select : c.select ≡ none
  pub insert : c.insert ≡ none
  pub returns_row : c.returns_row ≡ true
  pub commit : c.commit ≡ none
  pub rollback : c.rollback ≡ none
  pub begin_again : c.begin_again ≡ none
  pub select_again : c.select_again ≡ none
  pub commit_again : c.commit_again ≡ none
  pub rollback_again : c.rollback_again ≡ none

-- Nor does another transaction commit while it runs.
pub record IsAlone (c : Call) : Type 0 where
  pub between : (rows : Rows) → c.between rows ≡ rows
  pub meanwhile : (rows : Rows) → c.meanwhile rows ≡ rows

-- Two inputs of one teacher that have one fingerprint.
pub record Same (E : SubmissionEnv) (i j : CreateInput) : Type 0 where
  pub teacher : i.teacher_id ≡ j.teacher_id
  pub fingerprint : fingerprint_of E i ≡ fingerprint_of E j

module _ (E : SubmissionEnv) (c : Call) (s : Succeeds c) (input : CreateInput) (rows : Rows) where
  abbrev active : Rows → Option Row
  active rs = find_active input.teacher_id (fingerprint_of E input) rs

  -- What a call does where nothing fails: it reuses, or it inserts, or it looks again.
  pub reuses :
      (r : Row)
      → active rows ≡ some r
      → create_or_reuse E c input rows ≡ (ok (reused E input r), rows)
  unfolding create_or_reuse reuse_or_insert
  reuses r e = simp (s.begin, s.select, e, s.commit)

  pub inserts :
      active rows ≡ none
      → conflicts (new_row E c input) (c.between rows) ≡ false
      → create_or_reuse E c input rows ≡ (
        ok (record {
          id = c.new_id;
          was_created = true;
          request_fingerprint = fingerprint_of E input;
        }),
        new_row E c input ∷ c.between rows,
      )
  unfolding create_or_reuse reuse_or_insert insert_or_retry
  inserts e f =
      simp (s.begin, s.select, e, s.insert, insert_with, f, inserted, s.returns_row, s.commit)

  pub looks_again :
      active rows ≡ none
      → conflicts (new_row E c input) (c.between rows) ≡ true
      → create_or_reuse E c input rows
        ≡ look_again E c input
            (c.meanwhile (c.between rows))
            (active (c.meanwhile (c.between rows)))
  unfolding create_or_reuse reuse_or_insert insert_or_retry insert_failed after_violation
  looks_again e f =
      simp
        (s.begin, s.select, e, s.insert, insert_with, f, s.rollback, s.begin_again, s.select_again)

pub str_eq_self : (s : String) → str_eq s s ≡ true
str_eq_self s = (eq_iff s s).1 refl

eq_ℤ_self : (z : ℤ) → eq_ℤ z z ≡ true
eq_ℤ_self z = (eq_ℤ_iff z z).1 refl

abbrev found_as : ℕ → Rows → String → Outcome CreateResult
found_as id rows f = (ok (record { id = id; was_created = false; request_fingerprint = f }), rows)

module _ (E : SubmissionEnv) (i j : CreateInput) (same : Same E i j) where
  pub find_active-same :
      (rows : Rows)
      → find_active j.teacher_id (fingerprint_of E j) rows
        ≡ find_active i.teacher_id (fingerprint_of E i) rows
  find_active-same rows =
      ap₂ (λ t f. find_active t f rows) (sym same.teacher) (sym same.fingerprint)

  -- The row that a call inserts is the one that the same request finds.
  find_active-new_row :
      (c : Call) (rows : Rows)
      → find_active i.teacher_id (fingerprint_of E i) rows ≡ none
      → find_active j.teacher_id (fingerprint_of E j) (new_row E c i ∷ rows) ≡ some (new_row E c i)
  unfolding find_active new_row is_terminal_status
  find_active-new_row c rows e =
      find_active-same (new_row E c i ∷ rows)
      ∙ simp (eq_ℤ_self i.teacher_id, str_eq_self (fingerprint_of E i), e)

  pub conflicts-new_row :
      (c d : Call) (rows : Rows) → conflicts (new_row E d j) (new_row E c i ∷ rows) ≡ true
  unfolding conflicts has_key new_row
  conflicts-new_row c d rows =
      rw (same.fingerprint, str_eq_self (fingerprint_of E j)) (ground arith)

  module _ (c d : Call) (s : Succeeds c) (t : Succeeds d) where
    abbrev Again : Outcome CreateResult → Type 0
    Again (ok r, rows) = create_or_reuse E d j rows ≡ (ok (record r { was_created = false }), rows)
    Again (err e, rows) = Unit {0}

Same-symm : (E : SubmissionEnv) (i j : CreateInput) → Same E i j → Same E j i
Same-symm E i j s = record { teacher = sym s.teacher; fingerprint = sym s.fingerprint }

module _ (E : SubmissionEnv) (i j : CreateInput) (same : Same E i j) where
  module _ (c d : Call) (s : Succeeds c) (t : Succeeds d) where
    -- Two submissions of one request at the same time: where the second commits between the query and
    -- the insert of the first, the first gives the second's generation, and that is the only one that
    -- is inserted. No statement fails but the insert, and no other transaction takes part.
    pub race_reuses :
        (rows : Rows)
        → find_active i.teacher_id (fingerprint_of E i) rows ≡ none
        → conflicts (new_row E d j) rows ≡ false
        → d.between rows ≡ rows
        → c.between rows ≡ (create_or_reuse E d j rows).1
        → ((all : Rows) → c.meanwhile all ≡ all)
        → create_or_reuse E c i rows ≡ (
          ok (record {
            id = d.new_id;
            was_created = false;
            request_fingerprint = fingerprint_of E i;
          }),
          new_row E d j ∷ rows,
        )
    unfolding look_again reused new_row
    race_reuses rows e f alone b m =
        let back = Same-symm E i j same in
        let free = find_active-same E i j same rows ∙ e in
        let second = inserts E d t j rows free (ap (conflicts (new_row E d j)) alone ∙ f) in
        let after : c.between rows ≡ new_row E d j ∷ rows =
          b ∙ ap (λ (o : Outcome CreateResult). o.1) second ∙ ap (λ l. new_row E d j ∷ l) alone in
        let clash = ap (conflicts (new_row E c i)) after ∙ conflicts-new_row E j i back d c rows in
        let seen : c.meanwhile (c.between rows) ≡ new_row E d j ∷ rows =
          m (c.between rows) ∙ after in
        let found : find_active i.teacher_id (fingerprint_of E i) (c.meanwhile (c.between rows))
            ≡ some (new_row E d j) =
          ap (find_active i.teacher_id (fingerprint_of E i)) seen
          ∙ find_active-new_row E j i back d rows free in
        looks_again E c s i rows e clash
        ∙ ap₂ (look_again E c i) seen found
        ∙ ap
            (λ o.
              attempt o (new_row E d j ∷ rows)
                (found_as d.new_id (new_row E d j ∷ rows) (fingerprint_of E i)))
            s.commit_again
