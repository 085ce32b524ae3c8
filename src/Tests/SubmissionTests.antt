-- ===== src/Tests/SubmissionTests.antt =====
-- Submissions of one request, in two spellings.
use Prim.Native.String.{◌∷◌}
use klass_mobile_backend.Prelude.{ℕ, ◌≡◌, refl, String, true, false, Option, some, none, arith}
use mathlib.Core.List
use klass_mobile_backend.Prelude.Int.{ℤ, pos}
use klass_mobile_backend.Prelude.Result.{ok, err}
use klass_mobile_backend.Prelude.Text.{is_whitespace, trim, trim_start, trim_end, is_empty}
use klass_mobile_backend.Prelude.Decimal.{show_int, show_nat, digits, digit}
use klass_mobile_backend.Orchestrator.Submission.{
  SubmissionEnv, CreateInput, CreateResult, Call, Rows, database, unique_violation, collapse,
  squish_and_lower, normalize_preferred_output_type, canonical, make_request_fingerprint,
  fingerprint_of, find_active, conflicts, is_terminal_status,
}
use klass_mobile_backend.Orchestrator.Submission.Create.{create_or_reuse, new_row}
use klass_mobile_backend.Orchestrator.Submission.Reuse.{Succeeds, IsAlone, Same, race_reuses}
use klass_mobile_backend.Orchestrator.Submission.Blocked.{set_status, ended_is_blocked}
use klass_mobile_backend.Orchestrator.Submission.Canonical.{
  InputFits, canonical_of, canonical-injective,
}

abbrev env : SubmissionEnv
env = record {
  to_lowercase = λ c. c ∷ "";
  str_to_lowercase = λ s. s;
  sha256_hex = λ s. s;
  parse_uuid = λ s. ok 1;
}

abbrev request : String → CreateInput
request prompt = record {
  teacher_id = pos 7;
  raw_prompt = prompt;
  preferred_output_type = some " pdf ";
  subject_id = some (pos 3);
  sub_subject_id = none;
  provider_metadata = record {
    llm_provider = none;
    llm_model = none;
    generator_provider = none;
    generator_model = none;
  };
}

abbrev call : ℕ → (Rows → Rows) → Call
call id others = record {
  new_id = id;
  now = id;
  begin = none;
  select = none;
  insert = none;
  returns_row = true;
  commit = none;
  rollback = none;
  begin_again = none;
  select_again = none;
  commit_again = none;
  rollback_again = none;
  between = others;
  meanwhile = λ rows. rows;
}

call-Succeeds : (id : ℕ) (others : Rows → Rows) → Succeeds (call id others)
call-Succeeds id others = record {
  begin = refl;
  select = refl;
  insert = refl;
  returns_row = refl;
  commit = refl;
  rollback = refl;
  begin_again = refl;
  select_again = refl;
  commit_again = refl;
  rollback_again = refl;
}

abbrev alone : ℕ → Call
alone id = call id (λ rows. rows)

alone-IsAlone : (id : ℕ) → IsAlone (alone id)
alone-IsAlone id = record { between = λ rows. refl; meanwhile = λ rows. refl }

canonical_text : canonical_of env (request " a  b ") ≡ "7|pdf|3|none|a b"
unfolding canonical normalize_preferred_output_type squish_and_lower collapse trim trim_start
    trim_end is_empty is_whitespace show_int show_nat digits digit
canonical_text = refl

spellings : Same env (request "a b") (request " a  b ")
unfolding fingerprint_of make_request_fingerprint canonical normalize_preferred_output_type
    squish_and_lower collapse trim trim_start trim_end is_empty is_whitespace
spellings = record { teacher = refl; fingerprint = refl }

abbrev stored : Rows
stored = List.◌∷◌ (new_row env (alone 1) (request "a b")) List.[]

abbrev created : CreateResult
created = record {
  id = 1;
  was_created = true;
  request_fingerprint = fingerprint_of env (request "a b");
}

-- The other submission commits in between.
abbrev racing : Call
racing = call 1 (λ rows. (create_or_reuse env (alone 2) (request " a  b ") rows).1)

race_reuses_example : create_or_reuse env racing (request "a b") List.[] ≡ (
  ok (record created { id = 2; was_created = false }),
  List.◌∷◌ (new_row env (alone 2) (request " a  b ")) List.[],
)
unfolding find_active conflicts
race_reuses_example =
    race_reuses env (request "a b") (request " a  b ") spellings racing (alone 2)
      (call-Succeeds 1 (λ rows. (create_or_reuse env (alone 2) (request " a  b ") rows).1))
      (call-Succeeds 2 (λ rows. rows)) List.[] refl refl refl refl (λ all. refl)

ended_is_blocked_example :
    let after =
      set_status 1 "completed" (create_or_reuse env (alone 1) (request "a b") List.[]).1 in
    create_or_reuse env (alone 2) (request " a  b ") after
    ≡ (err (database unique_violation), after)
unfolding find_active conflicts is_terminal_status
ended_is_blocked_example =
    ended_is_blocked env (request "a b") (request " a  b ") spellings (alone 1) (alone 2)
      (call-Succeeds 1 (λ rows. rows)) (call-Succeeds 2 (λ rows. rows)) "completed" List.[] refl
      refl refl (alone-IsAlone 1) (alone-IsAlone 2)

request-InputFits : (prompt : String) → InputFits env (request prompt)
request-InputFits prompt = record { teacher = omega arith; subject = omega arith; sub_subject = tt }

same_text : canonical_of env (request "a b") ≡ canonical_of env (request " a  b ")
unfolding canonical normalize_preferred_output_type squish_and_lower collapse trim trim_start
    trim_end is_empty is_whitespace
same_text = refl

canonical-injective_example :
    (◌≡◌ {A = ℤ} (pos 7) (pos 7))
    × (normalize_preferred_output_type env (some " pdf ")
        ≡ normalize_preferred_output_type env (some " pdf "))
    × (◌≡◌ {A = Option ℤ} (some (pos 3)) (some (pos 3)))
    × (◌≡◌ {A = Option ℤ} none none)
    × (squish_and_lower env "a b" ≡ squish_and_lower env " a  b ")
canonical-injective_example =
    canonical-injective env (request "a b") (request " a  b ") (request-InputFits "a b")
      (request-InputFits " a  b ") same_text
