-- ===== src/Orchestrator/Submission/Create.antt =====
-- src/orchestrator/submission.rs: `create_or_reuse`.
use klass_mobile_backend.Prelude.{true, false, Option, none, some, List, if◌then◌else◌}
use klass_mobile_backend.Prelude.Result.{ok, err}
use klass_mobile_backend.Orchestrator.Submission.{
  SubmissionEnv, SqlError, unique_violation, protocol, other, database, CreateInput, CreateResult,
  Row, Rows, find_active, conflicts, Outcome, attempt, Call, normalize_preferred_output_type,
  fingerprint_of,
}

module _ (E : SubmissionEnv) where
  unfoldable pub new_row : Call → CreateInput → Row
  new_row c input = record {
    id = c.new_id;
    teacher_id = input.teacher_id;
    generated_from_id = none;
    is_regeneration = false;
    subject_id = input.subject_id;
    sub_subject_id = input.sub_subject_id;
    raw_prompt = input.raw_prompt;
    request_fingerprint = fingerprint_of E input;
    active_duplicate_key = some (fingerprint_of E input);
    preferred_output_type = normalize_preferred_output_type E input.preferred_output_type;
    status = "queued";
    provider_metadata = input.provider_metadata;
    created_at = c.now;
  }

  unfoldable pub reused : CreateInput → Row → CreateResult
  reused input r = record {
    id = r.id;
    was_created = false;
    request_fingerprint = fingerprint_of E input;
  }

  -- The second lookup, after a violation.
  unfoldable pub look_again : Call → CreateInput → Rows → Option Row → Outcome CreateResult
  look_again c input rows (some r) = attempt c.commit_again rows (ok (reused input r), rows)
  look_again c input rows none =
      attempt c.rollback_again rows (err (database unique_violation), rows)

  unfoldable pub after_violation : Call → CreateInput → Rows → Outcome CreateResult
  after_violation c input before =
      let rows = c.meanwhile before in
      attempt c.rollback before (
        attempt c.begin_again before (
          attempt c.select_again rows
            (look_again c input rows (find_active input.teacher_id (fingerprint_of E input) rows))))

  unfoldable pub insert_failed : Call → CreateInput → Rows → SqlError → Outcome CreateResult
  insert_failed c input rows unique_violation = after_violation c input rows
  insert_failed c input rows (protocol s) =
      attempt c.rollback rows (err (database (protocol s)), rows)
  insert_failed c input rows (other s) = attempt c.rollback rows (err (database (other s)), rows)

  unfoldable pub inserted : Call → CreateInput → Rows → Outcome CreateResult
  inserted c input rows =
      if c.returns_row
      then attempt c.commit rows (
        ok (record {
          id = c.new_id;
          was_created = true;
          request_fingerprint = fingerprint_of E input;
        }),
        List.◌∷◌ (new_row c input) rows,
      )
      else attempt c.rollback rows
          (err (database (protocol "INSERT RETURNING returned no rows")), rows)

  unfoldable pub insert_with : Call → CreateInput → Rows → Option SqlError → Outcome CreateResult
  unfolding inserted
  insert_with c input rows (some e) = insert_failed c input rows e
  insert_with c input rows none =
      if conflicts (new_row c input) rows
      then insert_failed c input rows unique_violation
      else inserted c input rows

  unfoldable pub insert_or_retry : Call → CreateInput → Rows → Outcome CreateResult
  unfolding insert_with
  insert_or_retry c input rows = insert_with c input rows c.insert

  unfoldable pub reuse_or_insert : Call → CreateInput → Rows → Option Row → Outcome CreateResult
  reuse_or_insert c input rows (some r) = attempt c.commit rows (ok (reused input r), rows)
  reuse_or_insert c input rows none = insert_or_retry c input (c.between rows)

  unfoldable pub create_or_reuse : Call → CreateInput → Rows → Outcome CreateResult
  create_or_reuse c input rows = attempt c.begin rows (
      attempt c.select rows
        (reuse_or_insert c input rows (find_active input.teacher_id (fingerprint_of E input) rows)))
