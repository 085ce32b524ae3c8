-- ===== src/Orchestrator/Submission/Regeneration.antt =====
-- src/orchestrator/submission.rs: `create_regeneration`.
use klass_mobile_backend.Prelude.{
  ℕ, String, ◌<>◌, true, Option, none, some, List, ◌==◌, if◌then◌else◌,
}
use klass_mobile_backend.Prelude.Result.{Result, ok, err}
use klass_mobile_backend.Orchestrator.Submission.{
  SubmissionEnv, unique_violation, other, database, invalid_uuid, Row, Rows, conflicts, Outcome,
  attempt, Call, make_request_fingerprint,
}

module _ (E : SubmissionEnv) where
  unfoldable pub find_row : ℕ → Rows → Option Row
  find_row id List.[] = none
  find_row id (List.◌∷◌ r rs) = let rest = find_row id rs in if r.id == id then some r else rest

  unfoldable pub combined_prompt : String → String → String
  combined_prompt raw_prompt additional_prompt =
      "Original Request:\n"
      <> (raw_prompt <> ("\n\nRefinement / Additional context:\n" <> additional_prompt))

  unfoldable pub regenerated_row : Call → Row → String → Row → Row
  regenerated_row c read additional_prompt parent =
      let prompt = combined_prompt read.raw_prompt additional_prompt in
      let fingerprint =
        make_request_fingerprint E read.teacher_id prompt read.preferred_output_type read.subject_id
          read.sub_subject_id in
      record {
        id = c.new_id;
        teacher_id = parent.teacher_id;
        generated_from_id = some parent.id;
        is_regeneration = true;
        subject_id = read.subject_id;
        sub_subject_id = read.sub_subject_id;
        raw_prompt = prompt;
        request_fingerprint = fingerprint;
        active_duplicate_key = some fingerprint;
        preferred_output_type = read.preferred_output_type;
        status = "queued";
        provider_metadata = record {
          llm_provider = none;
          llm_model = none;
          generator_provider = none;
          generator_model = none;
        };
        created_at = c.now;
      }

  -- INSERT ... SELECT ... FROM media_generations WHERE id = $1, by `fetch_one`.
  unfoldable pub insert_regeneration : Call → Row → String → Rows → Option Row → Outcome ℕ
  insert_regeneration c read additional_prompt rows none = (
    err (database (other "no rows returned by a query that expected to return at least one row")),
    rows,
  )
  insert_regeneration c read additional_prompt rows (some parent) =
      let row = regenerated_row c read additional_prompt parent in
      if conflicts row rows
      then (err (database unique_violation), rows)
      else (ok c.new_id, List.◌∷◌ row rows)

  regenerate_from : Call → String → String → Rows → Option Row → Outcome ℕ
  regenerate_from c text additional_prompt rows none =
      (err (invalid_uuid ("parent generation not found: " <> text)), rows)
  regenerate_from c text additional_prompt rows (some read) =
      let rows' = c.between rows in
      attempt c.insert rows'
        (insert_regeneration c read additional_prompt rows' (find_row read.id rows'))

  regenerate_parsed : Call → String → String → Rows → Result String ℕ → Outcome ℕ
  unfolding regenerate_from
  regenerate_parsed c text additional_prompt rows (err e) = (err (invalid_uuid e), rows)
  regenerate_parsed c text additional_prompt rows (ok id) =
      attempt c.select rows (regenerate_from c text additional_prompt rows (find_row id rows))

  unfoldable pub create_regeneration : Call → String → String → Rows → Outcome ℕ
  unfolding regenerate_parsed
  create_regeneration c parent_generation_id additional_prompt rows =
      regenerate_parsed c parent_generation_id additional_prompt rows
        (E.parse_uuid parent_generation_id)
