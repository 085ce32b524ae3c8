-- ===== src/Orchestrator.antt =====
-- src/orchestrator/: the workflow of a media generation and its audit trail. Here the row that both
-- work on.
pub mod Audit
pub mod Workflow
pub mod Submission
use klass_mobile_backend.Prelude.{String, Option, ℕ}
use klass_mobile_backend.Json.{Json}
use klass_mobile_backend.Prelude.Int.{ℤ}

-- The columns of media_generations that the orchestrator and the publication read or write, but for `updated_at`,
-- which they set at each update and never read. An absent value is the database's NULL.
pub record Generation : Type 0 where
  pub status : String
  pub generation_status : Option String
  pub preferred_output_type : Option String
  pub resolved_output_type : Option String
  pub interpretation_payload : Option Json
  pub generation_spec_payload : Option Json
  pub decision_payload : Option Json
  pub delivery_payload : Option Json
  pub orchestration_audit_payload : Option Json
  pub topic_id : Option String
  pub content_id : Option String
  pub recommended_project_id : Option ℤ
  pub error_code : Option String
  pub error_message : Option String
  pub generation_error_code : Option String
  pub generation_error_message : Option String
  pub mime_type : Option String
  pub teacher_id : Option ℤ
  pub generator_service_response : Option Json
  pub storage_path : Option String
  pub file_url : Option String
  pub thumbnail_url : Option String
