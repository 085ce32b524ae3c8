-- ===== src/Tests/PublicationTests.antt =====
-- Publications of a short PDF.
use klass_mobile_backend.Prelude.{◌≡◌, ◌≢◌, refl, Bool, true, false, not, none, some, [], ◌∷◌}
use klass_mobile_backend.Prelude.Int.{pos}
use klass_mobile_backend.Prelude.Result.{ok}
use klass_mobile_backend.Prelude.Text.{is_empty}
use klass_mobile_backend.Json.{Json, string, get, find, str_at, as_str, pointer2}
use klass_mobile_backend.Storage.{
  append, upload, get_category, mime_to_extension, check_upload, check_extension, put,
  generate_public_url, trim_end_slashes,
}
use klass_mobile_backend.Orchestrator.{Generation}
use klass_mobile_backend.Orchestrator.Audit.Payload.{json_object}
use klass_mobile_backend.Orchestrator.Workflow.{published_row, has_schema}
use klass_mobile_backend.Publication.{
  Bytes, PublicationError, Tables, Replies, default_mime_for, validate_integrity, starts_with,
  has_marker, has_pdf_eof_marker, check_integrity,
}
use klass_mobile_backend.Queue.Worker.{contains}
use klass_mobile_backend.Publication.Publish.{
  publish, publish_inner, publish_found, publish_row, publish_response, file_url_of, answer_body,
  resolve_thumbnail, thumbnail_of, upload_generated, uploading, uploaded, save, compensate, new_ids,
}
use klass_mobile_backend.Publication.Outcomes.{failed_publication_keeps_tables}
use klass_mobile_backend.Publication.Success.{published_is_seen, thumbnail_stops_publication}
use klass_mobile_backend.Tests.OrchestratorTests.{row}

abbrev pdf : Bytes
pdf = 37 ∷ 80 ∷ 68 ∷ 70 ∷ 10 ∷ 37 ∷ 37 ∷ 69 ∷ 79 ∷ 70 ∷ []

abbrev replies : Bool → Replies
replies commits = record {
  parse_uuid = λ s. not (is_empty s);
  presigned_url = λ key. none;
  artifact_at = λ url. some (true, pdf);
  thumbnail_at = λ url. some (true, 60 ∷ []);
  generate = λ bytes mime. some (60 ∷ [], "image/svg+xml");
  public_url = "https://cdn";
  thumbnail_name = append "thumb.";
  artifact_name = append "file.";
  thumbnail_fault = none;
  artifact_fault = none;
  delete_fault = none;
  new_topic_id = "t1";
  new_content_id = "c1";
  new_project_id = pos 1;
  reads = true;
  inserts = true;
  updates = true;
  commits = commits;
}

abbrev responding : Json → Generation
responding response = record (row "publishing" none) { generator_service_response = some response }

abbrev plain : Json
plain = json_object (("file_url", string "u") ∷ [])

abbrev with_thumbnail : Json
with_thumbnail = json_object (("file_url", string "u") ∷ ("thumbnail_url", string "t") ∷ [])

abbrev tables : Json → Tables
tables response = record {
  row = some (responding response);
  topics = [];
  contents = [];
  projects = [];
}

published_is_seen_example :
    (g' : Generation) × ((publish (replies true) "g1" (tables plain) []).1.tables.row ≡ some g')
    × (g'.status ≡ "publishing")
    × (published_row g' ≡ true)
    × (has_schema g'.delivery_payload ≡ true)
unfolding publish publish_inner publish_found publish_row publish_response file_url_of answer_body
    resolve_thumbnail thumbnail_of upload_generated uploading uploaded save compensate is_empty get
    find str_at as_str pointer2 upload get_category mime_to_extension check_upload check_extension
    put append generate_public_url trim_end_slashes default_mime_for validate_integrity starts_with
    has_marker has_pdf_eof_marker check_integrity contains
published_is_seen_example =
    published_is_seen (replies true) "g1" (responding plain) (tables plain) []
      (new_ids (replies true)) refl refl refl

failed_publication_keeps_tables_example :
    (publish (replies false) "g1" (tables plain) []).1.tables ≡ tables plain
unfolding publish publish_inner publish_found publish_row publish_response file_url_of answer_body
    resolve_thumbnail thumbnail_of upload_generated uploading uploaded save compensate is_empty get
    find str_at as_str pointer2 upload get_category mime_to_extension check_upload check_extension
    put append generate_public_url trim_end_slashes default_mime_for validate_integrity starts_with
    has_marker has_pdf_eof_marker check_integrity contains
failed_publication_keeps_tables_example =
    failed_publication_keeps_tables (replies false) "g1" (tables plain) [] PublicationError.database
      refl

thumbnail_stops_publication_example :
    (publish (replies true) "g1" (tables with_thumbnail) []).0 ≢ ok (new_ids (replies true))
unfolding get find as_str is_empty
thumbnail_stops_publication_example =
    thumbnail_stops_publication (replies true) "g1" (responding with_thumbnail)
      (tables with_thumbnail) [] with_thumbnail "t" 60 [] refl refl refl refl refl
      (new_ids (replies true))
