-- ===== src/Publication/Publish.antt =====
-- The steps of `publish` in src/media_gen/publication.rs.
use klass_mobile_backend.Prelude.{
  String, Bool, true, false, ◌||◌, Option, none, some, List, [], ◌∷◌, ◌++◌, length, str_eq,
  if◌then◌else◌,
}
use klass_mobile_backend.Prelude.Text.{is_empty}
use klass_mobile_backend.Prelude.Result.{Result, ok, err}
use klass_mobile_backend.Json.{Json, null, boolean, string, get, str_at, pointer2}
use klass_mobile_backend.Json
use klass_mobile_backend.Storage.{UploadResult, UploadError, upload, delete}
use klass_mobile_backend.Orchestrator.{Generation}
use klass_mobile_backend.Orchestrator.Audit.Payload.{or_default}
use klass_mobile_backend.Publication.{
  Bytes, PublicationError, not_found, missing_artifact, integrity, download, presign, upload_error,
  thumbnail_error, database, invalid_uuid, PublishResult, Topic, Content, Tables, Store, Replies,
  Action, ◌>>=◌, ◌>>◌, return, fail, some_or, check, default_mime_for, content_type_from_output,
  validate_integrity, check_integrity, build_delivery_payload, or_else, text,
}

-- The body of an answer to the download.
unfoldable pub answer_body : Option (Bool × Bytes) → Action Bytes
answer_body none = fail download
answer_body (some (true, bytes)) = return bytes
answer_body (some (false, bytes)) = fail (integrity "artifact download failed: HTTP status")

abbrev pub to_bucket : List String → Store → Store
to_bucket keys s = record s { bucket = keys }

unfoldable pub uploaded :
    Store
    → Result UploadError UploadResult × List String
    → Result PublicationError UploadResult × Store
uploaded s (ok u, keys) = (ok u, to_bucket keys s)
uploaded s (err e, keys) = (err (upload_error e), to_bucket keys s)

abbrev pub push_path : String → Action (Unit {0})
push_path path s = (ok tt, record s { uploaded_paths = s.uploaded_paths ++ (path ∷ []) })

abbrev pub set_tables : Tables → Action (Unit {0})
set_tables t s = (ok tt, record s { tables = t })

abbrev pub any_topic : String → List Topic → Bool
any_topic id [] = false
any_topic id (t ∷ ts) = str_eq t.id id || any_topic id ts

abbrev pub any_content : String → List Content → Bool
any_content id [] = false
any_content id (c ∷ cs) = str_eq c.id id || any_content id cs

-- `ON CONFLICT DO NOTHING`.
unfoldable pub insert_topic : Topic → List Topic → List Topic
insert_topic t ts = if any_topic t.id ts then ts else t ∷ ts

unfoldable pub insert_content : Content → List Content → List Content
insert_content c cs = if any_content c.id cs then cs else c ∷ cs

abbrev pub non_empty : Option String → Option String
non_empty none = none
non_empty (some s) = if is_empty s then none else some s

unfoldable pub topic_title : Generation → String
topic_title g =
    or_default "Generated Topic"
      (text (Json.◌>>=◌ g.interpretation_payload (pointer2 "document_blueprint" "title")))

abbrev pub output_type_of : Generation → String
output_type_of g = or_default "pdf" g.resolved_output_type

abbrev pub mime_type_of : Generation → String
mime_type_of g = or_default (default_mime_for (output_type_of g)) g.mime_type

abbrev pub is_closed : String → Bool
is_closed status = str_eq status "completed" || str_eq status "cancelled"

module _ (R : Replies) where
  -- The URL of the artifact: presigned for the key, where the response has one.
  unfoldable pub file_url_of : Option String → Json → Action String
  file_url_of (some s3_key) response = some_or presign (R.presigned_url s3_key)
  file_url_of none response = some_or missing_artifact (
      text (
        or_else (get "presigned_url" response)
          (or_else (get "file_url" response) (pointer2 "response" "file_url" response))))

  unfoldable pub uploading :
      (String → String) → Option String → String → Bytes → String → Action UploadResult
  uploading name fault category bytes content_type s =
      uploaded s (upload R.public_url name fault category (length bytes) content_type s.bucket)

  abbrev pub public_url_of : UploadResult → Action (Option String)
  public_url_of u = return (some u.public_url)

  unfoldable pub upload_generated : Option (Bytes × String) → Action (Option String)
  upload_generated none = fail thumbnail_error
  upload_generated (some (bytes, mime)) =
      uploading R.thumbnail_name R.thumbnail_fault "gallery" bytes mime >>= public_url_of

  unfoldable pub upload_renderer :
      Option (Bool × Bytes) → Action (Option String) → Action (Option String)
  upload_renderer (some (true, b ∷ bytes)) fallback =
      uploading R.thumbnail_name R.thumbnail_fault "materials" (b ∷ bytes) "image/svg+xml"
      >>= public_url_of
  upload_renderer _ fallback = fallback

  unfoldable pub thumbnail_of : Option String → Bytes → String → Action (Option String)
  thumbnail_of none bytes mime = upload_generated (R.generate bytes mime)
  thumbnail_of (some url) bytes mime =
      upload_renderer (R.thumbnail_at url) (upload_generated (R.generate bytes mime))

  abbrev pub renderer_url : Json → Option String
  renderer_url response =
      non_empty (
        text
          (or_else (get "thumbnail_url" response) (pointer2 "response" "thumbnail_url" response)))

  unfoldable pub resolve_thumbnail : Json → Bytes → String → Action (Option String)
  resolve_thumbnail response bytes mime = thumbnail_of (renderer_url response) bytes mime

  -- The tables that the statements of the transaction make.
  unfoldable pub written :
      String → Generation → Json → Option String → UploadResult → Tables → Tables
  written id g response thumbnail up t =
      let title = topic_title g in
      record {
        row = some (record g {
          topic_id = some R.new_topic_id;
          content_id = some R.new_content_id;
          recommended_project_id = some R.new_project_id;
          storage_path = some up.path;
          file_url = some up.public_url;
          thumbnail_url = thumbnail;
          delivery_payload = some (
              build_delivery_payload up.public_url thumbnail (output_type_of g) (mime_type_of g)
                (text (pointer2 "artifact_metadata" "preview_url" response)));
          resolved_output_type = some (output_type_of g);
        });
        topics =
            insert_topic
              (record { id = R.new_topic_id; title = title; owner_user_id = g.teacher_id })
              t.topics;
        contents =
            insert_content
              (record {
                id = R.new_content_id;
                topic_id = R.new_topic_id;
                kind = content_type_from_output (output_type_of g);
                title = title;
                media_url = up.public_url;
              })
              t.contents;
        projects =
            record {
              id = R.new_project_id;
              title = title;
              project_file_url = up.public_url;
              thumbnail_url = thumbnail;
              source_reference = id;
            }
            ∷ t.projects;
      }

  abbrev pub new_ids : PublishResult
  new_ids = record {
    topic_id = some R.new_topic_id;
    content_id = some R.new_content_id;
    recommended_project_id = some R.new_project_id;
  }

  -- From the upload of the artifact to the end of the transaction.
  unfoldable pub save :
      String → Generation → Json → Bytes → Option String → Tables → Action PublishResult
  save id g response bytes thumbnail t = do
    up ← uploading R.artifact_name R.artifact_fault "materials" bytes (mime_type_of g)
    push_path up.path
    check R.inserts database
    check R.updates database
    check R.commits database
    set_tables (written id g response thumbnail up t)
    return new_ids

  unfoldable pub publish_response : String → Generation → Json → Tables → Action PublishResult
  publish_response id g response t = do
    file_url ← file_url_of (str_at "s3_object_key" response) response
    bytes ← answer_body (R.artifact_at file_url)
    check_integrity (validate_integrity bytes (mime_type_of g))
    thumbnail ← resolve_thumbnail response bytes (mime_type_of g)
    save id g response bytes thumbnail t

  unfoldable pub publish_row : String → Generation → Tables → Action PublishResult
  publish_row id g t =
      let closed =
        check R.commits database
        >> return (record { topic_id = none; content_id = none; recommended_project_id = none }) in
      let opened = some_or missing_artifact g.generator_service_response >>= λ response.
      publish_response id g response t in
      if is_closed g.status then closed else opened

  unfoldable pub publish_found : String → Option Generation → Tables → Action PublishResult
  publish_found id none t = fail (not_found id)
  publish_found id (some g) t = publish_row id g t

  unfoldable pub publish_inner : String → Action PublishResult
  publish_inner id s = (check R.reads database >> publish_found id s.tables.row s.tables) s

  unfoldable pub delete_all : List String → List String → List String
  delete_all [] keys = keys
  delete_all (p ∷ ps) keys = delete_all ps (delete R.delete_fault p keys).1

  unfoldable pub compensate :
      Result PublicationError PublishResult × Store → Result PublicationError PublishResult × Store
  compensate (ok r, s) = (ok r, s)
  compensate (err e, s) = (err e, to_bucket (delete_all s.uploaded_paths s.bucket) s)

  -- `publish`: the list of uploaded paths is new. The id is given as `Uuid::to_string` writes it, so that
  -- it is not written anew.
  unfoldable pub publish :
      String → Tables → List String → Result PublicationError PublishResult × Store
  publish id t keys =
      let s : Store = record { tables = t; bucket = keys; uploaded_paths = [] } in
      if R.parse_uuid id then compensate (publish_inner id s) else (err invalid_uuid, s)
