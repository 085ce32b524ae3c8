-- ===== src/Publication.antt =====
-- src/media_gen/publication.rs: the publication of an artifact. The tables are written by the commit
-- at the end of the transaction only; the bucket is written as the uploads are made.
pub mod Publish
pub mod Outcomes
pub mod Success
use mathlib.Core.Option
use klass_mobile_backend.Prelude.{
  ℕ, zero, suc, ◌-◌, String, Bool, true, false, ◌&&◌, ◌||◌, not, Option, none, some, List, [], ◌∷◌,
  length, drop, ◌==◌, str_eq, if◌then◌else◌,
}
use klass_mobile_backend.Prelude.Int.{ℤ}
use klass_mobile_backend.Prelude.Text.{is_empty}
use klass_mobile_backend.Prelude.Result.{Result, ok, err}
use klass_mobile_backend.Queue.Worker.{contains}
use klass_mobile_backend.Json.{Json, null, boolean, string, get, str_at, pointer2}
use klass_mobile_backend.Json
use klass_mobile_backend.Storage.{UploadResult, UploadError, upload, delete}
use klass_mobile_backend.Orchestrator.{Generation}
use klass_mobile_backend.Orchestrator.Audit.Payload.{json_object, text_or_null, or_default}

abbrev pub Bytes : Type 0
Bytes = List ℕ

-- What the errors of crates carry is left out.
pub data PublicationError : Type 0 where
  not_found : String → PublicationError
  missing_artifact : PublicationError
  integrity : String → PublicationError
  download : PublicationError
  presign : PublicationError
  upload_error : UploadError → PublicationError
  thumbnail_error : PublicationError
  database : PublicationError
  invalid_uuid : PublicationError

pub record PublishResult : Type 0 where
  pub topic_id : Option String
  pub content_id : Option String
  pub recommended_project_id : Option ℤ

pub record Topic : Type 0 where
  pub id : String
  pub title : String
  pub owner_user_id : Option ℤ

pub record Content : Type 0 where
  pub id : String
  pub topic_id : String
  pub kind : String
  pub title : String
  pub media_url : String

pub record Project : Type 0 where
  pub id : ℤ
  pub title : String
  pub project_file_url : String
  pub thumbnail_url : Option String
  pub source_reference : String

-- The row of the generation, where there is one, and the tables that get a new row.
pub record Tables : Type 0 where
  pub row : Option Generation
  pub topics : List Topic
  pub contents : List Content
  pub projects : List Project

pub record Store : Type 0 where
  pub tables : Tables
  pub bucket : List String
  pub uploaded_paths : List String

-- The replies of the clients and of the database to one publication: the presigned URL of a key, the
-- answers to the downloads (a response's success and body, where there is one), the thumbnail, new
-- names and ids, and which calls fail.
pub record Replies : Type 0 where
  pub parse_uuid : String → Bool
  pub presigned_url : String → Option String
  pub artifact_at : String → Option (Bool × Bytes)
  pub thumbnail_at : String → Option (Bool × Bytes)
  pub generate : Bytes → String → Option (Bytes × String)
  pub public_url : String
  pub thumbnail_name : String → String
  pub artifact_name : String → String
  pub thumbnail_fault : Option String
  pub artifact_fault : Option String
  pub delete_fault : Option String
  pub new_topic_id : String
  pub new_content_id : String
  pub new_project_id : ℤ
  pub reads : Bool
  pub inserts : Bool
  pub updates : Bool
  pub commits : Bool

-- An asynchronous function on the store.
abbrev pub Action {ℓ} : Type ℓ → Type ℓ
Action A = Store → Result PublicationError A × Store

abbrev pub after {ℓ κ} :
    {A : Type ℓ} {B : Type κ}
    → (A → Action B)
    → Result PublicationError A × Store
    → Result PublicationError B × Store
after f (ok a, s) = f a s
after f (err e, s) = (err e, s)

infixl 5 ◌>>=◌ ◌>>◌
abbrev pub ◌>>=◌ {ℓ κ} : {A : Type ℓ} {B : Type κ} → Action A → (A → Action B) → Action B
m >>= f = λ s. after f (m s)

abbrev pub ◌>>◌ {κ} : {B : Type κ} → Action (Unit {0}) → Action B → Action B
m >> k = m >>= λ _. k

abbrev pub return {ℓ} : {A : Type ℓ} → A → Action A
return a s = (ok a, s)

abbrev pub fail {ℓ} : {A : Type ℓ} → PublicationError → Action A
fail e s = (err e, s)

abbrev pub some_or {ℓ} : {A : Type ℓ} → PublicationError → Option A → Action A
some_or e none = fail e
some_or e (some a) = return a

abbrev pub check : Bool → PublicationError → Action (Unit {0})
check true e = return tt
check false e = fail e

unfoldable pub default_mime_for : String → String
default_mime_for output_type =
    if str_eq output_type "pdf"
    then "application/pdf"
    else if str_eq output_type "pptx"
    then "application/vnd.openxmlformats-officedocument.presentationml.presentation"
    else if str_eq output_type "docx"
    then "application/vnd.openxmlformats-officedocument.wordprocessingml.document"
    else "application/octet-stream"

unfoldable pub content_type_from_output : String → String
content_type_from_output _ = "module"

unfoldable pub starts_with : Bytes → Bytes → Bool
starts_with [] bytes = true
starts_with (m ∷ magic) [] = false
starts_with (m ∷ magic) (b ∷ bytes) = let rest = starts_with magic bytes in m == b && rest

-- `%PDF`, `PK\x03\x04` and `%%EOF`.
abbrev pub pdf_magic : Bytes
pdf_magic = 37 ∷ 80 ∷ 68 ∷ 70 ∷ []

abbrev pub ooxml_magic : Bytes
ooxml_magic = 80 ∷ 75 ∷ 3 ∷ 4 ∷ []

abbrev pub pdf_eof_marker : Bytes
pdf_eof_marker = 37 ∷ 37 ∷ 69 ∷ 79 ∷ 70 ∷ []

-- `windows(5).any(..)`.
unfoldable pub has_marker : Bytes → Bool
has_marker [] = false
has_marker (b ∷ bytes) = starts_with pdf_eof_marker (b ∷ bytes) || has_marker bytes

unfoldable pub has_pdf_eof_marker : Bytes → Bool
has_pdf_eof_marker bytes = has_marker (drop (length bytes - 1024) bytes)

-- The checksum is only logged.
unfoldable pub validate_integrity : Bytes → String → Option String
validate_integrity [] mime = some "artifact is empty"
validate_integrity (b ∷ bytes) mime =
    if contains mime "pdf"
    then if not (starts_with pdf_magic (b ∷ bytes))
      then some "PDF file missing %PDF header magic bytes"
      else if not (has_pdf_eof_marker (b ∷ bytes))
      then some "PDF file missing %%EOF trailer"
      else none
    else if contains mime "officedocument" || contains mime "presentation" || contains mime "word"
    then if not (starts_with ooxml_magic (b ∷ bytes))
      then some "OOXML file missing PK\\x03\\x04 (ZIP) magic bytes"
      else none
    else none

unfoldable pub check_integrity : Option String → Action (Unit {0})
check_integrity none = return tt
check_integrity (some reason) = fail (integrity reason)

unfoldable pub build_delivery_payload :
    (file_url : String)
    → (thumbnail_url : Option String) → (output_type mime_type : String)
    → (preview_url : Option String) → Json
build_delivery_payload file_url thumbnail_url output_type mime_type preview_url = json_object (
    ("schema_version", string "media_delivery_response.v1")
    ∷ (
      "response_meta",
      json_object (
          ("provider", string "python-renderer")
          ∷ ("model", string "hf-space-v3")
          ∷ ("llm_used", boolean false)
          ∷ []),
    )
    ∷ (
      "fallback",
      json_object (("triggered", boolean false) ∷ ("reason_code", null) ∷ ("action", null) ∷ []),
    )
    ∷ (
      "artifact",
      json_object (
          ("file_url", string file_url)
          ∷ ("thumbnail_url", text_or_null thumbnail_url)
          ∷ ("output_type", string output_type)
          ∷ ("mime_type", string mime_type)
          ∷ ("preview_url", text_or_null preview_url)
          ∷ []),
    )
    ∷ [])

-- `or_else` on options.
abbrev pub or_else {ℓ} : {A : Type ℓ} → Option A → Option A → Option A
or_else (some a) o = some a
or_else none o = o

abbrev pub text : Option Json → Option String
text o = Json.◌>>=◌ o Json.as_str
