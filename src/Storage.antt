-- ===== src/Storage.antt =====
-- src/storage/r2.rs: the upload categories, the check of an upload, and public URLs. The client of S3
-- and the name that a file gets (random digits and the time) are arguments.
pub mod Uploads
pub mod Urls
use klass_mobile_backend.Prelude.{
  ℕ, ◌*◌, ◌==◌, ◌&&◌, String, Bool, true, false, ◌||◌, not, Option, none, some, List, [], ◌∷◌, ltb,
  str_eq, if◌then◌else◌,
}
use Prim.Native.Char.{Char, char, code}
use mathlib.Core.Option
use klass_mobile_backend.Prelude.Text.{is_empty}
use klass_mobile_backend.Prelude.Result.{Result, ok, err}

pub record UploadCategory : Type 0 where
  pub name : String
  pub path : String
  pub allowed_extensions : List String
  pub max_size_kb : ℕ

abbrev pub upload_categories : List UploadCategory
upload_categories =
    record {
      name = "avatars";
      path = "avatars";
      allowed_extensions = "jpg" ∷ "jpeg" ∷ "png" ∷ "webp" ∷ [];
      max_size_kb = 2048;
    }
    ∷ record {
      name = "gallery";
      path = "gallery";
      allowed_extensions = "jpg" ∷ "jpeg" ∷ "png" ∷ "webp" ∷ "gif" ∷ "svg" ∷ [];
      max_size_kb = 5120;
    }
    ∷ record {
      name = "materials";
      path = "materials";
      allowed_extensions =
          "pdf" ∷ "doc" ∷ "docx" ∷ "ppt" ∷ "pptx" ∷ "xls" ∷ "xlsx" ∷ "txt" ∷ "md" ∷ [];
      max_size_kb = 10240;
    }
    ∷ record {
      name = "attachments";
      path = "attachments";
      allowed_extensions =
          "jpg" ∷ "jpeg" ∷ "png" ∷ "webp" ∷ "gif" ∷ "pdf" ∷ "doc" ∷ "docx" ∷ "zip" ∷ [];
      max_size_kb = 10240;
    }
    ∷ []

abbrev pub find_category : String → List UploadCategory → Option UploadCategory
find_category name [] = none
find_category name (c ∷ cs) = if str_eq c.name name then some c else find_category name cs

unfoldable pub get_category : String → Option UploadCategory
get_category name = find_category name upload_categories

abbrev pub extensions : List (String × String)
extensions =
    ("image/jpeg", "jpg")
    ∷ ("image/png", "png")
    ∷ ("image/webp", "webp")
    ∷ ("image/gif", "gif")
    ∷ ("image/svg+xml", "svg")
    ∷ ("application/pdf", "pdf")
    ∷ ("application/msword", "doc")
    ∷ ("application/vnd.openxmlformats-officedocument.wordprocessingml.document", "docx")
    ∷ ("application/vnd.ms-powerpoint", "ppt")
    ∷ ("application/vnd.openxmlformats-officedocument.presentationml.presentation", "pptx")
    ∷ ("application/vnd.ms-excel", "xls")
    ∷ ("application/vnd.openxmlformats-officedocument.spreadsheetml.sheet", "xlsx")
    ∷ ("text/plain", "txt")
    ∷ ("text/markdown", "md")
    ∷ ("application/zip", "zip")
    ∷ []

abbrev pub first_match : String → List (String × String) → Option String
first_match mime [] = none
first_match mime (e ∷ es) = if str_eq mime e.0 then some e.1 else first_match mime es

unfoldable pub mime_to_extension : String → Option String
mime_to_extension mime = first_match mime extensions

abbrev pub contains : List String → String → Bool
contains [] x = false
contains (y ∷ ys) x = str_eq y x || contains ys x

pub record UploadResult : Type 0 where
  pub path : String
  pub public_url : String

-- The texts of the errors are left out, but for the client's.
pub data UploadError : Type 0 where
  unknown_category file_too_large unsupported_type not_allowed : UploadError
  put_failed : String → UploadError

-- `format!` of texts: one after the other.
unfoldable pub append : String → String → String
append String.[] t = t
append (String.◌∷◌ c s) t = String.◌∷◌ c (append s t)

abbrev pub slash : Char
slash = char 47 tt

abbrev pub is_slash : Char → Bool
is_slash c = code c == 47

-- `trim_start_matches('/')`, `trim_end_matches('/')` and `strip_prefix`.
unfoldable pub trim_start_slashes : String → String
trim_start_slashes String.[] = String.[]
trim_start_slashes (String.◌∷◌ c s) =
    let rest = trim_start_slashes s in if is_slash c then rest else String.◌∷◌ c s

unfoldable pub trim_end_slashes : String → String
trim_end_slashes String.[] = String.[]
trim_end_slashes (String.◌∷◌ c s) =
    let rest = trim_end_slashes s in
    if is_slash c && is_empty rest then String.[] else String.◌∷◌ c rest

unfoldable pub strip_prefix : String → String → Option String
strip_prefix String.[] s = some s
strip_prefix (String.◌∷◌ c p) String.[] = none
strip_prefix (String.◌∷◌ c p) (String.◌∷◌ d s) =
    let rest = strip_prefix p s in if code c == code d then rest else none

unfoldable pub generate_public_url : (public_url_base path : String) → String
generate_public_url base path = append (trim_end_slashes base) (String.◌∷◌ slash path)

unfoldable pub extract_object_key : (public_url public_url_base : String) → Option String
extract_object_key url base =
    Option.map trim_start_slashes (strip_prefix (trim_end_slashes base) url)

-- The checks in front of an upload: the category and the extension.
unfoldable pub check_extension : UploadCategory → Option String → Result UploadError String
check_extension cat none = err unsupported_type
check_extension cat (some ext) =
    if not (contains cat.allowed_extensions ext) then err not_allowed else ok ext

abbrev pub with_category :
    UploadCategory → Result UploadError String → Result UploadError (UploadCategory × String)
with_category c (err e) = err e
with_category c (ok ext) = ok (c, ext)

unfoldable pub check_upload :
    Option UploadCategory
    → (size : ℕ) → (content_type : String) → Result UploadError (UploadCategory × String)
check_upload none size content_type = err unknown_category
check_upload (some cat) size content_type =
    if ltb (cat.max_size_kb * 1024) size
    then err file_too_large
    else with_category cat (check_extension cat (mime_to_extension content_type))

-- The bucket is the list of its keys.
unfoldable pub put :
    (public_url_base : String)
    → (file_name : String → String) → (client : Option String)
    → Result UploadError (UploadCategory × String)
    → List String
    → Result UploadError UploadResult × List String
put base file_name client (err e) bucket = (err e, bucket)
put base file_name (some fault) (ok a) bucket = (err (put_failed fault), bucket)
put base file_name none (ok a) bucket =
    let key = append a.0.path (String.◌∷◌ slash (file_name a.1)) in
    (ok (record { path = key; public_url = generate_public_url base key }), key ∷ bucket)

-- `upload`, with the client's fault, where it has one.
unfoldable pub upload :
    (public_url_base : String)
    → (file_name : String → String) → (client : Option String) → (category : String) → (size : ℕ)
    → (content_type : String) → List String
    → Result UploadError UploadResult × List String
upload base file_name client category size content_type bucket =
    put base file_name client (check_upload (get_category category) size content_type) bucket

abbrev pub without : String → List String → List String
without key [] = []
without key (k ∷ ks) = if str_eq k key then without key ks else k ∷ without key ks

-- `delete`: a fault of the client is logged and nothing is deleted.
unfoldable pub delete :
    (client : Option String) → String → List String → Result UploadError Bool × List String
delete none key bucket = (ok true, without key bucket)
delete (some fault) key bucket = (ok false, bucket)
