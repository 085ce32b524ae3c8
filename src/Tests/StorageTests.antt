-- ===== src/Tests/StorageTests.antt =====
-- Uploads and public URLs at concrete inputs.
use klass_mobile_backend.Prelude.{◌≡◌, refl, String, none, some, [], ◌∷◌}
use klass_mobile_backend.Storage.{
  UploadCategory, UploadResult, upload, append, slash, generate_public_url, extract_object_key,
  get_category, mime_to_extension, check_upload, check_extension, put, trim_start_slashes,
  trim_end_slashes,
}
use klass_mobile_backend.Prelude.Text.{is_empty}
use klass_mobile_backend.Storage.Uploads.{IsAllowed, upload-ok}
use klass_mobile_backend.Storage.Urls.{extract_object_key-generate_public_url}

abbrev named : String → String
named ext = append "ab_1_file." ext

abbrev stored : UploadResult
stored = record {
  path = "materials/ab_1_file.pdf";
  public_url = "https://cdn/materials/ab_1_file.pdf";
}

upload-ok_at :
    (cat : UploadCategory) × (ext : String) × IsAllowed "materials" 4096 "application/pdf" cat ext
    × (stored.path ≡ append cat.path (String.◌∷◌ slash (named ext)))
    × ((upload "https://cdn/" named none "materials" 4096 "application/pdf" []).1
        ≡ stored.path ∷ [])
unfolding upload get_category mime_to_extension check_upload check_extension put append
    generate_public_url trim_end_slashes is_empty
upload-ok_at = upload-ok "https://cdn/" named none "materials" 4096 "application/pdf" [] stored refl

extract_object_key-generate_public_url_at :
    extract_object_key (generate_public_url "https://cdn/" "materials/a.pdf") "https://cdn/"
    ≡ some "materials/a.pdf"
unfolding trim_start_slashes
extract_object_key-generate_public_url_at =
    extract_object_key-generate_public_url "https://cdn/" "materials/a.pdf" refl
