-- ===== src/Storage/Uploads.antt =====
-- Which uploads are taken.
use klass_mobile_backend.Prelude.{
  ℕ, ◌*◌, ◌≤◌, ◌≡◌, refl, sym, ap, ◌∙◌, String, Bool, true, false, not, Option, none, some, List,
  ◌∷◌, ltb, Bool-cases, inl, inr, if◌then◌else◌, arith,
}
use mathlib.Core.Path.{subst}
use klass_mobile_backend.Prelude.Result.{Result, ok, err, ok≢err, ok_injective}
use klass_mobile_backend.Storage.{
  UploadCategory, UploadResult, UploadError, get_category, mime_to_extension, contains,
  check_extension, check_upload, with_category, put, upload, append, slash,
}

-- What an upload must satisfy, apart from the client: a known category and content type, a size
-- within the category's limit, and an extension that the category allows.
abbrev pub IsAllowed :
    (category : String) → (size : ℕ) → (content_type : String) → UploadCategory → String → Type 0
IsAllowed category size content_type cat ext =
    (get_category category ≡ some cat)
    × (mime_to_extension content_type ≡ some ext)
    × (size ≤ cat.max_size_kb * 1024)
    × (contains cat.allowed_extensions ext ≡ true)

check_extension-ok :
    (cat : UploadCategory) (o : Option String) (ext : String)
    → check_extension cat o ≡ ok ext
    → (o ≡ some ext) × (contains cat.allowed_extensions ext ≡ true)
unfolding check_extension
check_extension-ok cat none ext h = absurd (ok≢err ext _ (sym h))
check_extension-ok cat (some e) ext h = allowed (contains cat.allowed_extensions e) refl h
  where
    allowed :
        (b : Bool)
        → contains cat.allowed_extensions e ≡ b
        → (if not b then err UploadError.not_allowed else ok e) ≡ ok ext
        → (some e ≡ some ext) × (contains cat.allowed_extensions ext ≡ true)
    allowed true k m =
        let same = ok_injective m in
        (ap some same, ap (contains cat.allowed_extensions) (sym same) ∙ k)
    allowed false k m = absurd (ok≢err ext _ (sym m))

with_category-ok :
    (c cat : UploadCategory) (r : Result UploadError String) (ext : String)
    → with_category c r ≡ ok (cat, ext)
    → (c ≡ cat) × (r ≡ ok ext)
with_category-ok c cat (err e) ext h = absurd (ok≢err _ e (sym h))
with_category-ok c cat (ok x) ext h =
    (ap (λ p. p.0) (ok_injective h), ap (λ p. ok p.1) (ok_injective h))

check_upload-ok :
    (o : Option UploadCategory) (size : ℕ) (content_type : String) (cat : UploadCategory)
    (ext : String)
    → check_upload o size content_type ≡ ok (cat, ext)
    → (o ≡ some cat)
      × (mime_to_extension content_type ≡ some ext)
      × (size ≤ cat.max_size_kb * 1024)
      × (contains cat.allowed_extensions ext ≡ true)
unfolding check_upload
check_upload-ok none size content_type cat ext h = absurd (ok≢err _ _ (sym h))
check_upload-ok (some c) size content_type cat ext h =
    sized (ltb (c.max_size_kb * 1024) size) refl h
  where
    sized :
        (b : Bool)
        → ltb (c.max_size_kb * 1024) size ≡ b
        → (if b
            then err UploadError.file_too_large
            else with_category c (check_extension c (mime_to_extension content_type)))
          ≡ ok (cat, ext)
        → (some c ≡ some cat)
          × (mime_to_extension content_type ≡ some ext)
          × (size ≤ cat.max_size_kb * 1024)
          × (contains cat.allowed_extensions ext ≡ true)
    sized true k m = absurd (ok≢err _ _ (sym m))
    sized false k m =
        let (same, e) =
          with_category-ok c cat (check_extension c (mime_to_extension content_type)) ext m in
        let (found, allowed) = check_extension-ok c (mime_to_extension content_type) ext e in
        let small : size ≤ c.max_size_kb * 1024 = ground (arith, k) in
        (
          ap some same,
          found,
          subst (λ x. size ≤ x.max_size_kb * 1024) same small,
          subst (λ x. contains x.allowed_extensions ext ≡ true) same allowed,
        )

-- Where an upload succeeds it was allowed, and the bucket has one more key, of the category's path and
-- the name for the extension.
pub upload-ok :
    (base : String) (file_name : String → String) (client : Option String) (category : String)
    (size : ℕ) (content_type : String) (bucket : List String) (r : UploadResult)
    → (upload base file_name client category size content_type bucket).0 ≡ ok r
    → (cat : UploadCategory) × (ext : String) × IsAllowed category size content_type cat ext
      × (r.path ≡ append cat.path (String.◌∷◌ slash (file_name ext)))
      × ((upload base file_name client category size content_type bucket).1 ≡ r.path ∷ bucket)
unfolding upload put
upload-ok base file_name client category size content_type bucket r h =
    checked client (check_upload (get_category category) size content_type) refl h
  where
    checked :
        (c : Option String) (o : Result UploadError (UploadCategory × String))
        → check_upload (get_category category) size content_type ≡ o
        → (put base file_name c o bucket).0 ≡ ok r
        → (cat : UploadCategory) × (ext : String) × IsAllowed category size content_type cat ext
          × (r.path ≡ append cat.path (String.◌∷◌ slash (file_name ext)))
          × ((put base file_name c o bucket).1 ≡ r.path ∷ bucket)
    checked c (err x) e k = absurd (ok≢err r _ (sym k))
    checked (some fault) (ok a) e k = absurd (ok≢err r _ (sym k))
    checked none (ok a) e k =
        let path = ap (λ x. x.path) (ok_injective k) in
        (
          a.0,
          a.1,
          check_upload-ok (get_category category) size content_type a.0 a.1 e,
          sym path,
          ap (λ x. x ∷ bucket) path,
        )

-- The category of the artifacts takes no SVG: such an upload fails and changes nothing.
pub svg_refused :
    (base : String) (file_name : String → String) (client : Option String) (size : ℕ)
    (bucket : List String)
    → (e : UploadError) × (upload base file_name client "materials" size "image/svg+xml" bucket
        ≡ (err e, bucket))
unfolding upload get_category mime_to_extension check_upload check_extension put
svg_refused base file_name client size bucket = elim (Bool-cases (ltb (10240 * 1024) size)) [
  | inl t ↦ rw t (UploadError.file_too_large, refl)
  | inr f ↦ rw f (UploadError.not_allowed, refl)
]
