-- ===== src/Publication/Success.antt =====
-- What a publication that succeeds has written, and one that cannot succeed.
use mathlib.Core.Path.{subst}
use mathlib.Core.Option.{some-injective}
use klass_mobile_backend.Prelude.{
  ℕ, ◌≡◌, ◌≢◌, refl, sym, ap, ◌∙◌, String, Bool, true, false, Option, none, some, List, [], ◌∷◌,
  length, if◌then◌else◌,
}
use klass_mobile_backend.Prelude.Result.{Result, ok, err, ok≢err}
use klass_mobile_backend.Json.{Json, get, find, str_at}
use klass_mobile_backend.Storage.{UploadResult}
use klass_mobile_backend.Storage.Uploads.{svg_refused}
use klass_mobile_backend.Orchestrator.{Generation}
use klass_mobile_backend.Orchestrator.Workflow.{published_row, has_schema, named_value}
use klass_mobile_backend.Publication.{
  Bytes, PublicationError, PublishResult, Tables, Store, Replies, Action, after, ◌>>=◌, ◌>>◌,
  return, some_or, check, validate_integrity, check_integrity, build_delivery_payload,
}
use klass_mobile_backend.Publication.Publish.{
  answer_body, uploaded, push_path, set_tables, is_closed, file_url_of, uploading, upload_generated,
  upload_renderer, thumbnail_of, renderer_url, resolve_thumbnail, written, new_ids, save,
  publish_response, publish_row, publish_found, publish_inner, compensate, publish, mime_type_of,
  public_url_of,
}

-- Where the action succeeds, the tables after it have the property.
record IsEnding {ℓ} (P : Tables → Type 0) {A : Type ℓ} (m : Action A) : Type ℓ where
  ends : (s : Store) (a : A) → (m s).0 ≡ ok a → P (m s).1.tables

stuck_after {ℓ κ} :
    {A : Type ℓ} {B : Type κ} (f : A → Action B) (r : Result PublicationError A × Store)
    (e : PublicationError)
    → r.0 ≡ err e
    → (b : B) → (after f r).0 ≢ ok b
stuck_after f (ok a, s) e x b h = ok≢err a e x
stuck_after f (err e', s) e x b h = ok≢err b e' (sym h)

module _ {P : Tables → Type 0} where
  ends-after {ℓ κ} :
      {A : Type ℓ} {B : Type κ} (f : A → Action B)
      → ((a : A) → IsEnding P (f a))
      → (r : Result PublicationError A × Store) (b : B) → (after f r).0 ≡ ok b
      → P (after f r).1.tables
  ends-after f k (ok a, s) b h = IsEnding.ends (k a) s b h
  ends-after f k (err e, s) b h = absurd (ok≢err b e (sym h))

  IsEnding-bind {ℓ κ} :
      {A : Type ℓ} {B : Type κ} (m : Action A) {f : A → Action B}
      → ((a : A) → IsEnding P (f a))
      → IsEnding P (m >>= f)
  IsEnding-bind m {f = f} k = record { ends = λ s b h. ends-after f k (m s) b h }

  IsEnding-set :
      (t : Tables) (r : PublishResult) → P t → IsEnding P (set_tables t >>= λ u. return r)
  IsEnding-set t r p = record { ends = λ s a h. p }

  -- A chain whose first part always fails.
  IsEnding-stuck {ℓ κ} :
      {A : Type ℓ} {B : Type κ} (m : Action A) (f : A → Action B)
      → ((s : Store) → (e : PublicationError) × ((m s).0 ≡ err e))
      → IsEnding P (m >>= f)
  IsEnding-stuck m f h = record { ends = λ s b k. absurd (stuck_after f (m s) (h s).0 (h s).1 b k) }

module _ (R : Replies) where
  -- The tables that the transaction of a publication makes of these.
  abbrev pub IsPublished : String → Generation → Tables → Tables → Type 0
  IsPublished id g t t' =
      (response : Json) × (thumbnail : Option String) × (up : UploadResult) × (t'
        ≡ written R id g response thumbnail up t)

  IsEnding-save :
      (id : String) (g : Generation) (response : Json) (bytes : Bytes) (th : Option String)
      (t : Tables)
      → IsEnding (IsPublished id g t) (save R id g response bytes th t)
  unfolding save
  IsEnding-save id g response bytes th t =
      let database = PublicationError.database in
      IsEnding-bind
        (uploading R R.artifact_name R.artifact_fault "materials" bytes (mime_type_of g))
        (λ up. IsEnding-bind (push_path up.path) (λ a.
          IsEnding-bind (check R.inserts database) (λ b.
            IsEnding-bind (check R.updates database) (λ c.
              IsEnding-bind (check R.commits database) (λ d.
                IsEnding-set (written R id g response th up t) (new_ids R)
                  (response, th, up, refl))))))

  IsEnding-publish_response :
      (id : String) (g : Generation) (response : Json) (t : Tables)
      → IsEnding (IsPublished id g t) (publish_response R id g response t)
  unfolding publish_response
  IsEnding-publish_response id g response t =
      IsEnding-bind (file_url_of R (str_at "s3_object_key" response) response) (λ url.
        IsEnding-bind (answer_body (R.artifact_at url)) (λ bytes.
          IsEnding-bind (check_integrity (validate_integrity bytes (mime_type_of g))) (λ u.
            IsEnding-bind (resolve_thumbnail R response bytes (mime_type_of g))
              (λ th. IsEnding-save id g response bytes th t))))

  -- The whole publication, where it ends well on a generation that is not closed.
  module _ (P : Tables → Type 0) (id : String) (g : Generation) (t : Tables) where
    row_ends :
        is_closed g.status ≡ false
        → ((response : Json)
            → g.generator_service_response ≡ some response
            → IsEnding P (publish_response R id g response t))
        → (s : Store) (r : PublishResult) → (publish_row R id g t s).0 ≡ ok r
        → P (publish_row R id g t s).1.tables
    unfolding publish_row
    row_ends n k s r = rw n (IsEnding.ends (given g.generator_service_response k) s r)
      where
        given :
            (o : Option Json)
            → ((response : Json)
                → o ≡ some response
                → IsEnding P (publish_response R id g response t))
            → IsEnding P
                (some_or PublicationError.missing_artifact o >>= λ v. publish_response R id g v t)
        given none k =
            IsEnding-stuck (some_or {A = Json} PublicationError.missing_artifact none)
              (λ v. publish_response R id g v t) (λ s. (PublicationError.missing_artifact, refl))
        given (some v) k = record { ends = λ s a h. IsEnding.ends (k v refl) s a h }

    found_ends :
        is_closed g.status ≡ false
        → ((response : Json)
            → g.generator_service_response ≡ some response
            → IsEnding P (publish_response R id g response t))
        → (row : Option Generation) → row ≡ some g
        → IsEnding P (publish_found R id row t)
    unfolding publish_found
    found_ends n k row e =
        subst (λ o. IsEnding P (publish_found R id o t)) (sym e) (record { ends = row_ends n k })

    ends-compensate :
        (x : Result PublicationError PublishResult × Store) (r : PublishResult)
        → ((a : PublishResult) → x.0 ≡ ok a → P x.1.tables)
        → (compensate R x).0 ≡ ok r
        → P (compensate R x).1.tables
    unfolding compensate
    ends-compensate (ok a, s) r k h = k a refl
    ends-compensate (err e, s) r k h = absurd (ok≢err r e (sym h))

    publish_ends :
        is_closed g.status ≡ false
        → ((response : Json)
            → g.generator_service_response ≡ some response
            → IsEnding P (publish_response R id g response t))
        → t.row ≡ some g
        → (keys : List String) (r : PublishResult) → (publish R id t keys).0 ≡ ok r
        → P (publish R id t keys).1.tables
    unfolding publish publish_inner
    publish_ends n k e keys r = either (R.parse_uuid id)
      where
        start : Store
        start = record { tables = t; bucket = keys; uploaded_paths = [] }

        whole : IsEnding P (check R.reads PublicationError.database >> publish_found R id t.row t)
        whole =
            IsEnding-bind (check R.reads PublicationError.database) (λ u. found_ends n k t.row e)

        either :
            (b : Bool)
            → (if b
                then compensate R (publish_inner R id start)
                else (err PublicationError.invalid_uuid, start)).0
              ≡ ok r
            → P
                (if b
                  then compensate R (publish_inner R id start)
                  else (err PublicationError.invalid_uuid, start)).1.tables
        either true h =
            ends-compensate (publish_inner R id start) r (λ a x. IsEnding.ends whole start a x) h
        either false h = absurd (ok≢err r _ (sym h))

  -- A publication that succeeds on a generation that is neither completed nor cancelled leaves a row
  -- that the workflow takes for published and delivered, with the same status.
  pub published_is_seen :
      (id : String) (g : Generation) (t : Tables) (keys : List String) (r : PublishResult)
      → t.row ≡ some g
      → is_closed g.status ≡ false
      → (publish R id t keys).0 ≡ ok r
      → (g' : Generation) × ((publish R id t keys).1.tables.row ≡ some g')
        × (g'.status ≡ g.status)
        × (published_row g' ≡ true)
        × (has_schema g'.delivery_payload ≡ true)
  unfolding written published_row has_schema named_value build_delivery_payload get find
  published_is_seen id g t keys r e n h =
      let (response, th, up, w) =
        publish_ends (IsPublished id g t) id g t n
          (λ response _. IsEnding-publish_response id g response t) e keys r h in
      (_, ap (λ x. x.row) w, refl, refl, refl)

  thumbnail_stuck :
      (url : String) (b : ℕ) (bytes artifact : Bytes) (mime : String)
      → R.thumbnail_at url ≡ some (true, b ∷ bytes)
      → (s : Store)
      → (e : PublicationError) × ((thumbnail_of R (some url) artifact mime s).0 ≡ err e)
  unfolding thumbnail_of upload_renderer uploading uploaded
  thumbnail_stuck url b bytes artifact mime h s =
      let (e, refused) =
        svg_refused R.public_url R.thumbnail_name R.thumbnail_fault (length (b ∷ bytes)) s.bucket in
      (
        PublicationError.upload_error e,
        ap (λ o. (upload_renderer R o (upload_generated R (R.generate artifact mime)) s).0) h
            ∙ ap (λ u. (after (public_url_of R) (uploaded s u)).0) refused,
      )

  -- Where the renderer gives a thumbnail that can be downloaded and is not empty, the publication of a
  -- generation that is neither completed nor cancelled never succeeds.
  pub thumbnail_stops_publication :
      (id : String) (g : Generation) (t : Tables) (keys : List String) (response : Json)
      (url : String) (b : ℕ) (bytes : Bytes)
      → t.row ≡ some g
      → is_closed g.status ≡ false
      → g.generator_service_response ≡ some response
      → renderer_url R response ≡ some url
      → R.thumbnail_at url ≡ some (true, b ∷ bytes)
      → (r : PublishResult) → (publish R id t keys).0 ≢ ok r
  unfolding publish_response resolve_thumbnail
  thumbnail_stops_publication id g t keys response url b bytes e n given u d r h =
      publish_ends (λ _. ⊥) id g t n
        (λ v same.
          let is_url : renderer_url R v ≡ some url =
            ap (renderer_url R) (some-injective _ _ (sym same ∙ given)) ∙ u in
          IsEnding-bind (file_url_of R (str_at "s3_object_key" v) v) (λ file_url.
            IsEnding-bind (answer_body (R.artifact_at file_url)) (λ artifact.
              IsEnding-bind (check_integrity (validate_integrity artifact (mime_type_of g))) (λ _.
                IsEnding-stuck (resolve_thumbnail R v artifact (mime_type_of g))
                  (λ th. save R id g v artifact th t)
                  (λ s.
                    let (x, stuck) = thumbnail_stuck url b bytes artifact (mime_type_of g) d s in
                    (
                      x,
                      ap (λ o. (thumbnail_of R o artifact (mime_type_of g) s).0) is_url ∙ stuck,
                    ))))))
        e keys r h
