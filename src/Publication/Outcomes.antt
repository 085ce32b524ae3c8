-- ===== src/Publication/Outcomes.antt =====
-- What a publication leaves behind.
use klass_mobile_backend.Prelude.{
  ◌≡◌, refl, sym, ◌∙◌, String, Bool, true, false, Option, none, some, List, [], ◌∷◌, if◌then◌else◌,
}
use klass_mobile_backend.Prelude.Result.{Result, ok, err, ok≢err}
use klass_mobile_backend.Json.{Json}
use klass_mobile_backend.Storage.{UploadResult, UploadError}
use klass_mobile_backend.Orchestrator.{Generation}
use klass_mobile_backend.Publication.{
  Bytes, PublicationError, PublishResult, Tables, Store, Replies, Action, after, ◌>>=◌, ◌>>◌,
  return, fail, some_or, check, validate_integrity, check_integrity,
}
use klass_mobile_backend.Publication.Publish.{
  answer_body, uploaded, push_path, set_tables, is_closed, file_url_of, uploading, upload_generated,
  upload_renderer, thumbnail_of, renderer_url, resolve_thumbnail, written, new_ids, save,
  publish_response, publish_row, publish_found, publish_inner, compensate, publish, mime_type_of,
}

-- The action leaves the tables alone where it fails, and where it does not, too.
record IsQuiet {ℓ} {A : Type ℓ} (m : Action A) : Type 0 where
  quiet : (s : Store) → (m s).1.tables ≡ s.tables

record IsAtomic {ℓ} {A : Type ℓ} (m : Action A) : Type ℓ where
  atomic : (s : Store) (e : PublicationError) → (m s).0 ≡ err e → (m s).1.tables ≡ s.tables

quiet-after {ℓ κ} :
    {A : Type ℓ} {B : Type κ} (f : A → Action B)
    → ((a : A) → IsQuiet (f a))
    → (r : Result PublicationError A × Store) → (after f r).1.tables ≡ r.1.tables
quiet-after f k (ok a, s) = IsQuiet.quiet (k a) s
quiet-after f k (err e, s) = refl

IsQuiet-bind {ℓ κ} :
    {A : Type ℓ} {B : Type κ} {m : Action A} {f : A → Action B}
    → IsQuiet m
    → ((a : A) → IsQuiet (f a))
    → IsQuiet (m >>= f)
IsQuiet-bind {m = m} {f = f} h k = record { quiet = λ s. quiet-after f k (m s) ∙ IsQuiet.quiet h s }

atomic-after {ℓ κ} :
    {A : Type ℓ} {B : Type κ} (f : A → Action B)
    → ((a : A) → IsAtomic (f a))
    → (r : Result PublicationError A × Store) (e : PublicationError) → (after f r).0 ≡ err e
    → (after f r).1.tables ≡ r.1.tables
atomic-after f k (ok a, s) e h = IsAtomic.atomic (k a) s e h
atomic-after f k (err x, s) e h = refl

IsAtomic-bind {ℓ κ} :
    {A : Type ℓ} {B : Type κ} {m : Action A} {f : A → Action B}
    → IsQuiet m
    → ((a : A) → IsAtomic (f a))
    → IsAtomic (m >>= f)
IsAtomic-bind {m = m} {f = f} h k = record {
  atomic = λ s e x. atomic-after f k (m s) e x ∙ IsQuiet.quiet h s;
}

IsAtomic-quiet {ℓ} : {A : Type ℓ} {m : Action A} → IsQuiet m → IsAtomic m
IsAtomic-quiet h = record { atomic = λ s e x. IsQuiet.quiet h s }

IsQuiet-return {ℓ} : {A : Type ℓ} {a : A} → IsQuiet (return a)
IsQuiet-return = record { quiet = λ s. refl }

IsQuiet-fail {ℓ} : {A : Type ℓ} {e : PublicationError} → IsQuiet (fail {A = A} e)
IsQuiet-fail = record { quiet = λ s. refl }

IsQuiet-some_or {ℓ} : {A : Type ℓ} (e : PublicationError) (o : Option A) → IsQuiet (some_or e o)
IsQuiet-some_or e none = IsQuiet-fail
IsQuiet-some_or e (some a) = IsQuiet-return

IsQuiet-check : (b : Bool) (e : PublicationError) → IsQuiet (check b e)
IsQuiet-check true e = IsQuiet-return
IsQuiet-check false e = IsQuiet-fail

IsQuiet-push_path : (path : String) → IsQuiet (push_path path)
IsQuiet-push_path path = record { quiet = λ s. refl }

IsQuiet-check_integrity : (o : Option String) → IsQuiet (check_integrity o)
unfolding check_integrity
IsQuiet-check_integrity none = IsQuiet-return
IsQuiet-check_integrity (some reason) = IsQuiet-fail

IsQuiet-answer_body : (o : Option (Bool × Bytes)) → IsQuiet (answer_body o)
unfolding answer_body
IsQuiet-answer_body none = IsQuiet-fail
IsQuiet-answer_body (some (true, bytes)) = IsQuiet-return
IsQuiet-answer_body (some (false, bytes)) = IsQuiet-fail

tables-uploaded :
    (s : Store) (r : Result UploadError UploadResult × List String)
    → (uploaded s r).1.tables ≡ s.tables
unfolding uploaded
tables-uploaded s (ok u, keys) = refl
tables-uploaded s (err e, keys) = refl

module _ (R : Replies) where
  IsQuiet-file_url_of : (o : Option String) (response : Json) → IsQuiet (file_url_of R o response)
  unfolding file_url_of
  IsQuiet-file_url_of none response = IsQuiet-some_or _ _
  IsQuiet-file_url_of (some k) response = IsQuiet-some_or _ _

  IsQuiet-uploading :
      (name : String → String) (fault : Option String) (category : String) (bytes : Bytes)
      (mime : String)
      → IsQuiet (uploading R name fault category bytes mime)
  unfolding uploading
  IsQuiet-uploading name fault category bytes mime = record { quiet = λ s. tables-uploaded s _ }

  IsQuiet-upload_generated : (o : Option (Bytes × String)) → IsQuiet (upload_generated R o)
  unfolding upload_generated
  IsQuiet-upload_generated none = IsQuiet-fail
  IsQuiet-upload_generated (some (bytes, mime)) =
      IsQuiet-bind (IsQuiet-uploading _ _ "gallery" bytes mime) (λ u. IsQuiet-return)

  IsQuiet-upload_renderer :
      (o : Option (Bool × Bytes)) (m : Action (Option String))
      → IsQuiet m
      → IsQuiet (upload_renderer R o m)
  unfolding upload_renderer
  IsQuiet-upload_renderer none m h = h
  IsQuiet-upload_renderer (some (false, bytes)) m h = h
  IsQuiet-upload_renderer (some (true, [])) m h = h
  IsQuiet-upload_renderer (some (true, b ∷ bytes)) m h =
      IsQuiet-bind (IsQuiet-uploading _ _ "materials" (b ∷ bytes) "image/svg+xml")
        (λ u. IsQuiet-return)

  IsQuiet-thumbnail_of :
      (o : Option String) (bytes : Bytes) (mime : String) → IsQuiet (thumbnail_of R o bytes mime)
  unfolding thumbnail_of
  IsQuiet-thumbnail_of none bytes mime = IsQuiet-upload_generated _
  IsQuiet-thumbnail_of (some url) bytes mime =
      IsQuiet-upload_renderer (R.thumbnail_at url) _ (IsQuiet-upload_generated _)

  set_never_fails : (t : Tables) (r : PublishResult) → IsAtomic (set_tables t >>= λ u. return r)
  set_never_fails t r = record { atomic = λ s e x. absurd (ok≢err r e x) }

  IsAtomic-save :
      (id : String) (g : Generation) (response : Json) (bytes : Bytes) (th : Option String)
      (t : Tables)
      → IsAtomic (save R id g response bytes th t)
  unfolding save
  IsAtomic-save id g response bytes th t =
      IsAtomic-bind (IsQuiet-uploading _ _ "materials" bytes _) (λ up.
        IsAtomic-bind (IsQuiet-push_path up.path) (λ u.
          IsAtomic-bind (IsQuiet-check R.inserts PublicationError.database) (λ i.
            IsAtomic-bind (IsQuiet-check R.updates PublicationError.database) (λ d.
              IsAtomic-bind (IsQuiet-check R.commits PublicationError.database)
                (λ c. set_never_fails (written R id g response th up t) (new_ids R))))))

  IsAtomic-publish_response :
      (id : String) (g : Generation) (response : Json) (t : Tables)
      → IsAtomic (publish_response R id g response t)
  unfolding publish_response resolve_thumbnail
  IsAtomic-publish_response id g response t = IsAtomic-bind (IsQuiet-file_url_of _ response) (λ url.
      IsAtomic-bind (IsQuiet-answer_body (R.artifact_at url)) (λ bytes.
        IsAtomic-bind (IsQuiet-check_integrity (validate_integrity bytes (mime_type_of g))) (λ u.
          IsAtomic-bind (IsQuiet-thumbnail_of (renderer_url R response) bytes (mime_type_of g))
            (λ th. IsAtomic-save id g response bytes th t))))

  IsAtomic-publish_row :
      (id : String) (g : Generation) (t : Tables) → IsAtomic (publish_row R id g t)
  unfolding publish_row
  IsAtomic-publish_row id g t = either (is_closed g.status)
    where
      either :
          (b : Bool)
          → IsAtomic (
              if b
              then check R.commits PublicationError.database
                >> return
                    (record { topic_id = none; content_id = none; recommended_project_id = none })
              else some_or PublicationError.missing_artifact g.generator_service_response
                >>= λ response. publish_response R id g response t)
      either true = IsAtomic-quiet (IsQuiet-bind (IsQuiet-check R.commits _) (λ u. IsQuiet-return))
      either false =
          IsAtomic-bind (IsQuiet-some_or _ g.generator_service_response)
            (λ response. IsAtomic-publish_response id g response t)

  IsAtomic-publish_found :
      (id : String) (row : Option Generation) (t : Tables) → IsAtomic (publish_found R id row t)
  unfolding publish_found
  IsAtomic-publish_found id none t = IsAtomic-quiet IsQuiet-fail
  IsAtomic-publish_found id (some g) t = IsAtomic-publish_row id g t

  inner_failed :
      (id : String) (s : Store) (e : PublicationError)
      → (publish_inner R id s).0 ≡ err e
      → (publish_inner R id s).1.tables ≡ s.tables
  unfolding publish_inner
  inner_failed id s e h =
      IsAtomic.atomic
        (IsAtomic-bind (IsQuiet-check R.reads PublicationError.database)
          (λ u. IsAtomic-publish_found id s.tables.row s.tables))
        s e h

  tables-compensate :
      (r : Result PublicationError PublishResult × Store) → (compensate R r).1.tables ≡ r.1.tables
  unfolding compensate
  tables-compensate (ok r, s) = refl
  tables-compensate (err e, s) = refl

  result-compensate : (r : Result PublicationError PublishResult × Store) → (compensate R r).0 ≡ r.0
  unfolding compensate
  result-compensate (ok r, s) = refl
  result-compensate (err e, s) = refl

  -- A publication that fails, at whatever step, leaves the generation and all tables as they were.
  pub failed_publication_keeps_tables :
      (id : String) (t : Tables) (keys : List String) (e : PublicationError)
      → (publish R id t keys).0 ≡ err e
      → (publish R id t keys).1.tables ≡ t
  unfolding publish
  failed_publication_keeps_tables id t keys e h = either (R.parse_uuid id) h
    where
      either :
          (b : Bool)
          → (if b
              then compensate R
                  (publish_inner R id (record { tables = t; bucket = keys; uploaded_paths = [] }))
              else (
                err PublicationError.invalid_uuid,
                record { tables = t; bucket = keys; uploaded_paths = [] },
              )).0
            ≡ err e
          → (if b
              then compensate R
                  (publish_inner R id (record { tables = t; bucket = keys; uploaded_paths = [] }))
              else (
                err PublicationError.invalid_uuid,
                record { tables = t; bucket = keys; uploaded_paths = [] },
              )).1.tables
            ≡ t
      either false k = refl
      either true k =
          let s : Store = record { tables = t; bucket = keys; uploaded_paths = [] } in
          tables-compensate (publish_inner R id s)
          ∙ inner_failed id s e (sym (result-compensate (publish_inner R id s)) ∙ k)
