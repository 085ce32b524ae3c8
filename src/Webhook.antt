-- ===== src/Webhook.antt =====
-- src/api/rest/media_webhook.rs: the callback by which the renderer reports the end of a job, with
-- the statements of src/db/repositories/media_generations.rs that it calls.
pub mod Signature
pub mod Rows
pub mod Interrupted
pub mod Delivery
pub mod Idempotence
pub mod Sealed
use mathlib.Core.Option
use klass_mobile_backend.Prelude.{
  ℕ, String, ◌<>◌, Bool, true, false, ◌||◌, Option, none, some, List, [], ◌∷◌, str_eq, ◌≡◌, ◌↔◌,
  if◌then◌else◌,
}
use klass_mobile_backend.Prelude.Result.{Result, ok, err}

-- Types of the crates uuid, chrono and serde_json, and what is called of them: `==` and the text
-- of a `Uuid`, and the sum of a time and one hour.
pub record WebhookEnv : Type 1 where
  pub Uuid : Type 0
  pub Time : Type 0
  pub Json : Type 0
  pub eq_uuid : Uuid → Uuid → Bool
  pub eq_uuid_iff : (a b : Uuid) → (eq_uuid a b ≡ true) ↔ (a ≡ b)
  pub show_uuid : Uuid → String
  pub add_hour : Time → Time

-- The errors of src/error.rs that carry a text; those that wrap an error of a crate or a response do
-- not arise here.
pub data AppError : Type 0 where
  validation not_found unauthorized forbidden conflict internal app_config : String → AppError

abbrev pub or_else {ℓ} : {A : Type ℓ} → Option A → A → A
or_else none d = d
or_else (some a) d = a

unfoldable pub is_final : Option String → Bool
is_final none = false
is_final (some s) = str_eq s "completed" || str_eq s "failed"

module _ (E : WebhookEnv) where
  pub record MediaWebhookPayload : Type 0 where
    pub job_id : E.Uuid
    pub generation_id : E.Uuid
    pub status : String
    pub s3_object_key : Option String
    pub presigned_url : Option String
    pub file_url : Option String
    pub expires_at : Option E.Time
    pub error_code : Option String
    pub error_message : Option String
    pub artifact_metadata : Option E.Json

  -- The columns of media_generations that the callback reads or writes.
  pub record MediaGeneration : Type 0 where
    pub id : E.Uuid
    pub generation_job_id : Option E.Uuid
    pub generation_status : Option String
    pub s3_object_key : Option String
    pub presigned_download_url : Option String
    pub presigned_url_expires_at : Option E.Time
    pub generator_service_response : Option E.Json
    pub generation_error_code : Option String
    pub generation_error_message : Option String

  abbrev pub Rows : Type 0
  Rows = List MediaGeneration

  -- The replies: a duplicate callback, and one that was taken.
  pub data Reply : Type 0 where
    duplicate : E.Uuid → Reply
    received : E.Uuid → String → Reply

  -- The errors, as texts, with which the statements of one callback fail, if they do.
  pub record Faults : Type 0 where
    pub find : Option String
    pub s3 : Option String
    pub payloads : Option String
    pub status : Option String
    pub error : Option String

  has_job : E.Uuid → Option E.Uuid → Bool
  has_job job none = false
  has_job job (some j) = E.eq_uuid j job

  unfoldable pub find_by_job_id : E.Uuid → Rows → Option MediaGeneration
  unfolding has_job
  find_by_job_id job [] = none
  find_by_job_id job (r ∷ rs) =
      let rest = find_by_job_id job rs in if has_job job r.generation_job_id then some r else rest

  unfoldable pub has_id : E.Uuid → Rows → Bool
  has_id id [] = false
  has_id id (r ∷ rs) = E.eq_uuid r.id id || has_id id rs

  -- What the callback uses of the row that it finds.
  unfoldable pub lookup : E.Uuid → Rows → Option (E.Uuid × Option String)
  unfolding find_by_job_id
  lookup job rs = Option.map (λ r. (r.id, r.generation_status)) (find_by_job_id job rs)

  -- UPDATE media_generations SET ... WHERE id = $1.
  unfoldable pub update_rows : E.Uuid → (MediaGeneration → MediaGeneration) → Rows → Rows
  update_rows id f [] = []
  update_rows id f (r ∷ rs) =
      let rest = update_rows id f rs in if E.eq_uuid r.id id then f r ∷ rest else r ∷ rest

  unfoldable pub update_s3_metadata : String → String → E.Time → MediaGeneration → MediaGeneration
  update_s3_metadata key url expires r = record r {
    s3_object_key = some key;
    presigned_download_url = some url;
    presigned_url_expires_at = some expires;
  }

  unfoldable pub update_response : E.Json → MediaGeneration → MediaGeneration
  update_response response r = record r { generator_service_response = some response }

  unfoldable pub update_job_status : E.Uuid → String → MediaGeneration → MediaGeneration
  update_job_status job status r = record r {
    generation_job_id = some job;
    generation_status = some status;
  }

  unfoldable pub update_generation_error : String → String → MediaGeneration → MediaGeneration
  update_generation_error code message r = record r {
    generation_error_code = some code;
    generation_error_message = some message;
  }

  abbrev pub Answer : Type 0
  Answer = Result AppError Reply × Rows

  -- The text of the statement that finds no row; that of `update_payloads` has no id.
  unfoldable pub missing_text : String → E.Uuid → String
  missing_text what id =
      if str_eq what "failed to update payload: "
      then "media generation not found"
      else "media generation " <> E.show_uuid id <> " not found"

  -- One statement of the callback: where it fails, or finds no row, the callback ends with an
  -- internal error, and what was written before stays.
  unfoldable pub run_update :
      Option String
      → String
      → E.Uuid
      → (MediaGeneration → MediaGeneration)
      → Rows
      → (Rows → Answer)
      → Answer
  unfolding has_id update_rows
  run_update (some e) what id f rs next = (err (internal (what <> e)), rs)
  run_update none what id f rs next =
      if has_id id rs
      then next (update_rows id f rs)
      else (err (internal (what <> missing_text what id)), rs)

  module _ (to_value : MediaWebhookPayload → E.Json) (now : E.Time) (faults : Faults) where
    unfoldable pub save_s3 :
        MediaWebhookPayload → Option String → E.Uuid → Rows → (Rows → Answer) → Answer
    unfolding run_update update_s3_metadata
    save_s3 p none id rs next = next rs
    save_s3 p (some key) id rs next =
        run_update faults.s3 "failed to update S3 metadata: " id
          (update_s3_metadata key (or_else p.presigned_url "")
            (or_else p.expires_at (E.add_hour now)))
          rs next

    unfoldable pub set_status : MediaWebhookPayload → String → E.Uuid → Rows → Answer
    unfolding run_update update_job_status
    set_status p status id rs =
        run_update faults.status "failed to update generation status: " id
          (update_job_status p.job_id status) rs (λ rs'. (ok (received id p.status), rs'))

    unfoldable pub complete_job : MediaWebhookPayload → E.Uuid → Rows → Answer
    unfolding save_s3 run_update update_response set_status
    complete_job p id rs = save_s3 p p.s3_object_key id rs (λ rs'.
        run_update faults.payloads "failed to update payload: " id (update_response (to_value p))
          rs' (λ rs''. set_status p "completed" id rs''))

    unfoldable pub fail_job : MediaWebhookPayload → E.Uuid → Rows → Answer
    unfolding run_update update_generation_error set_status
    fail_job p id rs =
        run_update faults.error "failed to update generation error: " id
          (update_generation_error (or_else p.error_code "UNKNOWN_ERROR")
            (or_else p.error_message "no error message provided"))
          rs (λ rs'. set_status p "failed" id rs')

    unfoldable pub process : MediaWebhookPayload → E.Uuid → Rows → Answer
    unfolding complete_job fail_job
    process p id rs =
        if str_eq p.status "completed"
        then complete_job p id rs
        else if str_eq p.status "failed"
        then fail_job p id rs
        else (
          err (
              validation (
                "unsupported webhook status '" <> p.status
                <> "' — must be 'completed' or 'failed'")),
          rs,
        )

    -- What follows the lookup, by the id and the status of the row.
    unfoldable pub callback : MediaWebhookPayload → Option (E.Uuid × Option String) → Rows → Answer
    unfolding process is_final
    callback p none rs =
        (err (not_found ("no generation found for job_id " <> E.show_uuid p.job_id)), rs)
    callback p (some (id, status)) rs =
        if is_final status then (ok (duplicate id), rs) else process p id rs

    unfoldable pub handle_payload : MediaWebhookPayload → Rows → Answer
    unfolding callback lookup
    handle_payload p rs = elim faults.find [
      | some e ↦ (err (internal ("failed to find generation by job_id: " <> e)), rs)
      | none ↦ callback p (lookup p.job_id rs) rs
    ]
