-- ===== src/Tests/WebhookTests.antt =====
-- The callback of src/api/rest/media_webhook.rs at concrete rows. Ids, times and JSON values are
-- texts and numbers; the digest of a body is the secret and the body's text in turn.
use klass_mobile_backend.Prelude.{
  ℕ, ◌+◌, ◌≡◌, ◌≢◌, ◌↔◌, refl, String, ◌<>◌, true, none, some, [], ◌∷◌, str_eq, eq_iff, arith,
}
use klass_mobile_backend.Prelude.Result.{ok, err}
use klass_mobile_backend.Webhook.{
  WebhookEnv, AppError, internal, MediaWebhookPayload, MediaGeneration, received, duplicate, Faults,
  handle_payload, callback, process, complete_job, save_s3, run_update, set_status, is_final,
  lookup, find_by_job_id, has_id, update_rows, update_response, update_s3_metadata,
}
use klass_mobile_backend.Webhook.Interrupted.{no_faults}
use klass_mobile_backend.Webhook.Idempotence.{delivery_after_error}
use klass_mobile_backend.Webhook.Sealed.{delivery_after_success}
use klass_mobile_backend.Webhook.Signature.{Crates, constant_time_eq, webhook_handler}
use klass_mobile_backend.Webhook.Signature.Comparison.{constant_time_eq_iff}
use klass_mobile_backend.Webhook.Signature.Guard.{unsigned_refused}

abbrev env : WebhookEnv
env = record {
  Uuid = String;
  Time = ℕ;
  Json = String;
  eq_uuid = str_eq;
  eq_uuid_iff = eq_iff;
  show_uuid = λ u. u;
  add_hour = λ t. t + 3600;
}

abbrev done : MediaWebhookPayload env
done = record {
  job_id = "j1";
  generation_id = "g1";
  status = "completed";
  s3_object_key = some "media/g1.pdf";
  presigned_url = none;
  file_url = none;
  expires_at = none;
  error_code = none;
  error_message = none;
  artifact_metadata = none;
}

abbrev row : MediaGeneration env
row = record {
  id = "g1";
  generation_job_id = some "j1";
  generation_status = some "processing";
  s3_object_key = none;
  presigned_download_url = none;
  presigned_url_expires_at = none;
  generator_service_response = none;
  generation_error_code = none;
  generation_error_message = none;
}

abbrev to_text : MediaWebhookPayload env → String
to_text p = p.job_id

-- The database fails at the last statement.
abbrev late : Faults env
late = record (no_faults env) { status = some "connection closed" }

late_fails :
    (handle_payload env to_text 100 late done (row ∷ [])).0
    ≡ err (internal "failed to update generation status: connection closed")
unfolding handle_payload callback process complete_job save_s3 run_update set_status is_final lookup
    find_by_job_id has_id update_rows update_response update_s3_metadata
late_fails = refl

clean_succeeds :
    (handle_payload env to_text 100 (no_faults env) done (row ∷ [])).0
    ≡ ok (received "g1" "completed")
unfolding handle_payload callback process complete_job save_s3 run_update set_status is_final lookup
    find_by_job_id has_id update_rows update_response update_s3_metadata
clean_succeeds = refl

delivery_after_error_example :
    handle_payload env to_text 200
      (no_faults env)
      done
      (handle_payload env to_text 100 late done (row ∷ [])).1
    ≡ handle_payload env to_text 200 (no_faults env) done (row ∷ [])
delivery_after_error_example =
    delivery_after_error env to_text done 100 200 late (row ∷ [])
      (internal "failed to update generation status: connection closed") late_fails

delivery_after_success_example :
    let rs' = (handle_payload env to_text 100 (no_faults env) done (row ∷ [])).1 in
    (id : String) × (handle_payload env to_text 200 (no_faults env) done rs'
      ≡ (ok (duplicate id), rs'))
delivery_after_success_example =
    delivery_after_success env to_text done 100 200 (no_faults env) (row ∷ [])
      (received "g1" "completed") clean_succeeds

abbrev guess : String
guess = "00"

abbrev digest : String
digest = "keybody"

constant_time_eq_iff_example : (constant_time_eq guess digest ≡ true) ↔ (guess ≡ digest)
constant_time_eq_iff_example = constant_time_eq_iff guess digest

abbrev crates : Crates env String
crates = record {
  hmac_hex = λ secret body. some (secret <> body);
  from_slice = λ body. ok done;
  to_value = to_text;
}

forged : some guess ≢ some digest
forged h = ground (arith, eq_iff guess digest)

unsigned_refused_example :
    (e : AppError) × (webhook_handler env String crates "key" 100
        (no_faults env)
        (some "00")
        "body"
        (row ∷ [])
      ≡ (err e, row ∷ []))
unsigned_refused_example =
    unsigned_refused env String crates "key" 100 (no_faults env) (some "00") "body" (row ∷ [])
      forged
