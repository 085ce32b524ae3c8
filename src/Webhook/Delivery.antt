-- ===== src/Webhook/Delivery.antt =====
-- What a delivery without faults does to the rows.
use klass_mobile_backend.Prelude.{◌≡◌, refl, ap, ◌∙◌, String, Option, none, some, true}
use klass_mobile_backend.Prelude.Result.{ok}
use klass_mobile_backend.Webhook.{
  WebhookEnv, MediaWebhookPayload, Rows, received, Answer, or_else, has_id, update_rows,
  update_s3_metadata, update_response, update_job_status, update_generation_error, save_s3,
  run_update, set_status, fail_job,
}
use klass_mobile_backend.Webhook.Rows.{update_rows-update_rows, has_id-update_rows}
use klass_mobile_backend.Webhook.Interrupted.{no_faults, completed_row, failed_row, store_and_set}

module _ (E : WebhookEnv) (to_value : MediaWebhookPayload E → E.Json) (p : MediaWebhookPayload E)
    (id : E.Uuid) (now : E.Time) where
  abbrev taken : Rows E → Answer E
  taken rs = (ok (received id p.status), rs)

  set_status_clean :
      (status : String) (rs : Rows E)
      → has_id E id rs ≡ true
      → set_status E to_value now (no_faults E) p status id rs
        ≡ taken (update_rows E id (update_job_status E p.job_id status) rs)
  unfolding set_status run_update
  set_status_clean status rs h = rw (h, run_update)

  store_and_set_clean :
      (rs : Rows E)
      → has_id E id rs ≡ true
      → store_and_set E to_value p id now (no_faults E) rs
        ≡ taken (update_rows E id (completed_row E to_value p id now none) rs)
  unfolding store_and_set update_response run_update
  store_and_set_clean rs h =
      let f = update_response E (to_value p) in
      rw (h, run_update)
        (set_status_clean "completed" _ (has_id-update_rows E id f (λ r. refl) rs ∙ h)
          ∙ ap taken (update_rows-update_rows E id f (λ r. refl) _ rs))

  pub complete_clean :
      (key : Option String) (rs : Rows E)
      → has_id E id rs ≡ true
      → save_s3 E to_value now
          (no_faults E)
          p
          key
          id
          rs
          (store_and_set E to_value p id now (no_faults E))
        ≡ taken (update_rows E id (completed_row E to_value p id now key) rs)
  unfolding save_s3 update_s3_metadata run_update
  complete_clean none rs h = store_and_set_clean rs h
  complete_clean (some key) rs h =
      let f =
        update_s3_metadata E key (or_else p.presigned_url "")
          (or_else p.expires_at (E.add_hour now)) in
      rw (h, run_update)
        (store_and_set_clean _ (has_id-update_rows E id f (λ r. refl) rs ∙ h)
          ∙ ap taken (update_rows-update_rows E id f (λ r. refl) _ rs))

  pub fail_clean :
      (rs : Rows E)
      → has_id E id rs ≡ true
      → fail_job E to_value now (no_faults E) p id rs
        ≡ taken (update_rows E id (failed_row E to_value p id) rs)
  unfolding fail_job update_generation_error run_update
  fail_clean rs h =
      let f =
        update_generation_error E (or_else p.error_code "UNKNOWN_ERROR")
          (or_else p.error_message "no error message provided") in
      rw (h, run_update)
        (set_status_clean "failed" _ (has_id-update_rows E id f (λ r. refl) rs ∙ h)
          ∙ ap taken (update_rows-update_rows E id f (λ r. refl) _ rs))
