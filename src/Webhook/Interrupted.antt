-- ===== src/Webhook/Interrupted.antt =====
-- What a delivery leaves that ends with an error: rows that the next delivery cannot tell from the
-- rows before.
use klass_mobile_backend.Prelude.{◌≡◌, refl, ◌∙◌, String, Option, none, some, Bool-cases, inl, inr}
use klass_mobile_backend.Prelude.Result.{ok≢err, err}
use klass_mobile_backend.Webhook.{
  WebhookEnv, AppError, MediaWebhookPayload, MediaGeneration, Rows, Faults, Answer, has_id,
  update_rows, lookup, update_s3_metadata, update_response, update_job_status,
  update_generation_error, run_update, or_else, save_s3, set_status, fail_job,
}
use klass_mobile_backend.Webhook.Rows.{
  update_rows-update_rows, has_id-update_rows, lookup-update_rows,
}

abbrev pub no_faults : (E : WebhookEnv) → Faults E
no_faults E = record { find = none; s3 = none; payloads = none; status = none; error = none }

module _ (E : WebhookEnv) (to_value : MediaWebhookPayload E → E.Json) (p : MediaWebhookPayload E)
    (id : E.Uuid) where
  module _ (G : MediaGeneration E → MediaGeneration E) (rs0 : Rows E) where
    -- Rows that a delivery cannot tell from `rs0`, if `G` is what it does to its row.
    pub record Invisible (rs : Rows E) : Type 0 where
      pub same_result : update_rows E id G rs ≡ update_rows E id G rs0
      pub same_lookup : lookup E p.job_id rs ≡ lookup E p.job_id rs0
      pub same_id : has_id E id rs ≡ has_id E id rs0

    -- An answer that, if it is an error, leaves such rows.
    abbrev pub Redo : Answer E → Type 0
    Redo a = (e : AppError) → a.0 ≡ err e → Invisible a.1

    run_update-Redo :
        (fault : Option String) (what : String) (f : MediaGeneration E → MediaGeneration E)
        (rs : Rows E) (next : Rows E → Answer E)
        → Invisible rs
        → Redo (next (update_rows E id f rs))
        → Redo (run_update E fault what id f rs next)
    unfolding run_update
    run_update-Redo (some x) what f rs next i r = λ e h. i
    run_update-Redo none what f rs next i r = elim (Bool-cases (has_id E id rs)) [
      | inl t ↦ rw t r
      | inr n ↦ rw n (λ e h. i)
    ]

    hidden_step :
        (f : MediaGeneration E → MediaGeneration E) (rs : Rows E)
        → ((r : MediaGeneration E) → (f r).id ≡ r.id)
        → ((r : MediaGeneration E) → (f r).generation_job_id ≡ r.generation_job_id)
        → ((r : MediaGeneration E) → (f r).generation_status ≡ r.generation_status)
        → update_rows E id (λ r. G (f r)) rs ≡ update_rows E id G rs
        → Invisible rs
        → Invisible (update_rows E id f rs)
    hidden_step f rs ids jobs statuses absorbed i = record {
      same_result = update_rows-update_rows E id f ids G rs ∙ absorbed ∙ i.same_result;
      same_lookup = lookup-update_rows E id f ids p.job_id jobs statuses rs ∙ i.same_lookup;
      same_id = has_id-update_rows E id f ids rs ∙ i.same_id;
    }

  Invisible-refl : (G : MediaGeneration E → MediaGeneration E) (rs : Rows E) → Invisible G rs rs
  Invisible-refl G rs = record { same_result = refl; same_lookup = refl; same_id = refl }

  -- What a delivery of `completed` does to its row, and one of `failed`.
  abbrev pub completed_row : E.Time → Option String → MediaGeneration E → MediaGeneration E
  completed_row now none r =
      update_job_status E p.job_id "completed" (update_response E (to_value p) r)
  completed_row now (some key) r = update_job_status E p.job_id "completed" (
      update_response E (to_value p) (
        update_s3_metadata E key (or_else p.presigned_url "")
          (or_else p.expires_at (E.add_hour now)) r))

  abbrev pub failed_row : MediaGeneration E → MediaGeneration E
  failed_row r = update_job_status E p.job_id "failed" (
      update_generation_error E (or_else p.error_code "UNKNOWN_ERROR")
        (or_else p.error_message "no error message provided") r)

  module _ (now : E.Time) (faults : Faults E) where
    unfoldable pub store_and_set : Rows E → Answer E
    store_and_set rs =
        run_update E faults.payloads "failed to update payload: " id
          (update_response E (to_value p)) rs
          (λ rs'. set_status E to_value now faults p "completed" id rs')

    set_status-Redo :
        (G : MediaGeneration E → MediaGeneration E) (rs0 rs : Rows E) (status : String)
        → Invisible G rs0 rs
        → Redo G rs0 (set_status E to_value now faults p status id rs)
    unfolding set_status
    set_status-Redo G rs0 rs status i =
        run_update-Redo G rs0 faults.status _ _ rs _ i (λ e h. absurd (ok≢err _ e h))

    pub complete_job-Redo :
        (now2 : E.Time) (key : Option String) (rs0 : Rows E)
        → Redo
            (completed_row now2 key)
            rs0
            (save_s3 E to_value now faults p key id rs0 store_and_set)
    unfolding save_s3 store_and_set update_response update_s3_metadata update_job_status
    complete_job-Redo now2 none rs0 =
        let G = completed_row now2 none in
        let i = Invisible-refl G rs0 in
        run_update-Redo G rs0 faults.payloads _ _ rs0 _ i (
          set_status-Redo G rs0 _ "completed" (
            hidden_step G rs0 (update_response E (to_value p)) rs0 (λ r. refl) (λ r. refl)
              (λ r. refl) refl i))
    complete_job-Redo now2 (some key) rs0 =
        let G = completed_row now2 (some key) in
        let i = Invisible-refl G rs0 in
        let j =
          hidden_step G rs0
            (update_s3_metadata E key (or_else p.presigned_url "")
              (or_else p.expires_at (E.add_hour now)))
            rs0 (λ r. refl) (λ r. refl) (λ r. refl) refl i in
        run_update-Redo G rs0 faults.s3 _ _ rs0 _ i (
          run_update-Redo G rs0 faults.payloads _ _ _ _ j (
            set_status-Redo G rs0 _ "completed" (
              hidden_step G rs0 (update_response E (to_value p)) _ (λ r. refl) (λ r. refl)
                (λ r. refl) refl j)))

    pub fail_job-Redo :
        (rs0 : Rows E) → Redo failed_row rs0 (fail_job E to_value now faults p id rs0)
    unfolding fail_job update_generation_error update_job_status
    fail_job-Redo rs0 =
        let i = Invisible-refl failed_row rs0 in
        run_update-Redo failed_row rs0 faults.error _ _ rs0 _ i (
          set_status-Redo failed_row rs0 _ "failed" (
            hidden_step failed_row rs0
              (update_generation_error E (or_else p.error_code "UNKNOWN_ERROR")
                (or_else p.error_message "no error message provided"))
              rs0 (λ r. refl) (λ r. refl) (λ r. refl) refl i))
