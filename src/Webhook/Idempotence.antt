-- ===== src/Webhook/Idempotence.antt =====
-- A callback that is delivered again, after an error and after a success.
use klass_mobile_backend.Prelude.{
  ◌≡◌, refl, sym, ap, ◌∙◌, String, true, false, Option, none, some, Option-cases, Bool-cases, inl,
  inr, str_eq,
}
use klass_mobile_backend.Prelude.Result.{ok≢err, ok, err}
use klass_mobile_backend.Webhook.{
  WebhookEnv, AppError, MediaWebhookPayload, MediaGeneration, Rows, received, duplicate, Faults,
  Answer, has_id, update_rows, lookup, complete_job, process, is_final, callback, handle_payload,
}
use klass_mobile_backend.Webhook.Rows.{lookup-has_id}
use klass_mobile_backend.Webhook.Interrupted.{
  no_faults, Invisible, completed_row, failed_row, complete_job-Redo, fail_job-Redo, store_and_set,
}
use klass_mobile_backend.Webhook.Delivery.{complete_clean, fail_clean}

module _ (E : WebhookEnv) (to_value : MediaWebhookPayload E → E.Json)
    (p : MediaWebhookPayload E) where
  abbrev handle : E.Time → Faults E → Rows E → Answer E
  handle now faults rs = handle_payload E to_value now faults p rs

  module _ (id : E.Uuid) (st : Option String) (open_job : is_final st ≡ false) (now' : E.Time)
      (rs : Rows E) (found : lookup E p.job_id rs ≡ some (id, st)) where
    -- `G` is all that a delivery without faults does.
    abbrev Does : (MediaGeneration E → MediaGeneration E) → Type 0
    Does G =
        (rs' : Rows E)
        → has_id E id rs' ≡ true
        → process E to_value now' (no_faults E) p id rs'
          ≡ (ok (received id p.status), update_rows E id G rs')

    handle-process :
        (now : E.Time) (faults : Faults E) (rs' : Rows E)
        → faults.find ≡ none
        → lookup E p.job_id rs' ≡ some (id, st)
        → handle now faults rs' ≡ process E to_value now faults p id rs'
    unfolding handle_payload callback
    handle-process now faults rs' n h =
        rw (n, handle_payload) (rw (h, handle_payload) (rw (open_job, callback)))

    again :
        (G : MediaGeneration E → MediaGeneration E) (rs1 : Rows E)
        → Does G
        → Invisible E to_value p id G rs rs1
        → handle now' (no_faults E) rs1 ≡ handle now' (no_faults E) rs
    again G rs1 does i =
        let there = lookup-has_id E p.job_id id st rs found in
        handle-process now' (no_faults E) rs1 refl (i.same_lookup ∙ found)
        ∙ does rs1 (i.same_id ∙ there)
        ∙ ap (λ l. (ok (received id p.status), l)) i.same_result
        ∙ sym (does rs there)
        ∙ sym (handle-process now' (no_faults E) rs refl found)

    completed_Does :
        str_eq p.status "completed" ≡ true
        → Does (completed_row E to_value p id now' p.s3_object_key)
    unfolding process complete_job store_and_set
    completed_Does t rs' h = rw t (complete_clean E to_value p id now' p.s3_object_key rs' h)

    failed_Does :
        str_eq p.status "completed" ≡ false
        → str_eq p.status "failed" ≡ true
        → Does (failed_row E to_value p id)
    unfolding process
    failed_Does f t rs' h = rw f (rw t (fail_clean E to_value p id now' rs' h))

    process_again :
        (now : E.Time) (faults : Faults E) (e : AppError)
        → (process E to_value now faults p id rs).0 ≡ err e
        → handle now' (no_faults E) (process E to_value now faults p id rs).1
          ≡ handle now' (no_faults E) rs
    unfolding process complete_job store_and_set
    process_again now faults e = elim (Bool-cases (str_eq p.status "completed")) [
      | inl t ↦ rw t (λ h.
          again (completed_row E to_value p id now' p.s3_object_key) _ (completed_Does t)
            (complete_job-Redo E to_value p id now faults now' p.s3_object_key rs e h))
      | inr f ↦ rw f (elim (Bool-cases (str_eq p.status "failed")) [
        | inl t ↦ rw t (λ h.
            again (failed_row E to_value p id) _ (failed_Does f t)
              (fail_job-Redo E to_value p id now faults rs e h))
        | inr g ↦ rw g (λ h. refl)
      ])
    ]

  unknown :
      (now : E.Time) (faults : Faults E) (rs : Rows E)
      → faults.find ≡ none
      → lookup E p.job_id rs ≡ none
      → (handle now faults rs).1 ≡ rs
  unfolding handle_payload callback
  unknown now faults rs n l = rw (n, handle_payload) (rw (l, handle_payload))

  pub finished :
      (now : E.Time) (faults : Faults E) (id : E.Uuid) (st : Option String) (rs : Rows E)
      → faults.find ≡ none
      → lookup E p.job_id rs ≡ some (id, st)
      → is_final st ≡ true
      → handle now faults rs ≡ (ok (duplicate id), rs)
  unfolding handle_payload callback
  finished now faults id st rs n l t =
      rw (n, handle_payload) (rw (l, handle_payload) (rw (t, callback)))

  -- After a delivery that ends with an error, wherever it failed, a delivery without faults answers
  -- and leaves the rows as if the first had not been.
  pub delivery_after_error :
      (now now' : E.Time) (faults : Faults E) (rs : Rows E) (e : AppError)
      → (handle now faults rs).0 ≡ err e
      → handle now' (no_faults E) (handle now faults rs).1 ≡ handle now' (no_faults E) rs
  unfolding handle_payload
  delivery_after_error now now' faults rs e h = elim (Option-cases faults.find) [
    | inr (x, t) ↦ rw t
    | inl n ↦ elim (Option-cases (lookup E p.job_id rs)) [
      | inl l ↦ ap (handle now' (no_faults E)) (unknown now faults rs n l)
      | inr ((id, st), l) ↦ elim (Bool-cases (is_final st)) [
        | inl t ↦ absurd (ok≢err _ e (ap (λ a. a.0) (sym (finished now faults id st rs n l t)) ∙ h))
        | inr f ↦
            let done = handle-process id st f now' rs l now faults rs n l in
            ap (λ a. handle now' (no_faults E) a.1) done
            ∙ process_again id st f now' rs l now faults e (ap (λ a. a.0) (sym done) ∙ h)
      ]
    ]
  ]
