-- ===== src/Webhook/Sealed.antt =====
-- What a delivery leaves that succeeds: a row with a final status.
use klass_mobile_backend.Prelude.{
  ◌≡◌, refl, sym, ◌∙◌, String, true, Option, none, some, Bool-cases, Option-cases, inl, inr, str_eq,
}
use klass_mobile_backend.Prelude.Result.{ok≢err, ok}
use klass_mobile_backend.Webhook.{
  WebhookEnv, MediaWebhookPayload, MediaGeneration, Rows, Reply, duplicate, Faults, Answer, or_else,
  has_id, update_rows, lookup, update_s3_metadata, update_response, update_generation_error,
  run_update, save_s3, set_status, complete_job, fail_job, process, is_final, callback,
  handle_payload,
}
use klass_mobile_backend.Webhook.Rows.{lookup-update_rows, lookup-update_job_status}
use klass_mobile_backend.Webhook.Interrupted.{no_faults}

module _ (E : WebhookEnv) (to_value : MediaWebhookPayload E → E.Json)
    (p : MediaWebhookPayload E) where
  module _ (id : E.Uuid) where
    -- An answer that, if it is a success, leaves the row with a final status.
    abbrev Sealed : Answer E → Type 0
    Sealed a =
        (r : Reply E)
        → a.0 ≡ ok r
        → (st : Option String) × (lookup E p.job_id a.1 ≡ some (id, st)) × (is_final st ≡ true)

    run_update-Sealed :
        (fault : Option String) (what : String) (f : MediaGeneration E → MediaGeneration E)
        (rs : Rows E) (next : Rows E → Answer E)
        → Sealed (next (update_rows E id f rs))
        → Sealed (run_update E fault what id f rs next)
    unfolding run_update
    run_update-Sealed (some x) what f rs next s = λ r h. absurd (ok≢err r _ (sym h))
    run_update-Sealed none what f rs next s = elim (Bool-cases (has_id E id rs)) [
      | inl t ↦ rw t s
      | inr n ↦ rw n (λ r h. absurd (ok≢err r _ (sym h)))
    ]

    module _ (now : E.Time) (faults : Faults E) (st0 : Option String) where
      set_status-Sealed :
          (status : String) (rs : Rows E)
          → is_final (some status) ≡ true
          → lookup E p.job_id rs ≡ some (id, st0)
          → Sealed (set_status E to_value now faults p status id rs)
      unfolding set_status
      set_status-Sealed status rs final found =
          run_update-Sealed faults.status _ _ rs _ (λ r h.
            (some status, lookup-update_job_status E p.job_id id st0 status rs found, final))

      complete_job-Sealed :
          (key : Option String) (rs : Rows E)
          → lookup E p.job_id rs ≡ some (id, st0)
          → Sealed (
              save_s3 E to_value now faults p key id rs (λ rs'.
                run_update E faults.payloads "failed to update payload: " id
                  (update_response E (to_value p))
                  rs'
                  (λ rs''. set_status E to_value now faults p "completed" id rs'')))
      unfolding save_s3 update_response update_s3_metadata is_final
      complete_job-Sealed none rs found =
          let f = update_response E (to_value p) in
          run_update-Sealed faults.payloads _ f rs _ (
            set_status-Sealed "completed" _ refl
              (lookup-update_rows E id f (λ r. refl) p.job_id (λ r. refl) (λ r. refl) rs ∙ found))
      complete_job-Sealed (some key) rs found =
          let f =
            update_s3_metadata E key (or_else p.presigned_url "")
              (or_else p.expires_at (E.add_hour now)) in
          let g = update_response E (to_value p) in
          run_update-Sealed faults.s3 _ f rs _ (
            run_update-Sealed faults.payloads _ g _ _ (
              set_status-Sealed "completed" _ refl (
                lookup-update_rows E id g (λ r. refl) p.job_id (λ r. refl) (λ r. refl) _
                ∙ lookup-update_rows E id f (λ r. refl) p.job_id (λ r. refl) (λ r. refl) rs
                ∙ found)))

      process-Sealed :
          (rs : Rows E)
          → lookup E p.job_id rs ≡ some (id, st0)
          → Sealed (process E to_value now faults p id rs)
      unfolding process complete_job fail_job update_generation_error is_final
      process-Sealed rs found = elim (Bool-cases (str_eq p.status "completed")) [
        | inl t ↦ rw t (complete_job-Sealed p.s3_object_key rs found)
        | inr f ↦ rw f (elim (Bool-cases (str_eq p.status "failed")) [
          | inl t ↦
              let g =
                update_generation_error E (or_else p.error_code "UNKNOWN_ERROR")
                  (or_else p.error_message "no error message provided") in
              rw t (
                run_update-Sealed faults.error _ g rs _ (
                  set_status-Sealed "failed" _ refl (
                    lookup-update_rows E id g (λ r. refl) p.job_id (λ r. refl) (λ r. refl) rs
                    ∙ found)))
          | inr n ↦ rw n (λ r h. absurd (ok≢err r _ (sym h)))
        ])
      ]

  duplicate_of :
      (id : E.Uuid) (st : Option String) (now : E.Time) (rs : Rows E)
      → lookup E p.job_id rs ≡ some (id, st)
      → is_final st ≡ true
      → handle_payload E to_value now (no_faults E) p rs ≡ (ok (duplicate id), rs)
  unfolding handle_payload callback
  duplicate_of id st now rs found final = rw (found, handle_payload) (rw (final, callback))

  -- After a delivery that succeeds, a delivery without faults is answered as a duplicate and
  -- changes no row.
  pub delivery_after_success :
      (now now' : E.Time) (faults : Faults E) (rs : Rows E) (r : Reply E)
      → (handle_payload E to_value now faults p rs).0 ≡ ok r
      → let rs' = (handle_payload E to_value now faults p rs).1 in
        (id : E.Uuid) × (handle_payload E to_value now' (no_faults E) p rs'
          ≡ (ok (duplicate id), rs'))
  unfolding handle_payload callback
  delivery_after_success now now' faults rs r = elim (Option-cases faults.find) [
    | inr (x, t) ↦ rw t (λ h. absurd (ok≢err r _ (sym h)))
    | inl n ↦ rw n (elim (Option-cases (lookup E p.job_id rs)) [
      | inl l ↦ rw l (λ h. absurd (ok≢err r _ (sym h)))
      | inr ((id, st), l) ↦ rw l (elim (Bool-cases (is_final st)) [
        | inl t ↦ rw t (λ h. (id, duplicate_of id st now' rs l t))
        | inr f ↦ rw f (λ h.
            let (st', found, final) = process-Sealed id now faults st rs l r h in
            (id, duplicate_of id st' now' _ found final))
      ])
    ])
  ]
