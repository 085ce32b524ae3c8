-- ===== src/Webhook/Signature/Guard.antt =====
-- Only a body with its signature has an effect.
use klass_mobile_backend.Prelude.{
  ◌≡◌, ◌≢◌, refl, sym, ap, ◌∙◌, String, Option, none, some, Bool-cases, Option-cases, inl, inr,
}
use klass_mobile_backend.Prelude.Result.{err}
use klass_mobile_backend.Webhook.{WebhookEnv, AppError, Rows, Faults}
use klass_mobile_backend.Webhook.Signature.{
  Crates, constant_time_eq, check_signature, webhook_handler,
}
use klass_mobile_backend.Webhook.Signature.Comparison.{constant_time_eq_iff}

module _ (E : WebhookEnv) (Body : Type 0) (C : Crates E Body) (secret : String) (now : E.Time)
    (faults : Faults E) where
  -- Without the signature of its body under the secret, a call is answered with an error and no row
  -- is changed.
  pub unsigned_refused :
      (header : Option String) (body : Body) (rs : Rows E)
      → header ≢ C.hmac_hex secret body
      → (e : AppError) × (webhook_handler E Body C secret now faults header body rs ≡ (err e, rs))
  unfolding webhook_handler check_signature
  unsigned_refused none body rs h = (_, refl)
  unsigned_refused (some signature) body rs h = elim (Option-cases (C.hmac_hex secret body)) [
    | inl n ↦ rw n (_, refl)
    | inr (expected, x) ↦ elim (Bool-cases (constant_time_eq signature expected)) [
      | inl t ↦ absurd (h (ap some ((constant_time_eq_iff signature expected).0 t) ∙ sym x))
      | inr f ↦ rw x (rw f (_, refl))
    ]
  ]
