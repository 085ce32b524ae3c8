-- ===== src/Webhook/Signature.antt =====
-- The whole handler of src/api/rest/media_webhook.rs: the check of the signature before the rest,
-- and its comparison of texts.
pub mod Comparison
pub mod Guard
use Prim.Native.Nat.{bit_or, bit_xor}
use klass_mobile_backend.Prelude.{
  ℕ, String, ◌<>◌, Bool, true, false, not, Option, none, some, List, [], ◌∷◌, length, ◌==◌,
  if◌then◌else◌,
}
use klass_mobile_backend.Prelude.Result.{Result, ok, err}
use klass_mobile_backend.Prelude.Decimal.{codes}
use klass_mobile_backend.Webhook.{
  WebhookEnv, AppError, unauthorized, internal, validation, MediaWebhookPayload, Rows, Faults,
  Answer, handle_payload,
}

-- The loop over both texts' bytes. A header's text and a hexadecimal digest are ASCII, so their
-- bytes are the codes of their characters.
unfoldable pub fold_bytes : ℕ → List ℕ → List ℕ → ℕ
fold_bytes result [] bs = result
fold_bytes result (a ∷ as') [] = result
fold_bytes result (a ∷ as') (b ∷ bs) = fold_bytes (bit_or result (bit_xor a b)) as' bs

unfoldable pub constant_time_eq : String → String → Bool
unfolding fold_bytes
constant_time_eq a b =
    if not (length (codes a) == length (codes b))
    then false
    else fold_bytes 0 (codes a) (codes b) == 0

module _ (E : WebhookEnv) (Body : Type 0) where
  -- What the handler calls of the crates: the hexadecimal HMAC of a body under a key (`none` for a
  -- key that is refused), and serde_json's reader and writer of the payload.
  pub record Crates : Type 0 where
    pub hmac_hex : String → Body → Option String
    pub from_slice : Body → Result String (MediaWebhookPayload E)
    pub to_value : MediaWebhookPayload E → E.Json

  module _ (C : Crates) (secret : String) (now : E.Time) (faults : Faults E) where
    parse_and_handle : Result String (MediaWebhookPayload E) → Rows E → Answer E
    unfolding handle_payload
    parse_and_handle (err e) rs = (err (validation ("invalid JSON payload: " <> e)), rs)
    parse_and_handle (ok p) rs = handle_payload E C.to_value now faults p rs

    check_signature : String → Option String → Body → Rows E → Answer E
    unfolding constant_time_eq parse_and_handle
    check_signature signature none body rs = (err (internal "invalid HMAC key length"), rs)
    check_signature signature (some expected) body rs =
        if not (constant_time_eq signature expected)
        then (err (unauthorized "Invalid X-Webhook-Signature — payload may have been tampered"), rs)
        else parse_and_handle (C.from_slice body) rs

    -- The header is `none` where it is missing or no text.
    unfoldable pub webhook_handler : Option String → Body → Rows E → Answer E
    unfolding check_signature
    webhook_handler none body rs = (err (unauthorized "Missing X-Webhook-Signature header"), rs)
    webhook_handler (some signature) body rs =
        check_signature signature (C.hmac_hex secret body) body rs
