-- ===== src/Providers.antt =====
-- src/providers/mod.rs: the errors, requests and responses of the LLM providers, and the `Provider`
-- trait. A float and the errors of the HTTP client are parameters (`Env`); so is the world that a
-- provider's call and a sleep change.
pub mod Router
use klass_mobile_backend.Prelude.{ℕ, String, ◌<>◌, Option, none, some, List, [], ◌∷◌}
use klass_mobile_backend.Prelude.Result.{Result}
use klass_mobile_backend.Prelude.Decimal.{show_nat}

pub record Env : Type 1 where
  pub World : Type 0
  pub Float : Type 0
  pub HttpError : Type 0
  pub show_http : HttpError → String
  pub sleep : ℕ → World → World  -- milliseconds

module _ (E : Env) where
  pub data ProviderError : Type 0 where
    http : E.HttpError → ProviderError
    api : ℕ → String → ProviderError
    deserialization : String → ProviderError
    all_exhausted : ℕ → String → ProviderError
    config : String → ProviderError

  -- `to_string` of an error.
  unfoldable pub show_error : ProviderError → String
  unfolding show_nat
  show_error (http e) = "HTTP transport error: " <> E.show_http e
  show_error (api status body) = "API error (status=" <> show_nat status <> "): " <> body
  show_error (deserialization m) = "Deserialization error: " <> m
  show_error (all_exhausted attempts reason) =
      "All providers exhausted after " <> show_nat attempts <> " attempt(s): " <> reason
  show_error (config m) = "Provider configuration error: " <> m

pub record ChatMessage : Type 0 where
  pub role : String
  pub content : String

pub record ResponseFormat : Type 0 where
  pub format_type : String

pub record CompletionRequest (E : Env) : Type 0 where
  pub model : String
  pub models : Option (List String)
  pub messages : List ChatMessage
  pub response_format : Option ResponseFormat
  pub max_tokens : Option ℕ
  pub temperature : Option E.Float

pub record Usage : Type 0 where
  pub prompt_tokens : Option ℕ
  pub completion_tokens : Option ℕ
  pub total_tokens : Option ℕ

pub record Choice : Type 0 where
  pub message : ChatMessage
  pub finish_reason : Option String
  pub index : ℕ

pub record CompletionResponse : Type 0 where
  pub choices : List Choice
  pub usage : Option Usage
  pub model : Option String

module _ (E : Env) where
  unfoldable pub new_request : String → List ChatMessage → CompletionRequest E
  new_request model messages = record {
    model = model;
    models = none;
    messages = messages;
    response_format = none;
    max_tokens = none;
    temperature = none;
  }

  unfoldable pub with_json_mode : CompletionRequest E → CompletionRequest E
  with_json_mode r = record r { response_format = some (record { format_type = "json_object" }) }

  -- The trait: a call takes a request and the world, and gives its result and the world after.
  abbrev pub Provider : Type 0
  Provider = CompletionRequest E → E.World → Result (ProviderError E) CompletionResponse × E.World

first_choice : List Choice → Option Choice
first_choice [] = none
first_choice (c ∷ cs) = some c

content_of : Option Choice → Option String
content_of none = none
content_of (some c) = some c.message.content

finish_reason_of : Option Choice → Option String
finish_reason_of none = none
finish_reason_of (some c) = c.finish_reason

unfoldable pub first_choice_content : CompletionResponse → Option String
unfolding first_choice content_of
first_choice_content r = content_of (first_choice r.choices)

unfoldable pub first_finish_reason : CompletionResponse → Option String
unfolding first_choice finish_reason_of
first_finish_reason r = finish_reason_of (first_choice r.choices)
