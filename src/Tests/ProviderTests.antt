-- ===== src/Tests/ProviderTests.antt =====
-- The router of src/providers/router.rs over providers that count their calls.
use klass_mobile_backend.Prelude.{ℕ, ◌+◌, ◌≤◌, ◌≡◌, refl, none, [], ◌∷◌, leb, arith}
use klass_mobile_backend.Prelude.Result.{err}
use klass_mobile_backend.Providers.{Env, api, config, CompletionRequest, Provider}
use klass_mobile_backend.Providers.Router.{
  default_retry, ProviderRouter, is_circuit_open, try_provider_with_retry, complete,
}
use klass_mobile_backend.Providers.Router.Retry.{
  Counts, FailsTransiently, calls-try-le, calls-try-eq, try_config,
}
use klass_mobile_backend.Providers.Router.Breaker.{
  counter_after, serve, complete_counter, open_forever, failures_count,
}

-- The world is the number of calls.
abbrev counting : Env
counting = record {
  World = ℕ;
  Float = ℕ;
  HttpError = Unit;
  show_http = λ e. "connection refused";
  sleep = λ ms w. w;
}

abbrev down : Provider counting
down request w = (err (api 503 "unavailable"), w + 1)

abbrev unconfigured : Provider counting
unconfigured request w = (err (config "no key"), w + 1)

abbrev hello : CompletionRequest counting
hello = record {
  model = "";
  models = none;
  messages = [];
  response_format = none;
  max_tokens = none;
  temperature = none;
}

down-Counts : Counts counting down (λ w. w)
down-Counts = record { call = λ request w. refl; sleep = λ ms w. refl }

down-FailsTransiently : FailsTransiently counting down
down-FailsTransiently = record {
  error = λ request w. api 503 "unavailable";
  fails = λ request w. refl;
  transient = λ request w m e. cc;
}

three_calls : (try_provider_with_retry counting default_retry down hello 0).1 ≡ 3
unfolding try_provider_with_retry
three_calls = refl

calls-try-le_at : (try_provider_with_retry counting default_retry down hello 4).1 ≤ 4 + 3
calls-try-le_at = calls-try-le counting default_retry down hello (λ w. w) down-Counts 4

calls-try-eq_at : (try_provider_with_retry counting default_retry down hello 4).1 ≡ 4 + 3
calls-try-eq_at =
    calls-try-eq counting default_retry down hello (λ w. w) down-Counts down-FailsTransiently 4

try_config_at :
    try_provider_with_retry counting default_retry unconfigured hello 4 ≡ (err (config "no key"), 5)
try_config_at = try_config counting default_retry unconfigured hello 4 "no key" 2 refl refl

abbrev router : ProviderRouter counting
router = record {
  primary = down;
  fallback = none;
  retry_config = default_retry;
  consecutive_failures = 0;
  circuit_breaker_threshold = 2;
}

abbrev opened : ProviderRouter counting
opened = record router { consecutive_failures = 2 }

complete_counter_at :
    (complete counting router hello 0).1
    ≡ record router { consecutive_failures = counter_after (complete counting router hello 0).0 0 }
unfolding is_circuit_open
complete_counter_at = complete_counter counting router hello 0 refl

open_forever_at : serve counting opened (hello ∷ hello ∷ []) 7 ≡ (opened, 7)
unfolding is_circuit_open
open_forever_at = open_forever counting opened (hello ∷ hello ∷ []) 7 refl

failures_count_at :
    let after = (serve counting router (hello ∷ hello ∷ []) 0).0 in
    (after ≡ opened) × (is_circuit_open counting after ≡ leb 2 2)
failures_count_at =
    failures_count counting router (hello ∷ hello ∷ []) 0 refl down-FailsTransiently (omega arith)
      (omega arith)
