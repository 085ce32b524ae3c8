-- ===== src/Providers/Router.antt =====
-- src/providers/router.rs: the primary provider with retries, then the fallback, behind a counter
-- of consecutive failures. One call of `complete` runs to its end before the next.
pub mod Breaker
pub mod Retry
use klass_mobile_backend.Prelude.{
  ℕ, zero, suc, ◌+◌, ◌-◌, ◌*◌, ◌%◌, ◌^◌, String, ◌<>◌, Bool, Option, none, some, ltb, leb,
  if◌then◌else◌,
}
use klass_mobile_backend.Prelude.Result.{Result, ok, err}
use klass_mobile_backend.Providers.{
  Env, ProviderError, http, api, deserialization, all_exhausted, config, show_error,
  CompletionRequest, CompletionResponse, Provider,
}

pub record RetryConfig : Type 0 where
  pub max_attempts : ℕ  -- u32
  pub base_backoff_ms : ℕ  -- u64

abbrev pub default_retry : RetryConfig
default_retry = record { max_attempts = 3; base_backoff_ms = 500 }

pub record ProviderRouter (E : Env) : Type 0 where
  pub primary : Provider E
  pub fallback : Option (Provider E)
  pub retry_config : RetryConfig
  pub consecutive_failures : ℕ  -- u32
  pub circuit_breaker_threshold : ℕ  -- u32

-- `base * (1 << (attempt - 1))` on `u64`: the shift takes its amount modulo 64, the product wraps.
unfoldable pub backoff_delay : ℕ → ℕ → ℕ
backoff_delay base attempt = base * 2 ^ ((attempt - 1) % 64) % 2 ^ 64

module _ (E : Env) where
  unfoldable pub new : Provider E → ProviderRouter E
  new primary = record {
    primary = primary;
    fallback = none;
    retry_config = default_retry;
    consecutive_failures = 0;
    circuit_breaker_threshold = 5;
  }

  unfoldable pub with_fallback : ProviderRouter E → Provider E → ProviderRouter E
  with_fallback r fallback = record r { fallback = some fallback }

  unfoldable pub with_retry_config : ProviderRouter E → RetryConfig → ProviderRouter E
  with_retry_config r c = record r { retry_config = c }

  unfoldable pub with_circuit_breaker_threshold : ProviderRouter E → ℕ → ProviderRouter E
  with_circuit_breaker_threshold r threshold = record r { circuit_breaker_threshold = threshold }

  unfoldable pub is_circuit_open : ProviderRouter E → Bool
  is_circuit_open r = leb r.circuit_breaker_threshold r.consecutive_failures

  abbrev pub Reply : Type 0
  Reply = Result (ProviderError E) CompletionResponse

  -- The error after the last round; `none` where there was no round.
  exhausted : RetryConfig → Option (ProviderError E) → Reply
  exhausted c none = err (all_exhausted c.max_attempts "unknown error")
  exhausted c (some e) = err e

  unfoldable pub pause : RetryConfig → ℕ → E.World → E.World
  unfolding backoff_delay
  pause c attempt w =
      if ltb attempt c.max_attempts then E.sleep (backoff_delay c.base_backoff_ms attempt) w else w

  -- What follows one call of the provider: `next` goes on with the loop.
  unfoldable pub after_call :
      Reply × E.World → (ProviderError E → E.World → Reply × E.World) → Reply × E.World
  after_call (ok response, w) next = (ok response, w)
  after_call (err (config m), w) next = (err (config m), w)
  after_call (err e, w) next = next e w

  -- The loop `for attempt in 1..=max_attempts`, by the rounds left.
  unfoldable pub retry_loop :
      RetryConfig
      → Provider E
      → CompletionRequest E
      → ℕ
      → ℕ
      → Option (ProviderError E)
      → E.World
      → Reply × E.World
  unfolding exhausted
  retry_loop c p request zero attempt last w = (exhausted c last, w)
  retry_loop c p request (suc left) attempt last w =
      after_call (p request w)
        (λ e w'. retry_loop c p request left (attempt + 1) (some e) (pause c attempt w'))

  unfoldable pub try_provider_with_retry :
      RetryConfig → Provider E → CompletionRequest E → E.World → Reply × E.World
  unfolding retry_loop after_call pause
  try_provider_with_retry c p request w = retry_loop c p request c.max_attempts 1 none w

  reset : ProviderRouter E → ProviderRouter E
  reset r = record r { consecutive_failures = 0 }

  -- `fetch_add` wraps.
  count_failure : ProviderRouter E → ProviderRouter E
  count_failure r = record r { consecutive_failures = (r.consecutive_failures + 1) % 2 ^ 32 }

  -- What follows the fallback's run.
  finish_fallback :
      ProviderRouter E → ProviderError E → Reply × E.World → Reply × ProviderRouter E × E.World
  unfolding reset
  finish_fallback r primary_err (ok response, w) = (ok response, reset r, w)
  finish_fallback r primary_err (err fallback_err, w) = (
    err (
        all_exhausted (r.retry_config.max_attempts * 2 % 2 ^ 32)
          ("primary: " <> show_error E primary_err <> ", fallback: " <> show_error E fallback_err)),
    r,
    w,
  )

  try_fallback :
      ProviderRouter E
      → Option (Provider E)
      → CompletionRequest E
      → ProviderError E
      → E.World
      → Reply × ProviderRouter E × E.World
  unfolding finish_fallback
  try_fallback r none request e w =
      (err (all_exhausted r.retry_config.max_attempts (show_error E e)), r, w)
  try_fallback r (some fallback) request e w =
      finish_fallback r e (try_provider_with_retry r.retry_config fallback request w)

  -- What follows the primary's run.
  finish_primary :
      ProviderRouter E → CompletionRequest E → Reply × E.World → Reply × ProviderRouter E × E.World
  unfolding reset count_failure try_fallback
  finish_primary r request (ok response, w) = (ok response, reset r, w)
  finish_primary r request (err e, w) = try_fallback (count_failure r) r.fallback request e w

  unfoldable pub complete :
      ProviderRouter E → CompletionRequest E → E.World → Reply × ProviderRouter E × E.World
  unfolding is_circuit_open finish_primary
  complete r request w =
      if is_circuit_open r
      then (err (all_exhausted 0 "circuit breaker is open — too many consecutive failures"), r, w)
      else finish_primary r request (try_provider_with_retry r.retry_config r.primary request w)
