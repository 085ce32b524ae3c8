-- ===== src/Providers/Router/Retry.antt =====
-- How often the retry loop calls a provider, and with what result.
use klass_mobile_backend.Prelude.{
  ℕ, zero, Bool-cases, inl, inr, suc, ◌+◌, ◌≤◌, ◌≡◌, ◌≢◌, refl, Option, none, some, arith, ltb,
  String,
}
use klass_mobile_backend.Prelude.Result.{ok, err}
use klass_mobile_backend.Providers.{
  Env, ProviderError, http, api, deserialization, all_exhausted, config, CompletionRequest,
  Provider,
}
use klass_mobile_backend.Providers.Router.{
  RetryConfig, Reply, after_call, retry_loop, try_provider_with_retry, pause,
}

module _ (E : Env) where
  -- A count of the calls of a provider, kept in the world: a call adds one, a sleep adds none.
  pub record Counts (p : Provider E) (calls : E.World → ℕ) : Type 0 where
    pub call : (request : CompletionRequest E) (w : E.World) → calls (p request w).1 ≡ calls w + 1
    pub sleep : (ms : ℕ) (w : E.World) → calls (E.sleep ms w) ≡ calls w

  -- A provider that fails on each call, and never by its configuration.
  pub record FailsTransiently (p : Provider E) : Type 0 where
    pub error : CompletionRequest E → E.World → ProviderError E
    pub fails :
        (request : CompletionRequest E) (w : E.World) → (p request w).0 ≡ err (error request w)
    pub transient :
        (request : CompletionRequest E) (w : E.World) (m : String) → error request w ≢ config m

module _ (E : Env) (calls : E.World → ℕ) where
  after_call_bound :
      (n left : ℕ) (res : Reply E × E.World) (next : ProviderError E → E.World → Reply E × E.World)
      → calls res.1 ≡ n + 1
      → ((e : ProviderError E) → calls (next e res.1).1 ≤ calls res.1 + left)
      → calls (after_call E res next).1 ≤ n + suc left
  unfolding after_call
  after_call_bound n left (ok response, w) next h k = omega arith
  after_call_bound n left (err (config m), w) next h k = omega arith
  after_call_bound n left (err (http e), w) next h k = omega (arith, k (http e))
  after_call_bound n left (err (api s b), w) next h k = omega (arith, k (api s b))
  after_call_bound n left (err (deserialization m), w) next h k =
      omega (arith, k (deserialization m))
  after_call_bound n left (err (all_exhausted a r), w) next h k =
      omega (arith, k (all_exhausted a r))

-- What `after_call` does with a provider that fails, and not by its configuration.
after_call_transient :
    (E : Env) (res : Reply E × E.World) (e : ProviderError E)
    (next : ProviderError E → E.World → Reply E × E.World)
    → res.0 ≡ err e
    → ((m : String) → e ≢ config m)
    → after_call E res next ≡ next e res.1
unfolding after_call
after_call_transient E (ok response, w) e next h t = cc
after_call_transient E (err (config m), w) e next h t = absurd (t m (cc))
after_call_transient E (err d, w) e next h t = cc

module _ (E : Env) (c : RetryConfig) (p : Provider E) (request : CompletionRequest E) where
  module _ (calls : E.World → ℕ) (k : Counts E p calls) where
    calls-pause : (attempt : ℕ) (w : E.World) → calls (pause E c attempt w) ≡ calls w
    unfolding pause
    calls-pause attempt w = elim (Bool-cases (ltb attempt c.max_attempts)) [
      | inl t ↦ rw t (k.sleep _ w)
      | inr f ↦ rw f
    ]

    retry_loop_bound :
        (left attempt : ℕ) (last : Option (ProviderError E)) (w : E.World)
        → calls (retry_loop E c p request left attempt last w).1 ≤ calls w + left
    unfolding retry_loop
    retry_loop_bound zero attempt last w = omega arith
    retry_loop_bound (suc left) attempt last w =
        after_call_bound E calls (calls w) left (p request w) _ (k.call request w) (λ e.
          rw (← calls-pause attempt (p request w).1)
            (retry_loop_bound left (attempt + 1) (some e) (pause E c attempt (p request w).1)))

    -- A run with retries calls the provider at most `max_attempts` times.
    pub calls-try-le :
        (w : E.World) → calls (try_provider_with_retry E c p request w).1 ≤ calls w + c.max_attempts
    unfolding try_provider_with_retry
    calls-try-le w = retry_loop_bound c.max_attempts 1 none w

    retry_loop_count :
        (f : FailsTransiently E p) (left attempt : ℕ) (last : Option (ProviderError E))
        (w : E.World)
        → calls (retry_loop E c p request left attempt last w).1 ≡ calls w + left
    unfolding retry_loop
    retry_loop_count f zero attempt last w = omega arith
    retry_loop_count f (suc left) attempt last w =
        let w' = (p request w).1 in
        let e = f.error request w in
        rw (after_call_transient E (p request w) e _ (f.fails request w) (f.transient request w)) (
          omega (
            arith,
            k.call request w,
            calls-pause attempt w',
            retry_loop_count f left (attempt + 1) (some e) (pause E c attempt w'),
          ))

    -- A provider that fails on each call, and never by its configuration, is called exactly
    -- `max_attempts` times.
    pub calls-try-eq :
        (f : FailsTransiently E p) (w : E.World)
        → calls (try_provider_with_retry E c p request w).1 ≡ calls w + c.max_attempts
    unfolding try_provider_with_retry
    calls-try-eq f w = retry_loop_count f c.max_attempts 1 none w

  retry_loop_fails :
      (f : FailsTransiently E p) (left attempt : ℕ) (last : Option (ProviderError E)) (w : E.World)
      → (e : ProviderError E) × ((retry_loop E c p request left attempt last w).0 ≡ err e)
  unfolding retry_loop
  retry_loop_fails f zero attempt none w = (all_exhausted c.max_attempts "unknown error", refl)
  retry_loop_fails f zero attempt (some e) w = (e, refl)
  retry_loop_fails f (suc left) attempt last w =
      rw
        (after_call_transient E (p request w) (f.error request w) _ (f.fails request w)
          (f.transient request w))
        (retry_loop_fails f left (attempt + 1) (some (f.error request w))
          (pause E c attempt (p request w).1))

  -- Such a provider makes the whole run an error.
  pub try_fails :
      (f : FailsTransiently E p) (w : E.World)
      → (e : ProviderError E) × ((try_provider_with_retry E c p request w).0 ≡ err e)
  unfolding try_provider_with_retry
  try_fails f w = retry_loop_fails f c.max_attempts 1 none w

  after_call_config :
      (res : Reply E × E.World) (m : String) (next : ProviderError E → E.World → Reply E × E.World)
      → res.0 ≡ err (config m)
      → after_call E res next ≡ (err (config m), res.1)
  unfolding after_call
  after_call_config (ok r, w) m next h = cc
  after_call_config (err (config n), w) m next h = cc
  after_call_config (err (http e), w) m next h = cc
  after_call_config (err (api a b), w) m next h = cc
  after_call_config (err (deserialization d), w) m next h = cc
  after_call_config (err (all_exhausted a b), w) m next h = cc

  -- A configuration error ends the run at the first call, whatever the number of attempts.
  pub try_config :
      (w : E.World) (m : String) (n : ℕ)
      → c.max_attempts ≡ suc n
      → (p request w).0 ≡ err (config m)
      → try_provider_with_retry E c p request w ≡ (err (config m), (p request w).1)
  unfolding try_provider_with_retry
  try_config w m n e h = rw (e, retry_loop) (after_call_config (p request w) m _ h)
