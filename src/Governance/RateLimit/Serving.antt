-- ===== src/Governance/RateLimit/Serving.antt =====
-- How the LLM steps use the limits (`call` of src/llm/respond.rs; interpret.rs and draft.rs do the same on
-- their routes): the check, what each decision leads to, and the usage that is recorded.
use klass_mobile_backend.Prelude.{String, Bool, Option, some, List, [], ◌∷◌, if◌then◌else◌}
use klass_mobile_backend.Prelude.Int.{ℤ}
use klass_mobile_backend.Json.{◌>>=◌}
use klass_mobile_backend.Governance.{Chrono, Decimals}
use klass_mobile_backend.Governance.RateLimit.Types.{
  ExhaustionAction, allow, deny, degrade, RateLimitPolicy,
}
use klass_mobile_backend.Governance.RateLimit.Tables.{find_applicable}
use klass_mobile_backend.Governance.RateLimit.Buckets.{Buckets, record_usage, preflight_check}

-- How a call ends: with the error for the limit, an entry or an error of the cache, an error of the
-- provider, or its answer.
pub data Ending : Type 0 where
  rate_limited cached cache_failed provider_failed answered : Ending

-- What the cache gives, by its lookup or by the wait for the same call under way: an entry, none, or an
-- error, which an entry that cannot be read is too.
pub data Lookup : Type 0 where
  hit miss broken : Lookup

module _ (T : Chrono) (D : Decimals) where
  -- A call, with what it meets: the answer of the cache and of the provider, the time of the check and
  -- that of the record, and the usage.
  pub record Call : Type 0 where
    pub at : T.DateTime
    pub projected : Option D.Decimal
    pub request_id : String
    pub generation_id : String
    pub cache : Lookup
    pub provider_ok : Bool
    pub used_at : T.DateTime
    pub input_tokens : ℤ
    pub output_tokens : ℤ
    pub total_tokens : ℤ
    pub used : D.Decimal

  unfoldable pub record_all : Call → List (RateLimitPolicy D) → Buckets T D → Option (Buckets T D)
  record_all c [] bs = some bs
  record_all c (p ∷ ps) bs = do
    r ←
        record_usage T D p c.input_tokens c.output_tokens c.total_tokens c.used c.request_id
          c.generation_id c.used_at bs
    record_all c ps r.1

  module _ (route provider model : String) (table : List (RateLimitPolicy D)) where
    -- Usage is recorded where the provider answers, degraded or not.
    unfoldable pub execute_provider : Call → Buckets T D → Option (Ending × Buckets T D)
    execute_provider c bs =
        if c.provider_ok
        then (record_all c (find_applicable D route provider model table) bs >>= λ bs'.
            some (answered, bs'))
        else some (provider_failed, bs)

    unfoldable pub after_lookup : Lookup → Call → Buckets T D → Option (Ending × Buckets T D)
    after_lookup hit c bs = some (cached, bs)
    after_lookup miss c bs = execute_provider c bs
    after_lookup broken c bs = some (cache_failed, bs)

    -- A degraded call passes the cache by.
    unfoldable pub act : ExhaustionAction → Call → Buckets T D → Option (Ending × Buckets T D)
    act deny c bs = some (rate_limited, bs)
    act degrade c bs = execute_provider c bs
    act allow c bs = after_lookup c.cache c bs

    -- One call; `none` is a panic.
    unfoldable pub serve : Call → Buckets T D → Option (Ending × Buckets T D)
    serve c bs = do
      d ←
          preflight_check T D route provider model c.projected c.request_id c.generation_id c.at
            table bs
      act d.0.action c d.1

    -- Calls in turn.
    unfoldable pub serve_calls : List Call → Buckets T D → Option (List Ending × Buckets T D)
    serve_calls [] bs = some ([], bs)
    serve_calls (c ∷ cs) bs = do r ← serve c bs; rs ← serve_calls cs r.1; some (r.0 ∷ rs.0, rs.1)
