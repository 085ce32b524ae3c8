-- ===== src/Governance/RateLimit/Buckets.antt =====
-- The buckets of src/governance/rate_limit.rs: the upsert, and the check before a call.
use klass_mobile_backend.Prelude.{
  String, Bool, true, false, ◌&&◌, ◌||◌, Option, none, some, List, [], ◌∷◌, ◌==◌, if◌then◌else◌,
}
use klass_mobile_backend.Prelude.Int.{ℤ, pos, ◌+ℤ◌, eq_ℤ}
use klass_mobile_backend.Governance.{Chrono, Decimals}
use klass_mobile_backend.Governance.RateLimit.Types.{
  PreflightDecision, unit_of, RateLimitPolicy, RateLimitBucket, BucketMutation, window_start,
  window_end,
}
use klass_mobile_backend.Governance.RateLimit.Tables.{
  exhausted_decision, allowed_decision, coalesce, find_applicable, exceeds_requests, exceeds_cost,
  estimated_cost,
}

module _ (T : Chrono) (D : Decimals) where
  abbrev pub Buckets : Type 0
  Buckets = List (RateLimitBucket T D)

  -- The unique index on (policy_id, window_started_at).
  abbrev pub same_key : ℤ → T.DateTime → ℤ → T.DateTime → Bool
  same_key id start id' start' = eq_ℤ id' id && (T.nanos start' == T.nanos start)

  -- ON CONFLICT DO UPDATE of BUCKET_UPSERT_SQL.
  unfoldable pub merge_bucket : RateLimitBucket T D → RateLimitBucket T D → RateLimitBucket T D
  unfolding coalesce
  merge_bucket b new = record b {
    request_count = b.request_count +ℤ new.request_count;
    input_tokens = b.input_tokens +ℤ new.input_tokens;
    output_tokens = b.output_tokens +ℤ new.output_tokens;
    total_tokens = b.total_tokens +ℤ new.total_tokens;
    estimated_cost_usd = D.plus b.estimated_cost_usd new.estimated_cost_usd;
    deny_count = b.deny_count +ℤ new.deny_count;
    last_request_id = coalesce new.last_request_id b.last_request_id;
    last_generation_id = coalesce new.last_generation_id b.last_generation_id;
  }

  -- BUCKET_UPSERT_SQL: the row it returns, and the table after.
  unfoldable pub upsert_bucket : RateLimitBucket T D → Buckets → RateLimitBucket T D × Buckets
  upsert_bucket new [] = (new, new ∷ [])
  upsert_bucket new (b ∷ bs) =
      let rest = upsert_bucket new bs in
      if same_key new.policy_id new.window_started_at b.policy_id b.window_started_at
      then (merge_bucket b new, merge_bucket b new ∷ bs)
      else (rest.0, b ∷ rest.1)

  -- The row that `increment` binds.
  unfoldable pub bucket_row :
      RateLimitPolicy D → BucketMutation D → T.DateTime → RateLimitBucket T D
  bucket_row policy m ws = record {
    policy_id = policy.id;
    scope_type = policy.scope_type;
    strategy = "fixed_window";
    route = m.route;
    provider = m.provider;
    model = m.model;
    window_unit = m.window_unit;
    window_started_at = ws;
    window_ends_at = window_end T ws (unit_of policy.window_unit);
    request_count = m.request_count;
    input_tokens = m.input_tokens;
    output_tokens = m.output_tokens;
    total_tokens = m.total_tokens;
    estimated_cost_usd = m.estimated_cost_usd;
    deny_count = m.deny_count;
    last_request_id = m.last_request_id;
    last_generation_id = m.last_generation_id;
  }

  unfoldable pub increment :
      RateLimitPolicy D
      → BucketMutation D
      → T.DateTime
      → Buckets
      → Option (RateLimitBucket T D × Buckets)
  unfolding bucket_row upsert_bucket
  increment policy m now bs = elim (window_start T now (unit_of policy.window_unit)) [
    | none ↦ none
    | some ws ↦ some (upsert_bucket (bucket_row policy m ws) bs)
  ]

  -- A mutation of a policy's bucket, by its counts.
  unfoldable pub mutation :
      RateLimitPolicy D
      → ℤ
      → ℤ
      → ℤ
      → ℤ
      → D.Decimal
      → ℤ
      → Option String
      → Option String
      → BucketMutation D
  mutation policy requests input output total cost denials request_id generation_id = record {
    policy_id = policy.id;
    route = policy.route;
    provider = policy.provider;
    model = policy.model;
    window_unit = policy.window_unit;
    request_count = requests;
    input_tokens = input;
    output_tokens = output;
    total_tokens = total;
    estimated_cost_usd = cost;
    deny_count = denials;
    last_request_id = request_id;
    last_generation_id = generation_id;
  }

  unfoldable pub usage_mutation :
      RateLimitPolicy D → ℤ → ℤ → ℤ → D.Decimal → String → String → BucketMutation D
  unfolding mutation
  usage_mutation policy input output total cost request_id generation_id =
      mutation policy (pos 1) input output total cost (pos 0) (some request_id) (some generation_id)

  unfoldable pub record_usage :
      RateLimitPolicy D
      → ℤ
      → ℤ
      → ℤ
      → D.Decimal
      → String
      → String
      → T.DateTime
      → Buckets
      → Option (RateLimitBucket T D × Buckets)
  unfolding increment usage_mutation
  record_usage policy input output total cost request_id generation_id now bs =
      increment policy (usage_mutation policy input output total cost request_id generation_id) now
        bs

  -- Nothing to add.
  unfoldable pub check_mutation : RateLimitPolicy D → BucketMutation D
  unfolding mutation
  check_mutation policy = mutation policy (pos 0) (pos 0) (pos 0) (pos 0) D.zero (pos 0) none none

  unfoldable pub denial_mutation : RateLimitPolicy D → String → String → BucketMutation D
  unfolding mutation
  denial_mutation policy request_id generation_id =
      mutation policy (pos 0) (pos 0) (pos 0) (pos 0) D.zero (pos 1) (some request_id)
        (some generation_id)

  unfoldable pub record_denial :
      RateLimitPolicy D
      → String
      → String
      → T.DateTime
      → Buckets
      → Option (RateLimitBucket T D × Buckets)
  unfolding increment denial_mutation
  record_denial policy request_id generation_id now bs =
      increment policy (denial_mutation policy request_id generation_id) now bs

  -- The increment by nothing that reads a bucket, and makes it where there is none.
  unfoldable pub check_bucket :
      RateLimitPolicy D → T.DateTime → Buckets → Option (RateLimitBucket T D × Buckets)
  unfolding increment check_mutation
  check_bucket policy now bs = increment policy (check_mutation policy) now bs

  -- The two limits of a policy on its bucket.
  unfoldable pub over_limit : RateLimitPolicy D → ℤ → D.Decimal → D.Decimal → Bool
  unfolding exceeds_requests exceeds_cost
  over_limit policy count spent cost =
      exceeds_requests D policy.max_requests count
      || exceeds_cost D policy.max_estimated_cost_usd spent cost

  module _ (route : String) (cost : D.Decimal) (request_id generation_id : String)
      (now : T.DateTime) where
    unfoldable pub deny_request : RateLimitPolicy D → Buckets → Option (PreflightDecision × Buckets)
    unfolding record_denial exhausted_decision
    deny_request policy bs = elim (record_denial policy request_id generation_id now bs) [
      | none ↦ none
      | some r ↦ some (exhausted_decision route, r.1)
    ]

    -- The loop over the policies; `none` is a panic.
    unfoldable pub check_policies :
        List (RateLimitPolicy D) → Buckets → Option (PreflightDecision × Buckets)
    unfolding check_bucket over_limit deny_request allowed_decision
    check_policies [] bs = some (allowed_decision, bs)
    check_policies (policy ∷ rest) bs = elim (check_bucket policy now bs) [
      | none ↦ none
      | some r ↦ elim (over_limit policy r.0.request_count r.0.estimated_cost_usd cost) [
        | true ↦ deny_request policy r.1
        | false ↦ check_policies rest r.1
      ]
    ]

  -- `preflight_check` on the rows of the two tables, at the time `now`. Without a policy the loop
  -- allows the call, as the early return does.
  unfoldable pub preflight_check :
      String
      → String
      → String
      → Option D.Decimal
      → String
      → String
      → T.DateTime
      → List (RateLimitPolicy D)
      → Buckets
      → Option (PreflightDecision × Buckets)
  unfolding find_applicable estimated_cost check_policies
  preflight_check route provider model projected request_id generation_id now ps bs =
      check_policies route (estimated_cost D projected) request_id generation_id now
        (find_applicable D route provider model ps) bs
