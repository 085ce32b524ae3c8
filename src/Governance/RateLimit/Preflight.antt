-- ===== src/Governance/RateLimit/Preflight.antt =====
-- What `preflight_check` decides, and what it changes.
use klass_mobile_backend.Prelude.{
  ◌≡◌, refl, ap, ap₂, ◌∙◌, String, Bool, true, false, Option, none, some, List, [], ◌∷◌,
  if◌then◌else◌, Bool-cases, inl, inr,
}
use klass_mobile_backend.Prelude.Int.{ℤ, pos, ◌+ℤ◌, +ℤ-zero}
use klass_mobile_backend.Governance.{Chrono, ChronoLaws, Decimals, DecimalLaws}
use klass_mobile_backend.Governance.RateLimit.Types.{
  PreflightDecision, unit_of, RateLimitPolicy, RateLimitBucket, BucketMutation, window_start,
}
use klass_mobile_backend.Governance.RateLimit.Tables.{
  estimated_cost, find_applicable, exhausted_decision, allowed_decision,
}
use klass_mobile_backend.Governance.RateLimit.Buckets.{
  Buckets, same_key, bucket_row, upsert_bucket, increment, mutation, check_mutation,
  denial_mutation, record_denial, check_bucket, over_limit, deny_request, check_policies,
  preflight_check,
}
use klass_mobile_backend.Governance.RateLimit.Windows.{window_start-exact}
use klass_mobile_backend.Governance.RateLimit.Counters.{
  Adds, upsert_adds, upsert_keeps, upsert_returns, requests, denials, spent, requests-Adds,
  denials-Adds, spent-Adds, counter,
}

module _ (T : Chrono) (D : Decimals) (L : ChronoLaws T) (M : DecimalLaws D) (now : T.DateTime) where
  -- The start of a policy's window at `now`.
  pub start_of : RateLimitPolicy D → T.DateTime
  start_of p = (window_start-exact T L now (unit_of p.window_unit)).0

  pub window_start-start_of :
      (p : RateLimitPolicy D) → window_start T now (unit_of p.window_unit) ≡ some (start_of p)
  unfolding start_of
  window_start-start_of p = (window_start-exact T L now (unit_of p.window_unit)).1

  -- Two tables with the same counts of requests, denials and costs.
  pub record SameCounts (bs bs' : Buckets T D) : Type 0 where
    pub same_requests : (id : ℤ) (ws : T.DateTime) → requests T D id ws bs ≡ requests T D id ws bs'
    pub same_denials : (id : ℤ) (ws : T.DateTime) → denials T D id ws bs ≡ denials T D id ws bs'
    pub same_spent : (id : ℤ) (ws : T.DateTime) → spent T D id ws bs ≡ spent T D id ws bs'

  -- A row whose number is zero changes no counter.
  keeps_by_zero :
      {A : Type 0} (field : RateLimitBucket T D → A) (z : A) (plus : A → A → A)
      → Adds T D field z plus
      → ((a : A) → plus a z ≡ a)
      → (new : RateLimitBucket T D) → field new ≡ z
      → (bs : Buckets T D) (id : ℤ) (ws : T.DateTime)
      → counter T D field z id ws (upsert_bucket T D new bs).1 ≡ counter T D field z id ws bs
  keeps_by_zero field z plus h right new e bs id ws =
      elim (Bool-cases (same_key T D id ws new.policy_id new.window_started_at)) [
        | inl t ↦
            upsert_adds T D field z plus h new id ws bs t
            ∙ ap (plus (counter T D field z id ws bs)) e
            ∙ right (counter T D field z id ws bs)
        | inr f ↦ upsert_keeps T D field z plus h new id ws bs f
      ]

  pub increment-some :
      (p : RateLimitPolicy D) (m : BucketMutation D) (bs : Buckets T D)
      → increment T D p m now bs ≡ some (upsert_bucket T D (bucket_row T D p m (start_of p)) bs)
  unfolding increment
  increment-some p m bs = rw (window_start-start_of p, increment)

  check_row : RateLimitPolicy D → RateLimitBucket T D
  check_row p = bucket_row T D p (check_mutation T D p) (start_of p)

  -- The check of a bucket gives its counts and leaves all counts.
  check_bucket_lem :
      (p : RateLimitPolicy D) (bs : Buckets T D)
      → (r : RateLimitBucket T D × Buckets T D) × (check_bucket T D p now bs ≡ some r)
        × (r.0.request_count ≡ requests T D p.id (start_of p) bs)
        × (r.0.estimated_cost_usd ≡ spent T D p.id (start_of p) bs)
        × SameCounts r.1 bs
  unfolding check_bucket bucket_row check_row check_mutation mutation
  check_bucket_lem p bs = (
    upsert_bucket T D (check_row p) bs,
    increment-some p (check_mutation T D p) bs,
    upsert_returns T D _ _ _ (requests-Adds T D) (check_row p) bs ∙ +ℤ-zero _,
    upsert_returns T D _ _ _ (spent-Adds T D M) (check_row p) bs ∙ M.plus-zero _,
    record {
      same_requests =
          λ id ws. keeps_by_zero _ _ _ (requests-Adds T D) +ℤ-zero (check_row p) refl bs id ws;
      same_denials =
          λ id ws. keeps_by_zero _ _ _ (denials-Adds T D) +ℤ-zero (check_row p) refl bs id ws;
      same_spent =
          λ id ws. keeps_by_zero _ _ _ (spent-Adds T D M) M.plus-zero (check_row p) refl bs id ws;
    },
  )

  module _ (cost : D.Decimal) where
    -- Whether a policy's limit is passed, by its counters.
    abbrev pub over : RateLimitPolicy D → Buckets T D → Bool
    over p bs =
        over_limit T D p (requests T D p.id (start_of p) bs) (spent T D p.id (start_of p) bs) cost

    -- The first policy, in the order of the check, whose limit is passed.
    abbrev pub first_over : List (RateLimitPolicy D) → Buckets T D → Option (RateLimitPolicy D)
    first_over [] bs = none
    first_over (p ∷ ps) bs = let rest = first_over ps bs in if over p bs then some p else rest

    over-SameCounts :
        (p : RateLimitPolicy D) (bs bs' : Buckets T D) → SameCounts bs bs' → over p bs ≡ over p bs'
    over-SameCounts p bs bs' s =
        ap₂ (λ n d. over_limit T D p n d cost) (s.same_requests p.id (start_of p))
          (s.same_spent p.id (start_of p))

  abbrev pub verdict : String → Option (RateLimitPolicy D) → PreflightDecision
  verdict route none = allowed_decision
  verdict route (some p) = exhausted_decision route

  -- The count of denials after: one more for the policy that denied, in its window.
  abbrev pub denied : Option (RateLimitPolicy D) → ℤ → T.DateTime → ℤ → ℤ
  denied none id ws n = n
  denied (some p) id ws n = if same_key T D id ws p.id (start_of p) then n +ℤ pos 1 else n

  pub record Outcome (o : Option (RateLimitPolicy D)) (bs bs' : Buckets T D) : Type 0 where
    pub keeps_requests : (id : ℤ) (ws : T.DateTime) → requests T D id ws bs' ≡ requests T D id ws bs
    pub keeps_spent : (id : ℤ) (ws : T.DateTime) → spent T D id ws bs' ≡ spent T D id ws bs
    pub counts_denials :
        (id : ℤ) (ws : T.DateTime) → denials T D id ws bs' ≡ denied o id ws (denials T D id ws bs)

  same_trans : (a b c : Buckets T D) → SameCounts a b → SameCounts b c → SameCounts a c
  same_trans a b c s t = record {
    same_requests = λ id ws. s.same_requests id ws ∙ t.same_requests id ws;
    same_denials = λ id ws. s.same_denials id ws ∙ t.same_denials id ws;
    same_spent = λ id ws. s.same_spent id ws ∙ t.same_spent id ws;
  }

  module _ (route : String) (cost : D.Decimal) (request_id generation_id : String) where
    denial_row : RateLimitPolicy D → RateLimitBucket T D
    denial_row p = bucket_row T D p (denial_mutation T D p request_id generation_id) (start_of p)

    -- The denial adds one to the policy's count of denials and changes no other count.
    deny_Outcome :
        (p : RateLimitPolicy D) (bs bs0 : Buckets T D)
        → SameCounts bs bs0
        → Outcome (some p) bs0 (upsert_bucket T D (denial_row p) bs).1
    unfolding denial_row bucket_row denial_mutation mutation
    deny_Outcome p bs bs0 s = record {
      keeps_requests = λ id ws.
          keeps_by_zero _ _ _ (requests-Adds T D) +ℤ-zero (denial_row p) refl bs id ws
          ∙ s.same_requests id ws;
      keeps_spent = λ id ws.
          keeps_by_zero _ _ _ (spent-Adds T D M) M.plus-zero (denial_row p) refl bs id ws
          ∙ s.same_spent id ws;
      counts_denials = λ id ws. elim (Bool-cases (same_key T D id ws p.id (start_of p))) [
        | inl t ↦ rw t (
            upsert_adds T D _ _ _ (denials-Adds T D) (denial_row p) id ws bs t
            ∙ ap (λ n. n +ℤ pos 1) (s.same_denials id ws))
        | inr f ↦ rw f (
            upsert_keeps T D _ _ _ (denials-Adds T D) (denial_row p) id ws bs f
            ∙ s.same_denials id ws)
      ];
    }

    deny_request_lem :
        (p : RateLimitPolicy D) (bs : Buckets T D)
        → deny_request T D route cost request_id generation_id now p bs
          ≡ some (exhausted_decision route, (upsert_bucket T D (denial_row p) bs).1)
    unfolding deny_request record_denial denial_row
    deny_request_lem p bs = rw (
      increment-some p (denial_mutation T D p request_id generation_id) bs,
      deny_request,
      record_denial,
    )

    abbrev loop : List (RateLimitPolicy D) → Buckets T D → Option (PreflightDecision × Buckets T D)
    loop = check_policies T D route cost request_id generation_id now

    module _ (p : RateLimitPolicy D) (ps : List (RateLimitPolicy D)) (bs : Buckets T D)
        (r : RateLimitBucket T D × Buckets T D) (read : check_bucket T D p now bs ≡ some r) where
      loop_denies :
          over_limit T D p r.0.request_count r.0.estimated_cost_usd cost ≡ true
          → loop (p ∷ ps) bs ≡ deny_request T D route cost request_id generation_id now p r.1
      unfolding check_policies deny_request
      loop_denies h = rw (read, check_policies) (rw (h, check_policies))

      loop_goes_on :
          over_limit T D p r.0.request_count r.0.estimated_cost_usd cost ≡ false
          → loop (p ∷ ps) bs ≡ loop ps r.1
      unfolding check_policies
      loop_goes_on h = rw (read, check_policies) (rw (h, check_policies))

    loop_decides :
        (ps : List (RateLimitPolicy D)) (bs bs0 : Buckets T D)
        → SameCounts bs bs0
        → (bs' : Buckets T D) × (loop ps bs ≡ some (verdict route (first_over cost ps bs0), bs'))
          × Outcome (first_over cost ps bs0) bs0 bs'
    unfolding check_policies
    loop_decides [] bs bs0 s = (
      bs,
      refl,
      record {
        keeps_requests = s.same_requests;
        keeps_spent = s.same_spent;
        counts_denials = s.same_denials;
      },
    )
    loop_decides (p ∷ ps) bs bs0 s =
        let (r, read, count, sum, s') = check_bucket_lem p bs in
        let s'' : SameCounts r.1 bs0 = same_trans r.1 bs bs0 s' s in
        let same : over_limit T D p r.0.request_count r.0.estimated_cost_usd cost
            ≡ over cost p bs0 =
          ap₂ (λ n d. over_limit T D p n d cost) count sum ∙ over-SameCounts cost p bs bs0 s in
        elim (Bool-cases (over cost p bs0)) [
          | inl t ↦ rw t (
            (upsert_bucket T D (denial_row p) r.1).1,
            loop_denies p ps bs r read (same ∙ t) ∙ deny_request_lem p r.1,
            deny_Outcome p r.1 bs0 s'',
          )
          | inr f ↦
              let (bs', next, out) = loop_decides ps r.1 bs0 s'' in
              rw f (bs', loop_goes_on p ps bs r read (same ∙ f) ∙ next, out)
        ]

  -- The check allows the call exactly when no applicable policy's limit is passed, by the counters
  -- before it; else it answers by the route, and the first such policy, in the order of the query,
  -- gets one denial for its window. It changes no count of requests, no cost and no other denials.
  pub preflight_decides :
      (route provider model : String) (projected : Option D.Decimal)
      (request_id generation_id : String) (ps : List (RateLimitPolicy D)) (bs : Buckets T D)
      → let o =
          first_over (estimated_cost D projected) (find_applicable D route provider model ps) bs in
        (bs' : Buckets T D) × (preflight_check T D route provider model projected request_id
            generation_id now ps bs
          ≡ some (verdict route o, bs'))
        × Outcome o bs bs'
  unfolding preflight_check
  preflight_decides route provider model projected request_id generation_id ps bs =
      loop_decides route (estimated_cost D projected) request_id generation_id
        (find_applicable D route provider model ps) bs bs
        (record {
          same_requests = λ id ws. refl;
          same_denials = λ id ws. refl;
          same_spent = λ id ws. refl;
        })
