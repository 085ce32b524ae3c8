-- ===== src/Governance/RateLimit/Enforcement.antt =====
-- Calls of an LLM step in turn, under one policy on requests: they are a plain counter.
use klass_mobile_backend.Prelude.{
  ℕ, suc, ◌+◌, ◌≤◌, ◌<◌, ◌≡◌, refl, ap, ◌∙◌, String, Bool, true, false, Option, none, some, List,
  [], ◌∷◌, str_eq, eq_iff, arith, length, if◌then◌else◌, Bool-cases, inl, inr, ltb,
}
use klass_mobile_backend.Prelude.Int.{pos, ◌+ℤ◌, pos-+ℤ}
use klass_mobile_backend.Prelude.Word.{two63, wrap64-pos}
use klass_mobile_backend.Governance.{Chrono, ChronoLaws, Decimals, DecimalLaws}
use klass_mobile_backend.Governance.RateLimit.Types.{deny, degrade, RateLimitPolicy}
use klass_mobile_backend.Governance.RateLimit.Tables.{
  estimated_cost, find_applicable, allowed_decision, exhausted_decision, exceeds_requests,
  exceeds_cost,
}
use klass_mobile_backend.Governance.RateLimit.Buckets.{
  Buckets, same_key, bucket_row, mutation, upsert_bucket, usage_mutation, record_usage, over_limit,
  preflight_check,
}
use klass_mobile_backend.Governance.RateLimit.Counters.{upsert_adds, requests, requests-Adds}
use klass_mobile_backend.Governance.RateLimit.Preflight.{
  start_of, increment-some, first_over, over, verdict, preflight_decides,
}
use klass_mobile_backend.Governance.RateLimit.Serving.{
  Ending, Lookup, hit, miss, broken, cache_failed, after_lookup, rate_limited, cached,
  provider_failed, answered, Call, record_all, execute_provider, act, serve, serve_calls,
}

module _ (T : Chrono) (D : Decimals) where
  -- What a counter makes of a call. Where the provider is tried the count grows with its answer.
  abbrev pub tried : Call T D → ℕ → Ending × ℕ
  tried c k = if c.provider_ok then (answered, suc k) else (provider_failed, k)

  abbrev pub looked_up : Lookup → Call T D → ℕ → Ending × ℕ
  looked_up hit c k = (cached, k)
  looked_up miss c k = tried c k
  looked_up broken c k = (cache_failed, k)

  -- Below the limit the cache comes first; at the limit or above, the route respond tries the
  -- provider all the same, and any other refuses.
  abbrev pub count_call : String → ℕ → Call T D → ℕ → Ending × ℕ
  count_call route limit c k =
      if ltb k limit
      then looked_up c.cache c k
      else if str_eq route "respond"
      then tried c k
      else (rate_limited, k)

  abbrev pub count_calls : String → ℕ → List (Call T D) → ℕ → List Ending × ℕ
  count_calls route limit [] k = ([], k)
  count_calls route limit (c ∷ cs) k =
      let now = count_call route limit c k in
      let later = count_calls route limit cs now.1 in (now.0 ∷ later.0, later.1)

  at_limit :
      (route : String)
      → (exhausted_decision route).action ≡ (if str_eq route "respond" then degrade else deny)
  unfolding exhausted_decision
  at_limit route = elim (Bool-cases (str_eq route "interpret")) [
    | inl t ↦ rw ((eq_iff route "interpret").0 t) refl
    | inr f ↦
        rw f (elim (Bool-cases (str_eq route "respond")) [ inl t ↦ rw t refl | inr g ↦ rw g refl ])
  ]

  module _ (L : ChronoLaws T) (M : DecimalLaws D) (route provider model : String)
      (table : List (RateLimitPolicy D)) (p : RateLimitPolicy D) (m : ℕ)
      (only : find_applicable D route provider model table ≡ p ∷ [])
      (limit : p.max_requests ≡ some (pos m)) (free : p.max_estimated_cost_usd ≡ none)
      (ws : T.DateTime) where
    -- The calls are checked, and their usage recorded, in the window that starts at `ws`.
    abbrev pub AllIn : List (Call T D) → Type 0
    AllIn [] = Unit
    AllIn (c ∷ cs) = (start_of T D L M c.at p ≡ ws) × (start_of T D L M c.used_at p ≡ ws) × AllIn cs

    over-eq :
        (c : Call T D) (bs : Buckets T D) (k : ℕ)
        → start_of T D L M c.at p ≡ ws
        → requests T D p.id ws bs ≡ pos k
        → k + 1 < two63
        → over T D L M c.at (estimated_cost D c.projected) p bs ≡ ltb m (k + 1)
    unfolding over_limit exceeds_requests exceeds_cost
    over-eq c bs k s e le =
        rw (s, e, limit, free, pos-+ℤ, wrap64-pos (k + 1) (omega arith)) (ground arith)

    preflight_one :
        (c : Call T D) (bs : Buckets T D) (b : Bool)
        → over T D L M c.at (estimated_cost D c.projected) p bs ≡ b
        → (bs' : Buckets T D) × (preflight_check T D route provider model c.projected c.request_id
              c.generation_id c.at table bs
            ≡ some (verdict T D L M c.at route (if b then some p else none), bs'))
          × (requests T D p.id ws bs' ≡ requests T D p.id ws bs)
    preflight_one c bs b h =
        let (bs', decided, out) =
          preflight_decides T D L M c.at route provider model c.projected c.request_id
            c.generation_id table bs in
        let first =
          ap (λ ps. first_over T D L M c.at (estimated_cost D c.projected) ps bs) only
          ∙ ap (λ b'. if b' then some p else none) h in
        (
          bs',
          decided ∙ ap (λ o. some (verdict T D L M c.at route o, bs')) first,
          out.keeps_requests p.id ws,
        )

    -- The usage of a call, on the policy's bucket.
    record_counts :
        (c : Call T D) (bs : Buckets T D) (k : ℕ)
        → start_of T D L M c.used_at p ≡ ws
        → requests T D p.id ws bs ≡ pos k
        → (bs' : Buckets T D) × (record_all T D c (find_applicable D route provider model table) bs
            ≡ some bs')
          × (requests T D p.id ws bs' ≡ pos (suc k))
    unfolding record_all record_usage usage_mutation mutation bucket_row
    record_counts c bs k s e =
        let mut =
          usage_mutation T D p c.input_tokens c.output_tokens c.total_tokens c.used c.request_id
            c.generation_id in
        let row = bucket_row T D p mut (start_of T D L M c.used_at p) in
        let key : same_key T D p.id ws p.id (start_of T D L M c.used_at p) ≡ true =
          rw s (ground arith) in
        (
          (upsert_bucket T D row bs).1,
          rw only (rw (increment-some T D L M c.used_at p mut bs, record_usage)),
          upsert_adds T D _ _ _ (requests-Adds T D) row p.id ws bs key
              ∙ ap (λ n. n +ℤ pos 1) e
              ∙ pos-+ℤ k 1
              ∙ ap pos (omega arith),
        )

    -- A step of the code that is a step of the counter.
    abbrev Counts : Option (Ending × Buckets T D) → Ending × ℕ → Type 0
    Counts r n = (bs' : Buckets T D) × (r ≡ some (n.0, bs')) × (requests T D p.id ws bs' ≡ pos n.1)

    either-Counts :
        (b : Bool) (r q : Option (Ending × Buckets T D)) (n l : Ending × ℕ)
        → Counts r n
        → Counts q l
        → Counts (if b then r else q) (if b then n else l)
    either-Counts true r q n l h g = h
    either-Counts false r q n l h g = g

    execute-Counts :
        (c : Call T D) (bs : Buckets T D) (k : ℕ)
        → start_of T D L M c.used_at p ≡ ws
        → requests T D p.id ws bs ≡ pos k
        → Counts (execute_provider T D route provider model table c bs) (tried c k)
    unfolding execute_provider
    execute-Counts c bs k s e =
        let (bs', done, count) = record_counts c bs k s e in
        either-Counts c.provider_ok _ _ _ _ (bs', rw done refl, count) (bs, refl, e)

    lookup-Counts :
        (l : Lookup) (c : Call T D) (bs : Buckets T D) (k : ℕ)
        → start_of T D L M c.used_at p ≡ ws
        → requests T D p.id ws bs ≡ pos k
        → Counts (after_lookup T D route provider model table l c bs) (looked_up l c k)
    unfolding after_lookup
    lookup-Counts hit c bs k s e = (bs, refl, e)
    lookup-Counts miss c bs k s e = execute-Counts c bs k s e
    lookup-Counts broken c bs k s e = (bs, refl, e)

    serve_count :
        (c : Call T D) (bs : Buckets T D) (k : ℕ)
        → start_of T D L M c.at p ≡ ws
        → start_of T D L M c.used_at p ≡ ws
        → requests T D p.id ws bs ≡ pos k
        → k + 1 < two63
        → Counts (serve T D route provider model table c bs) (count_call route m c k)
    unfolding serve act allowed_decision
    serve_count c bs k s u e small = elim (Bool-cases (ltb k m)) [
      | inl t ↦
          let (mid, decided, same) =
            preflight_one c bs false (over-eq c bs k s e small ∙ ground arith) in
          rw (t, decided) (lookup-Counts c.cache c mid k u (same ∙ e))
      | inr f ↦
          let (mid, decided, same) =
            preflight_one c bs true (over-eq c bs k s e small ∙ ground arith) in
          rw (f, decided)
            (rw (at_limit route) (elim (Bool-cases (str_eq route "respond")) [
              | inl h ↦ rw h (execute-Counts c mid k u (same ∙ e))
              | inr n ↦ rw n (mid, refl, same ∙ e)
            ]))
    ]

    lookup_grows : (l : Lookup) (c : Call T D) (k : ℕ) → (looked_up l c k).1 ≤ suc k
    lookup_grows hit c k = omega arith
    lookup_grows miss c k = ground arith
    lookup_grows broken c k = omega arith

    count_call-grows : (c : Call T D) (k : ℕ) → (count_call route m c k).1 ≤ suc k
    count_call-grows c k = elim (Bool-cases (ltb k m)) [
      | inl t ↦ rw t (lookup_grows c.cache c k)
      | inr f ↦ ground arith
    ]

    -- Under one policy that limits requests only, calls in turn whose checks and records fall in
    -- one window end as a plain counter says, whatever was counted before, while the count stays
    -- below 2 ^ 63: below the limit the cache comes first and then the provider; at the limit
    -- respond goes to the provider without the cache and every other route refuses; and the count
    -- of requests grows by the calls that the provider answers.
    pub serve_counts :
        (cs : List (Call T D)) (bs : Buckets T D) (k : ℕ)
        → AllIn cs
        → requests T D p.id ws bs ≡ pos k
        → k + length cs < two63
        → let n = count_calls route m cs k in
          (bs' : Buckets T D) × (serve_calls T D route provider model table cs bs ≡ some (n.0, bs'))
          × (requests T D p.id ws bs' ≡ pos n.1)
    unfolding serve_calls
    serve_counts [] bs k all e small = (bs, refl, e)
    serve_counts (c ∷ cs) bs k all e small =
        let (mid, first, e') = serve_count c bs k all.0 all.1 e (omega arith) in
        let (bs', rest, e'') =
          serve_counts cs mid (count_call route m c k).1 all.2 e'
            (omega (arith, count_call-grows c k)) in
        (bs', rw first (rw rest refl), e'')
