-- ===== src/Governance/RateLimit/Counters.antt =====
-- The buckets seen as counters: for each policy and window start a number, zero where there is no
-- row. An upsert adds to one counter and leaves the others.
use klass_mobile_backend.Prelude.{
  ◌≡◌, refl, sym, Bool, true, false, [], ◌∷◌, arith, if◌then◌else◌, Bool-cases, inl, inr,
}
use klass_mobile_backend.Prelude.Int.{ℤ, pos, ◌+ℤ◌, zero-+ℤ}
use klass_mobile_backend.Governance.{Chrono, Decimals, DecimalLaws}
use klass_mobile_backend.Governance.RateLimit.Types.{RateLimitBucket}
use klass_mobile_backend.Governance.RateLimit.Buckets.{
  Buckets, same_key, merge_bucket, upsert_bucket,
}

module _ (T : Chrono) (D : Decimals) where
  module _ {A : Type 0} (field : RateLimitBucket T D → A) (none_yet : A) where
    abbrev pub counter : ℤ → T.DateTime → Buckets T D → A
    counter id ws [] = none_yet
    counter id ws (b ∷ bs) =
        let rest = counter id ws bs in
        if same_key T D id ws b.policy_id b.window_started_at then field b else rest

  module _ (id : ℤ) (ws : T.DateTime) (id' : ℤ) (ws' : T.DateTime) (i : ℤ) (u : T.DateTime) where
    key_match :
        same_key T D id' ws' i u ≡ true → same_key T D id ws i u ≡ same_key T D id ws id' ws'
    key_match h = ground arith

    key_other :
        same_key T D id' ws' i u ≡ false
        → same_key T D id ws id' ws' ≡ true
        → same_key T D id ws i u ≡ false
    key_other h k = ground arith

  module _ {A : Type 0} (field : RateLimitBucket T D → A) (none_yet : A) (plus : A → A → A) where
    -- What the counter of a column needs: the upsert adds the column.
    pub record Adds : Type 0 where
      pub merge :
          (b new : RateLimitBucket T D)
          → field (merge_bucket T D b new) ≡ plus (field b) (field new)
      pub first : (new : RateLimitBucket T D) → plus none_yet (field new) ≡ field new

    module _ (h : Adds) (new : RateLimitBucket T D) where
      abbrev total : ℤ → T.DateTime → Buckets T D → A
      total = counter field none_yet

      abbrev key_of_new : ℤ → T.DateTime → Bool
      key_of_new id ws = same_key T D id ws new.policy_id new.window_started_at

      -- An upsert adds the new row's number to the counter of its key.
      pub upsert_adds :
          (id : ℤ) (ws : T.DateTime) (bs : Buckets T D)
          → key_of_new id ws ≡ true
          → total id ws (upsert_bucket T D new bs).1 ≡ plus (total id ws bs) (field new)
      unfolding upsert_bucket merge_bucket
      upsert_adds id ws [] k = rw k (sym (h.first new))
      upsert_adds id ws (b ∷ bs) k =
          elim (Bool-cases
            (same_key T D new.policy_id new.window_started_at b.policy_id b.window_started_at)) [
              | inl t ↦
                  let e =
                    key_match id ws new.policy_id new.window_started_at b.policy_id
                      b.window_started_at t in
                  rw (t, e, k) (h.merge b new)
              | inr f ↦
                  let e =
                    key_other id ws new.policy_id new.window_started_at b.policy_id
                      b.window_started_at f k in
                  rw (f, e) (upsert_adds id ws bs k)
            ]

      -- It leaves every other counter.
      pub upsert_keeps :
          (id : ℤ) (ws : T.DateTime) (bs : Buckets T D)
          → key_of_new id ws ≡ false
          → total id ws (upsert_bucket T D new bs).1 ≡ total id ws bs
      unfolding upsert_bucket merge_bucket
      upsert_keeps id ws [] k = rw k
      upsert_keeps id ws (b ∷ bs) k =
          elim (Bool-cases
            (same_key T D new.policy_id new.window_started_at b.policy_id b.window_started_at)) [
              | inl t ↦
                  let e =
                    key_match id ws new.policy_id new.window_started_at b.policy_id
                      b.window_started_at t in
                  rw (t, e, k)
              | inr f ↦
                  rw f (elim (Bool-cases (same_key T D id ws b.policy_id b.window_started_at)) [
                    | inl t' ↦ rw t'
                    | inr f' ↦ rw f' (upsert_keeps id ws bs k)
                  ])
            ]

      -- The row that it returns holds the counter after it.
      pub upsert_returns :
          (bs : Buckets T D)
          → field (upsert_bucket T D new bs).0
            ≡ plus (total new.policy_id new.window_started_at bs) (field new)
      unfolding upsert_bucket
      upsert_returns [] = sym (h.first new)
      upsert_returns (b ∷ bs) =
          elim (Bool-cases
            (same_key T D new.policy_id new.window_started_at b.policy_id b.window_started_at)) [
              | inl t ↦ rw t (h.merge b new)
              | inr f ↦ rw f (upsert_returns bs)
            ]

  abbrev pub requests : ℤ → T.DateTime → Buckets T D → ℤ
  requests = counter (λ b. b.request_count) (pos 0)

  abbrev pub denials : ℤ → T.DateTime → Buckets T D → ℤ
  denials = counter (λ b. b.deny_count) (pos 0)

  abbrev pub spent : ℤ → T.DateTime → Buckets T D → D.Decimal
  spent = counter (λ b. b.estimated_cost_usd) D.zero

  pub requests-Adds : Adds (λ b. b.request_count) (pos 0) ◌+ℤ◌
  unfolding merge_bucket
  requests-Adds = record { merge = λ b new. refl; first = λ new. zero-+ℤ new.request_count }

  pub denials-Adds : Adds (λ b. b.deny_count) (pos 0) ◌+ℤ◌
  unfolding merge_bucket
  denials-Adds = record { merge = λ b new. refl; first = λ new. zero-+ℤ new.deny_count }

  pub spent-Adds : DecimalLaws D → Adds (λ b. b.estimated_cost_usd) D.zero D.plus
  unfolding merge_bucket
  spent-Adds L = record { merge = λ b new. refl; first = λ new. L.zero-plus new.estimated_cost_usd }
