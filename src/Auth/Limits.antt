-- ===== src/Auth/Limits.antt =====
-- In a window the limits let through exactly as many requests as they say.
use klass_mobile_backend.Prelude.{
  ℕ, zero, suc, ◌+◌, ◌-◌, min, ◌≡◌, refl, ◌∙◌, String, true, Option, some, List, [], ◌∷◌, arith,
  ltb, ◌==◌, if◌then◌else◌,
}
use klass_mobile_backend.Prelude.Int.{ℤ}
use klass_mobile_backend.Prelude.Result.{ok}
use klass_mobile_backend.Auth.{
  RateLimitConfig, Verdict, pass, too_many_requests, RedisCommand, incr, expire, over_count,
  expire_first, count_request, user_key, check_user_rate_limit, config_for, ip_key, limit_request,
  rate_limit_middleware,
}

abbrev passed : Verdict → ℕ
passed pass = 1
passed (too_many_requests s) = 0

abbrev expiries : List RedisCommand → ℕ
expiries [] = 0
expiries (expire key s ∷ cs) = suc (expiries cs)
expiries (incr key ∷ cs) = expiries cs

-- `n` requests in a window on one key after `k` others: INCR answers `k + 1`, then `k + 2`, and so
-- on. How many pass, and how often the expiry is set.
abbrev pub all_passed : (ℕ → Verdict × List RedisCommand) → ℕ → ℕ → ℕ
all_passed serve k zero = 0
all_passed serve k (suc n) = passed (serve (suc k)).0 + all_passed serve (suc k) n

abbrev pub all_expiries : (ℕ → Verdict × List RedisCommand) → ℕ → ℕ → ℕ
all_expiries serve k zero = 0
all_expiries serve k (suc n) = expiries (serve (suc k)).1 + all_expiries serve (suc k) n

module _ (cfg : RateLimitConfig) (key : String) where
  passed-count_request :
      (c : ℕ) → passed (count_request cfg key (ok c)).0 ≡ (if ltb cfg.max_requests c then 0 else 1)
  unfolding count_request over_count
  passed-count_request c = ground arith

  expiries-count_request :
      (c : ℕ) → expiries (count_request cfg key (ok c)).1 ≡ (if c == 1 then 1 else 0)
  unfolding count_request expire_first
  expiries-count_request c = ground arith

  all_passed_from :
      (n k : ℕ) → all_passed (λ c. count_request cfg key (ok c)) k n ≡ min n (cfg.max_requests - k)
  all_passed_from zero k = omega arith
  all_passed_from (suc n) k =
      rw (passed-count_request (suc k), all_passed_from n (suc k)) (ground arith)

  all_expiries_from : (n k : ℕ) → all_expiries (λ c. count_request cfg key (ok c)) (suc k) n ≡ 0
  all_expiries_from zero k = refl
  all_expiries_from (suc n) k =
      rw (expiries-count_request (suc (suc k)), all_expiries_from n (suc k)) (ground arith)

  all_expiries_of : (n : ℕ) → all_expiries (λ c. count_request cfg key (ok c)) 0 n ≡ min n 1
  all_expiries_of zero = omega arith
  all_expiries_of (suc n) = rw (expiries-count_request 1, all_expiries_from n 0) (omega arith)

-- Of `n` requests of one user on one route in a window, while Redis answers, the lesser of `n` and
-- the limit pass, and the window's expiry is set once, if there is a request.
pub user_limit_exact :
    (user_id : ℤ) (route : String) (max_requests window_seconds n : ℕ)
    → let serve : ℕ → Verdict × List RedisCommand =
        λ c. check_user_rate_limit true (ok c) user_id route max_requests window_seconds in
      (all_passed serve 0 n ≡ min n max_requests) × (all_expiries serve 0 n ≡ min n 1)
unfolding check_user_rate_limit
user_limit_exact user_id route max_requests window_seconds n =
    let cfg : RateLimitConfig = record {
      max_requests = max_requests;
      window_seconds = window_seconds;
    } in
    let key = user_key user_id route in
    (all_passed_from cfg key n 0 ∙ omega arith, all_expiries_of cfg key n)

-- The same holds of the requests of one client on a path that has a limit.
pub client_limit_exact :
    (path : String) (forwarded : Option String) (cfg : RateLimitConfig) (n : ℕ)
    → config_for path ≡ some cfg
    → let serve : ℕ → Verdict × List RedisCommand =
        λ c. rate_limit_middleware true true (ok c) path forwarded in
      (all_passed serve 0 n ≡ min n cfg.max_requests) × (all_expiries serve 0 n ≡ min n 1)
unfolding rate_limit_middleware limit_request
client_limit_exact path forwarded cfg n h =
    let key = ip_key path forwarded in
    rw h (all_passed_from cfg key n 0 ∙ omega arith, all_expiries_of cfg key n)
