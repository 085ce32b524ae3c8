-- ===== src/Tests/AuthTests.antt =====
-- The limits of src/auth/middleware.rs at concrete requests.
use klass_mobile_backend.Prelude.{ℕ, true, min, ◌≡◌, refl, none, some, List}
use klass_mobile_backend.Prelude.Int.{pos}
use klass_mobile_backend.Prelude.Result.{ok}
use klass_mobile_backend.Auth.{
  RateLimitConfig, Verdict, RedisCommand, check_user_rate_limit, config_for, client_ip, first_part,
  rate_limit_middleware,
}
use klass_mobile_backend.Auth.Limits.{
  all_passed, all_expiries, user_limit_exact, client_limit_exact,
}
use klass_mobile_backend.Queue.Worker.{contains}

abbrev login : RateLimitConfig
login = record { max_requests = 5; window_seconds = 60 }

login_limited : config_for "/api/auth/login" ≡ some login
unfolding config_for contains
login_limited = refl

first_address : client_ip (some "10.0.0.1, 10.0.0.2") ≡ "10.0.0.1"
unfolding client_ip first_part
first_address = refl

user_limit_exact_example :
    let serve : ℕ → Verdict × List RedisCommand =
      λ c. check_user_rate_limit true (ok c) (pos 7) "media" 10 3600 in
    (all_passed serve 0 12 ≡ min 12 10) × (all_expiries serve 0 12 ≡ min 12 1)
user_limit_exact_example = user_limit_exact (pos 7) "media" 10 3600 12

client_limit_exact_at :
    let serve : ℕ → Verdict × List RedisCommand =
      λ c. rate_limit_middleware true true (ok c) "/api/auth/login" none in
    (all_passed serve 0 8 ≡ min 8 5) × (all_expiries serve 0 8 ≡ min 8 1)
client_limit_exact_at = client_limit_exact "/api/auth/login" none login 8 login_limited
