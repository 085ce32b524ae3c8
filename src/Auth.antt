-- ===== src/Auth.antt =====
-- src/auth: who makes a request (Auth/Principal, Auth/Tokens), and here the two limits of
-- src/auth/middleware.rs on requests, one for each user and route and one for each client of the routes
-- that register and log in, as the commands that they issue to Redis.
pub mod Limits
pub mod Tokens
pub mod Principal
pub mod Bearer
pub mod Expiry
use Prim.Native.String
use Prim.Native.Char.{code}
use klass_mobile_backend.Prelude.{
  ℕ, String, ◌<>◌, Bool, true, false, Option, none, some, List, [], ◌∷◌, ltb, ◌==◌, if◌then◌else◌,
}
use klass_mobile_backend.Prelude.Int.{ℤ}
use klass_mobile_backend.Prelude.Decimal.{show_int}
use klass_mobile_backend.Prelude.Result.{Result, ok, err}
use klass_mobile_backend.Queue.Worker.{contains}

pub record RateLimitConfig : Type 0 where
  pub max_requests : ℕ  -- u32
  pub window_seconds : ℕ  -- u32

-- The request goes on, or it is answered with 429 and the seconds after which to try again.
pub data Verdict : Type 0 where
  pass : Verdict
  too_many_requests : ℕ → Verdict

pub data RedisCommand : Type 0 where
  incr : String → RedisCommand
  expire : String → ℕ → RedisCommand

unfoldable pub over_count : RateLimitConfig → ℕ → Verdict
over_count cfg count =
    if ltb cfg.max_requests count then too_many_requests cfg.window_seconds else pass

-- The expiry is set on the first request of a window only.
unfoldable pub expire_first : RateLimitConfig → String → ℕ → List RedisCommand
expire_first cfg key count = if count == 1 then expire key cfg.window_seconds ∷ [] else []

-- What follows the connection: a failed INCR lets the request pass.
unfoldable pub count_request :
    RateLimitConfig → String → Result String ℕ → Verdict × List RedisCommand
unfolding over_count expire_first
count_request cfg key (err e) = (pass, incr key ∷ [])
count_request cfg key (ok count) = (over_count cfg count, incr key ∷ expire_first cfg key count)

unfoldable pub user_key : ℤ → String → String
user_key user_id route = "rate_limit:user:" <> show_int user_id <> ":" <> route

-- `connected` tells whether the pool gave a connection; the reply is that of INCR,
-- read as a `u32`: the client gives an error for what is none.
unfoldable pub check_user_rate_limit :
    Bool → Result String ℕ → ℤ → String → ℕ → ℕ → Verdict × List RedisCommand
unfolding count_request user_key
check_user_rate_limit false reply user_id route max_requests window_seconds = (pass, [])
check_user_rate_limit true reply user_id route max_requests window_seconds =
    count_request (record { max_requests = max_requests; window_seconds = window_seconds })
      (user_key user_id route) reply

unfoldable pub config_for : String → Option RateLimitConfig
unfolding contains
config_for path =
    if contains path "/auth/register"
    then some (record { max_requests = 3; window_seconds = 60 })
    else if contains path "/auth/login"
    then some (record { max_requests = 5; window_seconds = 60 })
    else none

-- The part of a header before its first comma.
unfoldable pub first_part : String → String
first_part String.[] = String.[]
first_part (String.◌∷◌ c s) =
    let rest = first_part s in if code c == 44 then String.[] else String.◌∷◌ c rest

-- The value of x-forwarded-for, `none` where it is missing or no text.
unfoldable pub client_ip : Option String → String
unfolding first_part
client_ip none = "unknown"
client_ip (some v) = first_part v

unfoldable pub ip_key : String → Option String → String
unfolding client_ip
ip_key path forwarded = "rate_limit:" <> path <> ":" <> client_ip forwarded

-- What follows the choice of the limit. `pool` tells whether the state has a pool.
unfoldable pub limit_request :
    Option RateLimitConfig
    → Bool
    → Bool
    → Result String ℕ
    → String
    → Option String
    → Verdict × List RedisCommand
unfolding count_request ip_key
limit_request none pool connected reply path forwarded = (pass, [])
limit_request (some cfg) false connected reply path forwarded = (pass, [])
limit_request (some cfg) true false reply path forwarded = (pass, [])
limit_request (some cfg) true true reply path forwarded =
    count_request cfg (ip_key path forwarded) reply

unfoldable pub rate_limit_middleware :
    Bool → Bool → Result String ℕ → String → Option String → Verdict × List RedisCommand
unfolding limit_request config_for
rate_limit_middleware pool connected reply path forwarded =
    limit_request (config_for path) pool connected reply path forwarded
