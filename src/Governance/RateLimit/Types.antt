-- ===== src/Governance/RateLimit/Types.antt =====
-- The types and the windows of src/governance/rate_limit.rs. The columns created_at, updated_at and
-- last_seen_at, which the database fills and the code does not read, are left out.
use mathlib.Core.Option
use klass_mobile_backend.Prelude.{String, Bool, Option, str_eq, if◌then◌else◌}
use klass_mobile_backend.Prelude.Int.{ℤ}
use klass_mobile_backend.Governance.{Chrono, Decimals}

pub data RateLimitRoute : Type 0 where
  all_routes interpret respond : RateLimitRoute

pub data ScopeType : Type 0 where
  global route_scope provider_scope model_scope : ScopeType

pub data WindowUnit : Type 0 where
  minute hour day : WindowUnit

pub data ExhaustionAction : Type 0 where
  allow deny degrade : ExhaustionAction

pub record PreflightDecision : Type 0 where
  pub allowed : Bool
  pub action : ExhaustionAction

unfoldable pub route_as_str : RateLimitRoute → String
route_as_str all_routes = "all"
route_as_str interpret = "interpret"
route_as_str respond = "respond"

unfoldable pub route_from : String → RateLimitRoute
route_from s =
    if str_eq s "interpret" then interpret else if str_eq s "respond" then respond else all_routes

unfoldable pub scope_as_str : ScopeType → String
scope_as_str global = "global"
scope_as_str route_scope = "route"
scope_as_str provider_scope = "provider"
scope_as_str model_scope = "model"

unfoldable pub unit_as_str : WindowUnit → String
unit_as_str minute = "minute"
unit_as_str hour = "hour"
unit_as_str day = "day"

-- The `match` on `policy.window_unit`.
unfoldable pub unit_of : String → WindowUnit
unit_of s = if str_eq s "minute" then minute else if str_eq s "hour" then hour else day

pub record RateLimitPolicy (D : Decimals) : Type 0 where
  pub id : ℤ
  pub scope_type : String
  pub strategy : String
  pub route : String
  pub provider : String
  pub model : String
  pub window_unit : String
  pub max_requests : Option ℤ
  pub max_input_tokens : Option ℤ
  pub max_output_tokens : Option ℤ
  pub max_total_tokens : Option ℤ
  pub max_estimated_cost_usd : Option D.Decimal
  pub enabled : Bool

-- Without the serial `id`, which nothing reads.
pub record RateLimitBucket (T : Chrono) (D : Decimals) : Type 0 where
  pub policy_id : ℤ
  pub scope_type : String
  pub strategy : String
  pub route : String
  pub provider : String
  pub model : String
  pub window_unit : String
  pub window_started_at : T.DateTime
  pub window_ends_at : T.DateTime
  pub request_count : ℤ
  pub input_tokens : ℤ
  pub output_tokens : ℤ
  pub total_tokens : ℤ
  pub estimated_cost_usd : D.Decimal
  pub deny_count : ℤ
  pub last_request_id : Option String
  pub last_generation_id : Option String

pub record BucketMutation (D : Decimals) : Type 0 where
  pub policy_id : ℤ
  pub route : String
  pub provider : String
  pub model : String
  pub window_unit : String
  pub request_count : ℤ
  pub input_tokens : ℤ
  pub output_tokens : ℤ
  pub total_tokens : ℤ
  pub estimated_cost_usd : D.Decimal
  pub deny_count : ℤ
  pub last_request_id : Option String
  pub last_generation_id : Option String

module _ (T : Chrono) where
  -- `none` is the panic of an `unwrap`.
  unfoldable pub window_start : T.DateTime → WindowUnit → Option T.DateTime
  window_start at minute = Option.bind (T.with_second at 0) (λ t. T.with_nanosecond t 0)
  window_start at hour =
      Option.bind (T.with_minute at 0)
        (λ t. Option.bind (T.with_second t 0) (λ u. T.with_nanosecond u 0))
  window_start at day = Option.bind (T.with_hour at 0) (λ t.
      Option.bind (T.with_minute t 0)
        (λ u. Option.bind (T.with_second u 0) (λ v. T.with_nanosecond v 0)))

  unfoldable pub window_end : T.DateTime → WindowUnit → T.DateTime
  window_end start minute = T.add_seconds start 60
  window_end start hour = T.add_seconds start 3600
  window_end start day = T.add_seconds start 86400
