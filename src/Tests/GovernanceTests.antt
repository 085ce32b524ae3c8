-- ===== src/Tests/GovernanceTests.antt =====
-- The limits of src/governance at concrete policies. Times are their nanoseconds since the epoch,
-- and decimals are counted in units of 10 ^ -8.
use klass_mobile_backend.Prelude.{
  ℕ, ◌+◌, ◌-◌, ◌*◌, ◌/◌, ◌%◌, ◌^◌, ◌≤◌, ◌<◌, ◌≡◌, refl, Bool, true, false, Option, none, some, List,
  [], ◌∷◌, arith, ltb, if◌then◌else◌,
}
use mathlib.Core.List.{Perm}
use klass_mobile_backend.Prelude.Int.{ℤ, pos, ◌+ℤ◌, ◌*ℤ◌, ltb_ℤ, zero-+ℤ, +ℤ-zero}
use klass_mobile_backend.Governance.{
  Chrono, ChronoLaws, Decimals, DecimalLaws, second_ns, minute_ns, hour_ns,
}
use klass_mobile_backend.Governance.RateLimit.Types.{
  RateLimitPolicy, hour, window_start, window_end,
}
use klass_mobile_backend.Governance.RateLimit.Tables.{
  find_applicable, upsert_policy, estimated_cost, matches_policy, insert,
}
use klass_mobile_backend.Governance.RateLimit.Buckets.{Buckets, preflight_check}
use klass_mobile_backend.Governance.RateLimit.Windows.{window_contains}
use klass_mobile_backend.Governance.RateLimit.Counters.{requests}
use klass_mobile_backend.Governance.RateLimit.Preflight.{
  start_of, first_over, verdict, Outcome, preflight_decides,
}
use klass_mobile_backend.Governance.RateLimit.Serving.{
  Call, Lookup, hit, miss, serve_calls, answered, provider_failed, cached, rate_limited,
}
use klass_mobile_backend.Governance.RateLimit.Enforcement.{count_calls, serve_counts}
use klass_mobile_backend.Governance.RateLimit.Policies.{
  Ordered, selected, find_applicable_lem, upsert_policy_idempotent, rows_of, upsert_policy_unique,
}

abbrev set_part : ℕ → ℕ → ℕ → ℕ → Option ℕ
set_part unit count t n =
    if ltb n count then some (t - t / unit % count * unit + n * unit) else none

abbrev utc : Chrono
utc = record {
  DateTime = ℕ;
  nanos = λ t. t;
  with_hour = set_part hour_ns 24;
  with_minute = set_part minute_ns 60;
  with_second = set_part second_ns 60;
  with_nanosecond = λ t n. if ltb n 2000000000 then some (t - t % second_ns + n) else none;
  add_seconds = λ t s. t + s * second_ns;
}

utc_laws : ChronoLaws utc
utc_laws = record {
  hour_zero = λ t. (t - t / hour_ns % 24 * hour_ns + 0 * hour_ns, refl, omega arith);
  minute_zero = λ t. (t - t / minute_ns % 60 * minute_ns + 0 * minute_ns, refl, omega arith);
  second_zero = λ t. (t - t / second_ns % 60 * second_ns + 0 * second_ns, refl, omega arith);
  nanosecond_zero = λ t. (t - t % second_ns + 0, refl, omega arith);
  nanos-add_seconds = λ t s. refl;
}

abbrev fixed : Decimals
fixed = record {
  Decimal = ℤ;
  decimal = λ m s. m *ℤ pos (10 ^ (8 - s));
  zero = pos 0;
  plus = ◌+ℤ◌;
  greater = λ a b. ltb_ℤ b a;
}

fixed_laws : DecimalLaws fixed
fixed_laws = record { plus-zero = +ℤ-zero; zero-plus = zero-+ℤ }

abbrev noon : ℕ
noon = 1700000000123456789

window_contains_at :
    (u : ℕ) × (window_start utc noon hour ≡ some u)
    × (u ≤ noon)
    × (noon < utc.nanos (window_end utc u hour))
window_contains_at = window_contains utc utc_laws noon hour

abbrev two_a_minute : RateLimitPolicy fixed
two_a_minute = record {
  id = pos 1;
  scope_type = "route";
  strategy = "fixed_window";
  route = "interpret";
  provider = "*";
  model = "*";
  window_unit = "minute";
  max_requests = some (pos 2);
  max_input_tokens = none;
  max_output_tokens = none;
  max_total_tokens = none;
  max_estimated_cost_usd = none;
  enabled = true;
}

abbrev table : List (RateLimitPolicy fixed)
table = two_a_minute ∷ []

table_applies : find_applicable fixed "interpret" "minimax" "m3" table ≡ two_a_minute ∷ []
unfolding find_applicable matches_policy insert
table_applies = refl

preflight_decides_example :
    let o =
      first_over utc fixed utc_laws fixed_laws noon
        (estimated_cost fixed none)
        (find_applicable fixed "interpret" "minimax" "m3" table)
        [] in
    (bs' : Buckets utc fixed) × (preflight_check utc fixed "interpret" "minimax" "m3" none "r1" "g1"
        noon table []
      ≡ some (verdict utc fixed utc_laws fixed_laws noon "interpret" o, bs'))
    × Outcome utc fixed utc_laws fixed_laws noon o [] bs'
preflight_decides_example =
    preflight_decides utc fixed utc_laws fixed_laws noon "interpret" "minimax" "m3" none "r1" "g1"
      table []

-- A call with what the cache gives, and with a provider that answers or not.
abbrev call : Lookup → Bool → Call utc fixed
call found ok = record {
  at = noon;
  projected = none;
  request_id = "r1";
  generation_id = "g1";
  cache = found;
  provider_ok = ok;
  used_at = noon;
  input_tokens = pos 500;
  output_tokens = pos 2000;
  total_tokens = pos 2500;
  used = pos 85000;
}

abbrev calls : List (Call utc fixed)
calls = call miss true ∷ call miss false ∷ call hit true ∷ call miss true ∷ call miss true ∷ []

abbrev this_minute : ℕ
this_minute = start_of utc fixed utc_laws fixed_laws noon two_a_minute

serve_counts_example :
    let n = count_calls utc fixed "interpret" 2 calls 0 in
    (bs' : Buckets utc fixed) × (serve_calls utc fixed "interpret" "minimax" "m3" table calls []
      ≡ some (n.0, bs'))
    × (requests utc fixed (pos 1) this_minute bs' ≡ pos n.1)
serve_counts_example =
    serve_counts utc fixed utc_laws fixed_laws "interpret" "minimax" "m3" table two_a_minute 2
      table_applies refl refl this_minute calls [] 0
      (refl, refl, (refl, refl, (refl, refl, (refl, refl, (refl, refl, tt))))) refl (omega arith)

third_refused :
    count_calls utc fixed "interpret" 2 calls 0
    ≡ (answered ∷ provider_failed ∷ cached ∷ answered ∷ rate_limited ∷ [], 2)
third_refused = refl

third_degraded :
    count_calls utc fixed "respond" 2 calls 0
    ≡ (answered ∷ provider_failed ∷ cached ∷ answered ∷ answered ∷ [], 3)
third_degraded = refl

find_applicable_at :
    let found = find_applicable fixed "interpret" "minimax" "m3" table in
    Ordered fixed found × Perm found (selected fixed "interpret" "minimax" "m3" table)
find_applicable_at = find_applicable_lem fixed "interpret" "minimax" "m3" table

upsert_policy_idempotent_at :
    upsert_policy fixed (record two_a_minute { id = pos 3 }) (upsert_policy fixed two_a_minute [])
    ≡ upsert_policy fixed two_a_minute []
upsert_policy_idempotent_at = upsert_policy_idempotent fixed two_a_minute (pos 3) []

upsert_policy_unique_at : rows_of fixed two_a_minute (upsert_policy fixed two_a_minute table) ≡ 1
upsert_policy_unique_at = upsert_policy_unique fixed two_a_minute table (ground arith)
