-- ===== src/Governance.antt =====
-- src/governance: the limits on calls of the LLM. The crates chrono and rust_decimal are parameters,
-- by what the code calls of them.
pub mod RateLimit
use klass_mobile_backend.Prelude.{ℕ, ◌+◌, ◌-◌, ◌*◌, ◌/◌, ◌%◌, ◌≡◌, Bool, Option, some}
use klass_mobile_backend.Prelude.Int.{ℤ}

-- `DateTime<Utc>` of chrono, with its nanoseconds since the epoch. A setter is `none` where the
-- value is no hour, minute, second or nanosecond.
pub record Chrono : Type 1 where
  pub DateTime : Type 0
  pub nanos : DateTime → ℕ
  pub with_hour : DateTime → ℕ → Option DateTime
  pub with_minute : DateTime → ℕ → Option DateTime
  pub with_second : DateTime → ℕ → Option DateTime
  pub with_nanosecond : DateTime → ℕ → Option DateTime
  pub add_seconds : DateTime → ℕ → DateTime

-- `Decimal` of rust_decimal: `decimal m s` is `m` times ten to the power `- s`.
pub record Decimals : Type 1 where
  pub Decimal : Type 0
  pub decimal : ℤ → ℕ → Decimal
  pub zero : Decimal
  pub plus : Decimal → Decimal → Decimal
  pub greater : Decimal → Decimal → Bool

abbrev pub second_ns : ℕ
second_ns = 1000000000

abbrev pub minute_ns : ℕ
minute_ns = 60000000000

abbrev pub hour_ns : ℕ
hour_ns = 3600000000000

abbrev pub day_ns : ℕ
day_ns = 86400000000000

-- The documented behaviour of chrono on times from the epoch on that are no leap seconds: a setter
-- changes one part of the time of day, in UTC, and a sum adds seconds.
pub record ChronoLaws (T : Chrono) : Type 0 where
  pub hour_zero :
      (t : T.DateTime)
      → (u : T.DateTime) × (T.with_hour t 0 ≡ some u)
        × (T.nanos u ≡ T.nanos t - T.nanos t / hour_ns % 24 * hour_ns)
  pub minute_zero :
      (t : T.DateTime)
      → (u : T.DateTime) × (T.with_minute t 0 ≡ some u)
        × (T.nanos u ≡ T.nanos t - T.nanos t / minute_ns % 60 * minute_ns)
  pub second_zero :
      (t : T.DateTime)
      → (u : T.DateTime) × (T.with_second t 0 ≡ some u)
        × (T.nanos u ≡ T.nanos t - T.nanos t / second_ns % 60 * second_ns)
  pub nanosecond_zero :
      (t : T.DateTime)
      → (u : T.DateTime) × (T.with_nanosecond t 0 ≡ some u)
        × (T.nanos u ≡ T.nanos t - T.nanos t % second_ns)
  pub nanos-add_seconds :
      (t : T.DateTime) (s : ℕ) → T.nanos (T.add_seconds t s) ≡ T.nanos t + s * second_ns

pub record DecimalLaws (D : Decimals) : Type 0 where
  pub plus-zero : (d : D.Decimal) → D.plus d D.zero ≡ d
  pub zero-plus : (d : D.Decimal) → D.plus D.zero d ≡ d
