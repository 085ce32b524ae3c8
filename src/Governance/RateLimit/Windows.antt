-- ===== src/Governance/RateLimit/Windows.antt =====
-- The fixed windows: each time lies in its window, and windows do not overlap.
use mathlib.Core.Option
use klass_mobile_backend.Prelude.{ℕ, ◌*◌, ◌/◌, ◌≤◌, ◌<◌, ◌≡◌, some, arith}
use klass_mobile_backend.Governance.{Chrono, ChronoLaws, minute_ns, hour_ns, day_ns}
use klass_mobile_backend.Governance.RateLimit.Types.{
  WindowUnit, minute, hour, day, window_start, window_end,
}

-- The length of a window in nanoseconds.
abbrev pub width : WindowUnit → ℕ
width minute = minute_ns
width hour = hour_ns
width day = day_ns

module _ (T : Chrono) (L : ChronoLaws T) where
  zero_second :
      (t : T.DateTime)
      → (u : T.DateTime) × (Option.bind (T.with_second t 0) (λ v. T.with_nanosecond v 0) ≡ some u)
        × (T.nanos u ≡ T.nanos t / minute_ns * minute_ns)
  unfolding Option.bind
  zero_second t =
      let (v, set, nv) = L.second_zero t in
      let (u, set', nu) = L.nanosecond_zero v in (u, rw set set', omega arith)

  zero_minute :
      (t : T.DateTime)
      → (u : T.DateTime) × (Option.bind
            (T.with_minute t 0)
            (λ v. Option.bind (T.with_second v 0) (λ w. T.with_nanosecond w 0))
          ≡ some u)
        × (T.nanos u ≡ T.nanos t / hour_ns * hour_ns)
  unfolding Option.bind
  zero_minute t =
      let (v, set, nv) = L.minute_zero t in
      let (u, set', nu) = zero_second v in (u, rw set set', omega arith)

  pub window_start-exact :
      (t : T.DateTime) (unit : WindowUnit)
      → (u : T.DateTime) × (window_start T t unit ≡ some u)
        × (T.nanos u ≡ T.nanos t / width unit * width unit)
  unfolding window_start Option.bind
  window_start-exact t minute = zero_second t
  window_start-exact t hour = zero_minute t
  window_start-exact t day =
      let (v, set, nv) = L.hour_zero t in
      let (u, set', nu) = zero_minute v in (u, rw set set', omega arith)

  -- Every time has a window for every unit; it lies in it, from the start and before the end.
  pub window_contains :
      (t : T.DateTime) (unit : WindowUnit)
      → (u : T.DateTime) × (window_start T t unit ≡ some u)
        × (T.nanos u ≤ T.nanos t)
        × (T.nanos t < T.nanos (window_end T u unit))
  unfolding window_end
  window_contains t minute =
      let (u, set, nu) = window_start-exact t minute in
      (u, set, omega arith, omega (arith, L.nanos-add_seconds u 60))
  window_contains t hour =
      let (u, set, nu) = window_start-exact t hour in
      (u, set, omega arith, omega (arith, L.nanos-add_seconds u 3600))
  window_contains t day =
      let (u, set, nu) = window_start-exact t day in
      (u, set, omega arith, omega (arith, L.nanos-add_seconds u 86400))
