-- ===== src/Queue/Worker/Backoff.antt =====
-- The delays between retries.
use klass_mobile_backend.Prelude.{ℕ, suc, ◌+◌, ◌*◌, ◌%◌, ◌^◌, ◌≤◌, ◌<◌, ◌≡◌, min, arith}
use klass_mobile_backend.Prelude.Int.{ℤ, pos, suc-sub-one}
use klass_mobile_backend.Prelude.Word.{wrap64-pos}
use klass_mobile_backend.Queue.Worker.{backoff_shift, compute_backoff}

-- Whatever the attempt, the delay is at most the cap.
pub compute_backoff-le : (attempt : ℤ) (base cap : ℕ) → compute_backoff attempt base cap ≤ cap
unfolding compute_backoff
compute_backoff-le attempt base cap = omega arith

backoff_shift-suc : (k : ℕ) → k < 64 → backoff_shift (pos (suc k)) ≡ k
unfolding backoff_shift
backoff_shift-suc k h = rw (suc-sub-one, wrap64-pos k (omega arith)) (omega arith)

-- On attempts 1 to 64, with a cap that fits a `u64`, the delay is the base doubled with each
-- attempt after the first, up to the cap.
pub compute_backoff_exact :
    (k base cap : ℕ)
    → k < 64
    → cap < 2 ^ 64
    → compute_backoff (pos (suc k)) base cap ≡ min (base * 2 ^ k) cap
unfolding compute_backoff
compute_backoff_exact k base cap h fits =
    let e = backoff_shift-suc k h in
    let m : backoff_shift (pos (suc k)) % 64 ≡ k = omega (arith, e) in rw m (omega arith)

backoff_shift-pos : (k : ℕ) → k < 2 ^ 32 → backoff_shift (pos (suc k)) ≡ k
unfolding backoff_shift
backoff_shift-pos k h = rw (suc-sub-one, wrap64-pos k (omega arith)) (omega arith)

-- The delay has period 64 in the attempt, as long as it fits a `u32`: attempt 65 waits as long as
-- attempt 1.
pub compute_backoff_period :
    (k base cap : ℕ)
    → k + 64 < 2 ^ 32
    → compute_backoff (pos (suc (k + 64))) base cap ≡ compute_backoff (pos (suc k)) base cap
unfolding compute_backoff
compute_backoff_period k base cap h =
    let m : (k + 64) % 64 ≡ k % 64 = omega arith in
    rw (backoff_shift-pos (k + 64) h, backoff_shift-pos k (omega arith), m)
