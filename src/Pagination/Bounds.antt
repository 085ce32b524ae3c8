-- ===== src/Pagination/Bounds.antt =====
-- What a page query and its report promise.
use klass_mobile_backend.Prelude.{ℕ, zero, suc, ◌+◌, ◌-◌, ◌*◌, ◌/◌, ◌≤◌, ◌<◌, ◌≡◌, some, arith}
use klass_mobile_backend.Prelude.Int.{
  pos, negsuc, ◌≤ℤ◌, suc-sub-one, pos-*ℤ, pos-+ℤ, add-suc-sub-one,
}
use klass_mobile_backend.Prelude.Word.{two63, two64, div64, wrap64-pos, wrap64_overflow}
use klass_mobile_backend.Pagination.{
  PaginationQuery, PaginationParams, parse, offset, limit, from_query,
}

-- Whatever the parameters, the page is at least 1 and the page size lies between 1 and 50.
pub parse_bounds :
    (params : PaginationParams)
    → let q = parse params in (pos 1 ≤ℤ q.page) × (pos 1 ≤ℤ limit q) × (limit q ≤ℤ pos 50)
unfolding parse limit
parse_bounds params = ground arith

module _ (p k : ℕ) (h : p < two63) where
  -- Page `suc p` of size `k` starts at `p * k`, as long as that fits an `i64`.
  pub offset_exact :
      p * k < two63 → offset (record { page = pos (suc p); per_page = pos k }) ≡ pos (p * k)
  unfolding offset
  offset_exact m = rw (suc-sub-one, wrap64-pos p h, pos-*ℤ) (wrap64-pos (p * k) m)

  -- A page so far out that its first item passes `i64` (and not 2 ^ 64) gets a negative offset.
  pub offset_overflow :
      two63 ≤ p * k
      → p * k < two64
      → offset (record { page = pos (suc p); per_page = pos k }) ≡ negsuc (two64 - 1 - p * k)
  unfolding offset
  offset_overflow m n = rw (suc-sub-one, wrap64-pos p h, pos-*ℤ) (wrap64_overflow (p * k) m n)

-- The last page of a listing, over the natural numbers.
abbrev pub pages : ℕ → ℕ → ℕ
pages k zero = 1
pages k (suc n) = (n + k) / k

from_query-eq :
    (q : PaginationQuery) (k n : ℕ)
    → q.per_page ≡ pos (suc k)
    → n + suc k < two63
    → from_query q (pos n)
      ≡ some (record {
        current_page = q.page;
        last_page = pos (pages (suc k) n);
        per_page = pos (suc k);
        total = pos n;
      })
unfolding from_query div64
from_query-eq q k zero e h = rw e
from_query-eq q k (suc n) e h =
    let small : suc n + suc k < two63 = h in
    rw (
      e,
      pos-+ℤ,
      wrap64-pos (suc n + suc k) small,
      ← pos-+ℤ,
      add-suc-sub-one n (suc k),
      wrap64-pos (n + suc k) (omega arith),
    )

pages_tight : (k n : ℕ) → 0 < k → 0 < n → (n ≤ pages k n * k) × ((pages k n - 1) * k < n)
pages_tight k zero h p = absurd (omega arith)
pages_tight k (suc n) h p = (grind arith, grind arith)

-- Where the total and the page size together fit an `i64`, the report repeats the query's page,
-- its size and the total, and its last page `l` is the least that holds all items: `total` is at
-- most `l * per_page` and, if there is an item, more than `(l - 1) * per_page`.
pub from_query_last_page :
    (q : PaginationQuery) (k n : ℕ)
    → q.per_page ≡ pos (suc k)
    → n + suc k < two63
    → (l : ℕ) × (from_query q (pos n)
        ≡ some (record {
          current_page = q.page;
          last_page = pos l;
          per_page = pos (suc k);
          total = pos n;
        }))
      × (n ≤ l * suc k)
      × (0 < n → (l - 1) * suc k < n)
from_query_last_page q k zero e h =
    (1, from_query-eq q k zero e h, omega arith, λ p. absurd (omega arith))
from_query_last_page q k (suc n) e h =
    let (fits, least) = pages_tight (suc k) (suc n) (omega arith) (omega arith) in
    (pages (suc k) (suc n), from_query-eq q k (suc n) e h, fits, λ p. least)
