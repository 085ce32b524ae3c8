-- ===== src/Tests/PaginationTests.antt =====
-- The pagination of src/db/pagination.rs at concrete queries.
use klass_mobile_backend.Prelude.{ℕ, ◌-◌, ◌*◌, ◌≤◌, ◌<◌, ◌≡◌, refl, some, arith}
use klass_mobile_backend.Prelude.Int.{pos, negsuc, ◌≤ℤ◌}
use klass_mobile_backend.Pagination.{
  PaginationQuery, PaginationParams, parse, offset, limit, from_query,
}
use klass_mobile_backend.Pagination.Bounds.{
  parse_bounds, offset_exact, offset_overflow, from_query_last_page,
}

abbrev wild : PaginationParams
wild = record { page = some (negsuc 4); per_page = some (pos 100) }

parsed : parse wild ≡ record { page = pos 1; per_page = pos 50 }
unfolding parse
parsed = refl

parse_bounds_at :
    (pos 1 ≤ℤ (parse wild).page) × (pos 1 ≤ℤ limit (parse wild)) × (limit (parse wild) ≤ℤ pos 50)
parse_bounds_at = parse_bounds wild

offset_exact_example : offset (record { page = pos 3; per_page = pos 20 }) ≡ pos 40
offset_exact_example = offset_exact 2 20 (omega arith) (omega arith)

offset_overflow_at : offset (record { page = pos 9223372036854775807; per_page = pos 2 }) ≡ negsuc 3
offset_overflow_at = offset_overflow 9223372036854775806 2 (omega arith) (omega arith) (omega arith)

abbrev third : PaginationQuery
third = record { page = pos 3; per_page = pos 20 }

from_query_last_page_at :
    (l : ℕ) × (from_query third (pos 41)
      ≡ some
          (record { current_page = pos 3; last_page = pos l; per_page = pos 20; total = pos 41 }))
    × (41 ≤ l * 20)
    × (0 < 41 → (l - 1) * 20 < 41)
from_query_last_page_at = from_query_last_page third 19 41 refl (omega arith)
