-- ===== src/Pagination.antt =====
-- src/db/pagination.rs: the page asked for, the offset and limit of its query, and the numbers
-- that a reply reports. All numbers are `i64`.
pub mod Bounds
use mathlib.Core.Option
use klass_mobile_backend.Prelude.{zero, Bool, true, false, Option, none, some, if◌then◌else◌}
use klass_mobile_backend.Prelude.Int.{ℤ, pos, negsuc, ◌+ℤ◌, ◌-ℤ◌, ◌*ℤ◌, ltb_ℤ}
use klass_mobile_backend.Prelude.Word.{wrap64, div64}

abbrev pub default_per_page : ℤ
default_per_page = pos 15

abbrev pub max_per_page : ℤ
max_per_page = pos 50

pub record PaginationQuery : Type 0 where
  pub page : ℤ
  pub per_page : ℤ

pub record PaginationParams : Type 0 where
  pub page : Option ℤ
  pub per_page : Option ℤ

unwrap_or : Option ℤ → ℤ → ℤ
unwrap_or none d = d
unwrap_or (some a) d = a

max_ℤ : ℤ → ℤ → ℤ
max_ℤ a b = if ltb_ℤ a b then b else a

clamp : ℤ → ℤ → ℤ → ℤ
clamp a lo hi = if ltb_ℤ a lo then lo else if ltb_ℤ hi a then hi else a

unfoldable pub parse : PaginationParams → PaginationQuery
unfolding unwrap_or max_ℤ clamp
parse params = record {
  page = max_ℤ (unwrap_or params.page (pos 1)) (pos 1);
  per_page = clamp (unwrap_or params.per_page default_per_page) (pos 1) max_per_page;
}

unfoldable pub offset : PaginationQuery → ℤ
offset q = wrap64 (wrap64 (q.page -ℤ pos 1) *ℤ q.per_page)

unfoldable pub limit : PaginationQuery → ℤ
limit q = q.per_page

pub record PaginationMeta : Type 0 where
  pub current_page : ℤ
  pub last_page : ℤ
  pub per_page : ℤ
  pub total : ℤ

is_zero : ℤ → Bool
is_zero (pos zero) = true
is_zero _ = false

-- `none` is a panic.
last_page_of : ℤ → ℤ → Option ℤ
unfolding is_zero
last_page_of per_page total =
    if is_zero total
    then some (pos 1)
    else div64 (wrap64 (wrap64 (total +ℤ per_page) -ℤ pos 1)) per_page

unfoldable pub new : ℤ → ℤ → ℤ → Option PaginationMeta
unfolding last_page_of
new page per_page total =
    Option.map
      (λ last. record { current_page = page; last_page = last; per_page = per_page; total = total })
      (last_page_of per_page total)

unfoldable pub from_query : PaginationQuery → ℤ → Option PaginationMeta
unfolding new
from_query query total = new query.page query.per_page total
