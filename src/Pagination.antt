-- ===== src/Pagination.antt =====
-- backend/internal/dto/common.go: page queries and the description of a page. A Go `int` is an
-- integer that wraps at 64 bits.
pub mod Laws
pub mod Pages
mod Tests
use task_flow_alisha_sharma.Common.{
  ℕ, suc, ◌+◌, ◌/◌, ◌%◌, Bool, not, Option, none, some, eqb, if◌then◌else◌,
}
use task_flow_alisha_sharma.Common.Int.{
  ℤ, pos, negsuc, ◌-ℤ◌, ◌*ℤ◌, leb_ℤ, ltb_ℤ, eqb_ℤ, sub_ℕ, wrap64,
}

pub record PaginationQuery : Type 0 where
  pub page : ℤ
  pub limit : ℤ

-- The three tests of `Defaults`; the second and the third are in this order.
default_page : ℤ → ℤ
default_page page = if leb_ℤ page (pos 0) then pos 1 else page

default_limit : ℤ → ℤ
default_limit limit = if leb_ℤ limit (pos 0) then pos 20 else limit

cap_limit : ℤ → ℤ
cap_limit limit = if ltb_ℤ (pos 100) limit then pos 100 else limit

unfoldable pub defaults : PaginationQuery → PaginationQuery
unfolding default_page default_limit cap_limit
defaults q = record { page = default_page q.page; limit = cap_limit (default_limit q.limit) }

unfoldable pub offset : PaginationQuery → ℤ
unfolding wrap64
offset q = wrap64 (wrap64 (q.page -ℤ pos 1) *ℤ q.limit)

pub record PaginationMeta : Type 0 where
  pub page : ℤ
  pub limit : ℤ
  pub total : ℤ
  pub total_pages : ℤ
  pub has_next : Bool
  pub has_prev : Bool

-- Go's `/` and `%` truncate towards zero.
quot : ℤ → ℤ → ℤ
quot (pos a) (pos b) = pos (a / b)
quot (pos a) (negsuc b) = sub_ℕ 0 (a / suc b)
quot (negsuc a) (pos b) = sub_ℕ 0 (suc a / b)
quot (negsuc a) (negsuc b) = pos (suc a / suc b)

rem : ℤ → ℤ → ℤ
rem (pos a) (pos b) = pos (a % b)
rem (pos a) (negsuc b) = pos (a % suc b)
rem (negsuc a) (pos b) = sub_ℕ 0 (suc a % b)
rem (negsuc a) (negsuc b) = sub_ℕ 0 (suc a % suc b)

count_pages : ℤ → ℤ → ℤ
count_pages limit total =
    if eqb_ℤ (rem total limit) (pos 0)
    then quot total limit
    else wrap64 (quot total limit -ℤ negsuc 0)

-- The division by a limit of zero panics.
unfoldable pub new_pagination_meta : ℤ → ℤ → ℤ → Option PaginationMeta
unfolding count_pages quot rem
new_pagination_meta page limit total =
    if eqb_ℤ limit (pos 0)
    then none
    else some (record {
      page = page;
      limit = limit;
      total = total;
      total_pages = count_pages limit total;
      has_next = ltb_ℤ page (count_pages limit total);
      has_prev = ltb_ℤ (pos 1) page;
    })
