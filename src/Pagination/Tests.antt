-- ===== src/Pagination/Tests.antt =====
-- The theorems on pages at concrete inputs.
use task_flow_alisha_sharma.Common.{ℕ, ◌^◌, ◌+◌, ◌-◌, ◌*◌, ◌≡◌, refl, some, List, [], ◌∷◌, arith}
use task_flow_alisha_sharma.Common.Int.{pos, negsuc}
use task_flow_alisha_sharma.Pagination.{
  PaginationQuery, PaginationMeta, defaults, offset, new_pagination_meta,
}
use task_flow_alisha_sharma.Pagination.Laws.{offset_wraps, Describes, new_pagination_meta-Describes}
use task_flow_alisha_sharma.Pagination.Pages.{read_pages, read_pages-total_pages}

abbrev asked : PaginationQuery
asked = record { page = negsuc 4; limit = pos 1000 }

defaults_value : defaults asked ≡ record { page = pos 1; limit = pos 100 }
unfolding defaults
defaults_value = refl

-- Page 2^58 + 1 of 50 rows begins at a row whose number no `int` holds.
offset_wraps_example :
    offset (record { page = pos (2 ^ 58 + 1); limit = pos 50 }) ≡ negsuc (2 ^ 64 - 1 - 2 ^ 58 * 50)
offset_wraps_example = offset_wraps (2 ^ 58) 49 (omega arith) (omega arith) (omega arith)

new_pagination_meta-Describes_example :
    (m : PaginationMeta) × (new_pagination_meta (pos 2) (pos 20) (pos 41) ≡ some m)
    × Describes 1 19 41 m
new_pagination_meta-Describes_example = new_pagination_meta-Describes 1 19 41 (omega arith)

abbrev rows : List ℕ
rows = 9 ∷ 8 ∷ 7 ∷ []

read_pages-total_pages_example :
    (m : PaginationMeta) × (k : ℕ) × (new_pagination_meta (pos 1) (pos 2) (pos 3) ≡ some m)
    × (m.total_pages ≡ pos k)
    × (read_pages k 1 rows ≡ some rows)
read_pages-total_pages_example = read_pages-total_pages 0 1 rows (omega arith) (omega arith)
