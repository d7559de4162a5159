-- ===== src/Pagination/Pages.antt =====
-- The pages of a list, put together, are the list.
use task_flow_alisha_sharma.Common.{
  ℕ, zero, suc, ◌+◌, ◌*◌, ◌^◌, ◌≤◌, ◌<◌, ◌≡◌, refl, ap, ◌∙◌, sym, Option, none, some, List, [], ◌∷◌,
  ◌++◌, arith, take, drop, length,
}
use native.Mathlib.Nat.{zero-add, zero-mul}
use task_flow_alisha_sharma.Common.Int.{pos}
use task_flow_alisha_sharma.Pagination.{PaginationMeta, offset, new_pagination_meta}
use task_flow_alisha_sharma.Pagination.Laws.{offset_exact, new_pagination_meta-Describes}
use task_flow_alisha_sharma.Repository.Tasks.Queries.{slice}

suc-add : (m n : ℕ) → suc m + n ≡ suc (m + n)
suc-add m n = omega arith

next_page : (k l : ℕ) → suc k * suc l ≡ k * suc l + suc l
next_page k l = grind arith

module _ {ℓ} {A : Type ℓ} where
  take_nil : (n : ℕ) → ◌≡◌ {A = List A} (take n []) []
  take_nil zero = refl
  take_nil (suc n) = refl

  take-add : (m n : ℕ) (xs : List A) → take (m + n) xs ≡ take m xs ++ take n (drop m xs)
  take-add zero n xs = rw zero-add
  take-add (suc m) n [] = rw (suc-add m n, take_nil n) refl
  take-add (suc m) n (x ∷ xs) = rw (suc-add m n, take-add m n xs) refl

  take_all : (n : ℕ) (xs : List A) → length xs ≤ n → take n xs ≡ xs
  take_all zero [] h = refl
  take_all zero (x ∷ xs) h = absurd (omega arith)
  take_all (suc n) [] h = refl
  take_all (suc n) (x ∷ xs) h = rw (take_all n xs (omega arith))

  -- What a client has after reading the pages 1 to `k` of `suc l` rows each, the offset of each
  -- page computed by `Offset`.
  pub read_pages : ℕ → ℕ → List A → Option (List A)
  read_pages zero l xs = some []
  read_pages (suc k) l xs = elim (read_pages k l xs) [
    | none ↦ none
    | some front ↦
        elim (slice (pos (suc l)) (offset (record { page = pos (suc k); limit = pos (suc l) }))
          xs) [ none ↦ none | some page ↦ some (front ++ page) ]
  ]

  read_pages_lem :
      (k l : ℕ) (xs : List A) → k * suc l < 2 ^ 63 → read_pages k l xs ≡ some (take (k * suc l) xs)
  unfolding read_pages
  read_pages_lem zero l xs h = rw (zero-mul (suc l)) refl
  read_pages_lem (suc k) l xs h =
      rw (read_pages_lem k l xs (grind arith), read_pages, offset_exact k l (grind arith))
        (ap some (sym (rw (next_page k l) (take-add (k * suc l) (suc l) xs))))

  read_pages_all :
      (k l : ℕ) (xs : List A)
      → k * suc l < 2 ^ 63
      → length xs ≤ k * suc l
      → read_pages k l xs ≡ some xs
  read_pages_all k l xs h enough =
      read_pages_lem k l xs h ∙ rw (take_all (k * suc l) xs enough) refl

-- With a limit from 1 to 100 and fewer than 2 ^ 62 rows, reading as many pages as `total_pages`
-- announces gives the whole list, every row once and in order, where the list does not change
-- between the reads.
pub read_pages-total_pages {ℓ} :
    {A : Type ℓ} (p l : ℕ) (xs : List A)
    → length xs < 2 ^ 62
    → l < 100
    → (m : PaginationMeta) × (k : ℕ) × (new_pagination_meta
          (pos (suc p))
          (pos (suc l))
          (pos (length xs))
        ≡ some m)
      × (m.total_pages ≡ pos k)
      × (read_pages k l xs ≡ some xs)
read_pages-total_pages p l xs h few =
    let (m, made, d) = new_pagination_meta-Describes p l (length xs) h in
    (m, d.pages, made, d.pages_eq, read_pages_all d.pages l xs (omega (arith, d.needed)) d.enough)
