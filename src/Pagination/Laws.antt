-- ===== src/Pagination/Laws.antt =====
-- The ranges of the defaults, of the offset and of the page count.
use task_flow_alisha_sharma.Common.{
  ℕ, suc, ◌+◌, ◌-◌, ◌*◌, ◌/◌, ◌%◌, ◌^◌, ◌≤◌, ◌<◌, ◌≡◌, refl, ◌∙◌, ◌≢◌, true, some, arith, ltb,
}
use task_flow_alisha_sharma.Common.Int.{ℤ, pos, negsuc, ◌-ℤ◌, ◌*ℤ◌, wrap64, wrap64-pos, ltb_ℤ}
use task_flow_alisha_sharma.Pagination.{
  PaginationQuery, defaults, offset, PaginationMeta, new_pagination_meta, count_pages, quot, rem,
}
use native.Mathlib.Nat.{mod-eq_of_lt, div-add-mod', div-le_self, mod-lt, mul-le-mul_right}
use native.Mathlib.Decide.{ℕ_discrete}

-- A page is at least the first, and a limit lies between 1 and 100.
pub record InRange (q : PaginationQuery) : Type 0 where
  pub page_of : ℕ
  pub limit_of : ℕ
  pub page_eq : q.page ≡ pos (suc page_of)
  pub limit_eq : q.limit ≡ pos (suc limit_of)
  pub limit_le : suc limit_of ≤ 100

defaults_idem : (q : PaginationQuery) → defaults (defaults q) ≡ defaults q
unfolding defaults
defaults_idem q = ground arith

pos_cases : (z : ℤ) → ltb_ℤ (pos 0) z ≡ true → (n : ℕ) × (z ≡ pos (suc n))
pos_cases (pos ℕ.zero) h = absurd (ground arith)
pos_cases (pos (ℕ.suc n)) h = (n, refl)
pos_cases (negsuc n) h = absurd (ground arith)

defaults-InRange : (q : PaginationQuery) → InRange (defaults q)
unfolding defaults
defaults-InRange q =
    let (p, e) = pos_cases (defaults q).page (ground arith) in
    let (l, k) = pos_cases (defaults q).limit (ground arith) in
    record { page_of = p; limit_of = l; page_eq = e; limit_eq = k; limit_le = ground (arith, k) }

-- Whatever the query asks, `Defaults` gives a page of at least 1 and a limit from 1 to 100, and a
-- second call, which the services make after the handlers, changes nothing.
pub defaults_lem :
    (q : PaginationQuery) → InRange (defaults q) × (defaults (defaults q) ≡ defaults q)
defaults_lem q = (defaults-InRange q, defaults_idem q)

pred_page : (p : ℕ) → pos (suc p) -ℤ pos 1 ≡ pos p
pred_page p = ground arith

pos_mul : (a b : ℕ) → pos a *ℤ pos b ≡ pos (a * b)
pos_mul a b = ground arith

le-mul_suc : (p l : ℕ) → p ≤ p * suc l
le-mul_suc p l = grind arith

offset-wrap64 :
    (p l : ℕ)
    → p < 2 ^ 63
    → offset (record { page = pos (suc p); limit = pos (suc l) }) ≡ wrap64 (pos (p * suc l))
offset-wrap64 p l h = unfold offset in rw (pred_page p, wrap64-pos p h, pos_mul p (suc l)) refl

-- Where the rows before the page can be counted in 63 bits, the offset is their number.
pub offset_exact :
    (p l : ℕ)
    → p * suc l < 2 ^ 63
    → offset (record { page = pos (suc p); limit = pos (suc l) }) ≡ pos (p * suc l)
offset_exact p l h = offset-wrap64 p l (omega (arith, le-mul_suc p l)) ∙ wrap64-pos (p * suc l) h

wrap64-negative : (n : ℕ) → 2 ^ 63 ≤ n → n < 2 ^ 64 → wrap64 (pos n) ≡ negsuc (2 ^ 64 - 1 - n)
unfolding wrap64
wrap64-negative n h k = rw (mod-eq_of_lt {n = n} {m = 2 ^ 64} k) (ground arith)

-- Where the number of the rows before the page has exactly 64 bits, and the page is at most 2 ^ 63,
-- the multiplication wraps and the offset is negative.
pub offset_wraps :
    (p l : ℕ)
    → p < 2 ^ 63
    → 2 ^ 63 ≤ p * suc l
    → p * suc l < 2 ^ 64
    → offset (record { page = pos (suc p); limit = pos (suc l) }) ≡ negsuc (2 ^ 64 - 1 - p * suc l)
offset_wraps p l small h k = offset-wrap64 p l small ∙ wrap64-negative (p * suc l) h k

-- The smallest number of pages of `suc l` rows that hold `n` rows.
abbrev IsCeiling : ℕ → ℕ → ℕ → Type 0
IsCeiling k l n = (n ≤ k * suc l) × (k * suc l < n + suc l)

count_pages_exact : (l n : ℕ) → n % suc l ≡ 0 → count_pages (pos (suc l)) (pos n) ≡ pos (n / suc l)
unfolding count_pages quot rem
count_pages_exact l n e = rw e refl

count_pages_more :
    (l n : ℕ) → n < 2 ^ 62 → n % suc l ≢ 0 → count_pages (pos (suc l)) (pos n) ≡ pos (n / suc l + 1)
unfolding count_pages quot rem
count_pages_more l n h e =
    ground (arith, wrap64-pos (n / suc l + 1) (omega (arith, div-le_self n (suc l))))

count_pages_lem :
    (l n : ℕ) → n < 2 ^ 62 → (k : ℕ) × (count_pages (pos (suc l)) (pos n) ≡ pos k) × IsCeiling k l n
count_pages_lem l n h = elim (ℕ_discrete (n % suc l) 0) [
  | yes e ↦ (
    n / suc l,
    count_pages_exact l n e,
    (grind (arith, div-add-mod' n (suc l)), grind (arith, div-add-mod' n (suc l))),
  )
  | no e ↦ (
    n / suc l + 1,
    count_pages_more l n h e,
    (
      grind (arith, div-add-mod' n (suc l), mod-lt n {m = suc l} (omega arith)),
      grind (arith, div-add-mod' n (suc l)),
    ),
  )
]

-- The page description for page `suc p` of `n` rows in pages of `suc l`: `total_pages` is the
-- smallest number of pages that hold all rows, `has_next` says that rows follow this page, and
-- `has_prev` that a page precedes it.
pub record Describes (p l n : ℕ) (m : PaginationMeta) : Type 0 where
  pub pages : ℕ
  pub pages_eq : m.total_pages ≡ pos pages
  pub enough : n ≤ pages * suc l
  pub needed : pages * suc l < n + suc l
  pub next : m.has_next ≡ ltb (suc p * suc l) n
  pub prev : m.has_prev ≡ ltb 0 p

follows_of_next : (p l n k : ℕ) → k * suc l < n + suc l → suc p < k → suc p * suc l < n
follows_of_next p l n k j h = omega (arith, mul-le-mul_right (suc l) h)

next_of_follows : (p l n k : ℕ) → n ≤ k * suc l → k ≤ suc p → n ≤ suc p * suc l
next_of_follows p l n k j h = omega (arith, mul-le-mul_right (suc l) h)

has_next_lem :
    (p l n k : ℕ)
    → n ≤ k * suc l
    → k * suc l < n + suc l
    → ltb_ℤ (pos (suc p)) (pos k) ≡ ltb (suc p * suc l) n
has_next_lem p l n k h j = ground (arith, follows_of_next p l n k j, next_of_follows p l n k h)

-- For a page and a limit of at least 1, and a total below 2 ^ 62, `NewPaginationMeta` does not panic,
-- and describes the page.
pub new_pagination_meta-Describes :
    (p l n : ℕ)
    → n < 2 ^ 62
    → (m : PaginationMeta) × (new_pagination_meta (pos (suc p)) (pos (suc l)) (pos n) ≡ some m)
      × Describes p l n m
unfolding new_pagination_meta
new_pagination_meta-Describes p l n h =
    let (k, e, bounds) = count_pages_lem l n h in
    (
      record {
        page = pos (suc p);
        limit = pos (suc l);
        total = pos n;
        total_pages = count_pages (pos (suc l)) (pos n);
        has_next = ltb_ℤ (pos (suc p)) (count_pages (pos (suc l)) (pos n));
        has_prev = ltb_ℤ (pos 1) (pos (suc p));
      },
      ground arith,
      record {
        pages = k;
        pages_eq = e;
        enough = bounds.0;
        needed = bounds.1;
        next = rw e (has_next_lem p l n k bounds.0 bounds.1);
        prev = ground arith;
      },
    )
