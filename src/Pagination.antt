-- ===== src/Pagination.antt =====
-- src/common/utils/pagination.util.ts. The query is validated to hold integers of at least 1, and
-- the number of pages is the quotient rounded up.
mod Tests
use creative_backend.Base.{
  ℕ, zero, suc, ◌+◌, ◌-◌, ◌*◌, ◌/◌, ◌≤◌, ◌<◌, min, max, ◌≡◌, refl, sym, subst, ◌↔◌, Option, none,
  some, List, arith,
}
use native.Mathlib.Nat.{le-div_iff_mul-le, add-mul}

pub record PaginationQuery : Type 0 where
  pub page : Option ℕ
  pub limit : Option ℕ

pub record Pagination : Type 0 where
  pub page : ℕ
  pub limit : ℕ
  pub skip : ℕ

pub record PaginatedResponse {ℓ} (A : Type ℓ) : Type ℓ where
  pub items : List A
  pub total : ℕ
  pub page : ℕ
  pub limit : ℕ
  pub pages : ℕ

abbrev or_default : Option ℕ → ℕ → ℕ
or_default none d = d
or_default (some n) d = n

abbrev pub normalize_pagination : PaginationQuery → Pagination
normalize_pagination query =
    let page = max (or_default query.page 1) 1 in
    let limit = min (max (or_default query.limit 20) 1) 100 in
    record { page = page; limit = limit; skip = (page - 1) * limit }

abbrev pub create_paginated_response {ℓ} :
    {A : Type ℓ} → List A → (total page limit : ℕ) → PaginatedResponse A
create_paginated_response items total page limit = record {
  items = items;
  total = total;
  page = page;
  limit = limit;
  pages = (total + (limit - 1)) / limit;
}

page-le-ceil_iff :
    (p limit total : ℕ) → 0 < limit → (p + 1 ≤ (total + (limit - 1)) / limit) ↔ (p * limit < total)
page-le-ceil_iff p limit total h = (
  λ e.
      omega
        (arith, (le-div_iff_mul-le {x = p + 1} {y = total + (limit - 1)} h).0 e, add-mul p 1 limit),
  λ e.
      (le-div_iff_mul-le {x = p + 1} {y = total + (limit - 1)} h).1
        (omega (arith, add-mul p 1 limit)),
)

-- For every validated query, the page and the limit are at least 1, the limit is at most 100, and the
-- page is one of the counted pages exactly when the rows it skips leave one of the `total` rows.
pub normalize_pagination-pages :
    {A : Type 0} (query : PaginationQuery) (items : List A) (total : ℕ)
    → let r : Pagination = normalize_pagination query in
      (1 ≤ r.page)
      × (1 ≤ r.limit)
      × (r.limit ≤ 100)
      × ((r.page ≤ (create_paginated_response items total r.page r.limit).pages) ↔ (r.skip < total))
normalize_pagination-pages query items total =
    let r : Pagination = normalize_pagination query in
    let whole : (r.page - 1) + 1 ≡ r.page = ground arith in
    (
      ground arith,
      ground arith,
      ground arith,
      subst (λ k. (k ≤ (total + (r.limit - 1)) / r.limit) ↔ (r.skip < total)) whole
          (page-le-ceil_iff (r.page - 1) r.limit total (ground arith)),
    )
