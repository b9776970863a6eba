-- ===== src/Pagination/Tests.antt =====
-- Pages of a list, and an instance of the theorem.
use creative_backend.Base.{ℕ, ◌≤◌, ◌<◌, ◌≡◌, ◌↔◌, refl, none, some, []}
use creative_backend.Pagination.{
  PaginationQuery, normalize_pagination, create_paginated_response, normalize_pagination-pages,
}

abbrev third : PaginationQuery
third = record { page = some 3; limit = none }

pagination_tests :
    (normalize_pagination third ≡ record { page = 3; limit = 20; skip = 40 })
    × ((create_paginated_response {A = ℕ} [] 41 3 20).pages ≡ 3)
    × ((create_paginated_response {A = ℕ} [] 40 3 20).pages ≡ 2)
pagination_tests = (refl, refl, refl)

normalize_pagination-pages_example :
    (1 ≤ 3)
    × (1 ≤ 20)
    × (20 ≤ 100)
    × ((3 ≤ (create_paginated_response {A = ℕ} [] 41 3 20).pages) ↔ (40 < 41))
normalize_pagination-pages_example = normalize_pagination-pages {A = ℕ} third [] 41
