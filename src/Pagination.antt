-- ===== src/Pagination.antt =====
-- Pages of a list (legacy/services_python/pagination.py). A page that is negative is 0 here, which is
-- handled alike. The column and the order of the sort are passed on, and a cursor is not used.
pub mod Pages
use distrib_ai.Base.{
  ℕ, suc, ◌+◌, ◌-◌, ◌*◌, ◌/◌, Bool, true, false, Option, none, some, List, [], if◌then◌else◌, ltb,
  length, take, skip,
}

pub record PaginationParams : Type 0 where
  pub page : ℕ
  pub per_page : ℕ

-- `max(1, n)`, and `max(1, min(limit, n))`.
abbrev pub at_least_one : ℕ → ℕ
at_least_one n = if ltb n 1 then 1 else n

abbrev pub clamp : ℕ → ℕ → ℕ
clamp limit n = at_least_one (if ltb limit n then limit else n)

-- `PaginationParams(page=..., per_page=...)` with `__post_init__`.
abbrev pub new_params : ℕ → ℕ → PaginationParams
new_params page per_page = record { page = at_least_one page; per_page = clamp 100 per_page }

-- The numbers of the query, where they are there and can be read.
unfoldable pub parse_pagination_params : Option ℕ → Option ℕ → ℕ → ℕ → PaginationParams
parse_pagination_params page per_page default_per_page max_per_page =
    new_params (elim page [ none ↦ 1 | some n ↦ n ])
      (clamp max_per_page (elim per_page [ none ↦ default_per_page | some n ↦ n ]))

-- `items[start:end]`
abbrev pub slice {ℓ} : {A : Type ℓ} → ℕ → ℕ → List A → List A
slice start end items = take (end - start) (skip start items)

abbrev pub total_pages : ℕ → ℕ → ℕ
total_pages total per_page = (total + per_page - 1) / per_page

pub record PaginatedResponse {ℓ} (A : Type ℓ) : Type ℓ where
  pub page_data : List A
  pub page : ℕ
  pub per_page : ℕ
  pub total : ℕ
  pub total_pages : ℕ
  pub has_next : Bool
  pub has_prev : Bool
  pub next_page : Option ℕ
  pub prev_page : Option ℕ

unfoldable pub paginate_list {ℓ} : {A : Type ℓ} → List A → PaginationParams → PaginatedResponse A
paginate_list items params =
    let start = (params.page - 1) * params.per_page in
    let pages = total_pages (length items) params.per_page in
    record {
      page_data = slice start (start + params.per_page) items;
      page = params.page;
      per_page = params.per_page;
      total = length items;
      total_pages = pages;
      has_next = ltb params.page pages;
      has_prev = ltb 1 params.page;
      next_page = if ltb params.page pages then some (params.page + 1) else none;
      prev_page = if ltb 1 params.page then some (params.page - 1) else none;
    }
