-- ===== src/Pagination/Pages/Examples.antt =====
-- The pages of a list at a concrete input, and tests (legacy/services_python/pagination.py).
use distrib_ai.Base.{ℕ, ◌≡◌, refl, none, some, List, [], ◌∷◌, length, arith}
use distrib_ai.Pagination.{paginate_list, parse_pagination_params, total_pages}
use distrib_ai.Pagination.Pages.{pages_from, paginate_list-pages}

abbrev five : List ℕ
five = 1 ∷ 2 ∷ 3 ∷ 4 ∷ 5 ∷ []

third_page : (paginate_list five (record { page = 3; per_page = 2 })).page_data ≡ 5 ∷ []
unfolding paginate_list
third_page = refl

limited : (parse_pagination_params none (some 500) 20 100).per_page ≡ 100
unfolding parse_pagination_params
limited = refl

paginate_list-pages_example : pages_from 2 1 (total_pages (length five) 2) five ≡ five
paginate_list-pages_example = paginate_list-pages 2 five (omega arith)
