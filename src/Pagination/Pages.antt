-- ===== src/Pagination/Pages.antt =====
-- That the pages make up the list (legacy/services_python/pagination.py).
mod Examples
use distrib_ai.Base.{
  ℕ, zero, suc, ◌+◌, ◌-◌, ◌*◌, ◌/◌, ◌%◌, ◌≤◌, ◌<◌, ◌≡◌, refl, sym, ap, subst, ◌∙◌, List, [], ◌∷◌,
  ◌++◌, length, take, skip, arith, append_assoc,
}
use native.Mathlib.Nat.{div-add-mod, mod-lt}
use distrib_ai.Pagination.{PaginationParams, paginate_list, total_pages}

zero_plus : (n : ℕ) → 0 + n ≡ n
zero_plus n = omega arith

suc_plus : (m n : ℕ) → suc m + n ≡ suc (m + n)
suc_plus m n = omega arith

zero_times : (n : ℕ) → 0 * n ≡ 0
zero_times n = omega arith

suc_times : (m n : ℕ) → suc m * n ≡ m * n + n
suc_times m n = omega arith

abbrev start_end : ℕ → ℕ → ℕ
start_end j per_page = (suc j - 1) * per_page + per_page - (suc j - 1) * per_page

start_end_lem : (j per_page : ℕ) → start_end j per_page ≡ per_page
start_end_lem j per_page = omega arith

enough : (total per_page : ℕ) → 1 ≤ per_page → total ≤ total_pages total per_page * per_page
enough total per_page h =
    omega (arith, div-add-mod (total + per_page - 1) per_page, mod-lt (total + per_page - 1) h)

before_next : (j : ℕ) → suc j - 1 ≡ j
before_next j = omega arith

one_more : (left n : ℕ) → n + left * n ≡ suc left * n
one_more left n = omega arith

module _ {ℓ} {A : Type ℓ} where
  -- The pages from one on, one after the other.
  abbrev pub pages_from : ℕ → ℕ → ℕ → List A → List A
  pages_from per_page page zero items = []
  pages_from per_page page (suc left) items =
      (paginate_list items (record { page = page; per_page = per_page })).page_data
      ++ pages_from per_page (suc page) left items

  take_nil : (n : ℕ) → take {A = A} n [] ≡ []
  take_nil zero = refl
  take_nil (suc n) = refl

  skip_nil : (n : ℕ) → skip {A = A} n [] ≡ []
  skip_nil zero = refl
  skip_nil (suc n) = refl

  take-add : (m n : ℕ) (xs : List A) → take (m + n) xs ≡ take m xs ++ take n (skip m xs)
  take-add zero n xs = ap (λ k. take k xs) (zero_plus n)
  take-add (suc m) n [] = rw (suc_plus m n) (sym (take_nil n))
  take-add (suc m) n (x ∷ xs) = rw (suc_plus m n) (ap (λ ys. x ∷ ys) (take-add m n xs))

  skip-add : (m n : ℕ) (xs : List A) → skip (m + n) xs ≡ skip n (skip m xs)
  skip-add zero n xs = ap (λ k. skip k xs) (zero_plus n)
  skip-add (suc m) n [] = rw (suc_plus m n) (sym (skip_nil n))
  skip-add (suc m) n (x ∷ xs) = rw (suc_plus m n) (skip-add m n xs)

  take_all : (n : ℕ) (xs : List A) → length xs ≤ n → take n xs ≡ xs
  take_all zero [] h = refl
  take_all zero (x ∷ xs) h = ground (arith, h)
  take_all (suc n) [] h = refl
  take_all (suc n) (x ∷ xs) h = ap (λ ys. x ∷ ys) (take_all n xs (omega arith))

  pages_from_lem :
      (per_page j left : ℕ) (items : List A)
      → pages_from per_page (suc j) left items ≡ take (left * per_page) (skip (j * per_page) items)
  unfolding paginate_list
  pages_from_lem per_page j zero items =
      ap (λ k. take k (skip (j * per_page) items)) (sym (zero_times per_page))
  pages_from_lem per_page j (suc left) items =
      let rest = skip (j * per_page) items in
      ap (λ ys. take (start_end j per_page) (skip ((suc j - 1) * per_page) items) ++ ys)
        (pages_from_lem per_page (suc j) left items
          ∙ ap (λ k. take (left * per_page) (skip k items)) (suc_times j per_page)
          ∙ ap (take (left * per_page)) (skip-add (j * per_page) per_page items))
      ∙ ap
          (λ k.
            take k (skip ((suc j - 1) * per_page) items)
            ++ take (left * per_page) (skip per_page rest))
          (start_end_lem j per_page)
      ∙ ap
          (λ k.
            take per_page (skip (k * per_page) items)
            ++ take (left * per_page) (skip per_page rest))
          (before_next j)
      ∙ sym (take-add per_page (left * per_page) rest)
      ∙ ap (λ k. take k rest) (one_more left per_page)

  -- The pages from the first to the last of `total_pages`, one after the other, are the list.
  pub paginate_list-pages :
      (per_page : ℕ) (items : List A)
      → 1 ≤ per_page
      → pages_from per_page 1 (total_pages (length items) per_page) items ≡ items
  paginate_list-pages per_page items h =
      let n = total_pages (length items) per_page in
      pages_from_lem per_page 0 n items
      ∙ ap (λ k. take (n * per_page) (skip k items)) (zero_times per_page)
      ∙ take_all (n * per_page) items (enough (length items) per_page h)
