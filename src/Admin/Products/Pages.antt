-- ===== src/Admin/Products/Pages.antt =====
-- The pages of the table of frontend/src/pages/admin/GestionProductosPage.tsx.
use blend_pos.Prelude.{
  ℕ, zero, suc, ◌+◌, ◌-◌, ◌*◌, ◌≤◌, ◌≡◌, refl, sym, ap, ◌∙◌, List, [], ◌∷◌, ◌++◌, length, take,
  drop, length-take-le, arith,
}
use blend_pos.Admin.Products.{rows_per_page, paginated_rows, total_pages}

total_pages-enough : (n : ℕ) → n ≤ total_pages n * 50
unfolding total_pages
total_pages-enough n = omega arith

module _ {A : Type 0} where
  take_nothing : (n : ℕ) → take {A = A} n [] ≡ []
  take_nothing zero = refl
  take_nothing (suc n) = refl

  take-add : (m n : ℕ) (xs : List A) → take (m + n) xs ≡ take m xs ++ take n (drop m xs)
  take-add zero n xs = let e : 0 + n ≡ n = omega arith in rw e refl
  take-add (suc m) n [] = rw (take_nothing (suc m + n), take_nothing n) refl
  take-add (suc m) n (x ∷ xs) =
      let e : suc m + n ≡ suc (m + n) = omega arith in rw e (ap (λ ys. x ∷ ys) (take-add m n xs))

  take_all : (n : ℕ) (xs : List A) → length xs ≤ n → take n xs ≡ xs
  take_all n [] h = take_nothing n
  take_all zero (x ∷ xs) h = absurd (omega (arith, h))
  take_all (suc n) (x ∷ xs) h = ap (λ ys. x ∷ ys) (take_all n xs (omega (arith, h)))

  -- the rows of the pages from the first to the n-th, one page after the other
  abbrev pub first_pages : List A → ℕ → List A
  first_pages xs zero = []
  first_pages xs (suc n) = first_pages xs n ++ paginated_rows (suc n) xs

  first_pages-take : (n : ℕ) (xs : List A) → first_pages xs n ≡ take (n * 50) xs
  unfolding paginated_rows
  first_pages-take zero xs = refl
  first_pages-take (suc n) xs =
      let size : suc n * 50 - (suc n - 1) * 50 ≡ 50 = omega arith in
      let start : (suc n - 1) * 50 ≡ n * 50 = omega arith in
      let end : suc n * 50 ≡ n * 50 + 50 = omega arith in
      rw (size, start, end)
        (ap (λ ys. ys ++ take 50 (drop (n * 50) xs)) (first_pages-take n xs)
          ∙ sym (take-add (n * 50) 50 xs))

  -- The pages show every row once and in order: the rows of all pages one after the other are the
  -- rows of the table, and no page has more than 50 rows.
  pub first_pages_complete :
      (xs : List A) (page : ℕ)
      → (first_pages xs (total_pages (length xs)) ≡ xs)
        × (length (paginated_rows page xs) ≤ rows_per_page)
  unfolding total_pages paginated_rows
  first_pages_complete xs page =
      let rows = drop ((page - 1) * rows_per_page) xs in
      (
        first_pages-take (total_pages (length xs)) xs
            ∙ take_all (total_pages (length xs) * 50) xs (total_pages-enough (length xs)),
        omega (arith, length-take-le (page * rows_per_page - (page - 1) * rows_per_page) rows),
      )
