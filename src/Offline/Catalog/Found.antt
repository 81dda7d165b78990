-- ===== src/Offline/Catalog/Found.antt =====
-- What the search of frontend/src/offline/catalog.ts never shows.
use Prim.Native.String.{String}
use text.Mathlib.Text.{◌==◌ as str_eq}
use blend_pos.Prelude.{
  ℕ, ◌-◌, ◌≡◌, ◌≤◌, Option, none, some, List, [], ◌∷◌, Bool, true, leb, filter, find, length, arith,
  All, All-append, All-take, Bool-cases, inl, inr, length-append, length-take-le,
}
use blend_pos.Offline.Db.{LocalProduct}
use blend_pos.Offline.Table.{Table}
use blend_pos.Offline.Catalog.Search.{
  SearchText, is_available, product_ids, IsReordering, name_results, more_results, text_results,
  code_results, search_rows, search_catalog_products,
}

module _ {W : Type 0} where
  abbrev IsAvailable : LocalProduct W → Type 0
  IsAvailable p = is_available p ≡ true

  filter-IsAvailable :
      (f : LocalProduct W → Bool) (xs : List (LocalProduct W))
      → ((p : LocalProduct W) → f p ≡ true → IsAvailable p)
      → All IsAvailable (filter f xs)
  filter-IsAvailable f [] h = tt
  filter-IsAvailable f (x ∷ xs) h = elim (Bool-cases (f x)) [
    | inl kept ↦ rw kept (h x kept, filter-IsAvailable f xs h)
    | inr dropped ↦ rw dropped (filter-IsAvailable f xs h)
  ]

  module _ (P : Table (LocalProduct W) (λ p. p.id)) (products : P.Store) where
    module _ (t : SearchText) (by_name : List (LocalProduct W) → List (LocalProduct W))
        (o : IsReordering t by_name) where
      name_results-IsAvailable :
          (q : String) (limit : ℕ)
          → All IsAvailable (name_results t by_name q limit (P.rows products))
      unfolding name_results
      name_results-IsAvailable q limit = All-take IsAvailable limit _ (
          o.by_name-All IsAvailable _
            (filter-IsAvailable _ (P.rows products) (λ p h. ground (arith, h))))

      text_results-IsAvailable :
          (q code : String) (limit : ℕ)
          → All IsAvailable (text_results t by_name q code limit (P.rows products))
      unfolding text_results more_results
      text_results-IsAvailable q code limit =
          let starts = name_results t by_name q limit (P.rows products) in
          let left = name_results-IsAvailable q limit in
          elim (Bool-cases (leb limit (length starts))) [
            | inl full ↦ rw full left
            | inr room ↦ rw room (
                All-append IsAvailable starts _ left (
                  All-take IsAvailable (limit - length starts) _
                    (filter-IsAvailable _ (P.rows products) (λ p h. ground (arith, h)))))
          ]

      code_results-IsAvailable :
          (code : String) (found : Option (LocalProduct W)) (others : List (LocalProduct W))
          → All IsAvailable others
          → All IsAvailable (code_results t by_name code found others)
      unfolding code_results
      code_results-IsAvailable code none others h = h
      code_results-IsAvailable code (some p) others h = elim (Bool-cases (is_available p)) [
        | inl in_stock ↦ rw in_stock (in_stock, tt)
        | inr sold_out ↦ rw sold_out h
      ]

      code_results_bounded :
          (code : String) (found : Option (LocalProduct W)) (others : List (LocalProduct W))
          → (limit : ℕ) → 1 ≤ limit
          → length others ≤ limit
          → length (code_results t by_name code found others) ≤ limit
      unfolding code_results
      code_results_bounded code none others limit one h = h
      code_results_bounded code (some p) others limit one h = elim (Bool-cases (is_available p)) [
        | inl in_stock ↦ rw in_stock one
        | inr sold_out ↦ rw sold_out h
      ]

      more_results_bounded :
          (q code : String) (n : ℕ) (found : List ℕ)
          → length (more_results t by_name q code n found (P.rows products)) ≤ n
      unfolding more_results
      more_results_bounded q code n found = length-take-le n _

      text_results_bounded :
          (q code : String) (limit : ℕ)
          → length (text_results t by_name q code limit (P.rows products)) ≤ limit
      unfolding text_results
      text_results_bounded q code limit =
          let starts = name_results t by_name q limit (P.rows products) in
          let n = limit - length starts in
          let more = more_results t by_name q code n (product_ids starts) (P.rows products) in
          elim (Bool-cases (leb limit (length starts))) [
            | inl full ↦ rw full (unfold name_results in length-take-le limit _)
            | inr room ↦ rw room (
                ground (
                  arith,
                  room,
                  length-append starts more,
                  more_results_bounded q code n (product_ids starts),
                ))
          ]

      -- The search never shows a product that is not in stock, nor more products than its limit, if
      -- that is at least 1.
      pub search_results_fit :
          (query : String) (limit : ℕ)
          → 1 ≤ limit
          → All IsAvailable (search_catalog_products t by_name P query limit products)
            × (length (search_catalog_products t by_name P query limit products) ≤ limit)
      unfolding search_catalog_products search_rows
      search_results_fit query limit one =
          let code = t.trim query in
          let q = t.to_lower_case code in
          let hit = find (λ (p : LocalProduct W). str_eq p.codigo_barras code) (P.rows products) in
          let others = text_results t by_name q code limit (P.rows products) in
          let shown = text_results-IsAvailable q code limit in
          let few = text_results_bounded q code limit in
          elim (Bool-cases (str_eq q "")) [
            | inl blank ↦ rw blank (
              All-take IsAvailable limit _
                  (filter-IsAvailable is_available (P.rows products) (λ p h. h)),
              length-take-le limit _,
            )
            | inr asked ↦ elim (Bool-cases (t.is_code code)) [
              | inl as_code ↦
                  rw (asked, as_code)
                    (
                      code_results-IsAvailable code hit others shown,
                      code_results_bounded code hit others limit one few,
                    )
              | inr as_text ↦ rw (asked, as_text) (shown, few)
            ]
          ]
