-- ===== src/Offline/Catalog/Complete.antt =====
-- What the search of frontend/src/offline/catalog.ts finds.
use Prim.Native.String.{String}
use text.Mathlib.Text.{◌==◌ as str_eq}
use mathlib.Core.Option.{some-injective}
use blend_pos.Prelude.{
  ℕ, zero, suc, ◌-◌, ◌≡◌, ◌<◌, refl, sym, ap, ◌∙◌, some, List, [], ◌∷◌, ◌++◌, Bool, true, false,
  not, ◌&&◌, ◌||◌, ◌==◌, leb, filter, take, length, includes, arith, All, All-filter, All-take,
  Bool-cases, inl, inr, ==_iff, length-append,
}
use blend_pos.Offline.Db.{LocalProduct}
use blend_pos.Offline.Table.{Table}
use blend_pos.Offline.Catalog.Search.{
  SearchText, is_available, product_ids, Has, IsReordering, name_results, is_part, more_results,
  text_results, search_rows, search_catalog_products,
}

module _ {W : Type 0} where
  Has-filter :
      (f : LocalProduct W → Bool) (p : LocalProduct W) (xs : List (LocalProduct W))
      → Has p xs
      → f p ≡ true
      → Has p (filter f xs)
  Has-filter f p [] h k = h
  Has-filter f p (x ∷ xs) (inl e) k = rw⁻¹ e (rw k (inl refl))
  Has-filter f p (x ∷ xs) (inr h) k = elim (Bool-cases (f x)) [
    | inl kept ↦ rw kept (inr (Has-filter f p xs h k))
    | inr dropped ↦ rw dropped (Has-filter f p xs h k)
  ]

  Has-take :
      (n : ℕ) (p : LocalProduct W) (xs : List (LocalProduct W))
      → Has p xs
      → length (take n xs) < n
      → Has p (take n xs)
  Has-take zero p xs h k = absurd (omega (arith, k))
  Has-take (suc n) p [] h k = h
  Has-take (suc n) p (x ∷ xs) (inl e) k = inl e
  Has-take (suc n) p (x ∷ xs) (inr h) k = inr (Has-take n p xs h (omega (arith, k)))

  Has-left : (p : LocalProduct W) (xs ys : List (LocalProduct W)) → Has p xs → Has p (xs ++ ys)
  Has-left p [] ys h = absurd h
  Has-left p (x ∷ xs) ys (inl e) = inl e
  Has-left p (x ∷ xs) ys (inr h) = inr (Has-left p xs ys h)

  Has-right : (p : LocalProduct W) (xs ys : List (LocalProduct W)) → Has p ys → Has p (xs ++ ys)
  Has-right p [] ys h = h
  Has-right p (x ∷ xs) ys h = inr (Has-right p xs ys h)

  Has-All :
      (Q : LocalProduct W → Type 0) (p : LocalProduct W) (xs : List (LocalProduct W))
      → Has p xs
      → All Q xs
      → Q p
  Has-All Q p [] h hs = absurd h
  Has-All Q p (x ∷ xs) (inl e) (k, ks) = rw e k
  Has-All Q p (x ∷ xs) (inr h) (k, ks) = Has-All Q p xs h ks

  module _ (P : Table (LocalProduct W) (λ p. p.id)) (products : P.Store) where
    abbrev IsRow : LocalProduct W → Type 0
    IsRow p = P.get p.id products ≡ some p

    -- a row is known by its identifier
    Has-includes :
        (p : LocalProduct W) (xs : List (LocalProduct W))
        → IsRow p
        → All IsRow xs
        → includes p.id (product_ids xs) ≡ true
        → Has p xs
    Has-includes p [] h hs e = absurd (ground (arith, e))
    Has-includes p (x ∷ xs) h (k, ks) e = elim (Bool-cases (x.id == p.id)) [
      | inl same ↦
          let id : x.id ≡ p.id = (==_iff x.id p.id).0 same in
          inl (some-injective _ _ (sym h ∙ ap (λ (j : ℕ). P.get j products) (sym id) ∙ k))
      | inr other ↦ inr (Has-includes p xs h ks (rw other at e))
    ]

    module _ (t : SearchText) (by_name : List (LocalProduct W) → List (LocalProduct W))
        (o : IsReordering t by_name) where
      name_results-Has :
          (q : String) (limit : ℕ) (p : LocalProduct W)
          → Has p (P.rows products)
          → (t.starts_ignoring_case q p.nombre && is_available p) ≡ true
          → length (name_results t by_name q limit (P.rows products)) < limit
          → Has p (name_results t by_name q limit (P.rows products))
      unfolding name_results
      name_results-Has q limit p h begins room =
          Has-take limit p _ (o.by_name-any p _ (Has-filter _ p (P.rows products) h begins)) room

      more_results-Has :
          (q code : String) (n : ℕ) (found : List ℕ) (p : LocalProduct W)
          → Has p (P.rows products)
          → (is_available p && (not (includes p.id found) && is_part t by_name q code p)) ≡ true
          → length (more_results t by_name q code n found (P.rows products)) < n
          → Has p (more_results t by_name q code n found (P.rows products))
      unfolding more_results
      more_results-Has q code n found p h fits room =
          Has-take n p _ (Has-filter _ p (P.rows products) h fits) room

      name_results-rows :
          (q : String) (limit : ℕ) → All IsRow (name_results t by_name q limit (P.rows products))
      unfolding name_results
      name_results-rows q limit =
          All-take IsRow limit _
            (o.by_name-All IsRow _ (All-filter IsRow _ (P.rows products) (P.rows-get products)))

      text_results-Has :
          (q code : String) (limit : ℕ) (p : LocalProduct W)
          → Has p (P.rows products)
          → IsRow p
          → is_available p ≡ true
          → (t.starts_ignoring_case q p.nombre || is_part t by_name q code p) ≡ true
          → length (text_results t by_name q code limit (P.rows products)) < limit
          → Has p (text_results t by_name q code limit (P.rows products))
      unfolding text_results
      text_results-Has q code limit p h row in_stock fits room =
          let starts = name_results t by_name q limit (P.rows products) in
          let found = product_ids starts in
          let n = limit - length starts in
          let more = more_results t by_name q code n found (P.rows products) in
          elim (Bool-cases (leb limit (length starts))) [
            | inl full ↦ absurd (rest_full (rw full at room) full)
            | inr open_end ↦
                let both : length (starts ++ more) < limit = rw open_end at room in
                let few : length starts < limit = ground (arith, open_end) in
                let fewer : length more < n = omega (arith, length-append starts more) in
                rw open_end (elim (Bool-cases (t.starts_ignoring_case q p.nombre)) [
                  | inl begins ↦
                      Has-left p starts more
                        (name_results-Has q limit p h (ground (arith, begins, in_stock)) few)
                  | inr inside ↦ elim (Bool-cases (includes p.id found)) [
                    | inl known ↦
                        Has-left p starts more
                          (Has-includes p starts row (name_results-rows q limit) known)
                    | inr unknown ↦ Has-right p starts more (
                        more_results-Has q code n found p h
                          (ground (arith, fits, inside, unknown, in_stock)) fewer)
                  ]
                ])
          ]
        where
          rest_full : {n m : ℕ} → n < m → leb m n ≡ true → ⊥
          rest_full k e = absurd (ground (arith, k, e))

      -- Every product in stock whose name begins with the query, or whose name or barcode holds it, is
      -- among the results of a query that is no barcode, unless there are as many as the limit.
      pub search_finds :
          (query : String) (limit : ℕ) (p : LocalProduct W)
          → Has p (P.rows products)
          → is_available p ≡ true
          → (t.starts_ignoring_case (t.to_lower_case (t.trim query)) p.nombre
              || is_part t by_name (t.to_lower_case (t.trim query)) (t.trim query) p)
            ≡ true
          → t.is_code (t.trim query) ≡ false
          → length (search_catalog_products t by_name P query limit products) < limit
          → Has p (search_catalog_products t by_name P query limit products)
      unfolding search_catalog_products search_rows
      search_finds query limit p h in_stock fits as_text room =
          let code = t.trim query in
          let q = t.to_lower_case code in
          let row = Has-All IsRow p (P.rows products) h (P.rows-get products) in
          elim (Bool-cases (str_eq q "")) [
            | inl blank ↦ rw blank (
                Has-take limit p _ (Has-filter is_available p (P.rows products) h in_stock)
                  (rw blank at room))
            | inr asked ↦
                rw (asked, as_text)
                  (text_results-Has q code limit p h row in_stock fits
                    (rw (asked, as_text) at room))
          ]
