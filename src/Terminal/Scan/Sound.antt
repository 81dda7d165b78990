-- ===== src/Terminal/Scan/Sound.antt =====
-- What a scanned text adds: frontend/src/pages/PosTerminal.tsx over frontend/src/offline/catalog.ts.
use Prim.Native.String.{String}
use mathlib.Core.Path.{subst}
use mathlib.Core.Option.{some-injective}
use text.Mathlib.Text.{◌==◌ as str_eq}
use blend_pos.Prelude.{
  All-both, ℕ, ◌≡◌, refl, Option, none, some, List, [], ◌∷◌, Bool, true, find, find_holds, length,
  leb, All, All-append, All-filter, All-take, Bool-cases, Option-cases, inl, inr, arith, pos, leb_ℤ,
}
use blend_pos.Number.{Number}
use blend_pos.Offline.Db.{LocalProduct}
use blend_pos.Offline.Table.{Table}
use blend_pos.Offline.Catalog.{find_by_barcode, in_stock}
use blend_pos.Offline.Catalog.Search.{
  SearchText, IsReordering, is_available, name_results, more_results, text_results, code_results,
  search_rows, search_catalog_products,
}
use blend_pos.Offline.Catalog.Found.{search_results_fit}
use blend_pos.Terminal.Scan.{
  PriceAnswer, ScanResult, nothing_typed, added, without_stock, not_found, first_match,
  add_from_catalog, add_scanned, handle_add_product,
}

module _ {W : Type 0} where
  find-All :
      (Q : LocalProduct W → Type 0) (f : LocalProduct W → Bool) (xs : List (LocalProduct W))
      → All Q xs
      → {p : LocalProduct W} → find f xs ≡ some p
      → Q p
  find-All Q f [] h e = cc
  find-All Q f (x ∷ xs) (h, hs) e = elim (Bool-cases (f x)) [
    | inl holds ↦ subst Q (some-injective _ _ (rw holds at e)) h
    | inr fails ↦ find-All Q f xs hs (rw fails at e)
  ]

  module _ (t : SearchText) (by_name : List (LocalProduct W) → List (LocalProduct W))
      (o : IsReordering t by_name) (Q : LocalProduct W → Type 0) where
    text_results-All :
        (q code : String) (limit : ℕ) (rows : List (LocalProduct W))
        → All Q rows
        → All Q (text_results t by_name q code limit rows)
    unfolding text_results name_results more_results
    text_results-All q code limit rows h =
        let starts = name_results t by_name q limit rows in
        let first = All-take Q limit _ (o.by_name-All Q _ (All-filter Q _ rows h)) in
        elim (Bool-cases (leb limit (length starts))) [
          | inl full ↦ rw full first
          | inr room ↦
              rw room (All-append Q starts _ first (All-take Q _ _ (All-filter Q _ rows h)))
        ]

    code_results-All :
        (code : String) (hit : Option (LocalProduct W)) (others : List (LocalProduct W))
        → ((p : LocalProduct W) → hit ≡ some p → Q p)
        → All Q others
        → All Q (code_results t by_name code hit others)
    unfolding code_results
    code_results-All code none others h hs = hs
    code_results-All code (some p) others h hs = elim (Bool-cases (is_available p)) [
      | inl here ↦ rw here (h p refl, tt)
      | inr sold_out ↦ rw sold_out hs
    ]

    -- the search shows only rows of the catalog
    search_rows-All :
        (query : String) (limit : ℕ) (rows : List (LocalProduct W))
        → All Q rows
        → All Q (search_rows t by_name query limit rows)
    unfolding search_rows
    search_rows-All query limit rows h =
        let code = t.trim query in
        let q = t.to_lower_case code in
        let hit = find (λ (p : LocalProduct W). str_eq p.codigo_barras code) rows in
        let others = text_results-All q code limit rows h in
        elim (Bool-cases (str_eq q "")) [
          | inl blank ↦ rw blank (All-take Q limit _ (All-filter Q _ rows h))
          | inr asked ↦ elim (Bool-cases (t.is_code code)) [
            | inl as_code ↦
                rw (asked, as_code)
                  (code_results-All code hit _ (λ p e. find-All Q _ rows h e) others)
            | inr as_text ↦ rw (asked, as_text) others
          ]
        ]

  module _ (P : Table (LocalProduct W) (λ p. p.id)) (products : P.Store) where
    -- a row of the catalog that is in stock
    abbrev pub IsStocked : LocalProduct W → Type 0
    IsStocked p = (P.get p.id products ≡ some p) × (is_available p ≡ true)

    -- a product is passed to the cart under the identifier of a row that is in stock
    abbrev pub IsSold : ScanResult W → Type 0
    IsSold (added raw) = (p : LocalProduct W) × IsStocked p × (raw.id ≡ p.id)
    IsSold nothing_typed = Unit
    IsSold (without_stock nombre) = Unit
    IsSold (not_found text) = Unit

    pub find_by_barcode-IsStocked :
        (code : String) {p : LocalProduct W}
        → find_by_barcode P code products ≡ some p
        → IsStocked p
    unfolding find_by_barcode
    find_by_barcode-IsStocked code {p = p} e =
        let rows = P.rows products in
        let hit = find (λ (x : LocalProduct W). str_eq x.codigo_barras code) rows in
        let by_scan = λ (h : find (in_stock P code) rows ≡ some p).
          let holds = find_holds (in_stock P code) rows h in
          let both : IsStocked p =
            (find-All _ (in_stock P code) rows (P.rows-get products) h, ground (arith, holds)) in
          both in
        elim (Bool-cases (str_eq code "")) [
          | inl blank ↦ absurd (ground (arith, rw blank at e))
          | inr typed ↦ elim (Option-cases hit) [
            | inl missing ↦ by_scan (rw (typed, missing) at e)
            | inr (x, found) ↦ elim (Bool-cases (is_available x)) [
              | inl here ↦
                  let same = some-injective _ _ (rw (typed, found, here) at e) in
                  subst IsStocked same (
                    find-All _ (λ (y : LocalProduct W). str_eq y.codigo_barras code) rows
                        (P.rows-get products) found,
                    here,
                  )
              | inr sold_out ↦ by_scan (rw (typed, found, sold_out) at e)
            ]
          ]
        ]

  module _ ⦃d : Number W⦄ (t : SearchText) (by_name : List (LocalProduct W) → List (LocalProduct W))
      (o : IsReordering t by_name) (P : Table (LocalProduct W) (λ p. p.id))
      (products : P.Store) where
    first_match-IsSold :
        (text : String) (ps : List (LocalProduct W))
        → All (IsStocked P products) ps
        → IsSold P products (first_match t by_name P text ps)
    unfolding first_match
    first_match-IsSold text [] h = tt
    first_match-IsSold text (p ∷ ps) (h, hs) = (p, h, refl)

    search-IsStocked :
        (query : String)
        → All (IsStocked P products) (search_catalog_products t by_name P query 1 products)
    search-IsStocked query =
        All-both (λ p. P.get p.id products ≡ some p) (λ p. is_available p ≡ true) _
          (unfold search_catalog_products in
            search_rows-All t by_name o _ query 1 (P.rows products) (P.rows-get products))
          (search_results_fit P products t by_name o query 1 (omega arith)).0

    add_from_catalog-IsSold :
        (text : String) → IsSold P products (add_from_catalog t by_name P text products)
    unfolding add_from_catalog
    add_from_catalog-IsSold text = elim (Option-cases (find_by_barcode P text products)) [
      | inl missing ↦
          rw (add_from_catalog, missing) (first_match-IsSold text _ (search-IsStocked text))
      | inr (p, found) ↦
          rw (add_from_catalog, found) (p, find_by_barcode-IsStocked P products text found, refl)
    ]

    add_scanned-IsSold :
        (answer : Option (PriceAnswer W)) (text : String)
        → IsSold P products (add_scanned t by_name P answer text products)
    unfolding add_scanned
    add_scanned-IsSold none text = add_from_catalog-IsSold text
    add_scanned-IsSold (some a) text = elim (Bool-cases (leb_ℤ a.stock_disponible (pos 0))) [
      | inl sold_out ↦ rw sold_out tt
      | inr left ↦ elim (Option-cases (find_by_barcode P text products)) [
        | inl missing ↦ rw (left, missing) (add_from_catalog-IsSold text)
        | inr (p, found) ↦
            rw (left, found) (p, find_by_barcode-IsStocked P products text found, refl)
      ]
    ]

    -- Whatever is typed or scanned, and whatever the backend answers for its price, a product that the
    -- page passes to the cart has the identifier of a row of the local catalog with stock above 0, if
    -- the index on names only reorders its rows.
    pub handle_add_product-IsSold :
        (answer : Option (PriceAnswer W)) (value : String)
        → IsSold P products (handle_add_product t by_name P answer value products)
    unfolding handle_add_product
    handle_add_product-IsSold answer value = elim (Bool-cases (str_eq (t.trim value) "")) [
      | inl blank ↦ rw blank tt
      | inr typed ↦ rw typed (add_scanned-IsSold answer (t.trim value))
    ]
