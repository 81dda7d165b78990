-- ===== src/Terminal/Scan/Complete.antt =====
-- What `handleAddProduct` of frontend/src/pages/PosTerminal.tsx finds.
use Prim.Native.String.{String}
use text.Mathlib.Text.{◌==◌ as str_eq}
use blend_pos.Prelude.{
  ◌≡◌, refl, Option, none, some, List, [], ◌∷◌, Bool, true, false, find, find_holds, arith,
  Bool-cases, Option-cases, inl, inr, pos, leb_ℤ,
}
use blend_pos.Number.{Number}
use blend_pos.Cart.{RawItem}
use blend_pos.Offline.Db.{LocalProduct}
use blend_pos.Offline.Table.{Table}
use blend_pos.Offline.Catalog.{find_by_barcode, in_stock}
use blend_pos.Offline.Catalog.Search.{SearchText, Has, is_available}
use blend_pos.Terminal.Scan.Sound.{IsStocked, find_by_barcode-IsStocked}
use blend_pos.Terminal.Scan.{
  PriceAnswer, added, raw_of, priced, add_from_catalog, add_scanned, handle_add_product,
}

-- the answer of the backend says that there is none left
abbrev pub is_sold_out : {W : Type 0} → Option (PriceAnswer W) → Bool
is_sold_out none = false
is_sold_out (some a) = leb_ℤ a.stock_disponible (pos 0)

module _ {W : Type 0} where
  find_matches :
      (f : LocalProduct W → Bool) (p : LocalProduct W) (xs : List (LocalProduct W))
      → Has p xs
      → f p ≡ true
      → (x : LocalProduct W) × (find f xs ≡ some x)
  find_matches f p [] h e = absurd h
  find_matches f p (x ∷ xs) (inl same) e = (x, rw (rw same at e) refl)
  find_matches f p (x ∷ xs) (inr h) e =
      let (y, found) = find_matches f p xs h e in
      elim (Bool-cases (f x)) [
        | inl holds ↦ (x, rw holds refl)
        | inr fails ↦ (y, rw (fails, found) refl)
      ]

  module _ (P : Table (LocalProduct W) (λ p. p.id)) (products : P.Store) where
    find_by_barcode_matches :
        (code : String) (p : LocalProduct W)
        → Has p (P.rows products)
        → in_stock P code p ≡ true
        → str_eq code "" ≡ false
        → (x : LocalProduct W) × (find_by_barcode P code products ≡ some x)
          × (str_eq x.codigo_barras code ≡ true)
    unfolding find_by_barcode
    find_by_barcode_matches code p h e typed =
        let rows = P.rows products in
        let with_code = λ (x : LocalProduct W). str_eq x.codigo_barras code in
        let (y, scanned) = find_matches (in_stock P code) p rows h e in
        let holds = find_holds (in_stock P code) rows scanned in
        let same : str_eq y.codigo_barras code ≡ true = ground (arith, holds) in
        elim (Option-cases (find with_code rows)) [
          | inl missing ↦ (y, rw (typed, missing, scanned) refl, same)
          | inr (x, found) ↦ elim (Bool-cases (is_available x)) [
            | inl here ↦ (x, rw (typed, found, here) refl, find_holds with_code rows found)
            | inr sold_out ↦ (y, rw (typed, found, sold_out, scanned) refl, same)
          ]
        ]

  module _ ⦃d : Number W⦄ (t : SearchText) (by_name : List (LocalProduct W) → List (LocalProduct W))
      (P : Table (LocalProduct W) (λ p. p.id)) (products : P.Store) where
    -- If the local catalog has a row with stock above 0 under the scanned code, the code is not blank,
    -- and the backend does not answer that the product is sold out, then the page calls `addItem` with
    -- the identifier of a row of the catalog that has stock above 0 and the scanned code, also without
    -- a connection.
    pub handle_add_product_finds :
        (answer : Option (PriceAnswer W)) (value : String) (p : LocalProduct W)
        → Has p (P.rows products)
        → in_stock P (t.trim value) p ≡ true
        → str_eq (t.trim value) "" ≡ false
        → is_sold_out answer ≡ false
        → (raw : RawItem W) × (x : LocalProduct W) × (handle_add_product t by_name P answer value
              products
            ≡ added raw)
          × (raw.id ≡ x.id)
          × IsStocked P products x
          × (str_eq x.codigo_barras (t.trim value) ≡ true)
    unfolding handle_add_product add_scanned add_from_catalog
    handle_add_product_finds none value p h e typed left =
        let (x, found, same) = find_by_barcode_matches P products (t.trim value) p h e typed in
        (
          raw_of t by_name P x,
          x,
          rw (typed, add_from_catalog, found) refl,
          refl,
          find_by_barcode-IsStocked P products (t.trim value) found,
          same,
        )
    handle_add_product_finds (some a) value p h e typed left =
        let (x, found, same) = find_by_barcode_matches P products (t.trim value) p h e typed in
        (
          priced t by_name P a (t.trim value) x,
          x,
          rw (typed, left, found) refl,
          refl,
          find_by_barcode-IsStocked P products (t.trim value) found,
          same,
        )
