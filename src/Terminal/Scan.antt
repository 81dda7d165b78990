-- ===== src/Terminal/Scan.antt =====
-- `handleAddProduct` of frontend/src/pages/PosTerminal.tsx: the product that a scanned or typed text
-- adds to the cart. `addItem` checks the stock again when it runs.
pub mod Sound
pub mod Complete
use Prim.Native.String.{String}
use text.Mathlib.Text.{◌==◌ as str_eq}
use blend_pos.Prelude.{
  Option, none, some, List, [], ◌∷◌, Bool, true, false, if◌then◌else◌, ℤ, pos, leb_ℤ,
}
use blend_pos.Number.{Number}
use blend_pos.Cart.{RawItem, RawPrice, as_number}
use blend_pos.Offline.Db.{LocalProduct}
use blend_pos.Offline.Table.{Table}
use blend_pos.Offline.Catalog.{parse_price, find_by_barcode}
use blend_pos.Offline.Catalog.Search.{SearchText, search_catalog_products}

-- `ConsultaPreciosResponse`
pub record PriceAnswer (W : Type 0) : Type 0 where
  pub nombre : String
  pub precio_venta : RawPrice W
  pub stock_disponible : ℤ

-- What became of the text: nothing was typed, a product is passed to `addItem`, or a notification says
-- that it has no stock or that there is none.
pub data ScanResult (W : Type 0) : Type 0 where
  nothing_typed : ScanResult W
  added : RawItem W → ScanResult W
  without_stock : String → ScanResult W
  not_found : String → ScanResult W

-- the value of the promise: does the page clear the field?
unfoldable pub clears_field : {W : Type 0} → ScanResult W → Bool
clears_field (added raw) = true
clears_field nothing_typed = false
clears_field (without_stock nombre) = false
clears_field (not_found text) = false

module _ {W : Type 0} ⦃d : Number W⦄ (t : SearchText)
    (by_name : List (LocalProduct W) → List (LocalProduct W))
    (P : Table (LocalProduct W) (λ p. p.id)) where
  abbrev pub raw_of : LocalProduct W → RawItem W
  raw_of p = record {
    id = p.id;
    nombre = p.nombre;
    precio = as_number p.precio;
    codigo_barras = p.codigo_barras;
  }

  -- the local product under the name and price of the backend
  abbrev pub priced : PriceAnswer W → String → LocalProduct W → RawItem W
  priced a code p = record {
    id = p.id;
    nombre = a.nombre;
    precio = as_number (parse_price a.precio_venta);
    codigo_barras = code;
  }

  -- the first of the results of the search
  unfoldable pub first_match : String → List (LocalProduct W) → ScanResult W
  first_match text [] = not_found text
  first_match text (p ∷ ps) = added (raw_of p)

  unfoldable pub add_from_catalog : String → P.Store → ScanResult W
  unfolding first_match
  add_from_catalog text products = elim (find_by_barcode P text products) [
    | some p ↦ added (raw_of p)
    | none ↦ first_match text (search_catalog_products t by_name P text 1 products)
  ]

  -- `none` when the backend is not asked, or its request is rejected
  unfoldable pub add_scanned : Option (PriceAnswer W) → String → P.Store → ScanResult W
  unfolding add_from_catalog
  add_scanned none text products = add_from_catalog text products
  add_scanned (some a) text products =
      if leb_ℤ a.stock_disponible (pos 0)
      then without_stock a.nombre
      else elim (find_by_barcode P text products) [
        | some p ↦ added (priced a text p)
        | none ↦ add_from_catalog text products
      ]

  unfoldable pub handle_add_product : Option (PriceAnswer W) → String → P.Store → ScanResult W
  unfolding add_scanned
  handle_add_product answer value products =
      if str_eq (t.trim value) "" then nothing_typed else add_scanned answer (t.trim value) products
