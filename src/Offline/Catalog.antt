-- ===== src/Offline/Catalog.antt =====
-- frontend/src/offline/catalog.ts: the local copy of the products, over the tables `products` and
-- `sync_meta`. The backend's answers are arguments.
pub mod Stock
pub mod Sync
pub mod Sold
pub mod Search
pub mod Found
pub mod Complete
use Prim.Native.String.{String}
use text.Mathlib.Text.{◌==◌ as str_eq}
use blend_pos.Prelude.{
  ℕ, Option, none, some, List, [], ◌∷◌, map, Bool, true, false, not, ◌&&◌, if◌then◌else◌, filter,
  find, take, get_or, ℤ, pos, ◌-ℤ◌, ltb_ℤ,
}
use blend_pos.Number.{Number}
use blend_pos.Cart.{RawPrice, as_number, as_text}
use blend_pos.Offline.Db.{LocalProduct}
use blend_pos.Offline.Table.{Table, where_equals, bulk_put}

-- a product as the backend lists it
pub record ApiProduct (W : Type 0) : Type 0 where
  pub id : ℕ
  pub codigo_barras : String
  pub nombre : String
  pub precio_venta : RawPrice W
  pub stock_actual : Option ℤ
  pub activo : Bool

-- `none` is a rejected request; the list may be missing in the answer
abbrev pub ApiReply : Type 0 → Type 0
ApiReply W = Option (Option (List (ApiProduct W)))

pub record SyncMeta : Type 0 where
  pub key : ℕ
  pub value : ℕ

-- `LAST_SYNC_KEY`
abbrev pub last_sync_key : ℕ
last_sync_key = 0

abbrev pub ids : {W : Type 0} → List (ApiProduct W) → List ℕ
ids = map λ p. p.id

module _ {W : Type 0} ⦃d : Number W⦄ where
  abbrev pub parse_price : RawPrice W → W
  parse_price (as_number p) = p
  parse_price (as_text t) = d.parse_float t

  unfoldable pub seed_row : ApiProduct W → LocalProduct W
  seed_row p = record {
    id = p.id;
    codigo_barras = p.codigo_barras;
    nombre = p.nombre;
    precio = parse_price p.precio_venta;
    stock = get_or p.stock_actual (pos 0);
  }

  -- a product that was deactivated keeps its row with no stock
  unfoldable pub delta_row : ApiProduct W → LocalProduct W
  delta_row p = record {
    id = p.id;
    codigo_barras = p.codigo_barras;
    nombre = p.nombre;
    precio = parse_price p.precio_venta;
    stock = if p.activo then get_or p.stock_actual (pos 0) else pos 0;
  }

module _ {W : Type 0} ⦃d : Number W⦄ (P : Table (LocalProduct W) (λ p. p.id))
    (M : Table SyncMeta (λ m. m.key)) where
  unfoldable pub get_last_sync_at : M.Store → Option ℕ
  get_last_sync_at meta = elim (M.get last_sync_key meta) [ none ↦ none | some m ↦ some m.value ]

  unfoldable pub set_last_sync_at : ℕ → M.Store → M.Store
  set_last_sync_at iso meta = M.put (record { key = last_sync_key; value = iso }) meta

  -- the branches of `seedCatalogFromAPI`; the last part is its answer
  unfoldable pub seed_catalog : ApiReply W → ℕ → P.Store → M.Store → P.Store × M.Store × Bool
  seed_catalog (some (some (r ∷ rs))) now products meta = (
    bulk_put P (map seed_row (filter (λ p. p.activo) (r ∷ rs))) (P.clear products),
    set_last_sync_at now meta,
    true,
  )
  seed_catalog _ now products meta = (products, meta, false)

  unfoldable pub delta_rows : ApiReply W → ℕ → P.Store → M.Store → P.Store × M.Store × Bool
  delta_rows (some (some (r ∷ rs))) start products meta =
      (bulk_put P (map delta_row (r ∷ rs)) products, set_last_sync_at start meta, true)
  delta_rows (some _) start products meta = (products, set_last_sync_at start meta, false)
  delta_rows none start products meta = (products, meta, false)

  -- `deltaSyncCatalog`: `full` is what the request for all products answers, `delta` the request for
  -- those that changed; `start` and `now` are the clock before and after.
  unfoldable pub delta_sync_catalog :
      ApiReply W → ApiReply W → ℕ → ℕ → P.Store → M.Store → P.Store × M.Store × Bool
  delta_sync_catalog full delta start now products meta = elim (get_last_sync_at meta) [
    | none ↦ seed_catalog full now products meta
    | some last ↦ delta_rows delta start products meta
  ]

  unfoldable pub get_local_stock : ℕ → P.Store → ℤ
  get_local_stock id products = elim (P.get id products) [ none ↦ pos 0 | some p ↦ p.stock ]

  unfoldable pub deduct_one : ℕ → ℤ → P.Store → P.Store
  deduct_one id cantidad products = elim (P.get id products) [
    | none ↦ products
    | some p ↦ P.put (record p { stock = p.stock -ℤ cantidad }) products
  ]

  unfoldable pub deduct_local_stock : List (ℕ × ℤ) → P.Store → P.Store
  deduct_local_stock [] products = products
  deduct_local_stock ((id, cantidad) ∷ items) products =
      deduct_local_stock items (deduct_one id cantidad products)

module _ {W : Type 0} (P : Table (LocalProduct W) (λ p. p.id)) where
  abbrev pub in_stock : String → LocalProduct W → Bool
  in_stock code p = str_eq p.codigo_barras code && ltb_ℤ (pos 0) p.stock

  -- `findCatalogProductByBarcode` of a code that is trimmed
  unfoldable pub find_by_barcode : String → P.Store → Option (LocalProduct W)
  find_by_barcode code products =
      if str_eq code ""
      then none
      else elim (find (λ p. str_eq p.codigo_barras code) (P.rows products)) [
        | none ↦ find (in_stock code) (P.rows products)
        | some p ↦ if ltb_ℤ (pos 0) p.stock then some p else find (in_stock code) (P.rows products)
      ]
