-- ===== src/Offline/Catalog/Sync.antt =====
-- What a synchronisation leaves in the local catalog (frontend/src/offline/catalog.ts), and how it
-- stops the sale of a product that was deactivated (frontend/src/store/useCartStore.ts).
use blend_pos.Prelude.{
  ℕ, ◌≡◌, ◌≢◌, refl, Option, none, some, List, [], ◌∷◌, ◌++◌, map, filter, arith, true, false, ◌==◌,
  if◌then◌else◌, pos, includes,
}
use blend_pos.Number.{Number}
use blend_pos.Cart.{CartState, RawItem, add_item, sin_stock}
use blend_pos.Offline.Db.{LocalProduct}
use blend_pos.Offline.Table.{Table, bulk_put}
use blend_pos.Offline.Catalog.{
  ApiProduct, ApiReply, SyncMeta, ids, seed_row, delta_row, seed_catalog, delta_rows,
  delta_sync_catalog, get_last_sync_at, set_last_sync_at, last_sync_key, get_local_stock,
}

-- the last row with a key
abbrev pub last_row : {W : Type 0} → ℕ → List (LocalProduct W) → Option (LocalProduct W)
last_row k [] = none
last_row k (r ∷ rs) = elim (last_row k rs) [
  | some x ↦ some x
  | none ↦ if r.id == k then some r else none
]

-- `o ?? p`
abbrev pub or_else {ℓ} : {A : Type ℓ} → Option A → Option A → Option A
or_else none p = p
or_else (some a) p = some a

module _ {W : Type 0} ⦃d : Number W⦄ (P : Table (LocalProduct W) (λ p. p.id))
    (M : Table SyncMeta (λ m. m.key)) where
  get-bulk_put :
      (k : ℕ) (rs : List (LocalProduct W)) (products : P.Store)
      → P.get k (bulk_put P rs products) ≡ or_else (last_row k rs) (P.get k products)
  unfolding bulk_put
  get-bulk_put k [] products = refl
  get-bulk_put k (r ∷ rs) products =
      ground (arith, get-bulk_put k rs (P.put r products), P.get-put k r products)

  -- A full download that succeeds leaves exactly the active products that the backend listed, each as
  -- it was listed last, and notes the time; it succeeds when the backend lists a product at all.
  pub seed_catalog_effect :
      (rows : List (ApiProduct W)) (now : ℕ) (products : P.Store) (meta : M.Store)
      → rows ≢ []
      → let (products', meta', changed) = seed_catalog P M (some (some rows)) now products meta in
        ((k : ℕ) → P.get k products' ≡ last_row k (map seed_row (filter (λ p. p.activo) rows)))
        × (get_last_sync_at P M meta' ≡ some now)
        × (changed ≡ true)
  unfolding seed_catalog get_last_sync_at set_last_sync_at
  seed_catalog_effect [] now products meta h = absurd (h refl)
  seed_catalog_effect (r ∷ rs) now products meta h = (
    λ k. ground (
      arith,
      get-bulk_put k (map seed_row (filter (λ p. p.activo) (r ∷ rs))) (P.clear products),
      P.get-clear k products,
    ),
    ground (arith, M.get-put last_sync_key (record { key = last_sync_key; value = now }) meta),
    refl,
  )

  last_row-absent :
      (k : ℕ) (ps : List (ApiProduct W))
      → includes k (ids ps) ≡ false
      → last_row k (map delta_row ps) ≡ none
  unfolding delta_row
  last_row-absent k [] h = refl
  last_row-absent k (p ∷ ps) h = ground (arith, last_row-absent k ps)

  delta_rows-get :
      (k : ℕ) (rows : List (ApiProduct W)) (start : ℕ) (products : P.Store) (meta : M.Store)
      → P.get k (delta_rows P M (some (some rows)) start products meta).0
        ≡ or_else (last_row k (map delta_row rows)) (P.get k products)
  unfolding delta_rows
  delta_rows-get k [] start products meta = refl
  delta_rows-get k (r ∷ rs) start products meta = get-bulk_put k (map delta_row (r ∷ rs)) products

  last_row-after :
      (front back : List (ApiProduct W)) (p : ApiProduct W)
      → includes p.id (ids back) ≡ false
      → last_row p.id (map delta_row (front ++ (p ∷ back))) ≡ some (delta_row p)
  unfolding delta_row
  last_row-after [] back p h = ground (arith, last_row-absent p.id back)
  last_row-after (r ∷ front) back p h = ground (arith, last_row-after front back p h)

  deactivated_stock :
      (full : ApiReply W) (front back : List (ApiProduct W)) (p : ApiProduct W) (start now last : ℕ)
      (products : P.Store) (meta : M.Store)
      → get_last_sync_at P M meta ≡ some last
      → p.activo ≡ false
      → includes p.id (ids back) ≡ false
      → let answer : ApiReply W = some (some (front ++ (p ∷ back))) in
        let (products', _, _) = delta_sync_catalog P M full answer start now products meta in
        get_local_stock P M p.id products' ≡ pos 0
  unfolding delta_sync_catalog get_local_stock delta_row
  deactivated_stock full front back p start now last products meta known off later = ground (
    arith,
    delta_rows-get p.id (front ++ (p ∷ back)) start products meta,
    last_row-after front back p later,
  )

  -- Once a later synchronisation has brought the news that a product was deactivated (its last row
  -- in the answer says so), the product has no local stock, and `addItem` refuses it with the notice
  -- that there is none, whatever the cart holds.
  pub deactivated_refused :
      (full : ApiReply W) (front back : List (ApiProduct W)) (p : ApiProduct W) (start now last : ℕ)
      (products : P.Store) (meta : M.Store) (raw : RawItem W) (s : CartState W)
      → get_last_sync_at P M meta ≡ some last
      → p.activo ≡ false
      → includes p.id (ids back) ≡ false
      → raw.id ≡ p.id
      → let answer : ApiReply W = some (some (front ++ (p ∷ back))) in
        let (products', _, _) = delta_sync_catalog P M full answer start now products meta in
        (get_local_stock P M raw.id products' ≡ pos 0)
        × (add_item raw (some (get_local_stock P M raw.id products')) s
            ≡ (s, some (sin_stock raw.nombre)))
  unfolding add_item
  deactivated_refused full front back p start now last products meta raw s known off later same =
      let stock =
        deactivated_stock full front back p start now last products meta known off later in
      (rw same stock, rw (same, stock) refl)
