-- ===== src/Offline/Catalog/Sold.antt =====
-- `confirmSale` (frontend/src/store/useSaleStore.ts) and the local stock (offline/catalog.ts) together.
use blend_pos.Prelude.{
  ℕ, ◌≡◌, ◌∙◌, refl, ap, List, [], ◌∷◌, foldl, ◌==◌, ℤ, pos, ◌+ℤ◌, Bool-cases, inl, inr, int_laws,
  ==_iff,
}
use blend_pos.Number.{Number, HasUnits}
use blend_pos.Cart.{CartItem, quantity_in}
use blend_pos.Cart.Lines.{Absent, Unique}
use blend_pos.Cart.Actions.{Action, run}
use blend_pos.Cart.Totals.{run-IsValid}
use blend_pos.Sale.Store.{
  Effect, enqueue_sale, deduct_local_stock, deducted, confirm_sale, SaleState, Pago, Moment,
}
use blend_pos.Offline.Db.{LocalProduct}
use blend_pos.Offline.Table.{Table}
use blend_pos.Offline.Catalog
use blend_pos.Offline.Catalog.{SyncMeta}
use blend_pos.Offline.Catalog.Stock.{sold, less, get-deduct_local_stock}

add_zero : (m : ℤ) → m +ℤ pos 0 ≡ m
add_zero m = omega int_laws

add_left : (m : ℤ) → pos 0 +ℤ m ≡ m
add_left m = omega int_laws

module _ {W : Type 0} ⦃d : Number W⦄ where
  sold-Absent : (k : ℕ) (cart : List (CartItem W)) → Absent k cart → sold k (deducted cart) ≡ pos 0
  unfolding deducted
  sold-Absent k [] h = refl
  sold-Absent k (c ∷ cart) (away, h) = rw (away, sold-Absent k cart h) (add_left (pos 0))

  -- in a cart that holds a product once, the sold units of a product are its quantity
  sold-deducted :
      (k : ℕ) (cart : List (CartItem W)) → Unique cart → sold k (deducted cart) ≡ quantity_in k cart
  unfolding deducted quantity_in
  sold-deducted k [] u = refl
  sold-deducted k (c ∷ cart) (away, u) = elim (Bool-cases (c.id == k)) [
    | inl same ↦
        let absent : Absent k cart = rw ((==_iff c.id k).0 same) at away in
        rw (quantity_in, same, sold-Absent k cart absent) (add_zero c.cantidad)
    | inr other ↦ rw (quantity_in, other, add_left) (sold-deducted k cart u)
  ]

module _ {W : Type 0} ⦃d : Number W⦄ (P : Table (LocalProduct W) (λ p. p.id))
    (M : Table SyncMeta (λ m. m.key)) where
  -- what the calls that a sale starts do to the catalog
  unfoldable pub on_products : P.Store → Effect W → P.Store
  on_products products (enqueue_sale _) = products
  on_products products (deduct_local_stock items) = Catalog.deduct_local_stock P M items products

  -- Whatever actions have built the cart, confirming its sale lowers the local stock of each product
  -- in the catalog by the quantity that the cart holds of it, and touches no other product.
  pub sale_takes_stock :
      ⦃u : HasUnits W⦄ (actions : List (Action W)) (now : Moment) (pago : Pago W) (s : SaleState W)
      (k : ℕ) (products : P.Store)
      → P.get k (foldl on_products products (confirm_sale now pago (run actions) s).effects)
        ≡ less (quantity_in k (run actions).cart) (P.get k products)
  unfolding confirm_sale on_products
  sale_takes_stock actions now pago s k products =
      get-deduct_local_stock P M k (deducted (run actions).cart) products
      ∙ ap (λ (n : ℤ). less n (P.get k products))
          (sold-deducted k (run actions).cart (run-IsValid actions).lines.1)
