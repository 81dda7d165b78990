-- ===== src/Admin/Dashboard/Sums.antt =====
-- The counts of frontend/src/pages/admin/DashboardPage.tsx add up to the sales of the period.
use Prim.Native.String.{String}
use text.Mathlib.Text.{◌==◌ as str_eq}
use blend_pos.Prelude.{
  ℕ, zero, suc, ◌+◌, ◌<◌, ◌≡◌, refl, ◌∙◌, List, [], ◌∷◌, foldl, All, ◌==◌, length, arith,
  Bool-cases, inl, inr, ℤ, pos, ◌+ℤ◌, int_laws,
}
use blend_pos.Number.{Number}
use blend_pos.Cart.{map_at}
use blend_pos.Admin.Dashboard.{
  Venta, VentaItem, Slot, ProductSum, repeated, count_sale, no_sales, add_method,
  metodo_pago_totals, ventas_por_hora_base, ventas_por_hora, add_product, productos_map,
  items_vendidos,
}
use blend_pos.Admin.Dashboard.Hours.{tickets, tickets-slice}

module _ {W : Type 0} ⦃d : Number W⦄ where
  tickets-count_sale :
      (total : W) (h : ℕ) (ss : List (Slot W))
      → h < length ss
      → (tickets (map_at (count_sale total) h ss) ≡ suc (tickets ss))
        × (length (map_at (count_sale total) h ss) ≡ length ss)
  unfolding map_at count_sale
  tickets-count_sale total h [] k = absurd (omega (arith, k))
  tickets-count_sale total zero (s ∷ ss) k = (omega arith, refl)
  tickets-count_sale total (suc h) (s ∷ ss) k =
      let (sum, size) = tickets-count_sale total h ss (omega (arith, k)) in
      (omega (arith, sum), omega (arith, size))

  tickets-base :
      (vs : List (Venta W)) (ss : List (Slot W))
      → length ss ≡ 24
      → All (λ v. v.hour < 24) vs
      → let base = foldl (λ slots v. map_at (count_sale v.total) v.hour slots) ss vs in
        (tickets base ≡ length vs + tickets ss) × (length base ≡ 24)
  tickets-base [] ss size h = (omega arith, size)
  tickets-base (v ∷ vs) ss size (h, hs) =
      let (one, same) = tickets-count_sale v.total v.hour ss (omega (arith, h, size)) in
      let (sum, kept) = tickets-base vs (map_at (count_sale v.total) v.hour ss) (same ∙ size) hs in
      (omega (arith, sum, one), kept)

  abbrev pub counted : List (String × Slot W) → ℕ
  counted [] = 0
  counted ((m, s) ∷ acc) = s.tickets + counted acc

  counted-add_method :
      (m : String) (total : W) (acc : List (String × Slot W))
      → counted (add_method m total acc) ≡ suc (counted acc)
  unfolding add_method count_sale
  counted-add_method m total [] = omega arith
  counted-add_method m total ((n, s) ∷ acc) = elim (Bool-cases (str_eq n m)) [
    | inl same ↦ rw same (omega arith)
    | inr other ↦ rw other (omega (arith, counted-add_method m total acc))
  ]

  counted-methods :
      (vs : List (Venta W)) (acc : List (String × Slot W))
      → counted (foldl (λ a v. add_method v.metodo_pago v.total a) acc vs) ≡ length vs + counted acc
  counted-methods [] acc = omega arith
  counted-methods (v ∷ vs) acc =
      let rest = counted-methods vs (add_method v.metodo_pago v.total acc) in
      omega (arith, rest, counted-add_method v.metodo_pago v.total acc)

  -- the units of all items of some sales
  abbrev pub units_of_items : List (VentaItem W) → ℤ
  units_of_items [] = pos 0
  units_of_items (i ∷ is) = i.cantidad +ℤ units_of_items is

  abbrev pub units_of_sales : List (Venta W) → ℤ
  units_of_sales [] = pos 0
  units_of_sales (v ∷ vs) = units_of_items v.items +ℤ units_of_sales vs

  abbrev units_of_products : List (ℕ × ProductSum W) → ℤ
  units_of_products [] = pos 0
  units_of_products ((k, p) ∷ acc) = p.cantidad +ℤ units_of_products acc

  items_vendidos-units :
      (x : ℤ) (acc : List (ℕ × ProductSum W))
      → foldl (λ s (y : ℕ × ProductSum W). s +ℤ y.1.cantidad) x acc ≡ x +ℤ units_of_products acc
  items_vendidos-units x [] = omega int_laws
  items_vendidos-units x ((k, p) ∷ acc) =
      items_vendidos-units (x +ℤ p.cantidad) acc ∙ omega int_laws

  add_product-units :
      (i : VentaItem W) (acc : List (ℕ × ProductSum W))
      → units_of_products (add_product i acc) ≡ i.cantidad +ℤ units_of_products acc
  unfolding add_product
  add_product-units i [] = omega int_laws
  add_product-units i ((k, p) ∷ acc) = elim (Bool-cases (k == i.producto)) [
    | inl same ↦ rw same (omega int_laws)
    | inr other ↦ rw (other, add_product-units i acc) (omega int_laws)
  ]

  add_items-units :
      (is : List (VentaItem W)) (acc : List (ℕ × ProductSum W))
      → units_of_products (foldl (λ a i. add_product i a) acc is)
        ≡ units_of_items is +ℤ units_of_products acc
  add_items-units [] acc = omega int_laws
  add_items-units (i ∷ is) acc =
      rw (add_items-units is (add_product i acc), add_product-units i acc) (omega int_laws)

  add_sales-units :
      (vs : List (Venta W)) (acc : List (ℕ × ProductSum W))
      → units_of_products (foldl (λ a v. foldl (λ b i. add_product i b) a v.items) acc vs)
        ≡ units_of_sales vs +ℤ units_of_products acc
  add_sales-units [] acc = omega int_laws
  add_sales-units (v ∷ vs) acc =
      let next = foldl (λ b i. add_product i b) acc v.items in
      rw (add_sales-units vs next, add_items-units v.items acc) (omega int_laws)

  -- The dashboard leaves no sale out: the tickets of the hours that the chart shows, and the counts of
  -- the methods of payment, each add up to the number of sales, and the units that it counts as sold
  -- are those of all items of all sales, if every hour is below 24.
  pub dashboard_adds_up :
      (vs : List (Venta W))
      → All (λ v. v.hour < 24) vs
      → (tickets (ventas_por_hora vs) ≡ length vs)
        × (counted (metodo_pago_totals vs) ≡ length vs)
        × (items_vendidos (productos_map vs) ≡ units_of_sales vs)
  unfolding ventas_por_hora ventas_por_hora_base metodo_pago_totals items_vendidos productos_map
      repeated
  dashboard_adds_up vs h =
      let (sum, size) = tickets-base vs (repeated 24 no_sales) refl h in
      let base =
        foldl (λ slots v. map_at (count_sale v.total) v.hour slots) (repeated 24 no_sales) vs in
      (
        tickets-slice _ base size refl ∙ sum ∙ omega arith,
        counted-methods vs [] ∙ omega arith,
        items_vendidos-units (pos 0) (productos_map vs)
            ∙ rw (add_sales-units vs []) (omega int_laws),
      )
