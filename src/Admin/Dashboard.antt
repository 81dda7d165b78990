-- ===== src/Admin/Dashboard.antt =====
-- frontend/src/pages/admin/DashboardPage.tsx: what it computes of the sales of a period. The hour of a
-- sale is what `getHours` gives, a product is its identifier, and the sales are in the order of the
-- page, the newest first.
pub mod Hours
pub mod Sums
use Prim.Native.Nat.{min, max}
use Prim.Native.String.{String}
use text.Mathlib.Text.{◌==◌ as str_eq}
use blend_pos.Prelude.{
  ℕ, zero, suc, ◌+◌, ◌-◌, ◌==◌, Option, none, some, List, [], ◌∷◌, ◌++◌, map, foldl, filter, Bool,
  true, false, ◌&&◌, if◌then◌else◌, take, drop, ltb, ℤ, pos, ◌+ℤ◌, leb_ℤ, ltb_ℤ, length,
}
use blend_pos.Number.{Number, num, or_else}
use blend_pos.Cart.{RawPrice, as_number, as_text, map_at}

pub record VentaItem (W : Type 0) : Type 0 where
  pub producto : ℕ
  pub nombre : String
  pub cantidad : ℤ
  pub subtotal : W

-- a sale as the page reads it of the answer of the backend
pub record ApiVenta (W : Type 0) : Type 0 where
  pub hour : ℕ
  pub total : RawPrice W
  -- the methods of its payments
  pub pagos : List String
  pub items : List (VentaItem W)

pub record Venta (W : Type 0) : Type 0 where
  pub hour : ℕ
  pub total : W
  pub metodo_pago : String
  pub items : List (VentaItem W)

-- an entry of `ventasPorHora`, and of `metodoPagoTotals` after its key
pub record Slot (W : Type 0) : Type 0 where
  pub total : W
  pub tickets : ℕ

pub record ProductSum (W : Type 0) : Type 0 where
  pub nombre : String
  pub cantidad : ℤ
  pub total : W

-- `Array.from({ length: n }, …)`
unfoldable pub repeated {ℓ} : {A : Type ℓ} → ℕ → A → List A
repeated zero x = []
repeated (suc n) x = x ∷ repeated n x

-- `Math.min(...xs)` and `Math.max(...xs)`
unfoldable pub least : ℕ → List ℕ → ℕ
least x [] = x
least x (y ∷ ys) = min x (least y ys)

unfoldable pub greatest : ℕ → List ℕ → ℕ
greatest x [] = x
greatest x (y ∷ ys) = max x (greatest y ys)

-- `xs.slice(start, end + 1)`
abbrev pub slice {ℓ} : {A : Type ℓ} → ℕ → ℕ → List A → List A
slice start end xs = drop start (take (end + 1) xs)

-- `v.pagos[0]?.metodo ?? 'efectivo'`
unfoldable pub first_method : List String → String
first_method [] = "efectivo"
first_method (m ∷ ms) = m

module _ {W : Type 0} where
  -- `horasConVentas`, from the hour of the first slot
  unfoldable pub horas_con_ventas : ℕ → List (Slot W) → List ℕ
  horas_con_ventas i [] = []
  horas_con_ventas i (s ∷ ss) =
      let rest = horas_con_ventas (suc i) ss in if ltb 0 s.tickets then i ∷ rest else rest

  unfoldable pub shown_hours : List ℕ → List (Slot W) → List (Slot W)
  unfolding least greatest
  shown_hours [] base = slice 8 20 base
  shown_hours (h ∷ hs) base = slice (least h hs - 1) (min 23 (greatest h hs + 1)) base

module _ {W : Type 0} ⦃d : Number W⦄ where
  unfoldable pub parse_num : RawPrice W → W
  parse_num (as_number x) = x
  parse_num (as_text t) = or_else (d.parse_float t) (num 0)

  unfoldable pub venta_of : ApiVenta W → Venta W
  unfolding parse_num first_method
  venta_of v = record {
    hour = v.hour;
    total = parse_num v.total;
    metodo_pago = first_method v.pagos;
    items = v.items;
  }

  unfoldable pub total_hoy : List (Venta W) → W
  total_hoy = foldl (λ s v. d.add s v.total) (num 0)

  unfoldable pub ticket_prom : List (Venta W) → W
  unfolding total_hoy
  ticket_prom [] = num 0
  ticket_prom (v ∷ vs) = d.div (total_hoy (v ∷ vs)) (d.of_ℤ (pos (length (v ∷ vs))))

  unfoldable pub count_sale : W → Slot W → Slot W
  count_sale total s = record { total = d.add s.total total; tickets = suc s.tickets }

  abbrev pub no_sales : Slot W
  no_sales = record { total = num 0; tickets = 0 }

  unfoldable pub add_method : String → W → List (String × Slot W) → List (String × Slot W)
  unfolding count_sale
  add_method m total [] = (m, count_sale total no_sales) ∷ []
  add_method m total ((n, s) ∷ acc) =
      let rest = add_method m total acc in
      if str_eq n m then (n, count_sale total s) ∷ acc else (n, s) ∷ rest

  unfoldable pub metodo_pago_totals : List (Venta W) → List (String × Slot W)
  unfolding add_method
  metodo_pago_totals = foldl (λ acc v. add_method v.metodo_pago v.total acc) []

  unfoldable pub ventas_por_hora_base : List (Venta W) → List (Slot W)
  unfolding count_sale repeated map_at
  ventas_por_hora_base =
      foldl (λ slots v. map_at (count_sale v.total) v.hour slots) (repeated 24 no_sales)

  unfoldable pub ventas_por_hora : List (Venta W) → List (Slot W)
  unfolding ventas_por_hora_base horas_con_ventas shown_hours
  ventas_por_hora vs =
      let base = ventas_por_hora_base vs in shown_hours (horas_con_ventas 0 base) base

  unfoldable pub add_product : VentaItem W → List (ℕ × ProductSum W) → List (ℕ × ProductSum W)
  add_product i [] =
      (
        i.producto,
        record {
          nombre = i.nombre;
          cantidad = pos 0 +ℤ i.cantidad;
          total = d.add (num 0) i.subtotal;
        },
      )
      ∷ []
  add_product i ((k, p) ∷ acc) =
      let rest = add_product i acc in
      if k == i.producto
      then (
        k,
        record {
          nombre = p.nombre;
          cantidad = p.cantidad +ℤ i.cantidad;
          total = d.add p.total i.subtotal;
        },
      )
        ∷ acc
      else (k, p) ∷ rest

  unfoldable pub productos_map : List (Venta W) → List (ℕ × ProductSum W)
  unfolding add_product
  productos_map = foldl (λ acc v. foldl (λ a i. add_product i a) acc v.items) []

  unfoldable pub items_vendidos : List (ℕ × ProductSum W) → ℤ
  items_vendidos = foldl (λ s x. s +ℤ x.1.cantidad) (pos 0)

-- the alerts of the backend: the products without stock, and those at their minimum or below
pub record Alerta : Type 0 where
  pub stock_actual : ℤ
  pub stock_minimo : ℤ

unfoldable pub is_sin_stock : Alerta → Bool
is_sin_stock a = leb_ℤ a.stock_actual (pos 0) && leb_ℤ (pos 0) a.stock_actual

unfoldable pub is_stock_critico : Alerta → Bool
is_stock_critico a = ltb_ℤ (pos 0) a.stock_actual && leb_ℤ a.stock_actual a.stock_minimo
