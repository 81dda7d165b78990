-- ===== src/Promotions.antt =====
-- frontend/src/store/usePromocionesStore.ts: which discounts the active promotions give a cart.
-- Quantities are the positive quantities of cart lines, so naturals; `Math.floor` of a quotient of
-- two of them is the natural quotient. Prices and percentages are of an abstract number type.
pub mod Store
pub mod Groups
pub mod Compute
pub mod Bounds
pub mod Shares
pub mod Results
use Prim.Native.Nat.{min}
use Prim.Native.String.{String}
use blend_pos.Prelude.{
  ℕ, zero, suc, ◌+◌, ◌-◌, ◌*◌, ◌/◌, Option, none, some, List, [], ◌∷◌, map, foldl, Bool, true,
  false, ◌&&◌, ◌==◌, ltb, if◌then◌else◌, get_or, includes, ℤ, pos, pos_part, max_ℤ,
}
use blend_pos.Number.{Number, num}
use blend_pos.Cart.{Record}

pub data TipoPromocion : Type 0 where
  porcentaje monto_fijo precio_fijo_combo : TipoPromocion

pub data ModoPromocion : Type 0 where
  clasico grupos : ModoPromocion

pub record PromocionProducto (W : Type 0) : Type 0 where
  pub id : ℕ
  pub nombre : String
  pub precio_venta : W

pub record Grupo (W : Type 0) : Type 0 where
  pub cantidad_requerida : ℤ
  pub productos : List (PromocionProducto W)

-- the fields of `PromocionResponse` that the store reads
pub record Promocion (W : Type 0) : Type 0 where
  pub nombre : String
  pub tipo : TipoPromocion
  pub valor : W
  pub modo : ModoPromocion
  pub cantidad_requerida : Option ℤ
  pub activa : Bool
  pub productos : List (PromocionProducto W)
  pub grupos : List (Grupo W)

-- what `computePromoDescuentos` is given
pub record CartView (W : Type 0) : Type 0 where
  pub ids : List ℕ
  pub prices : Record W
  pub quantities : Record ℕ

-- `descuentos` and `promoNombres`
pub record Discounts (W : Type 0) : Type 0 where
  pub pcts : Record W
  pub names : Record String

-- `Math.max(1, n)`
abbrev pub at_least_one : ℤ → ℕ
at_least_one n = pos_part (max_ℤ (pos 1) n)

-- `record[k] = v`
abbrev pub assign {ℓ} : {V : Type ℓ} → ℕ → V → Record V → Record V
assign k v r j = if k == j then some v else r j

abbrev pub all {ℓ} : {A : Type ℓ} → (A → Bool) → List A → Bool
all p [] = true
all p (x ∷ xs) = p x && all p xs

abbrev pub is_nil {ℓ} : {A : Type ℓ} → List A → Bool
is_nil [] = true
is_nil (_ ∷ _) = false

module _ {W : Type 0} ⦃d : Number W⦄ where
  abbrev pub nat : ℕ → W
  nat n = d.of_ℤ (pos n)

  abbrev pub no_discounts : Discounts W
  no_discounts = record { pcts = λ _. none; names = λ _. none }

  -- The larger discount of two promotions for one product stays.
  unfoldable pub apply_discount : ℕ → W → String → Discounts W → Discounts W
  apply_discount id pct name ds =
      let new = d.min (num 100) (d.max (num 0) pct) in
      if d.lt (get_or (ds.pcts id) (num 0)) new
      then record { pcts = assign id new ds.pcts; names = assign id name ds.names }
      else ds

  abbrev pub quantity : CartView W → ℕ → ℕ
  quantity v id = get_or (v.quantities id) 0

  abbrev pub price : CartView W → PromocionProducto W → W
  price v p = get_or (v.prices p.id) p.precio_venta

  -- `price > 0 ? (discount / (price * qty)) * 100 : 0`
  unfoldable pub share_of_line : W → W → ℕ → W
  share_of_line discount price qty =
      if d.lt (num 0) price then d.mul (d.div discount (d.mul price (nat qty))) (num 100) else num 0

  -- the percentage of a promotion on one product, from `sets` complete sets of `n` units
  unfoldable pub single_pct : TipoPromocion → W → W → ℕ → ℕ → ℕ → W
  single_pct porcentaje valor price qty sets n = d.mul valor (d.div (nat (sets * n)) (nat qty))
  single_pct precio_fijo_combo valor price qty sets n =
      share_of_line (d.max (num 0) (d.sub (d.mul price (nat (sets * n))) (d.mul valor (nat sets))))
        price qty
  single_pct monto_fijo valor price qty sets n = share_of_line (d.mul (nat sets) valor) price qty

  -- a promotion on units of one product
  unfoldable pub apply_single :
      Promocion W → PromocionProducto W → CartView W → Discounts W → Discounts W
  apply_single promo p v ds =
      let n = at_least_one (get_or promo.cantidad_requerida (pos 1)) in
      let qty = quantity v p.id in
      let sets = qty / n in
      if includes p.id v.ids
      then if sets == 0
        then ds
        else apply_discount p.id (single_pct promo.tipo promo.valor (price v p) qty sets n)
            promo.nombre ds
      else ds

  -- `Math.floor(Math.min(...))` of the quotients; `none` is the infinite minimum of no quotient
  unfoldable pub complete_sets : CartView W → ℕ → List (PromocionProducto W) → Option ℕ
  complete_sets v n [] = none
  complete_sets v n (p ∷ ps) = elim (complete_sets v n ps) [
    | none ↦ some (quantity v p.id / n)
    | some m ↦ some (min (quantity v p.id / n) m)
  ]

  unfoldable pub combo_value : CartView W → ℕ → List (PromocionProducto W) → W
  combo_value v discounted =
      foldl (λ sum cp. d.add sum (d.mul (price v cp) (nat (min discounted (quantity v cp.id)))))
        (num 0)

  -- the part of a discount on a whole combo that falls to one product, as a percentage of its line
  unfoldable pub combo_share : W → W → W → ℕ → ℕ → W
  combo_share discount value price discounted qty =
      if d.lt (num 0) value && d.lt (num 0) price
      then d.mul
          (d.div (d.mul discount (d.div (d.mul price (nat discounted)) value))
            (d.mul price (nat qty)))
          (num 100)
      else num 0

  unfoldable pub combo_pct : TipoPromocion → W → W → W → ℕ → ℕ → ℕ → W
  combo_pct porcentaje valor value price qty sets n = d.mul valor (d.div (nat (sets * n)) (nat qty))
  combo_pct precio_fijo_combo valor value price qty sets n =
      combo_share (d.max (num 0) (d.sub value (d.mul valor (nat sets)))) value price (sets * n) qty
  combo_pct monto_fijo valor value price qty sets n =
      combo_share (d.mul (nat sets) valor) value price (sets * n) qty

  -- the loop over the products of a combo
  unfoldable pub apply_combo_lines :
      Promocion W → W → ℕ → ℕ → CartView W → List (PromocionProducto W) → Discounts W → Discounts W
  apply_combo_lines promo value sets n v [] ds = ds
  apply_combo_lines promo value sets n v (p ∷ ps) ds =
      let qty = quantity v p.id in
      apply_combo_lines promo value sets n v ps (
        if qty == 0
        then ds
        else apply_discount p.id (combo_pct promo.tipo promo.valor value (price v p) qty sets n)
            promo.nombre ds)

  -- a combo of several products, or of none
  unfoldable pub apply_combo : Promocion W → CartView W → Discounts W → Discounts W
  apply_combo promo v ds =
      let n = at_least_one (get_or promo.cantidad_requerida (pos 1)) in
      if all (λ p. includes p.id v.ids) promo.productos
      then elim (complete_sets v n promo.productos) [
        | none ↦ ds
        | some sets ↦
            if sets == 0
            then ds
            else apply_combo_lines promo (combo_value v (sets * n) promo.productos) sets n v
                promo.productos ds
      ]
      else ds
