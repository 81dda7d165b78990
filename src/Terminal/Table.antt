-- ===== src/Terminal/Table.antt =====
-- The rows that frontend/src/components/pos/SalesTable.tsx shows of a cart: the complete combos of the
-- active promotions, and the units that no combo takes.
pub mod Combos
pub mod Units
use Prim.Native.Nat.{min}
use blend_pos.Prelude.{
  ℕ, suc, ◌+◌, ◌*◌, ◌/◌, Option, none, some, List, [], ◌∷◌, ◌++◌, map, foldl, Bool, true, false,
  not, ◌||◌, ◌==◌, if◌then◌else◌, get_or, find, includes, ℤ, pos, pos_part, ◌-ℤ◌, leb_ℤ, ltb_ℤ,
  ◌+ℤ◌,
}
use blend_pos.Number.{Number, num}
use blend_pos.Cart.{CartItem, Record, has_id, effective_pct}
use blend_pos.Cart.Actions
use blend_pos.Cart.Actions.{Action}
use blend_pos.Promotions.{
  Promocion, PromocionProducto, TipoPromocion, porcentaje, monto_fijo, precio_fijo_combo,
  at_least_one, assign, all, nat,
}

pub record ComboRow (W : Type 0) : Type 0 where
  pub promo : Promocion W
  pub sets : ℕ
  pub units_each : ℕ
  -- the lines, with the units that the combo takes of each
  pub items : List (CartItem W × ℕ)
  pub total_sin_descuento : W
  pub total_con_descuento : W

pub record IndividualRow (W : Type 0) : Type 0 where
  pub cart_item : CartItem W
  pub display_qty : ℤ
  pub subtotal : W
  pub cart_index : ℕ
  pub is_combo_product : Bool

pub data DisplayRow (W : Type 0) : Type 0 where
  combo : ComboRow W → DisplayRow W
  individual : IndividualRow W → DisplayRow W

-- the variables of `buildDisplayRows`
pub record Pool (W : Type 0) : Type 0 where
  pub remaining : Record ℤ
  pub combo_product_ids : List ℕ
  pub rows : List (DisplayRow W)

-- `remaining[id] ?? 0`
abbrev pub left : Record ℤ → ℕ → ℤ
left remaining id = get_or (remaining id) (pos 0)

module _ {W : Type 0} where
  unfoldable pub remaining_of : Record ℤ → List (CartItem W) → Record ℤ
  remaining_of r [] = r
  remaining_of r (c ∷ cs) = remaining_of (assign c.id c.cantidad r) cs

  abbrev pub product_keys : List (PromocionProducto W) → List ℕ
  product_keys = map λ p. p.id

  -- `Math.floor(Math.min(...))` of the quotients: the sets that the scarcest product allows
  unfoldable pub least_sets : Record ℤ → ℕ → PromocionProducto W → List (PromocionProducto W) → ℕ
  least_sets r n p [] = pos_part (left r p.id) / n
  least_sets r n p (q ∷ qs) = min (pos_part (left r p.id) / n) (least_sets r n q qs)

  unfoldable pub with_found :
      Option (CartItem W) → ℕ → List (CartItem W × ℕ) → List (CartItem W × ℕ)
  with_found none qty items = items
  with_found (some c) qty items = (c, qty) ∷ items

  unfoldable pub combo_items :
      List (CartItem W) → ℕ → List (PromocionProducto W) → List (CartItem W × ℕ)
  unfolding with_found
  combo_items cart qty [] = []
  combo_items cart qty (p ∷ ps) = with_found (find (has_id p.id) cart) qty (combo_items cart qty ps)

  unfoldable pub consume : ℕ → List (PromocionProducto W) → Record ℤ → Record ℤ
  consume qty [] r = r
  consume qty (p ∷ ps) r = consume qty ps (assign p.id (left r p.id -ℤ pos qty) r)

  unfoldable pub first_pool : List (CartItem W) → Pool W
  unfolding remaining_of
  first_pool cart = record {
    remaining = remaining_of (λ _. none) cart;
    combo_product_ids = [];
    rows = [];
  }

module _ {W : Type 0} ⦃d : Number W⦄ where
  unfoldable pub value_of_items : List (CartItem W × ℕ) → W
  value_of_items = foldl (λ sum x. d.add sum (d.mul x.0.precio (nat x.1))) (num 0)

  unfoldable pub discounted_total : TipoPromocion → W → ℕ → W → W
  discounted_total porcentaje valor sets total = d.mul total (d.sub (num 1) (d.div valor (num 100)))
  discounted_total monto_fijo valor sets total =
      d.max (num 0) (d.sub total (d.mul (nat sets) valor))
  discounted_total precio_fijo_combo valor sets total =
      d.max (num 0) (d.sub total (d.mul (nat sets) valor))

  unfoldable pub combo_row :
      List (CartItem W) → Promocion W → ℕ → ℕ → List (PromocionProducto W) → ComboRow W
  unfolding combo_items value_of_items discounted_total
  combo_row cart promo sets n ps =
      let items = combo_items cart (sets * n) ps in
      let total = value_of_items items in
      record {
        promo = promo;
        sets = sets;
        units_each = n;
        items = items;
        total_sin_descuento = total;
        total_con_descuento = discounted_total promo.tipo promo.valor sets total;
      }

  -- a combo whose products are all there
  unfoldable pub take_sets :
      List (CartItem W) → Promocion W → ℕ → ℕ → List (PromocionProducto W) → Pool W → Pool W
  unfolding combo_row consume
  take_sets cart promo sets n ps pool = if sets == 0 then pool else record {
    remaining = consume (sets * n) ps pool.remaining;
    combo_product_ids = pool.combo_product_ids ++ product_keys ps;
    rows = pool.rows ++ (combo (combo_row cart promo sets n ps) ∷ []);
  }

  -- a promotion of several products
  unfoldable pub scan_products :
      List (CartItem W) → Promocion W → ℕ → List (PromocionProducto W) → Pool W → Pool W
  unfolding take_sets least_sets
  scan_products cart promo n (p ∷ q ∷ ps) pool =
      if all (λ x. leb_ℤ (pos n) (left pool.remaining x.id)) (p ∷ q ∷ ps)
      then take_sets cart promo (least_sets pool.remaining n p (q ∷ ps)) n (p ∷ q ∷ ps) pool
      else pool
  scan_products cart promo n (p ∷ []) pool = pool
  scan_products cart promo n [] pool = pool

  unfoldable pub scan_promo : List (CartItem W) → Pool W → Promocion W → Pool W
  unfolding scan_products
  scan_promo cart pool promo =
      if promo.activa
      then scan_products cart promo (at_least_one (get_or promo.cantidad_requerida (pos 1)))
          promo.productos pool
      else pool

  unfoldable pub individual_row : Pool W → ℕ → CartItem W → IndividualRow W
  individual_row pool index item =
      let qty = left pool.remaining item.id in
      let in_combo = includes item.id pool.combo_product_ids in
      let pct = if in_combo then item.descuento else effective_pct item in
      record {
        cart_item = item;
        display_qty = qty;
        subtotal = d.mul (d.mul (d.of_ℤ qty) item.precio) (d.sub (num 1) (d.div pct (num 100)));
        cart_index = index;
        is_combo_product = in_combo;
      }

  unfoldable pub individual_rows : Pool W → ℕ → List (CartItem W) → List (DisplayRow W)
  unfolding individual_row
  individual_rows pool index [] = []
  individual_rows pool index (c ∷ cs) =
      let rest = individual_rows pool (suc index) cs in
      if leb_ℤ (left pool.remaining c.id) (pos 0)
      then rest
      else individual (individual_row pool index c) ∷ rest

  unfoldable pub build_display_rows : List (CartItem W) → List (Promocion W) → List (DisplayRow W)
  unfolding scan_promo individual_rows first_pool
  build_display_rows cart promociones =
      let pool = foldl (scan_promo cart) (first_pool cart) promociones in
      pool.rows ++ individual_rows pool 0 cart

  -- What the buttons of the rows call: `removeItem` when no unit is left, `updateQuantity` otherwise,
  -- with the stock that it is going to find.
  unfoldable pub set_units : Option ℤ → CartItem W → ℤ → Action W
  set_units stock c n = if leb_ℤ n (pos 0) then Actions.remove c.id else Actions.update c.id n stock

  unfoldable pub handle_delete_individual : Option ℤ → IndividualRow W → Action W
  unfolding set_units
  handle_delete_individual stock row =
      set_units stock row.cart_item (row.cart_item.cantidad -ℤ row.display_qty)

  unfoldable pub handle_delete_combo : Option ℤ → ComboRow W → List (Action W)
  unfolding set_units
  handle_delete_combo stock row = map (λ x. set_units stock x.0 (x.0.cantidad -ℤ pos x.1)) row.items

  -- The field that edits the units of a row: the units in combos stay, the others become `val`, a whole
  -- number, or `none` when the text is no number.
  unfoldable pub commit_edit : Option ℤ → ℕ → ℤ → ℤ → Option ℤ → Option (Action W)
  commit_edit none id current_total display_qty stock = none
  commit_edit (some val) id current_total display_qty stock =
      if ltb_ℤ (pos 0) val
      then some (Actions.update id ((current_total -ℤ display_qty) +ℤ val) stock)
      else none
