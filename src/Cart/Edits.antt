-- ===== src/Cart/Edits.antt =====
-- The actions of frontend/src/store/useCartStore.ts that change, discount, empty or select lines.
use Prim.Native.String.{String}
use blend_pos.Prelude.{
  ℕ, Bool, false, not, ◌&&◌, ◌||◌, Option, none, some, List, [], map, ◌==◌, if◌then◌else◌, get_or,
  length, get_elem?, filter, any, find, ℤ, pos, negsuc, ◌+ℤ◌, ◌-ℤ◌, ltb_ℤ, leb_ℤ, min_ℤ, max_ℤ,
}
use blend_pos.Number.{Number, num}
use blend_pos.Cart.{
  CartItem, CartState, Notice, has_id, Record, same_name, effective_pct, line_price,
  compute_total_con_descuento, with_cart, stock_insuficiente,
}

module _ {W : Type 0} ⦃d : Number W⦄ where
  -- the timer that `addItem` starts
  unfoldable pub expire_last_added : ℕ → CartState W → CartState W
  expire_last_added id s = elim s.last_added [
    | none ↦ s
    | some c ↦ if c.id == id then record s { last_added = none } else s
  ]

  unfoldable pub remove_item : ℕ → CartState W → CartState W
  remove_item id s =
      let cart = filter (λ c. not (has_id id c)) s.cart in
      record (with_cart cart s) {
        selected_row_index =
            max_ℤ (pos 0) (min_ℤ s.selected_row_index (pos (length cart) -ℤ pos 1));
      }

  unfoldable pub set_quantity : ℕ → ℤ → CartItem W → CartItem W
  set_quantity id cantidad c =
      if c.id == id
      then record c {
        cantidad = cantidad;
        subtotal = line_price cantidad c.precio (effective_pct c);
      }
      else c

  unfoldable pub name_of : ℕ → List (CartItem W) → Option String
  name_of id cart = elim (find (has_id id) cart) [ none ↦ none | some c ↦ some c.nombre ]

  -- `updateQuantity` of a whole quantity, with what `getLocalStock` answered
  unfoldable pub update_quantity : ℕ → ℤ → Option ℤ → CartState W → CartState W × Option Notice
  update_quantity id cantidad stock s =
      if leb_ℤ cantidad (pos 0) then (remove_item id s, none) else elim stock [
        | none ↦ (with_cart (map (set_quantity id cantidad) s.cart) s, none)
        | some local ↦
            if ltb_ℤ local cantidad
            then (s, some (stock_insuficiente (name_of id s.cart) local))
            else (with_cart (map (set_quantity id cantidad) s.cart) s, none)
      ]

  unfoldable pub discount_line : ℕ → W → CartItem W → CartItem W
  discount_line id descuento c = if not (c.id == id) then c else record c {
    descuento = descuento;
    subtotal = line_price c.cantidad c.precio (d.max descuento (get_or c.promo_descuento (num 0)));
  }

  unfoldable pub set_item_discount : ℕ → W → CartState W → CartState W
  set_item_discount id descuento s = with_cart (map (discount_line id descuento) s.cart) s

  -- `c.promoDescuento === pct && c.promoNombre === name`
  abbrev pub same_pct : Option W → W → Bool
  same_pct none pct = false
  same_pct (some p) pct = d.eq p pct

  unfoldable pub same_promo : W → Option String → CartItem W → Bool
  same_promo pct name c = same_pct c.promo_descuento pct && same_name c.promo_nombre name

  -- one round of the `map` in `setPromoDiscounts`
  unfoldable pub promo_line : Record W → Record String → CartItem W → CartItem W
  promo_line pcts names c =
      let pct = get_or (pcts c.id) (num 0) in
      if same_promo pct (names c.id) c then c else record c {
        promo_descuento = some pct;
        promo_nombre = names c.id;
        subtotal = line_price c.cantidad c.precio (d.max c.descuento pct);
      }

  -- the variable `changed`
  unfoldable pub promo_changes : Record W → Record String → List (CartItem W) → Bool
  promo_changes pcts names = any λ c. not (same_promo (get_or (pcts c.id) (num 0)) (names c.id) c)

  unfoldable pub set_promo_discounts : Record W → Record String → CartState W → CartState W
  set_promo_discounts pcts names s =
      if not (promo_changes pcts names s.cart)
      then s
      else with_cart (map (promo_line pcts names) s.cart) s

  unfoldable pub set_global_discount : W → CartState W → CartState W
  set_global_discount descuento s = record s {
    descuento_global = descuento;
    total_con_descuento = compute_total_con_descuento s.total descuento;
  }

  unfoldable pub clear_cart : CartState W → CartState W
  clear_cart s = record s {
    cart = [];
    total = num 0;
    descuento_global = num 0;
    total_con_descuento = num 0;
    last_added = none;
    selected_row_index = negsuc 0;
  }

  unfoldable pub set_selected_row_index : ℤ → CartState W → CartState W
  set_selected_row_index index s = record s { selected_row_index = index }

  unfoldable pub move_selection_up : CartState W → CartState W
  move_selection_up s = if length s.cart == 0 then s else record s {
    selected_row_index =
        if leb_ℤ s.selected_row_index (pos 0)
        then pos (length s.cart) -ℤ pos 1
        else s.selected_row_index -ℤ pos 1;
  }

  unfoldable pub move_selection_down : CartState W → CartState W
  move_selection_down s = if length s.cart == 0 then s else record s {
    selected_row_index =
        if leb_ℤ (pos (length s.cart) -ℤ pos 1) s.selected_row_index
        then pos 0
        else s.selected_row_index +ℤ pos 1;
  }

  -- `cart[i]`
  abbrev pub item_at : ℤ → List (CartItem W) → Option (CartItem W)
  item_at (pos i) cart = get_elem? cart i
  item_at (negsuc _) cart = none

  unfoldable pub selected_item : CartState W → Option (CartItem W)
  selected_item s = item_at s.selected_row_index s.cart

  unfoldable pub remove_selected_item : CartState W → CartState W
  remove_selected_item s =
      if (length s.cart == 0) || ltb_ℤ s.selected_row_index (pos 0)
      then s
      else elim (selected_item s) [ none ↦ s | some c ↦ remove_item c.id s ]
