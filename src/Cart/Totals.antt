-- ===== src/Cart/Totals.antt =====
-- The totals of the cart store are those of its lines, after every action.
use Prim.Native.String.{String}
use blend_pos.Prelude.{
  ℕ, ◌≡◌, refl, List, [], ◌∷◌, map, Option, none, some, arith, foldl, ℤ, pos, ◌≤ℤ◌, Option-cases,
  inl, inr,
}
use blend_pos.Number.{Number, HasUnits}
use blend_pos.Cart.{
  CartItem, RawItem, CartState, Record, with_cart, compute_total, compute_total_con_descuento,
  add_item, put_line, initial,
}
use blend_pos.Cart.Edits.{
  expire_last_added, remove_item, update_quantity, set_quantity, set_item_discount,
  set_promo_discounts, set_global_discount, clear_cart, set_selected_row_index, move_selection_up,
  move_selection_down, selected_item, remove_selected_item,
}
use blend_pos.Cart.Lines.{
  IsCart, IsCart-filter, add_line-IsCart, set_quantity-IsCart, discount_line-IsCart,
  promo_line-IsCart,
}
use blend_pos.Cart.Actions.{
  Action, apply, run, add, expire, remove, update, discount, promos, discount_all, clear, select,
  up, down, remove_selected,
}

module _ {W : Type 0} ⦃d : Number W⦄ where
  pub record IsValid (s : CartState W) : Type 0 where
    pub lines : IsCart s.cart
    pub total : s.total ≡ compute_total s.cart
    pub discounted :
        s.total_con_descuento
        ≡ compute_total_con_descuento (compute_total s.cart) s.descuento_global

  with_cart-IsValid :
      (cart : List (CartItem W)) (s : CartState W) → IsCart cart → IsValid (with_cart cart s)
  unfolding with_cart
  with_cart-IsValid cart s h = record { lines = h; total = refl; discounted = refl }

  module _ {s : CartState W} (v : IsValid s) where
    pub remove_item-IsValid : (id : ℕ) → IsValid (remove_item id s)
    unfolding remove_item with_cart
    remove_item-IsValid id = record {
      lines = IsCart-filter _ s.cart v.lines;
      total = refl;
      discounted = refl;
    }

    put_line-IsValid : ⦃u : HasUnits W⦄ → (raw : RawItem W) → IsValid (put_line raw s)
    unfolding put_line with_cart
    put_line-IsValid raw = record {
      lines = add_line-IsCart raw s.cart v.lines;
      total = refl;
      discounted = refl;
    }

    add_item-IsValid :
        ⦃u : HasUnits W⦄ → (raw : RawItem W) (stock : Option ℤ) → IsValid (add_item raw stock s).0
    unfolding add_item
    add_item-IsValid raw none = put_line-IsValid raw
    add_item-IsValid raw (some n) = ground (arith, put_line-IsValid raw)

    set_lines-IsValid :
        (id : ℕ) (n : ℤ) → pos 1 ≤ℤ n → IsValid (with_cart (map (set_quantity id n) s.cart) s)
    set_lines-IsValid id n p = with_cart-IsValid _ s (set_quantity-IsCart id n s.cart p v.lines)

    update_quantity-IsValid :
        (id : ℕ) (n : ℤ) (stock : Option ℤ) → IsValid (update_quantity id n stock s).0
    unfolding update_quantity
    update_quantity-IsValid id n none =
        ground (arith, remove_item-IsValid id, set_lines-IsValid id n)
    update_quantity-IsValid id n (some m) =
        ground (arith, remove_item-IsValid id, set_lines-IsValid id n)

    set_item_discount-IsValid : (id : ℕ) (pct : W) → IsValid (set_item_discount id pct s)
    unfolding set_item_discount
    set_item_discount-IsValid id pct =
        with_cart-IsValid _ s (discount_line-IsCart id pct s.cart v.lines)

    set_promo_discounts-IsValid :
        (pcts : Record W) (names : Record String) → IsValid (set_promo_discounts pcts names s)
    unfolding set_promo_discounts
    set_promo_discounts-IsValid pcts names =
        let changed = with_cart-IsValid _ s (promo_line-IsCart pcts names s.cart v.lines) in
        ground arith

    set_global_discount-IsValid : (pct : W) → IsValid (set_global_discount pct s)
    unfolding set_global_discount
    set_global_discount-IsValid pct = record {
      lines = v.lines;
      total = v.total;
      discounted = rw v.total;
    }

    remove_selected_item-IsValid : IsValid (remove_selected_item s)
    unfolding remove_selected_item
    remove_selected_item-IsValid = elim (Option-cases (selected_item s)) [
      | inl nothing ↦ rw nothing (ground arith)
      | inr (c, found) ↦ rw found (ground (arith, remove_item-IsValid c.id))
    ]

    expire_last_added-IsValid : (id : ℕ) → IsValid (expire_last_added id s)
    unfolding expire_last_added
    expire_last_added-IsValid id = ground arith

    move_selection-IsValid : IsValid (move_selection_up s) × IsValid (move_selection_down s)
    unfolding move_selection_up move_selection_down
    move_selection-IsValid = (ground arith, ground arith)

    select-IsValid : (i : ℤ) → IsValid (set_selected_row_index i s)
    unfolding set_selected_row_index
    select-IsValid i = record { lines = v.lines; total = v.total; discounted = v.discounted }

  empty-IsValid : ⦃u : HasUnits W⦄ → (s : CartState W) → IsValid (clear_cart s)
  unfolding clear_cart compute_total compute_total_con_descuento
  empty-IsValid ⦃u⦄ s = record {
    lines = (tt, tt);
    total = refl;
    discounted = rw (compute_total_con_descuento, u.zero-div, u.sub-zero, u.mul-one);
  }

  pub apply-IsValid :
      ⦃u : HasUnits W⦄ → (s : CartState W) (a : Action W) → IsValid s → IsValid (apply s a)
  apply-IsValid s (add raw stock) v = add_item-IsValid v raw stock
  apply-IsValid s (expire id) v = expire_last_added-IsValid v id
  apply-IsValid s (remove id) v = remove_item-IsValid v id
  apply-IsValid s (update id n stock) v = update_quantity-IsValid v id n stock
  apply-IsValid s (discount id pct) v = set_item_discount-IsValid v id pct
  apply-IsValid s (promos pcts names) v = set_promo_discounts-IsValid v pcts names
  apply-IsValid s (discount_all pct) v = set_global_discount-IsValid v pct
  apply-IsValid s clear v = empty-IsValid s
  apply-IsValid s (select i) v = select-IsValid v i
  apply-IsValid s up v = (move_selection-IsValid v).0
  apply-IsValid s down v = (move_selection-IsValid v).1
  apply-IsValid s remove_selected v = remove_selected_item-IsValid v

  pub initial-IsValid : ⦃u : HasUnits W⦄ → IsValid initial
  unfolding initial clear_cart
  initial-IsValid = empty-IsValid initial

  foldl-IsValid :
      ⦃u : HasUnits W⦄
      → (actions : List (Action W)) (s : CartState W) → IsValid s
      → IsValid (foldl apply s actions)
  foldl-IsValid [] s v = v
  foldl-IsValid (a ∷ actions) s v = foldl-IsValid actions (apply s a) (apply-IsValid s a v)

  -- After any list of actions of the cart store, `total` is the sum of the lines' subtotals,
  -- `totalConDescuento` is that sum less the global discount, every line's subtotal is its quantity
  -- times its price less the larger of its two discounts, every quantity is above 0, and no product
  -- stands on two lines. The actions are given whole quantities, and the numbers are any with exact
  -- units (`HasUnits`).
  pub run-IsValid : ⦃u : HasUnits W⦄ → (actions : List (Action W)) → IsValid (run actions)
  unfolding run
  run-IsValid actions = foldl-IsValid actions initial initial-IsValid
