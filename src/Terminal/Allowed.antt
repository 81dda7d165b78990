-- ===== src/Terminal/Allowed.antt =====
-- The actions of frontend/src/store/useCartStore.ts that the terminal calls by itself leave the
-- discounts that are given by hand as they are, or drop them.
use blend_pos.Prelude.{
  ℕ, zero, suc, ◌≡◌, ◌==◌, Option, none, some, List, [], ◌∷◌, map, Bool, true, false, not, ◌&&◌,
  ◌||◌, if◌then◌else◌, All, All-append, All-filter, All-map, Bool-cases, Option-cases, inl, inr, ℤ,
  arith, pos, leb_ℤ, ltb_ℤ, find_index, length, ◌+ℤ◌,
}
use Prim.Native.String.{String}
use text.Mathlib.Text.{◌==◌ as str_eq}
use blend_pos.Number.{Number, num}
use blend_pos.Cart.{
  CartItem, CartState, RawItem, Record, has_id, map_at, with_cart, bump, new_item, fill_barcode,
  add_line, quantity_in, put_line, add_item, Notice,
}
use blend_pos.Cart.Edits.{
  expire_last_added, remove_item, set_quantity, update_quantity, discount_line, promo_line,
  promo_changes, set_promo_discounts, clear_cart, set_selected_row_index, move_selection_up,
  move_selection_down, selected_item, remove_selected_item,
}
use blend_pos.Cart.Actions.{apply}
use blend_pos.Terminal.{
  CartOp, adds, forgets_added, removes, updates, applies_promos, clears, selects, goes_up,
  goes_down, removes_selected, action_of, cajero_descuento_max,
}

module _ {W : Type 0} ⦃d : Number W⦄ where
  -- A percentage is not above what a cashier may give.
  abbrev pub IsAllowed : W → Type 0
  IsAllowed pct = d.lt cajero_descuento_max pct ≡ false

  abbrev pub AllAllowed : List (CartItem W) → Type 0
  AllAllowed = All (λ c. IsAllowed c.descuento)

  -- Neither a line nor the whole cart has a discount above it.
  pub record IsWithin (s : CartState W) : Type 0 where
    pub lines : AllAllowed s.cart
    pub whole : IsAllowed s.descuento_global

  map_at-AllAllowed :
      (f : CartItem W → CartItem W) (n : ℕ) (cs : List (CartItem W))
      → ((c : CartItem W) → IsAllowed c.descuento → IsAllowed (f c).descuento)
      → AllAllowed cs
      → AllAllowed (map_at f n cs)
  unfolding map_at
  map_at-AllAllowed f n [] h hs = tt
  map_at-AllAllowed f zero (c ∷ cs) h (k, ks) = (h c k, ks)
  map_at-AllAllowed f (suc n) (c ∷ cs) h (k, ks) = (k, map_at-AllAllowed f n cs h ks)

  fill_barcode-IsAllowed :
      (raw : RawItem W) (c : CartItem W)
      → IsAllowed c.descuento
      → IsAllowed (fill_barcode raw.id raw.codigo_barras c).descuento
  unfolding fill_barcode
  fill_barcode-IsAllowed raw c h = elim (Bool-cases (c.id == raw.id && str_eq c.codigo_barras "")) [
    | inl blank ↦ rw blank h
    | inr kept ↦ rw kept h
  ]

  set_quantity-IsAllowed :
      (id : ℕ) (n : ℤ) (c : CartItem W)
      → IsAllowed c.descuento
      → IsAllowed (set_quantity id n c).descuento
  unfolding set_quantity
  set_quantity-IsAllowed id n c h = elim (Bool-cases (c.id == id)) [
    | inl same ↦ rw same h
    | inr other ↦ rw other h
  ]

  promo_line-IsAllowed :
      (pcts : Record W) (names : Record String) (c : CartItem W)
      → IsAllowed c.descuento
      → IsAllowed (promo_line pcts names c).descuento
  unfolding promo_line
  promo_line-IsAllowed pcts names c h = ground (arith, h)

  pub discount_line-IsAllowed :
      (id : ℕ) (pct : W) (c : CartItem W)
      → IsAllowed pct
      → IsAllowed c.descuento
      → IsAllowed (discount_line id pct c).descuento
  unfolding discount_line
  discount_line-IsAllowed id pct c hp h = elim (Bool-cases (c.id == id)) [
    | inl same ↦ rw same hp
    | inr other ↦ rw other h
  ]

  pub with_cart-IsWithin :
      (cs : List (CartItem W)) (s : CartState W)
      → AllAllowed cs
      → IsWithin s
      → IsWithin (with_cart cs s)
  unfolding with_cart
  with_cart-IsWithin cs s hs h = record { lines = hs; whole = h.whole }

  remove_item-IsWithin : (id : ℕ) (s : CartState W) → IsWithin s → IsWithin (remove_item id s)
  unfolding remove_item with_cart
  remove_item-IsWithin id s h = record {
    lines = All-filter (λ c. IsAllowed c.descuento) (λ c. not (has_id id c)) s.cart h.lines;
    whole = h.whole;
  }

  cart-expire_last_added : (id : ℕ) (s : CartState W) → (expire_last_added id s).cart ≡ s.cart
  unfolding expire_last_added
  cart-expire_last_added id s = ground arith

  descuento_global-expire_last_added :
      (id : ℕ) (s : CartState W) → (expire_last_added id s).descuento_global ≡ s.descuento_global
  unfolding expire_last_added
  descuento_global-expire_last_added id s = ground arith

  expire_last_added-IsWithin :
      (id : ℕ) (s : CartState W) → IsWithin s → IsWithin (expire_last_added id s)
  expire_last_added-IsWithin id s h = record {
    lines = rw (cart-expire_last_added id s) h.lines;
    whole = rw (descuento_global-expire_last_added id s) h.whole;
  }

  -- nothing is no discount above the limit
  module _ (free : IsAllowed (num 0)) where
    add_line-AllAllowed :
        (raw : RawItem W) (cs : List (CartItem W)) → AllAllowed cs → AllAllowed (add_line raw cs)
    unfolding add_line
    add_line-AllAllowed raw cs h =
        All-map (λ c. IsAllowed c.descuento) (fill_barcode raw.id raw.codigo_barras) _
          (fill_barcode-IsAllowed raw)
          (elim (Option-cases (find_index (has_id raw.id) cs)) [
            | inl absent ↦ rw absent (
                All-append (λ c. IsAllowed c.descuento) cs (new_item raw ∷ []) h
                  (unfold new_item in (free, tt)))
            | inr (i, found) ↦ rw found (map_at-AllAllowed bump i cs (λ c k. unfold bump in k) h)
          ])

    put_line-IsWithin : (raw : RawItem W) (s : CartState W) → IsWithin s → IsWithin (put_line raw s)
    unfolding put_line with_cart
    put_line-IsWithin raw s h = record {
      lines = add_line-AllAllowed raw s.cart h.lines;
      whole = h.whole;
    }

    either-IsWithin :
        (b : Bool) (s t : CartState W) → IsWithin s → IsWithin t → IsWithin (if b then s else t)
    either-IsWithin true s t hs ht = hs
    either-IsWithin false s t hs ht = ht

    add_item-IsWithin :
        (raw : RawItem W) (stock : Option ℤ) (s : CartState W)
        → IsWithin s
        → IsWithin (add_item raw stock s).0
    unfolding add_item
    add_item-IsWithin raw none s h = put_line-IsWithin raw s h
    add_item-IsWithin raw (some stock) s h = elim (Bool-cases (leb_ℤ stock (pos 0))) [
      | inl out ↦ rw out h
      | inr left ↦ elim (Bool-cases (ltb_ℤ stock (quantity_in raw.id s.cart +ℤ pos 1))) [
        | inl few ↦ rw (left, few) h
        | inr enough ↦ rw (left, enough) (put_line-IsWithin raw s h)
      ]
    ]

    either_answer-IsWithin :
        (b : Bool) (x y : CartState W × Option Notice)
        → IsWithin x.0
        → IsWithin y.0
        → IsWithin (if b then x else y).0
    either_answer-IsWithin true x y hx hy = hx
    either_answer-IsWithin false x y hx hy = hy

    set_quantities-IsWithin :
        (id : ℕ) (n : ℤ) (s : CartState W)
        → IsWithin s
        → IsWithin (with_cart (map (set_quantity id n) s.cart) s)
    set_quantities-IsWithin id n s h =
        with_cart-IsWithin (map (set_quantity id n) s.cart) s
          (All-map (λ c. IsAllowed c.descuento) (set_quantity id n) s.cart
            (set_quantity-IsAllowed id n) h.lines)
          h

    update_quantity-IsWithin :
        (id : ℕ) (n : ℤ) (stock : Option ℤ) (s : CartState W)
        → IsWithin s
        → IsWithin (update_quantity id n stock s).0
    unfolding update_quantity
    update_quantity-IsWithin id n none s h =
        either_answer-IsWithin (leb_ℤ n (pos 0)) (remove_item id s, none) _
          (remove_item-IsWithin id s h) (set_quantities-IsWithin id n s h)
    update_quantity-IsWithin id n (some local) s h =
        either_answer-IsWithin (leb_ℤ n (pos 0)) (remove_item id s, none) _
          (remove_item-IsWithin id s h)
          (either_answer-IsWithin (ltb_ℤ local n) (s, some _)
            (with_cart (map (set_quantity id n) s.cart) s, none) h
            (set_quantities-IsWithin id n s h))

    remove_selected_item-IsWithin :
        (s : CartState W) → IsWithin s → IsWithin (remove_selected_item s)
    unfolding remove_selected_item
    remove_selected_item-IsWithin s h =
        either-IsWithin ((length s.cart == 0) || ltb_ℤ s.selected_row_index (pos 0)) s _ h
          (elim (Option-cases (selected_item s)) [
            | inl nothing ↦ rw nothing h
            | inr (c, found) ↦ rw found (remove_item-IsWithin c.id s h)
          ])

    pub apply-IsWithin :
        (op : CartOp W) (s : CartState W) → IsWithin s → IsWithin (apply s (action_of op))
    unfolding action_of set_promo_discounts clear_cart set_selected_row_index move_selection_up
        move_selection_down
    apply-IsWithin (adds raw stock) s h = add_item-IsWithin raw stock s h
    apply-IsWithin (forgets_added id) s h = expire_last_added-IsWithin id s h
    apply-IsWithin (removes id) s h = remove_item-IsWithin id s h
    apply-IsWithin (updates id n stock) s h = update_quantity-IsWithin id n stock s h
    apply-IsWithin (applies_promos pcts names) s h =
        either-IsWithin (not (promo_changes pcts names s.cart)) s
          (with_cart (map (promo_line pcts names) s.cart) s) h
          (with_cart-IsWithin (map (promo_line pcts names) s.cart) s
            (All-map (λ c. IsAllowed c.descuento) (promo_line pcts names) s.cart
              (promo_line-IsAllowed pcts names) h.lines)
            h)
    apply-IsWithin clears s h = record { lines = tt; whole = free }
    apply-IsWithin (selects i) s h = record { lines = h.lines; whole = h.whole }
    apply-IsWithin goes_up s h =
        either-IsWithin (length s.cart == 0) s _ h (record { lines = h.lines; whole = h.whole })
    apply-IsWithin goes_down s h =
        either-IsWithin (length s.cart == 0) s _ h (record { lines = h.lines; whole = h.whole })
    apply-IsWithin removes_selected s h = remove_selected_item-IsWithin s h
