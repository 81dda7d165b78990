-- ===== src/Cart/Quantities.antt =====
-- The cart as a map from products to quantities: what each action of
-- frontend/src/store/useCartStore.ts does to it.
use Prim.Native.String.{String}
use blend_pos.Prelude.{
  ℕ, zero, suc, ◌≡◌, refl, not, ◌&&◌, Option, none, some, List, [], ◌∷◌, ◌++◌, map, ◌∙◌, arith,
  ◌==◌, if◌then◌else◌, find_index, filter, All, ==_iff, length, ◌<◌, ℤ, pos, negsuc, ◌+ℤ◌, ◌≤ℤ◌,
  ltb_ℤ, leb_ℤ, Option-cases, inl, inr,
}
use blend_pos.Number.{Number}
use blend_pos.Cart.{
  CartItem, RawItem, CartState, Record, has_id, map_at, bump, new_item, fill_barcode, add_line,
  quantity_in, put_line, with_cart, add_item,
}
use blend_pos.Cart.Edits.{
  item_at, expire_last_added, remove_item, set_quantity, update_quantity, discount_line,
  set_item_discount, promo_line, set_promo_discounts, set_global_discount, clear_cart,
  set_selected_row_index, move_selection_up, move_selection_down, selected_item,
  remove_selected_item,
}
use blend_pos.Cart.Lines.{IsLine}
use blend_pos.Cart.Totals.{IsValid}
use blend_pos.Cart.Actions.{
  Action, apply, add, expire, remove, update, discount, promos, discount_all, clear, select, up,
  down, remove_selected,
}

module _ {W : Type 0} ⦃d : Number W⦄ where
  quantity_in-map :
      (f : CartItem W → CartItem W) (k : ℕ) (cart : List (CartItem W))
      → ((c : CartItem W) → ((f c).id ≡ c.id) × ((f c).cantidad ≡ c.cantidad))
      → quantity_in k (map f cart) ≡ quantity_in k cart
  unfolding quantity_in
  quantity_in-map f k [] same = refl
  quantity_in-map f k (c ∷ cs) same = ground (arith, same c, quantity_in-map f k cs same)

  quantity_in-bump :
      (k id i : ℕ) (cart : List (CartItem W))
      → find_index (has_id id) cart ≡ some i
      → quantity_in k (map_at bump i cart)
        ≡ (if id == k then quantity_in k cart +ℤ pos 1 else quantity_in k cart)
  unfolding quantity_in map_at bump
  quantity_in-bump k id i [] e = cc
  quantity_in-bump k id zero (c ∷ cs) e = ground arith
  quantity_in-bump k id (suc i) (c ∷ cs) e = ground (arith, quantity_in-bump k id i cs)

  quantity_in-new :
      (k : ℕ) (raw : RawItem W) (cart : List (CartItem W))
      → find_index (has_id raw.id) cart ≡ none
      → quantity_in k (cart ++ (new_item raw ∷ []))
        ≡ (if raw.id == k then quantity_in k cart +ℤ pos 1 else quantity_in k cart)
  unfolding quantity_in new_item ◌+ℤ◌
  quantity_in-new k raw [] e = ground arith
  quantity_in-new k raw (c ∷ cs) e = ground (arith, quantity_in-new k raw cs)

  fill_barcode_keeps :
      (id : ℕ) (code : String) (c : CartItem W)
      → ((fill_barcode id code c).id ≡ c.id) × ((fill_barcode id code c).cantidad ≡ c.cantidad)
  unfolding fill_barcode
  fill_barcode_keeps id code c = ground arith

  quantity_in-filled :
      (k : ℕ) (raw : RawItem W) (cart : List (CartItem W))
      → quantity_in k (map (fill_barcode raw.id raw.codigo_barras) cart) ≡ quantity_in k cart
  quantity_in-filled k raw cart =
      quantity_in-map (fill_barcode raw.id raw.codigo_barras) k cart
        (fill_barcode_keeps raw.id raw.codigo_barras)

  quantity_in-add_line :
      (k : ℕ) (raw : RawItem W) (cart : List (CartItem W))
      → quantity_in k (add_line raw cart)
        ≡ (if raw.id == k then quantity_in k cart +ℤ pos 1 else quantity_in k cart)
  unfolding add_line
  quantity_in-add_line k raw cart = elim (Option-cases (find_index (has_id raw.id) cart)) [
    | inl e ↦ rw e (quantity_in-filled k raw _ ∙ quantity_in-new k raw cart e)
    | inr (i, e) ↦ rw e (quantity_in-filled k raw _ ∙ quantity_in-bump k raw.id i cart e)
  ]

  quantity_in-remove :
      (k id : ℕ) (cart : List (CartItem W))
      → quantity_in k (filter (λ c. not (has_id id c)) cart)
        ≡ (if id == k then pos 0 else quantity_in k cart)
  unfolding quantity_in
  quantity_in-remove k id [] = ground arith
  quantity_in-remove k id (c ∷ cs) = ground (arith, quantity_in-remove k id cs)

  quantity_in-set :
      (k id : ℕ) (n : ℤ) (cart : List (CartItem W))
      → All IsLine cart
      → quantity_in k (map (set_quantity id n) cart)
        ≡ (if (id == k) && not (leb_ℤ (quantity_in k cart) (pos 0)) then n else quantity_in k cart)
  unfolding quantity_in set_quantity
  quantity_in-set k id n [] h = ground arith
  quantity_in-set k id n (c ∷ cs) (h, hs) = ground (arith, quantity_in-set k id n cs hs)

  quantity_in_nonneg :
      (k : ℕ) (cart : List (CartItem W)) → All IsLine cart → pos 0 ≤ℤ quantity_in k cart
  unfolding quantity_in
  quantity_in_nonneg k [] h = omega arith
  quantity_in_nonneg k (c ∷ cs) (h, hs) = ground (arith, quantity_in_nonneg k cs hs)

  remove_item-quantity :
      (id : ℕ) (s : CartState W) (k : ℕ)
      → quantity_in k (remove_item id s).cart ≡ (if id == k then pos 0 else quantity_in k s.cart)
  unfolding remove_item with_cart
  remove_item-quantity id s k = quantity_in-remove k id s.cart

  with_cart-cart : (cart : List (CartItem W)) (s : CartState W) → (with_cart cart s).cart ≡ cart
  unfolding with_cart
  with_cart-cart cart s = refl

  set_lines-quantity :
      (id : ℕ) (n : ℤ) (s : CartState W) (k : ℕ)
      → All IsLine s.cart
      → quantity_in k (with_cart (map (set_quantity id n) s.cart) s).cart ≡ (
          if (id == k) && not (leb_ℤ (quantity_in k s.cart) (pos 0))
          then n
          else quantity_in k s.cart)
  unfolding with_cart
  set_lines-quantity id n s k h = quantity_in-set k id n s.cart h

  -- The quantities after an action, from the quantities before it and the selected product.
  abbrev pub after : Action W → Option ℕ → (ℕ → ℤ) → ℕ → ℤ
  after (add raw none) sel q k = if raw.id == k then q k +ℤ pos 1 else q k
  after (add raw (some stock)) sel q k =
      if (raw.id == k) && not (leb_ℤ stock (pos 0)) && not (ltb_ℤ stock (q k +ℤ pos 1))
      then q k +ℤ pos 1
      else q k
  after (remove id) sel q k = if id == k then pos 0 else q k
  after (update id n none) sel q k =
      if (id == k) && not (leb_ℤ (q k) (pos 0)) then (if leb_ℤ n (pos 0) then pos 0 else n) else q k
  after (update id n (some stock)) sel q k =
      if (id == k) && not (leb_ℤ (q k) (pos 0)) && not (ltb_ℤ stock n && not (leb_ℤ n (pos 0)))
      then (if leb_ℤ n (pos 0) then pos 0 else n)
      else q k
  after clear sel q k = pos 0
  after remove_selected sel q k = elim sel [ none ↦ q k | some id ↦ if id == k then pos 0 else q k ]
  after _ sel q k = q k

  abbrev pub selected_id : CartState W → Option ℕ
  selected_id s = elim (selected_item s) [ none ↦ none | some c ↦ some c.id ]

  add_item-after :
      (raw : RawItem W) (stock : Option ℤ) (s : CartState W) (k : ℕ)
      → quantity_in k (add_item raw stock s).0.cart
        ≡ after (add raw stock) none (λ j. quantity_in j s.cart) k
  unfolding add_item put_line with_cart
  add_item-after raw none s k = quantity_in-add_line k raw s.cart
  add_item-after raw (some n) s k =
      ground (arith, quantity_in-add_line k raw s.cart, ==_iff raw.id k)

  update_quantity-after :
      (id : ℕ) (n : ℤ) (stock : Option ℤ) (s : CartState W) (k : ℕ)
      → All IsLine s.cart
      → quantity_in k (update_quantity id n stock s).0.cart
        ≡ after (update id n stock) none (λ j. quantity_in j s.cart) k
  unfolding update_quantity
  update_quantity-after id n none s k h = ground (
    arith,
    set_lines-quantity id n s k h,
    remove_item-quantity id s k,
    quantity_in_nonneg k s.cart h,
  )
  update_quantity-after id n (some m) s k h = ground (
    arith,
    set_lines-quantity id n s k h,
    remove_item-quantity id s k,
    quantity_in_nonneg k s.cart h,
  )

  row_guards :
      (cart : List (CartItem W)) (i : ℤ) (c : CartItem W)
      → item_at i cart ≡ some c
      → (0 < length cart) × (pos 0 ≤ℤ i)
  row_guards [] (pos i) c e = cc
  row_guards (x ∷ xs) (pos i) c e = omega arith
  row_guards cart (negsuc i) c e = cc

  selected_item_guards :
      (s : CartState W) (c : CartItem W)
      → selected_item s ≡ some c
      → (0 < length s.cart) × (pos 0 ≤ℤ s.selected_row_index)
  unfolding selected_item
  selected_item_guards s c e = row_guards s.cart s.selected_row_index c e

  remove_selected-after :
      (s : CartState W) (k : ℕ)
      → quantity_in k (remove_selected_item s).cart
        ≡ after remove_selected (selected_id s) (λ j. quantity_in j s.cart) k
  unfolding remove_selected_item
  remove_selected-after s k = elim (Option-cases (selected_item s)) [
    | inl e ↦ rw e (ground arith)
    | inr (c, e) ↦ rw e (ground (arith, remove_item-quantity c.id s k, selected_item_guards s c e))
  ]

  discount_line_keeps :
      (id : ℕ) (pct : W) (c : CartItem W)
      → ((discount_line id pct c).id ≡ c.id) × ((discount_line id pct c).cantidad ≡ c.cantidad)
  unfolding discount_line
  discount_line_keeps id pct c = ground arith

  promo_line_keeps :
      (pcts : Record W) (names : Record String) (c : CartItem W)
      → ((promo_line pcts names c).id ≡ c.id) × ((promo_line pcts names c).cantidad ≡ c.cantidad)
  unfolding promo_line
  promo_line_keeps pcts names c = ground arith

  apply-after :
      (s : CartState W) (a : Action W) (k : ℕ)
      → All IsLine s.cart
      → quantity_in k (apply s a).cart ≡ after a (selected_id s) (λ j. quantity_in j s.cart) k
  unfolding expire_last_added set_item_discount set_promo_discounts set_global_discount clear_cart
      set_selected_row_index move_selection_up move_selection_down with_cart
  apply-after s (add raw none) k h = add_item-after raw none s k
  apply-after s (add raw (some n)) k h = add_item-after raw (some n) s k
  apply-after s (expire id) k h = ground arith
  apply-after s (remove id) k h = remove_item-quantity id s k
  apply-after s (update id n none) k h = update_quantity-after id n none s k h
  apply-after s (update id n (some m)) k h = update_quantity-after id n (some m) s k h
  apply-after s (discount id pct) k h =
      quantity_in-map (discount_line id pct) k s.cart (discount_line_keeps id pct)
  apply-after s (promos pcts names) k h =
      ground (arith, quantity_in-map (promo_line pcts names) k s.cart (promo_line_keeps pcts names))
  apply-after s (discount_all pct) k h = refl
  apply-after s clear k h = unfold quantity_in in refl
  apply-after s (select i) k h = refl
  apply-after s up k h = ground arith
  apply-after s down k h = ground arith
  apply-after s remove_selected k h = remove_selected-after s k

  -- Every action of the store changes the quantities as `after` says: an accepted `addItem` adds one
  -- unit of its product, `updateQuantity` sets a listed product's quantity if the stock allows it
  -- (or drops the product, for a quantity of 0 or less), the removals drop one product, `clearCart`
  -- drops all, and no action changes the quantity of another product. The state is a valid one.
  pub apply-refines :
      (s : CartState W) (a : Action W)
      → IsValid s
      → (k : ℕ)
      → quantity_in k (apply s a).cart ≡ after a (selected_id s) (λ j. quantity_in j s.cart) k
  apply-refines s a v k = apply-after s a k v.lines.0
