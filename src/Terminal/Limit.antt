-- ===== src/Terminal/Limit.antt =====
-- How large the discounts get that a cashier gives at the terminal: `exceedsPermission` of
-- frontend/src/components/pos/DiscountModal.tsx, over every action of the cart store.
use blend_pos.Prelude.{
  Option, none, some, List, [], ◌∷◌, map, true, All-map, Bool-cases, inl, inr, foldl,
}
use blend_pos.Number.{Number, num}
use blend_pos.Cart.{CartItem, RawPrice, initial}
use blend_pos.Cart.Edits.{discount_line, set_item_discount, set_global_discount}
use blend_pos.Terminal.{
  Terminal, TerminalOp, on_cart, on_dialogs, presses_apply, presses_remove, clamped,
  cajero_descuento_max, exceeds_permission, target_item, set_discount, handle_apply, handle_remove,
  terminal_step, run_terminal, no_dialogs,
}
use blend_pos.Terminal.Allowed.{
  IsAllowed, IsWithin, discount_line-IsAllowed, with_cart-IsWithin, apply-IsWithin,
}

module _ {W : Type 0} ⦃d : Number W⦄ where
  set_discount-IsWithin :
      (o : Option (CartItem W)) (pct : W) (t : Terminal W)
      → IsAllowed pct
      → IsWithin t.cart
      → IsWithin (set_discount o pct t).cart
  unfolding set_discount set_item_discount set_global_discount
  set_discount-IsWithin (some item) pct t hp h =
      with_cart-IsWithin (map (discount_line item.id pct) t.cart.cart) t.cart
        (All-map (λ c. IsAllowed c.descuento) (discount_line item.id pct) t.cart.cart
          (λ c k. discount_line-IsAllowed item.id pct c hp k) h.lines)
        h
  set_discount-IsWithin none pct t hp h = record { lines = h.lines; whole = hp }

  handle_apply-IsWithin :
      (typed : RawPrice W) (t : Terminal W)
      → IsWithin t.cart
      → IsWithin (handle_apply true typed t).cart
  unfolding handle_apply exceeds_permission
  handle_apply-IsWithin typed t h = elim (Bool-cases (d.lt cajero_descuento_max (clamped typed))) [
    | inl above ↦ rw above h
    | inr fine ↦ rw fine (set_discount-IsWithin (target_item t) (clamped typed) t fine h)
  ]

  -- 0 is not above the limit
  module _ (free : IsAllowed {W = W} (num 0)) where
    pub terminal_step-IsWithin :
        (t : Terminal W) (op : TerminalOp W)
        → IsWithin t.cart
        → IsWithin (terminal_step true t op).cart
    unfolding terminal_step handle_remove
    terminal_step-IsWithin t (on_cart op) h = apply-IsWithin free op t.cart h
    terminal_step-IsWithin t (on_dialogs op) h = h
    terminal_step-IsWithin t (presses_apply typed) h = handle_apply-IsWithin typed t h
    terminal_step-IsWithin t presses_remove h =
        set_discount-IsWithin (target_item t) (num 0) t free h

    run_on-IsWithin :
        (ops : List (TerminalOp W)) (t : Terminal W)
        → IsWithin t.cart
        → IsWithin (foldl (terminal_step true) t ops).cart
    run_on-IsWithin [] t h = h
    run_on-IsWithin (op ∷ ops) t h =
        run_on-IsWithin ops (terminal_step true t op) (terminal_step-IsWithin t op h)

    -- Whatever a cashier does at the terminal, no line and no cart gets a discount by hand of more
    -- than 30 percent, if 0 is not more than that.
    pub run_terminal-IsWithin : (ops : List (TerminalOp W)) → IsWithin (run_terminal true ops).cart
    unfolding run_terminal initial
    run_terminal-IsWithin ops =
        run_on-IsWithin ops (record { cart = initial; dialogs = no_dialogs })
          (record { lines = tt; whole = free })
