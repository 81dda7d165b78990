-- ===== src/Terminal/Keys/Shift.antt =====
-- Any sequence of keys and calls at the page frontend/src/pages/PosTerminal.tsx keeps the cart right.
use blend_pos.Prelude.{
  arith, ◌≡◌, refl, sym, ◌||◌, Option, none, some, Bool, true, false, if◌then◌else◌, Bool-cases,
  Option-cases, inl, inr, List, [], ◌∷◌, foldl, ℤ, pos, ◌+ℤ◌, ◌-ℤ◌, ltb_ℤ,
}
use blend_pos.Number.{Number, HasUnits, num}
use blend_pos.Cart.{CartItem, CartState, initial}
use blend_pos.Cart.Actions.{discount, discount_all}
use blend_pos.Cart.Totals.{IsValid, apply-IsValid, initial-IsValid}
use blend_pos.Terminal.Limit.{terminal_step-IsWithin}
use mathlib.Core.Path.{subst}
use mathlib.Core.Option.{some-injective}
use blend_pos.Terminal.{
  Terminal, TerminalOp, on_cart, on_dialogs, presses_apply, presses_remove, exceeds_permission,
  clamped, target_item, set_discount, handle_apply, handle_remove, terminal_step, CartOp, updates,
  goes_up, goes_down, removes_selected, action_of, open_price_check, open_discount, open_payment,
}
use blend_pos.Terminal.Allowed.{IsAllowed, IsWithin, apply-IsWithin}
use blend_pos.Terminal.Keys.{
  Key, f2, f3, f5, f7, f8, f10, escape, Place, payment_field, discount_field, search_field, on_page,
  price_check_field, stopped_by, escape_in, arrow_in, press_key_at, arrow_up, arrow_down,
  delete_key, plus_key, minus_key, add_key, subtract_key, other_key, Pos, any_modal_open, no_lines,
  calls_cart, calls_dialogs, on_view, open_search, discount_row, discountable, close_first,
  plus_one, minus_one, selected_line, press_key, PosEvent, key_down, acts, pos_step, run_pos,
  first_pos,
}

module _ {W : Type 0} ⦃d : Number W⦄ ⦃u : HasUnits W⦄ where
  -- the cart of the page is right, and no discount by hand is above what a cashier may give
  abbrev IsSoundCart : CartState W → Type 0
  IsSoundCart s = IsValid s × IsWithin s

  abbrev pub IsSound : Pos W → Type 0
  IsSound p = IsSoundCart p.terminal.cart

  either-IsSound : (b : Bool) (p q : Pos W) → IsSound p → IsSound q → IsSound (if b then p else q)
  either-IsSound true p q h k = h
  either-IsSound false p q h k = k

  on_table-IsSound :
      (p q : Pos W)
      → IsSound p
      → IsSound q
      → IsSound (if any_modal_open p || p.view.search_visible then p else q)
  on_table-IsSound p q h k = either-IsSound (any_modal_open p || p.view.search_visible) p q h k

  set_discount-IsValid :
      (o : Option (CartItem W)) (pct : W) (t : Terminal W)
      → IsValid t.cart
      → IsValid (set_discount o pct t).cart
  unfolding set_discount
  set_discount-IsValid none pct t v = apply-IsValid t.cart (discount_all pct) v
  set_discount-IsValid (some item) pct t v = apply-IsValid t.cart (discount item.id pct) v

  discount_row_keeps :
      (o : Option (CartItem W)) (p : Pos W) → (discount_row o p).terminal.cart ≡ p.terminal.cart
  unfolding discount_row
  discount_row_keeps none p = refl
  discount_row_keeps (some item) p = refl

  close_first_keeps : (p : Pos W) → (close_first p).terminal.cart ≡ p.terminal.cart
  unfolding close_first
  close_first_keeps p = ground arith

  module _ (free : IsAllowed {W = W} (num 0)) where
    calls_cart-IsSound : (op : CartOp W) (p : Pos W) → IsSound p → IsSound (calls_cart op p)
    unfolding calls_cart
    calls_cart-IsSound op p (v, w) =
        (apply-IsValid p.terminal.cart (action_of op) v, apply-IsWithin free op p.terminal.cart w)

    plus_one-IsSound :
        (stock : Option ℤ) (o : Option (CartItem W)) (p : Pos W)
        → IsSound p
        → IsSound (plus_one stock o p)
    unfolding plus_one
    plus_one-IsSound stock none p h = h
    plus_one-IsSound stock (some c) p h =
        calls_cart-IsSound (updates c.id (c.cantidad +ℤ pos 1) stock) p h

    minus_one-IsSound :
        (stock : Option ℤ) (o : Option (CartItem W)) (p : Pos W)
        → IsSound p
        → IsSound (minus_one stock o p)
    unfolding minus_one
    minus_one-IsSound stock none p h = h
    minus_one-IsSound stock (some c) p h =
        let less = updates c.id (c.cantidad -ℤ pos 1) stock in
        either-IsSound (ltb_ℤ (pos 1) c.cantidad) (calls_cart less p) p
          (calls_cart-IsSound less p h) h

    press_key-IsSound :
        (stock : Option ℤ) (k : Key) (p : Pos W) → IsSound p → IsSound (press_key stock k p)
    unfolding press_key calls_dialogs
    press_key-IsSound stock f2 p h =
        either-IsSound (any_modal_open p) p (on_view (open_search "") p) h h
    press_key-IsSound stock f3 p h =
        either-IsSound (any_modal_open p || no_lines p) p
          (discount_row (discountable p.terminal.cart) p) h
          (subst IsSoundCart (sym (discount_row_keeps (discountable p.terminal.cart) p)) h)
    press_key-IsSound stock f5 p h =
        either-IsSound (any_modal_open p) p (calls_dialogs open_price_check p) h h
    press_key-IsSound stock f7 p h =
        either-IsSound (any_modal_open p) p (on_view (λ v. record v { history_open = true }) p) h h
    press_key-IsSound stock f8 p h =
        either-IsSound (any_modal_open p || no_lines p) p (calls_dialogs open_discount p) h h
    press_key-IsSound stock f10 p h =
        either-IsSound (any_modal_open p || no_lines p) p (calls_dialogs open_payment p) h h
    press_key-IsSound stock escape p h = subst IsSoundCart (sym (close_first_keeps p)) h
    press_key-IsSound stock arrow_up p h =
        on_table-IsSound p (calls_cart goes_up p) h (calls_cart-IsSound goes_up p h)
    press_key-IsSound stock arrow_down p h =
        on_table-IsSound p (calls_cart goes_down p) h (calls_cart-IsSound goes_down p h)
    press_key-IsSound stock delete_key p h =
        on_table-IsSound p (if no_lines p then p else calls_cart removes_selected p) h (
          either-IsSound (no_lines p) p (calls_cart removes_selected p) h
            (calls_cart-IsSound removes_selected p h))
    press_key-IsSound stock plus_key p h =
        on_table-IsSound p (plus_one stock (selected_line p) p) h
          (plus_one-IsSound stock (selected_line p) p h)
    press_key-IsSound stock add_key p h =
        on_table-IsSound p (plus_one stock (selected_line p) p) h
          (plus_one-IsSound stock (selected_line p) p h)
    press_key-IsSound stock minus_key p h =
        on_table-IsSound p (minus_one stock (selected_line p) p) h
          (minus_one-IsSound stock (selected_line p) p h)
    press_key-IsSound stock subtract_key p h =
        on_table-IsSound p (minus_one stock (selected_line p) p) h
          (minus_one-IsSound stock (selected_line p) p h)
    press_key-IsSound stock other_key p h = h

    escape_in_keeps :
        (at : Place) (p : Pos W) (handler : Pos W → Pos W)
        → escape_in at ≡ some handler
        → (handler p).terminal.cart ≡ p.terminal.cart
    unfolding escape_in calls_dialogs
    escape_in_keeps on_page p handler e = absurd (ground (arith, e))
    escape_in_keeps payment_field p handler e = rw (← some-injective _ _ e) refl
    escape_in_keeps price_check_field p handler e = rw (← some-injective _ _ e) refl
    escape_in_keeps discount_field p handler e = rw (← some-injective _ _ e) refl
    escape_in_keeps search_field p handler e = rw (← some-injective _ _ e) refl

    arrow_in_keeps :
        (at : Place) (p : Pos W) (handler : Pos W → Pos W)
        → arrow_in at ≡ some handler
        → (handler p).terminal.cart ≡ p.terminal.cart
    unfolding arrow_in
    arrow_in_keeps on_page p handler e = absurd (ground (arith, e))
    arrow_in_keeps payment_field p handler e = absurd (ground (arith, e))
    arrow_in_keeps price_check_field p handler e = absurd (ground (arith, e))
    arrow_in_keeps discount_field p handler e = absurd (ground (arith, e))
    arrow_in_keeps search_field p handler e = rw (← some-injective _ _ e) refl

    stopped_by_keeps :
        (at : Place) (k : Key) (p : Pos W) (handler : Pos W → Pos W)
        → stopped_by at k ≡ some handler
        → (handler p).terminal.cart ≡ p.terminal.cart
    unfolding stopped_by
    stopped_by_keeps at escape p handler e = escape_in_keeps at p handler e
    stopped_by_keeps at f2 p handler e = absurd (ground (arith, e))
    stopped_by_keeps at f3 p handler e = absurd (ground (arith, e))
    stopped_by_keeps at f5 p handler e = absurd (ground (arith, e))
    stopped_by_keeps at f7 p handler e = absurd (ground (arith, e))
    stopped_by_keeps at f8 p handler e = absurd (ground (arith, e))
    stopped_by_keeps at f10 p handler e = absurd (ground (arith, e))
    stopped_by_keeps at arrow_up p handler e = arrow_in_keeps at p handler e
    stopped_by_keeps at arrow_down p handler e = arrow_in_keeps at p handler e
    stopped_by_keeps at delete_key p handler e = absurd (ground (arith, e))
    stopped_by_keeps at plus_key p handler e = absurd (ground (arith, e))
    stopped_by_keeps at minus_key p handler e = absurd (ground (arith, e))
    stopped_by_keeps at add_key p handler e = absurd (ground (arith, e))
    stopped_by_keeps at subtract_key p handler e = absurd (ground (arith, e))
    stopped_by_keeps at other_key p handler e = absurd (ground (arith, e))

    press_key_at-IsSound :
        (stock : Option ℤ) (at : Place) (k : Key) (p : Pos W)
        → IsSound p
        → IsSound (press_key_at stock at k p)
    unfolding press_key_at
    press_key_at-IsSound stock at k p h = elim (Option-cases (stopped_by {W = W} at k)) [
      | inl through ↦ rw (press_key_at, through) (press_key-IsSound stock k p h)
      | inr (handler, held) ↦
          rw (press_key_at, held) (subst IsSoundCart (sym (stopped_by_keeps at k p handler held)) h)
    ]

    terminal_step-IsValid :
        (t : Terminal W) (op : TerminalOp W)
        → IsValid t.cart
        → IsValid (terminal_step true t op).cart
    unfolding terminal_step handle_apply handle_remove
    terminal_step-IsValid t (on_cart op) v = apply-IsValid t.cart (action_of op) v
    terminal_step-IsValid t (on_dialogs op) v = v
    terminal_step-IsValid t (presses_apply typed) v =
        elim (Bool-cases (exceeds_permission true typed)) [
          | inl above ↦ rw above v
          | inr fine ↦ rw fine (set_discount-IsValid (target_item t) (clamped typed) t v)
        ]
    terminal_step-IsValid t presses_remove v = set_discount-IsValid (target_item t) (num 0) t v

    run_from-IsSound :
        (events : List (PosEvent W)) (p : Pos W)
        → IsSound p
        → IsSound (foldl (pos_step true) p events)
    unfolding pos_step
    run_from-IsSound [] p h = h
    run_from-IsSound (key_down stock at k ∷ events) p h =
        run_from-IsSound events (press_key_at stock at k p) (press_key_at-IsSound stock at k p h)
    run_from-IsSound (acts op ∷ events) p h =
        run_from-IsSound events (pos_step true p (acts op))
          (terminal_step-IsValid p.terminal op h.0, terminal_step-IsWithin free p.terminal op h.1)

    -- Whatever keys a cashier presses at the point of sale, and whatever its dialogs, rows and
    -- scanned products call in between, the totals and the lines of the cart are right (`IsValid`),
    -- and no line and no cart gets a discount by hand of more than 30 percent, if 0 is not more than
    -- that and the numbers have exact units.
    pub run_pos-IsSound : (events : List (PosEvent W)) → IsSound (run_pos true events)
    unfolding run_pos first_pos initial
    run_pos-IsSound events =
        run_from-IsSound events first_pos (initial-IsValid, record { lines = tt; whole = free })
