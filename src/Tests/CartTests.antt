-- ===== src/Tests/CartTests.antt =====
-- Runs of the cart store and its theorems at concrete carts, in fixed-point amounts.
use blend_pos.Prelude.{◌≡◌, refl, none, some, List, [], ◌∷◌, pos, ◌+ℤ◌}
use blend_pos.Number.{num}
use blend_pos.Number.Fixed.{Fixed, fixed_number, Fixed-HasUnits}
use blend_pos.Cart.{
  RawItem, CartState, as_number, new_item, add_item, quantity_in, with_cart, compute_total,
  compute_total_con_descuento, add_line, put_line, bump, map_at, line_price, effective_pct,
  fill_barcode, price_of, initial,
}
use blend_pos.Cart.Edits.{set_item_discount, discount_line, set_global_discount}
use blend_pos.Cart.Actions.{Action, add, discount, discount_all, run, apply}
use blend_pos.Cart.Totals.{IsValid, run-IsValid}
use blend_pos.Cart.Quantities.{after, selected_id, apply-refines}

cart_store : Unit {0}
unfolding run add_item quantity_in with_cart compute_total compute_total_con_descuento add_line
    put_line bump map_at line_price effective_pct fill_barcode discount_line set_item_discount
    set_global_discount new_item price_of initial ◌+ℤ◌
cart_store = tt

abbrev yerba : RawItem Fixed
yerba = record { id = 7; nombre = "Yerba"; precio = as_number (num 1500); codigo_barras = "779" }

abbrev coca : RawItem Fixed
coca = record { id = 8; nombre = "Coca"; precio = as_number (num 900); codigo_barras = "" }

abbrev pub actions : List (Action Fixed)
actions =
    add yerba (some (pos 5))
    ∷ add coca none
    ∷ add yerba (some (pos 5))
    ∷ discount 7 (num 10)
    ∷ discount_all (num 5)
    ∷ []

run-IsValid_example : IsValid (run actions)
run-IsValid_example = run-IsValid ⦃u = Fixed-HasUnits⦄ actions

apply-refines_example :
    quantity_in 7 (apply (run actions) (add yerba (some (pos 2)))).cart
    ≡ after
        (add yerba (some (pos 2)))
        (selected_id (run actions))
        (λ j. quantity_in j (run actions).cart)
        7
apply-refines_example = apply-refines (run actions) (add yerba (some (pos 2))) run-IsValid_example 7

abbrev rows : CartState Fixed
rows = record {
  cart = new_item yerba ∷ new_item coca ∷ [];
  total = num 2400;
  descuento_global = num 0;
  total_con_descuento = num 2400;
  last_added = none;
  selected_row_index = pos 1;
}

quantities_run :
    (quantity_in 7 (run actions).cart ≡ pos 2)
    × ((run actions).total ≡ num 3600)
    × ((run actions).total_con_descuento ≡ num 3420)
    × ((run actions).selected_row_index ≡ pos 0)
unfolding cart_store
quantities_run = (refl, refl, refl, refl)
