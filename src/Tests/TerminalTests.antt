-- ===== src/Tests/TerminalTests.antt =====
-- A cashier at the terminal, in fixed-point amounts.
use blend_pos.Prelude.{◌≡◌, refl, some, List, [], ◌∷◌, true, pos}
use blend_pos.Number.{num}
use blend_pos.Number.Fixed.{Fixed, fixed_number}
use blend_pos.Cart.{RawItem, as_number}
use blend_pos.Terminal.{
  TerminalOp, adds, on_cart, on_dialogs, open_item_discount, open_discount, presses_apply,
  exceeds_permission,
}

abbrev bread : RawItem Fixed
bread = record { id = 7; nombre = "Pan"; precio = as_number (num 60); codigo_barras = "77" }

abbrev shift : List (TerminalOp Fixed)
shift =
    on_cart (adds bread (some (pos 5)))
    ∷ on_dialogs (open_item_discount 7)
    ∷ presses_apply (as_number (num 20))
    ∷ on_dialogs open_discount
    ∷ presses_apply (as_number (num 45))
    ∷ []

too_much : exceeds_permission {W = Fixed} true (as_number (num 45)) ≡ true
unfolding exceeds_permission
too_much = refl
