-- ===== src/Cart/Selection.antt =====
-- Keyboard navigation over the cart (frontend/src/store/useCartStore.ts).
use blend_pos.Prelude.{◌≡◌, ◌<◌, arith, length, ℤ, pos, negsuc, ◌-ℤ◌, ◌+ℤ◌, ◌≤ℤ◌, ◌<ℤ◌}
use blend_pos.Number.{Number}
use blend_pos.Cart.{CartState}
use blend_pos.Cart.Edits.{move_selection_up, move_selection_down}

module _ {W : Type 0} ⦃d : Number W⦄ where
  -- a row of the cart
  abbrev pub IsRow : ℤ → CartState W → Type 0
  IsRow i s = (pos 0 ≤ℤ i) × (i <ℤ pos (length s.cart))

  -- In a cart that is not empty, if the selected row is -1 or a row of the cart, then after a move
  -- up, and after a move down, it is a row of the cart; the moves change no line.
  pub move_selection-IsRow :
      (s : CartState W)
      → 0 < length s.cart
      → negsuc 0 ≤ℤ s.selected_row_index
      → s.selected_row_index <ℤ pos (length s.cart)
      → let u = move_selection_up s in
        let v = move_selection_down s in
        IsRow u.selected_row_index u
        × (u.cart ≡ s.cart)
        × IsRow v.selected_row_index v
        × (v.cart ≡ s.cart)
  unfolding move_selection_up move_selection_down ◌-ℤ◌ ◌+ℤ◌
  move_selection-IsRow s h low high = (ground arith, ground arith, ground arith, ground arith)

  -- From a row of the cart the two moves undo one another, also across the ends.
  pub move_selection_inverse :
      (s : CartState W)
      → IsRow s.selected_row_index s
      → (move_selection_down (move_selection_up s) ≡ s)
        × (move_selection_up (move_selection_down s) ≡ s)
  unfolding move_selection_up move_selection_down ◌-ℤ◌ ◌+ℤ◌
  move_selection_inverse s h = (ground arith, ground arith)
