-- ===== src/Cart/Actions.antt =====
-- The actions of the cart store (frontend/src/store/useCartStore.ts) as data, in whatever order the
-- cashier, the promotions and the timers call them.
use Prim.Native.String.{String}
use blend_pos.Prelude.{ℕ, List, Option, ℤ, foldl}
use blend_pos.Number.{Number}
use blend_pos.Cart.{RawItem, CartState, Record, add_item, initial}
use blend_pos.Cart.Edits.{
  expire_last_added, remove_item, update_quantity, set_item_discount, set_promo_discounts,
  set_global_discount, clear_cart, set_selected_row_index, move_selection_up, move_selection_down,
  remove_selected_item,
}

pub data Action (W : Type 0) : Type 0 where
  add : RawItem W → Option ℤ → Action W
  expire : ℕ → Action W
  remove : ℕ → Action W
  update : ℕ → ℤ → Option ℤ → Action W
  discount : ℕ → W → Action W
  promos : Record W → Record String → Action W
  discount_all : W → Action W
  clear : Action W
  select : ℤ → Action W
  up : Action W
  down : Action W
  remove_selected : Action W

module _ {W : Type 0} ⦃d : Number W⦄ where
  abbrev pub apply : CartState W → Action W → CartState W
  apply s (add raw stock) = (add_item raw stock s).0
  apply s (expire id) = expire_last_added id s
  apply s (remove id) = remove_item id s
  apply s (update id n stock) = (update_quantity id n stock s).0
  apply s (discount id pct) = set_item_discount id pct s
  apply s (promos pcts names) = set_promo_discounts pcts names s
  apply s (discount_all pct) = set_global_discount pct s
  apply s clear = clear_cart s
  apply s (select i) = set_selected_row_index i s
  apply s up = move_selection_up s
  apply s down = move_selection_down s
  apply s remove_selected = remove_selected_item s

  -- the store after a list of actions, from its first state
  unfoldable pub run : List (Action W) → CartState W
  run = foldl apply initial
