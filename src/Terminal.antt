-- ===== src/Terminal.antt =====
-- The dialogs of the point of sale: frontend/src/store/usePOSUIStore.ts and the discount dialog of
-- frontend/src/components/pos/DiscountModal.tsx, over the cart store.
pub mod Allowed
pub mod Limit
pub mod Table
pub mod Promos
pub mod Keys
pub mod Scan
use Prim.Native.String.{String}
use blend_pos.Prelude.{
  ℕ, Option, none, some, List, ◌∷◌, Bool, true, false, ◌&&◌, if◌then◌else◌, foldl, find, ℤ,
}
use blend_pos.Number.{Number, num, or_else}
use blend_pos.Cart.{
  CartItem, CartState, RawItem, RawPrice, as_number, as_text, Record, has_id, initial,
}
use blend_pos.Cart.Edits.{set_item_discount, set_global_discount}
use blend_pos.Cart.Actions
use blend_pos.Cart.Actions.{Action, apply}
use blend_pos.Sale.{SaleRecord}

pub data TicketChoice : Type 0 where
  as_ticket as_factura_a as_factura_b as_factura_c : TicketChoice

-- `POSUIState`
pub record Dialogs (W : Type 0) : Type 0 where
  pub is_payment_open : Bool
  pub is_comprobante_open : Bool
  pub is_price_check_open : Bool
  pub is_discount_open : Bool
  pub discount_target : Option ℕ
  pub tipo_comprobante : TicketChoice
  pub is_post_sale_open : Bool
  pub last_sale : Option (SaleRecord W)

pub data DialogOp (W : Type 0) : Type 0 where
  open_payment close_payment open_comprobante close_comprobante : DialogOp W
  open_price_check close_price_check open_discount close_discount : DialogOp W
  choose : TicketChoice → DialogOp W
  open_item_discount : ℕ → DialogOp W
  open_post_sale : SaleRecord W → DialogOp W
  close_post_sale : DialogOp W

-- the actions of the cart store that the terminal calls by itself: all but the two that set a discount
-- by hand, which only the dialog calls
pub data CartOp (W : Type 0) : Type 0 where
  adds : RawItem W → Option ℤ → CartOp W
  forgets_added : ℕ → CartOp W
  removes : ℕ → CartOp W
  updates : ℕ → ℤ → Option ℤ → CartOp W
  applies_promos : Record W → Record String → CartOp W
  clears : CartOp W
  selects : ℤ → CartOp W
  goes_up goes_down removes_selected : CartOp W

module _ {W : Type 0} where
  unfoldable pub no_dialogs : Dialogs W
  no_dialogs = record {
    is_payment_open = false;
    is_comprobante_open = false;
    is_price_check_open = false;
    is_discount_open = false;
    discount_target = none;
    tipo_comprobante = as_ticket;
    is_post_sale_open = false;
    last_sale = none;
  }

  unfoldable pub dialog_step : DialogOp W → Dialogs W → Dialogs W
  dialog_step open_payment u = record u { is_payment_open = true }
  dialog_step close_payment u = record u { is_payment_open = false }
  dialog_step open_comprobante u = record u { is_comprobante_open = true }
  dialog_step close_comprobante u = record u { is_comprobante_open = false }
  dialog_step open_price_check u = record u { is_price_check_open = true }
  dialog_step close_price_check u = record u { is_price_check_open = false }
  dialog_step open_discount u = record u { is_discount_open = true; discount_target = none }
  dialog_step close_discount u = record u { is_discount_open = false; discount_target = none }
  dialog_step (choose tipo) u = record u { tipo_comprobante = tipo }
  dialog_step (open_item_discount id) u = record u {
    is_discount_open = true;
    discount_target = some id;
  }
  dialog_step (open_post_sale sale) u = record u { is_post_sale_open = true; last_sale = some sale }
  dialog_step close_post_sale u = record u { is_post_sale_open = false; last_sale = none }

  unfoldable pub action_of : CartOp W → Action W
  action_of (adds raw stock) = Actions.add raw stock
  action_of (forgets_added id) = Actions.expire id
  action_of (removes id) = Actions.remove id
  action_of (updates id n stock) = Actions.update id n stock
  action_of (applies_promos pcts names) = Actions.promos pcts names
  action_of clears = Actions.clear
  action_of (selects i) = Actions.select i
  action_of goes_up = Actions.up
  action_of goes_down = Actions.down
  action_of removes_selected = Actions.remove_selected

pub record Terminal (W : Type 0) : Type 0 where
  pub cart : CartState W
  pub dialogs : Dialogs W

pub data TerminalOp (W : Type 0) : Type 0 where
  on_cart : CartOp W → TerminalOp W
  on_dialogs : DialogOp W → TerminalOp W
  -- the buttons of the discount dialog, with what was typed
  presses_apply : RawPrice W → TerminalOp W
  presses_remove : TerminalOp W

module _ {W : Type 0} ⦃d : Number W⦄ where
  -- `typeof localDiscount === 'string' ? parseFloat(localDiscount) || 0 : localDiscount`
  unfoldable pub numeric_discount : RawPrice W → W
  numeric_discount (as_text t) = or_else (d.parse_float t) (num 0)
  numeric_discount (as_number x) = x

  unfoldable pub clamped : RawPrice W → W
  unfolding numeric_discount
  clamped typed = d.max (num 0) (d.min (num 100) (numeric_discount typed))

  -- `CAJERO_DESCUENTO_MAX`
  abbrev pub cajero_descuento_max : W
  cajero_descuento_max = num 30

  unfoldable pub exceeds_permission : Bool → RawPrice W → Bool
  unfolding clamped
  exceeds_permission is_cajero typed = is_cajero && d.lt cajero_descuento_max (clamped typed)

  -- the line whose discount the dialog edits
  unfoldable pub target_item : Terminal W → Option (CartItem W)
  target_item t = elim t.dialogs.discount_target [
    | none ↦ none
    | some id ↦ find (has_id id) t.cart.cart
  ]

  -- `setItemDiscount` or `setGlobalDiscount`, and `close`
  unfoldable pub set_discount : Option (CartItem W) → W → Terminal W → Terminal W
  unfolding dialog_step
  set_discount (some item) pct t = record {
    cart = set_item_discount item.id pct t.cart;
    dialogs = dialog_step close_discount t.dialogs;
  }
  set_discount none pct t = record {
    cart = set_global_discount pct t.cart;
    dialogs = dialog_step close_discount t.dialogs;
  }

  unfoldable pub handle_apply : Bool → RawPrice W → Terminal W → Terminal W
  unfolding exceeds_permission set_discount target_item clamped
  handle_apply is_cajero typed t =
      if exceeds_permission is_cajero typed
      then t
      else set_discount (target_item t) (clamped typed) t

  unfoldable pub handle_remove : Terminal W → Terminal W
  unfolding set_discount target_item
  handle_remove t = set_discount (target_item t) (num 0) t

  unfoldable pub terminal_step : Bool → Terminal W → TerminalOp W → Terminal W
  unfolding handle_apply handle_remove dialog_step action_of
  terminal_step is_cajero t (on_cart op) = record t { cart = apply t.cart (action_of op) }
  terminal_step is_cajero t (on_dialogs op) = record t { dialogs = dialog_step op t.dialogs }
  terminal_step is_cajero t (presses_apply typed) = handle_apply is_cajero typed t
  terminal_step is_cajero t presses_remove = handle_remove t

  unfoldable pub run_terminal : Bool → List (TerminalOp W) → Terminal W
  unfolding terminal_step no_dialogs
  run_terminal is_cajero =
      foldl (terminal_step is_cajero) (record { cart = initial; dialogs = no_dialogs })
