-- ===== src/Terminal/Keys.antt =====
-- The keys of the point of sale: the two handlers of frontend/src/pages/PosTerminal.tsx, and the fields
-- of frontend/src/components/pos that stop a key before it reaches them, over the cart store and the
-- store of the dialogs. What Mantine's modals do with a key by themselves is left out. A key is one
-- step; the stock is what `updateQuantity` is going to find, `none` when it cannot be read.
pub mod Layers
pub mod Shift
use Prim.Native.String.{String}
use blend_pos.Prelude.{
  ℕ, zero, suc, ◌+◌, ◌==◌, Option, none, some, Bool, true, false, ◌&&◌, ◌||◌, if◌then◌else◌, length,
  List, foldl, ℤ, pos, ◌+ℤ◌, ◌-ℤ◌, leb_ℤ, ltb_ℤ,
}
use blend_pos.Number.{Number}
use blend_pos.Cart.{CartItem, CartState, initial}
use blend_pos.Cart.Edits.{item_at}
use blend_pos.Cart.Actions.{apply}
use blend_pos.Terminal.{
  Terminal, TerminalOp, terminal_step, no_dialogs, CartOp, updates, goes_up, goes_down,
  removes_selected, action_of, DialogOp, dialog_step, open_payment, close_payment, open_price_check,
  close_price_check, open_discount, close_discount, open_item_discount,
}

-- `e.key` of every key but Enter; `add` and `subtract` are the keys of the number pad. Enter belongs to
-- the dialogs, the search and the field of the scanner: what they call on it comes as `acts`.
pub data Key : Type 0 where
  f2 f3 f5 f7 f8 f10 escape arrow_up arrow_down delete_key : Key
  plus_key minus_key add_key subtract_key other_key : Key

-- where the focus is: in a field that stops keys before they reach the page, or anywhere else
pub data Place : Type 0 where
  on_page payment_field price_check_field discount_field search_field : Place

-- the keys of the field of the scanner
pub data ScannerKey : Type 0 where
  enter : ScannerKey
  any_other : Key → ScannerKey

-- what the page keeps for itself
pub record PosView : Type 0 where
  pub scanner_value : String
  pub search_visible : Bool
  pub search_initial_query : String
  pub history_open : Bool

pub record Pos (W : Type 0) : Type 0 where
  pub terminal : Terminal W
  pub view : PosView

-- a key with the focus somewhere, or what a dialog, a row of the table or a scanned product calls
pub data PosEvent (W : Type 0) : Type 0 where
  key_down : Option ℤ → Place → Key → PosEvent W
  acts : TerminalOp W → PosEvent W

unfoldable pub open_search : String → PosView → PosView
open_search initial_query v = record v {
  search_initial_query = initial_query;
  search_visible = true;
}

unfoldable pub close_search : PosView → PosView
close_search v = record v { search_visible = false; search_initial_query = ""; scanner_value = "" }

-- `handleScannerKeyDown`: the text that it asks `handleAddProduct` for
unfoldable pub handle_scanner_key_down : ScannerKey → String → Option String
handle_scanner_key_down enter scanner_value = some scanner_value
handle_scanner_key_down (any_other k) scanner_value = none

module _ {W : Type 0} where
  unfoldable pub any_modal_open : Pos W → Bool
  any_modal_open p =
      p.terminal.dialogs.is_payment_open
      || (p.terminal.dialogs.is_price_check_open
          || (p.terminal.dialogs.is_discount_open || p.view.history_open))

  abbrev pub on_view : (PosView → PosView) → Pos W → Pos W
  on_view f p = record p { view = f p.view }

  -- one action of the store of the dialogs
  unfoldable pub calls_dialogs : DialogOp W → Pos W → Pos W
  unfolding dialog_step
  calls_dialogs op p = record p {
    terminal = record p.terminal { dialogs = dialog_step op p.terminal.dialogs };
  }

  abbrev pub no_lines : Pos W → Bool
  no_lines p = length p.terminal.cart.cart == 0

  unfoldable pub discount_row : Option (CartItem W) → Pos W → Pos W
  unfolding calls_dialogs
  discount_row none p = p
  discount_row (some item) p = calls_dialogs (open_item_discount item.id) p

  -- the first of the open dialogs, the history and the search is closed
  unfoldable pub close_first : Pos W → Pos W
  unfolding calls_dialogs close_search
  close_first p =
      if p.terminal.dialogs.is_payment_open
      then calls_dialogs close_payment p
      else if p.terminal.dialogs.is_price_check_open
      then calls_dialogs close_price_check p
      else if p.terminal.dialogs.is_discount_open
      then calls_dialogs close_discount p
      else if p.view.history_open
      then on_view (λ v. record v { history_open = false }) p
      else if p.view.search_visible
      then on_view close_search p
      else p

  -- what a field does with Escape when it stops it
  unfoldable pub escape_in : Place → Option (Pos W → Pos W)
  unfolding calls_dialogs close_search
  escape_in on_page = none
  escape_in payment_field = some (calls_dialogs close_payment)
  escape_in price_check_field = some (λ p. p)
  escape_in discount_field = some (calls_dialogs close_discount)
  escape_in search_field = some (on_view close_search)

  -- the arrows move the mark in the results of the search
  unfoldable pub arrow_in : Place → Option (Pos W → Pos W)
  arrow_in search_field = some (λ p. p)
  arrow_in _ = none

  -- `handleKeyDown` of a field of a dialog or of the search: what it does with a key that it stops, and
  -- `none` for a key that it lets through to the window
  unfoldable pub stopped_by : Place → Key → Option (Pos W → Pos W)
  unfolding escape_in arrow_in
  stopped_by at escape = escape_in at
  stopped_by at arrow_up = arrow_in at
  stopped_by at arrow_down = arrow_in at
  stopped_by _ _ = none

module _ {W : Type 0} ⦃d : Number W⦄ where
  -- the line that F3 discounts: the selected one, the first one when none is
  unfoldable pub discountable : CartState W → Option (CartItem W)
  discountable s =
      let i = s.selected_row_index in
      let safe = leb_ℤ (pos 0) i && ltb_ℤ i (pos (length s.cart)) in
      if safe then item_at i s.cart else item_at (pos 0) s.cart

  unfoldable pub calls_cart : CartOp W → Pos W → Pos W
  unfolding action_of
  calls_cart op p = record p {
    terminal = record p.terminal { cart = apply p.terminal.cart (action_of op) };
  }

  unfoldable pub plus_one : Option ℤ → Option (CartItem W) → Pos W → Pos W
  unfolding calls_cart
  plus_one stock none p = p
  plus_one stock (some c) p = calls_cart (updates c.id (c.cantidad +ℤ pos 1) stock) p

  unfoldable pub minus_one : Option ℤ → Option (CartItem W) → Pos W → Pos W
  unfolding calls_cart
  minus_one stock none p = p
  minus_one stock (some c) p =
      if ltb_ℤ (pos 1) c.cantidad
      then calls_cart (updates c.id (c.cantidad -ℤ pos 1) stock) p
      else p

  -- the line of `cart[selectedRowIndex]`, when that is a row
  abbrev pub selected_line : Pos W → Option (CartItem W)
  selected_line p = item_at p.terminal.cart.selected_row_index p.terminal.cart.cart

  -- a key that works only while neither a dialog nor the search is open
  abbrev on_table : (Pos W → Pos W) → Pos W → Pos W
  on_table f p = if any_modal_open p || p.view.search_visible then p else f p

  abbrev without_modal : (Pos W → Pos W) → Pos W → Pos W
  without_modal f p = if any_modal_open p then p else f p

  abbrev with_lines : (Pos W → Pos W) → Pos W → Pos W
  with_lines f p = if any_modal_open p || no_lines p then p else f p

  -- `handleKey`, the handler of the window
  unfoldable pub press_key : Option ℤ → Key → Pos W → Pos W
  unfolding any_modal_open open_search discount_row discountable close_first plus_one minus_one
  press_key stock f2 p = without_modal (on_view (open_search "")) p
  press_key stock f3 p = with_lines (λ q. discount_row (discountable q.terminal.cart) q) p
  press_key stock f5 p = without_modal (calls_dialogs open_price_check) p
  press_key stock f7 p = without_modal (on_view λ v. record v { history_open = true }) p
  press_key stock f8 p = with_lines (calls_dialogs open_discount) p
  press_key stock f10 p = with_lines (calls_dialogs open_payment) p
  press_key stock escape p = on_view (λ v. record v { scanner_value = "" }) (close_first p)
  press_key stock arrow_up p = on_table (calls_cart goes_up) p
  press_key stock arrow_down p = on_table (calls_cart goes_down) p
  press_key stock delete_key p =
      on_table (λ q. if no_lines q then q else calls_cart removes_selected q) p
  press_key stock plus_key p = on_table (λ q. plus_one stock (selected_line q) q) p
  press_key stock add_key p = on_table (λ q. plus_one stock (selected_line q) q) p
  press_key stock minus_key p = on_table (λ q. minus_one stock (selected_line q) q) p
  press_key stock subtract_key p = on_table (λ q. minus_one stock (selected_line q) q) p
  press_key stock other_key p = p

  unfoldable pub press_key_at : Option ℤ → Place → Key → Pos W → Pos W
  unfolding stopped_by press_key
  press_key_at stock at k p = elim (stopped_by at k) [
    | some handler ↦ handler p
    | none ↦ press_key stock k p
  ]

  unfoldable pub first_pos : Pos W
  unfolding no_dialogs
  first_pos = record {
    terminal = record { cart = initial; dialogs = no_dialogs };
    view = record {
      scanner_value = "";
      search_visible = false;
      search_initial_query = "";
      history_open = false;
    };
  }

  unfoldable pub pos_step : Bool → Pos W → PosEvent W → Pos W
  unfolding press_key_at
  pos_step is_cajero p (key_down stock at k) = press_key_at stock at k p
  pos_step is_cajero p (acts op) = record p { terminal = terminal_step is_cajero p.terminal op }

  unfoldable pub run_pos : Bool → List (PosEvent W) → Pos W
  unfolding pos_step first_pos
  run_pos is_cajero = foldl (pos_step is_cajero) first_pos
