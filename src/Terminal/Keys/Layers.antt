-- ===== src/Terminal/Keys/Layers.antt =====
-- What the keys of frontend/src/pages/PosTerminal.tsx do while something is open over the table.
use blend_pos.Prelude.{ℕ, ◌+◌, ◌≡◌, Bool, true, if◌then◌else◌}
use blend_pos.Number.{Number}
use blend_pos.Terminal.Keys.{
  Pos, Place, on_page, payment_field, price_check_field, discount_field, search_field,
}

abbrev count : Bool → ℕ
count b = if b then 1 else 0

-- a scanner may send Escape after a code, so the field of the price check ignores it
abbrev pub escapes : Place → ℕ
escapes price_check_field = 0
escapes _ = 1

module _ {W : Type 0} ⦃d : Number W⦄ where
  -- how many of the payment, the price check, the discount, the history and the search are open
  abbrev pub open_layers : Pos W → ℕ
  open_layers p =
      count p.terminal.dialogs.is_payment_open
      + count p.terminal.dialogs.is_price_check_open
      + count p.terminal.dialogs.is_discount_open
      + count p.view.history_open
      + count p.view.search_visible

  -- the dialog or the search whose field has the focus is open
  abbrev pub IsShown : Place → Pos W → Type 0
  IsShown on_page p = Unit
  IsShown payment_field p = p.terminal.dialogs.is_payment_open ≡ true
  IsShown price_check_field p = p.terminal.dialogs.is_price_check_open ≡ true
  IsShown discount_field p = p.terminal.dialogs.is_discount_open ≡ true
  IsShown search_field p = p.view.search_visible ≡ true
