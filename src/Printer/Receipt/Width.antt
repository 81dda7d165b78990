-- ===== src/Printer/Receipt/Width.antt =====
-- The lines of the receipt of frontend/src/services/ThermalPrinterService.ts against the width of
-- the paper.
use blend_pos.Prelude.{
  ℕ, ◌+◌, ◌≤◌, List, [], ◌∷◌, ◌++◌, Option, none, some, arith, All, All-append, length, Bool-cases,
  inl, inr,
}
use blend_pos.Number.{Number, num}
use blend_pos.Cart.{CartItem, MetodoPago, simple, mixto, PagoDetalle}
use blend_pos.Sale.{SaleRecord}
use blend_pos.Printer.{Text, units, Format}
use blend_pos.Printer.Layout.{left_right, length-repeat, length-left_right, length-fit_name}
use blend_pos.Printer.Receipt.{
  shown_discount, discount_text, shown_line, discount_lines, item_lines, all_item_lines,
  reduction_lines, pago_lines, vuelto_lines, breakdown_lines,
}

-- No line is wider than the paper.
abbrev pub Fits : ℕ → List Text → Type 0
Fits w = All (λ t. length t ≤ w)

-- a price with the sign of a discount leaves room for the left column
pub record IsShort (W : Type 0) (f : Format W) (w : ℕ) : Type 0 where
  pub price : (x : W) → length (f.price x) + 4 ≤ w

module _ {W : Type 0} ⦃d : Number W⦄ (f : Format W) (w : ℕ) (h : IsShort W f w) where
  price_column : (s : Text) (x : W) → length (left_right s (f.price x) w) ≤ w
  price_column s x =
      let short = h.price x in
      let filled = length-left_right s (f.price x) w (omega arith) in omega arith

  discount_column : (s : Text) (x : W) → length (left_right s (units "- " ++ f.price x) w) ≤ w
  discount_column s x =
      let short = h.price x in
      let filled = length-left_right s (units "- " ++ f.price x) w (omega arith) in omega arith

  shown_line-Fits : (item : CartItem W) (o : Option (Text × W)) → Fits w (shown_line f item w o)
  unfolding shown_line discount_text
  shown_line-Fits item none = tt
  shown_line-Fits item (some (before, pct)) = (discount_column _ _, tt)

  pub item_lines-Fits : (item : CartItem W) → Fits w (item_lines f w item)
  unfolding item_lines discount_lines
  item_lines-Fits item =
      let short = h.price item.subtotal in
      (
        length-fit_name (units item.nombre) w (omega arith),
        (price_column _ item.subtotal, shown_line-Fits item (shown_discount f item)),
      )

  all_item_lines-Fits : (items : List (CartItem W)) → Fits w (all_item_lines f w items)
  unfolding all_item_lines
  all_item_lines-Fits [] = tt
  all_item_lines-Fits (item ∷ items) =
      All-append (λ t. length t ≤ w) (item_lines f w item) (all_item_lines f w items)
        (item_lines-Fits item) (all_item_lines-Fits items)

  reduction_lines-Fits : (sale : SaleRecord W) → Fits w (reduction_lines f w sale)
  unfolding reduction_lines
  reduction_lines-Fits sale = elim (Bool-cases (d.lt sale.total_con_descuento sale.total)) [
    | inl reduced ↦ rw reduced (
      price_column _ sale.total,
      (discount_column _ _, (omega (arith, length-repeat 0x2d w), tt)),
    )
    | inr same ↦ rw same tt
  ]

  pago_lines-Fits : (ps : List (PagoDetalle W)) → Fits w (pago_lines f w ps)
  unfolding pago_lines
  pago_lines-Fits [] = tt
  pago_lines-Fits (p ∷ ps) = (price_column _ p.monto, pago_lines-Fits ps)

  vuelto_lines-Fits : (o : Option W) → Fits w (vuelto_lines f w o)
  unfolding vuelto_lines
  vuelto_lines-Fits none = tt
  vuelto_lines-Fits (some v) = elim (Bool-cases (d.lt (num 0) v)) [
    | inl more ↦ rw more (price_column _ v, tt)
    | inr none_left ↦ rw none_left tt
  ]

  pub breakdown_lines-Fits :
      (m : MetodoPago) (ps : Option (List (PagoDetalle W))) (v : Option W)
      → Fits w (breakdown_lines f w m ps v)
  unfolding breakdown_lines
  breakdown_lines-Fits mixto (some (p ∷ ps)) v =
      All-append (λ t. length t ≤ w) (pago_lines f w (p ∷ ps)) (vuelto_lines f w v)
        (pago_lines-Fits (p ∷ ps)) (vuelto_lines-Fits v)
  breakdown_lines-Fits mixto (some []) v = tt
  breakdown_lines-Fits mixto none v = tt
  breakdown_lines-Fits (simple m) ps v = tt

  -- On a paper with room for every price and four more characters, no line of the items, of the
  -- reduction or of the parts of the payment is wider than the paper, whatever the names are.
  pub receipt_lines-Fits :
      (sale : SaleRecord W)
      → Fits w (all_item_lines f w sale.items)
        × Fits w (reduction_lines f w sale)
        × Fits w (breakdown_lines f w sale.metodo_pago sale.pagos sale.vuelto)
  receipt_lines-Fits sale = (
    all_item_lines-Fits sale.items,
    reduction_lines-Fits sale,
    breakdown_lines-Fits sale.metodo_pago sale.pagos sale.vuelto,
  )
