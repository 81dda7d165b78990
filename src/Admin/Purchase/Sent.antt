-- ===== src/Admin/Purchase/Sent.antt =====
-- What of a purchase frontend/src/pages/admin/NuevaCompraPage.tsx sends.
use Prim.Native.String.{String}
use blend_pos.Prelude.{◌≡◌, none, List, map, foldl, filter, All, true, false, ◌⊎◌}
use blend_pos.Number.{Number, num}
use blend_pos.Admin.Purchase.{
  PurchaseForm, PagoCompraRequest, Guardar, missing_supplier, missing_date, missing_items, sends,
  totals, purchase_total, total_pagado, is_filled, item_request,
}

-- What 0 does among finite numbers.
pub record HasZero (W : Type 0) ⦃d : Number W⦄ : Type 0 where
  pub zero-mul : (x : W) → d.mul (num 0) x ≡ num 0
  pub zero-sub : d.sub (num 0) (num 0) ≡ num 0
  pub add-zero : (x : W) → d.add x (num 0) ≡ x

-- the field for an amount allows no number below 0
abbrev pub IsAmount : {W : Type 0} → ⦃d : Number W⦄ → W → Type 0
IsAmount ⦃d = d⦄ x = (d.lt (num 0) x ≡ true) ⊎ (x ≡ num 0)

module _ {W : Type 0} ⦃d : Number W⦄ where
  abbrev pub sent_paid : List (PagoCompraRequest W) → W
  sent_paid = foldl (λ s p. d.add s p.monto) (num 0)

  -- What the answer of the button says of the form: the rows that are sent have by themselves the
  -- totals that the screen shows for all rows, and the payments pay what it shows.
  abbrev pub IsFaithful : (String → String) → PurchaseForm W → Guardar W → Type 0
  IsFaithful trim f missing_supplier = f.proveedor_id ≡ none
  IsFaithful trim f missing_date = f.fecha_compra ≡ none
  IsFaithful trim f missing_items = All (λ r. is_filled trim r ≡ false) f.items
  IsFaithful trim f (sends req) =
      (req.items ≡ map (item_request trim) (filter (is_filled trim) f.items))
      × (totals (filter (is_filled trim) f.items) ≡ totals f.items)
      × (purchase_total (filter (is_filled trim) f.items) ≡ purchase_total f.items)
      × (sent_paid req.pagos ≡ total_pagado f.pagos)
      × All (λ p. d.lt (num 0) p.monto ≡ true) req.pagos
