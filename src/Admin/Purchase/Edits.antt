-- ===== src/Admin/Purchase/Edits.antt =====
-- The edits of the rows and the payments of the form of frontend/src/pages/admin/NuevaCompraPage.tsx.
use blend_pos.Prelude.{ℕ, suc, ◌==◌, List, [], ◌∷◌, ◌++◌, map, foldl, filter, not, if◌then◌else◌}
use blend_pos.Number.{Number}
use blend_pos.Admin.Purchase.{
  ItemRow, PagoRow, PurchaseForm, Fecha, blank_item, blank_pago, empty_form,
}

pub data FormEvent (W : Type 0) : Type 0 where
  adds_row adds_pago : FormEvent W
  removes_row removes_pago : ℕ → FormEvent W
  -- a field of the row with a key gets a value: the row as it is then, under its old key
  updates_row : ℕ → (ItemRow W → ItemRow W) → FormEvent W
  updates_pago : ℕ → (PagoRow W → PagoRow W) → FormEvent W

module _ {W : Type 0} ⦃d : Number W⦄ where
  unfoldable pub update_row : ℕ → (ItemRow W → ItemRow W) → List (ItemRow W) → List (ItemRow W)
  update_row key f = map λ r. if r.key == key then record (f r) { key = r.key } else r

  unfoldable pub update_pago : ℕ → (PagoRow W → PagoRow W) → List (PagoRow W) → List (PagoRow W)
  update_pago key f = map λ p. if p.key == key then record (f p) { key = p.key } else p

  unfoldable pub form_step : PurchaseForm W → FormEvent W → PurchaseForm W
  unfolding blank_item blank_pago update_row update_pago
  form_step s adds_row = record s {
    items = s.items ++ (blank_item s.next_key ∷ []);
    next_key = suc s.next_key;
  }
  form_step s adds_pago = record s {
    pagos = s.pagos ++ (blank_pago s.next_pago_key ∷ []);
    next_pago_key = suc s.next_pago_key;
  }
  form_step s (removes_row key) = record s { items = filter (λ r. not (r.key == key)) s.items }
  form_step s (removes_pago key) = record s { pagos = filter (λ p. not (p.key == key)) s.pagos }
  form_step s (updates_row key f) = record s { items = update_row key f s.items }
  form_step s (updates_pago key f) = record s { pagos = update_pago key f s.pagos }

  unfoldable pub run_form : Fecha → List (FormEvent W) → PurchaseForm W
  unfolding form_step empty_form
  run_form today = foldl form_step (empty_form today)
