-- ===== src/Payment/Amounts.antt =====
-- The amounts that the dialog of frontend/src/components/pos/PaymentModal.tsx lets through, for exact
-- amounts: doubles obey the laws of `IsExact` as far as no rounding takes place and none is NaN.
use mathlib.Core.Option.{some-injective}
use blend_pos.Prelude.{
  ◌≡◌, refl, ◌∙◌, ap, sym, some, List, [], ◌∷◌, ◌++◌, foldl, true, false, Bool-cases, inl, inr,
  arith,
}
use blend_pos.Number.{Number, num}
use blend_pos.Cart.{
  CartState, MetodoPago, MetodoSimple, simple, mixto, efectivo, debito, credito, qr, transferencia,
  PagoDetalle,
}
use blend_pos.Sale.Store.{Pago}
use blend_pos.Payment.{
  Texts, Form, to_number, amount_due, non_cash, cash_due, received, covers, can_confirm, push_if,
  detalles, amounts, handle_confirm_payment, is_buyer_valid,
}

pub record IsExact (W : Type 0) ⦃d : Number W⦄ : Type 0 where
  pub zero-add : (x : W) → d.add (num 0) x ≡ x
  pub add-zero : (x : W) → d.add x (num 0) ≡ x
  pub eq-zero : (x : W) → d.lt (num 0) x ≡ false → d.lt x (num 0) ≡ false → x ≡ num 0
  pub add-sub : (x y : W) → d.lt (num 0) (d.sub y x) ≡ true → d.add x (d.sub y x) ≡ y
  pub eq_sound : (x y : W) → d.eq x y ≡ true → x ≡ y
  pub eq_refl : (x : W) → d.eq x x ≡ true
  pub lt-irrefl : d.lt (num 0) (num 0) ≡ false
  pub sub-le : (x y : W) → d.le y x ≡ true → d.lt (d.sub x y) (num 0) ≡ false

module _ {W : Type 0} ⦃d : Number W⦄ where
  -- the sum of a breakdown
  unfoldable pub paid : List (PagoDetalle W) → W
  paid = foldl (λ sum p. d.add sum p.monto) (num 0)

  -- No amount of the breakdown is negative.
  unfoldable pub IsPositive : Form W → Type 0
  IsPositive f =
      (d.lt (to_number f.mixto_debito) (num 0) ≡ false)
      × (d.lt (to_number f.mixto_credito) (num 0) ≡ false)
      × (d.lt (to_number f.mixto_qr) (num 0) ≡ false)
      × (d.lt (to_number f.mixto_transferencia) (num 0) ≡ false)

  foldl-append :
      (sum : W) (ps : List (PagoDetalle W)) (p : PagoDetalle W)
      → foldl (λ t q. d.add t q.monto) sum (ps ++ (p ∷ []))
        ≡ d.add (foldl (λ t q. d.add t q.monto) sum ps) p.monto
  foldl-append sum [] p = refl
  foldl-append sum (q ∷ ps) p = foldl-append (d.add sum q.monto) ps p

  module _ ⦃e : IsExact W⦄ where
    paid-push_if :
        (m : MetodoSimple) (x : W) (ps : List (PagoDetalle W))
        → d.lt x (num 0) ≡ false
        → paid (push_if m x ps) ≡ d.add (paid ps) x
    unfolding paid push_if
    paid-push_if m x ps h = elim (Bool-cases (d.lt (num 0) x)) [
      | inl more ↦ rw more (foldl-append (num 0) ps (record { metodo = m; monto = x }))
      | inr none_left ↦ rw none_left (rw (e.eq-zero x none_left h) (sym (e.add-zero (paid ps))))
    ]

    paid-detalles :
        (f : Form W) (c : CartState W)
        → IsPositive f
        → d.lt (cash_due f c) (num 0) ≡ false
        → paid (detalles f c) ≡ d.add (non_cash f) (cash_due f c)
    unfolding IsPositive detalles non_cash paid
    paid-detalles f c (deb, cre, qrs, tra) due =
        let one = push_if debito (to_number f.mixto_debito) [] in
        let two = push_if credito (to_number f.mixto_credito) one in
        let three = push_if qr (to_number f.mixto_qr) two in
        let four = push_if transferencia (to_number f.mixto_transferencia) three in
        paid-push_if efectivo (cash_due f c) four due
        ∙ ap (λ (x : W). d.add x (cash_due f c))
            (paid-push_if transferencia (to_number f.mixto_transferencia) three tra
              ∙ ap (λ (x : W). d.add x (to_number f.mixto_transferencia))
                  (paid-push_if qr (to_number f.mixto_qr) two qrs
                    ∙ ap (λ (x : W). d.add x (to_number f.mixto_qr))
                        (paid-push_if credito (to_number f.mixto_credito) one cre
                          ∙ ap (λ (x : W). d.add x (to_number f.mixto_credito))
                              (paid-push_if debito (to_number f.mixto_debito) [] deb
                                ∙ e.zero-add (to_number f.mixto_debito)))))

    covers_mixto :
        (f : Form W) (c : CartState W)
        → covers f c mixto ≡ true
        → (d.lt (cash_due f c) (num 0) ≡ false) × (d.add (non_cash f) (cash_due f c) ≡ amount_due c)
    unfolding covers cash_due
    covers_mixto f c h = elim (Bool-cases (d.lt (cash_due f c) (num 0))) [
      | inl over ↦ let h = rw (covers, over) at h in ground (arith, h)
      | inr within ↦ (
        within,
        elim (Bool-cases (d.lt (num 0) (cash_due f c))) [
          | inl some_cash ↦ e.add-sub (non_cash f) (amount_due c) some_cash
          | inr no_cash ↦
              let zero_due : cash_due f c ≡ num 0 = e.eq-zero (cash_due f c) no_cash within in
              let is_zero : d.eq (cash_due f c) (num 0) ≡ true = rw zero_due (e.eq_refl (num 0)) in
              let h = rw (covers, within, is_zero) at h in
              ap (λ (x : W). d.add (non_cash f) x) zero_due
              ∙ e.add-zero (non_cash f)
              ∙ e.eq_sound (non_cash f) (amount_due c) h
        ],
      )
    ]

    confirms :
        (texts : Texts) (f : Form W) (c : CartState W) (pago : Pago W)
        → handle_confirm_payment texts f c ≡ some pago
        → (covers f c f.metodo_pago ≡ true)
          × (pago.pagos ≡ (amounts f c f.metodo_pago).0)
          × (pago.vuelto ≡ (amounts f c f.metodo_pago).2)
    unfolding handle_confirm_payment can_confirm
    confirms texts f c pago h = elim (Bool-cases (is_buyer_valid texts f)) [
      | inr invalid ↦
          let h = rw (handle_confirm_payment, can_confirm, invalid) at h in ground (arith, h)
      | inl valid ↦ elim (Bool-cases (covers f c f.metodo_pago)) [
        | inr short ↦
            let h = rw (handle_confirm_payment, can_confirm, valid, short) at h in ground (arith, h)
        | inl enough ↦
            let h = rw (handle_confirm_payment, can_confirm, valid, enough) at h in
            (enough, rw (← some-injective _ _ h) refl, rw (← some-injective _ _ h) refl)
      ]
    ]

    amounts_mixto : (f : Form W) (c : CartState W) → (amounts f c mixto).0 ≡ some (detalles f c)
    unfolding amounts
    amounts_mixto f c = elim (Bool-cases (d.lt (num 0) (cash_due f c))) [
      | inl some_cash ↦ rw (amounts, some_cash) refl
      | inr no_cash ↦ rw (amounts, no_cash) refl
    ]

    -- When the dialog confirms a mixed payment whose amounts are not negative, the breakdown that it
    -- passes on adds up to the amount due. The arithmetic is exact, as `IsExact` says.
    pub mixed_payment_adds_up :
        (texts : Texts) (f : Form W) (c : CartState W) (pago : Pago W)
        → f.metodo_pago ≡ mixto
        → IsPositive f
        → handle_confirm_payment texts f c ≡ some pago
        → (ps : List (PagoDetalle W)) × (pago.pagos ≡ some ps) × (paid ps ≡ amount_due c)
    mixed_payment_adds_up texts f c pago mixed positive h =
        let (enough, breakdown, _) = confirms texts f c pago h in
        let (due, total) =
          covers_mixto f c (sym (ap (λ (m : MetodoPago). covers f c m) mixed) ∙ enough) in
        (
          detalles f c,
          breakdown ∙ ap (λ (m : MetodoPago). (amounts f c m).0) mixed ∙ amounts_mixto f c,
          paid-detalles f c positive due ∙ total,
        )

    change :
        (f : Form W) (c : CartState W) (m : MetodoPago) (v : W)
        → covers f c m ≡ true
        → (amounts f c m).2 ≡ some v
        → d.lt v (num 0) ≡ false
    unfolding covers amounts
    change f c (simple efectivo) v enough h =
        rw (← some-injective _ _ h) (e.sub-le (received f (amount_due c)) (amount_due c) enough)
    change f c (simple debito) v enough h = ground (arith, h)
    change f c (simple credito) v enough h = ground (arith, h)
    change f c (simple qr) v enough h = ground (arith, h)
    change f c (simple transferencia) v enough h = ground (arith, h)
    change f c mixto v enough h = elim (Bool-cases (d.lt (num 0) (cash_due f c))) [
      | inr no_cash ↦ let h = rw (amounts, no_cash) at h in ground (arith, h)
      | inl some_cash ↦ elim (Bool-cases (d.lt (cash_due f c) (num 0))) [
        | inl over ↦ let k = rw (covers, over) at enough in ground (arith, k)
        | inr within ↦ elim (Bool-cases (d.eq (cash_due f c) (num 0))) [
          | inl zero_due ↦
              let k = rw (e.eq_sound (cash_due f c) (num 0) zero_due) at some_cash in
              let no = e.lt-irrefl in ground (arith, k, no)
          | inr more ↦
              let k = rw (covers, within, more, some_cash) at enough in
              let h = rw (amounts, some_cash) at h in
              rw (← some-injective _ _ h) (e.sub-le (received f (cash_due f c)) (cash_due f c) k)
        ]
      ]
    ]

    -- The change that a confirmed payment passes on, by cash or mixed, is not negative: the cash
    -- received covers what is due in cash. The arithmetic is exact, as `IsExact` says.
    pub change_not_negative :
        (texts : Texts) (f : Form W) (c : CartState W) (pago : Pago W) (v : W)
        → handle_confirm_payment texts f c ≡ some pago
        → pago.vuelto ≡ some v
        → d.lt v (num 0) ≡ false
    change_not_negative texts f c pago v h given =
        let (enough, _, same) = confirms texts f c pago h in
        change f c f.metodo_pago v enough (sym same ∙ given)
