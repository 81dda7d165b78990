-- ===== src/Tests/PaymentTests.antt =====
-- The payment dialog at concrete forms, in fixed-point amounts.
use blend_pos.Prelude.{
  ℕ, ◌+◌, ◌-◌, ◌≡◌, refl, none, some, Option, List, [], true, false, ltb, ◌==◌, pos, arith,
}
use blend_pos.Number.{num}
use blend_pos.Number.Fixed.{Fixed, fixed_number}
use blend_pos.Cart.{CartState, mixto, PagoDetalle}
use blend_pos.Sale.Store.{Pago}
use blend_pos.Payment.{
  Texts, Form, typed, number, dni, to_number, amount_due, non_cash, cash_due, received, covers,
  can_confirm, push_if, detalles, amounts, handle_confirm_payment, is_buyer_valid, requires_buyer,
  resolved_doc,
}
use blend_pos.Payment.Amounts.{
  IsExact, IsPositive, paid, mixed_payment_adds_up, change_not_negative,
}

add-sub : (x y : ℕ) → ltb 0 (y - x) ≡ true → x + (y - x) ≡ y
add-sub x y h = ground arith

eq-zero : (x : ℕ) → ltb 0 x ≡ false → ltb x 0 ≡ false → x ≡ 0
eq-zero x h k = ground arith

eq_sound : (x y : ℕ) → (x == y) ≡ true → x ≡ y
eq_sound x y h = ground arith

eq_refl : (x : ℕ) → (x == x) ≡ true
eq_refl x = ground arith

never_below : (x : ℕ) → ltb x 0 ≡ false
never_below x = ground arith

Fixed-IsExact : IsExact Fixed
Fixed-IsExact = record {
  zero-add = λ x. omega arith;
  add-zero = λ x. omega arith;
  eq-zero = eq-zero;
  add-sub = add-sub;
  eq_sound = eq_sound;
  eq_refl = eq_refl;
  lt-irrefl = refl;
  sub-le = λ x y h. never_below (x - y);
}

payment_code : Unit {0}
unfolding handle_confirm_payment can_confirm is_buyer_valid requires_buyer resolved_doc covers
    amounts cash_due non_cash amount_due received to_number detalles push_if IsPositive
payment_code = tt

abbrev texts : Texts
texts = record { digits_of = λ t. t; trim = λ t. t; size = λ _. 0 }

abbrev full_cart : CartState Fixed
full_cart = record {
  cart = [];
  total = num 50;
  descuento_global = num 0;
  total_con_descuento = num 50;
  last_added = none;
  selected_row_index = pos 0;
}

abbrev mixed : Form Fixed
mixed = record {
  metodo_pago = mixto;
  monto_recibido = number (num 20);
  mixto_debito = number (num 30);
  mixto_credito = typed "";
  mixto_qr = number (num 5);
  mixto_transferencia = typed "";
  cliente_email = "";
  tipo_comprobante = none;
  tipo_documento = dni;
  documento = "";
  nombre = "";
  domicilio = "";
}

abbrev get_pago : Option (Pago Fixed) → Pago Fixed
get_pago (some p) = p
get_pago none = record {
  metodo_pago = mixto;
  pagos = none;
  efectivo_recibido = none;
  vuelto = none;
  cliente_email = none;
  tipo_comprobante = none;
  cuit_receptor = none;
  tipo_doc_receptor = none;
  nro_doc_receptor = none;
  receptor_nombre = none;
  receptor_domicilio = none;
}

abbrev pago : Pago Fixed
pago = get_pago (handle_confirm_payment texts mixed full_cart)

confirmed : handle_confirm_payment texts mixed full_cart ≡ some pago
unfolding payment_code
confirmed = refl

positive : IsPositive mixed
unfolding payment_code
positive = (refl, refl, refl, refl)

change_of_five : pago.vuelto ≡ some (num 5)
unfolding payment_code
change_of_five = refl

mixed_payment_adds_up_example :
    (ps : List (PagoDetalle Fixed)) × (pago.pagos ≡ some ps) × (paid ps ≡ amount_due full_cart)
mixed_payment_adds_up_example =
    mixed_payment_adds_up ⦃e = Fixed-IsExact⦄ texts mixed full_cart pago refl positive confirmed

change_not_negative_example : ltb (num 5) (num 0) ≡ false
change_not_negative_example =
    change_not_negative ⦃e = Fixed-IsExact⦄ texts mixed full_cart pago (num 5) confirmed
      change_of_five
