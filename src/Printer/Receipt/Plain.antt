-- ===== src/Printer/Receipt/Plain.antt =====
-- The texts of the receipt of frontend/src/services/ThermalPrinterService.ts hold no control
-- character, if what they are made of holds none.
use blend_pos.Prelude.{
  ℕ, zero, suc, ◌≤◌, List, [], ◌∷◌, ◌++◌, Option, none, some, Bool, true, false, if◌then◌else◌,
  arith, All, All-append, All-take, length, take, Bool-cases, inl, inr, ℤ,
}
use blend_pos.Number.{Number, num}
use blend_pos.Cart.{
  CartItem, MetodoPago, MetodoSimple, simple, mixto, efectivo, debito, credito, qr, transferencia,
  PagoDetalle,
}
use blend_pos.Sale.{SaleRecord}
use blend_pos.Printer.{Text, units, Format}
use blend_pos.Printer.Layout.{repeat, left_right, trim_left, fit_name, space, ellipsis}
use blend_pos.Printer.Commands.Reading.{IsPlain}
use blend_pos.Printer.Receipt.{
  metodo_label, metodo_pago_label, starts_with, drop_text, remove_first, shown_discount,
  shown_promo, shown_line, discount_text, discount_lines, item_lines, all_item_lines,
  reduction_lines, pago_lines, vuelto_lines, breakdown_lines, payment_lines,
}

pub plain_append : (s t : Text) → IsPlain s → IsPlain t → IsPlain (s ++ t)
plain_append = All-append (λ c. 0x20 ≤ c)

pub repeat-IsPlain : (c n : ℕ) → 0x20 ≤ c → IsPlain (repeat c n)
unfolding repeat
repeat-IsPlain c zero h = tt
repeat-IsPlain c (suc n) h = (h, repeat-IsPlain c n h)

cut_text-IsPlain :
    (b : Bool) (n : ℕ) (s : Text)
    → IsPlain s
    → IsPlain (if b then take n s ++ (ellipsis ∷ []) else s)
cut_text-IsPlain true n s h =
    plain_append (take n s) (ellipsis ∷ []) (All-take (λ c. 0x20 ≤ c) n s h) (omega arith)
cut_text-IsPlain false n s h = h

pub left_right-IsPlain : (s t : Text) (w : ℕ) → IsPlain s → IsPlain t → IsPlain (left_right s t w)
unfolding left_right trim_left
left_right-IsPlain s t w hs ht =
    plain_append _ _ (cut_text-IsPlain _ _ s hs)
      (plain_append _ t (repeat-IsPlain space _ (omega arith)) ht)

pub fit_name-IsPlain : (s : Text) (w : ℕ) → IsPlain s → IsPlain (fit_name s w)
unfolding fit_name
fit_name-IsPlain s w h = cut_text-IsPlain _ _ s h

drop_text-IsPlain : (n : ℕ) (s : Text) → IsPlain s → IsPlain (drop_text n s)
unfolding drop_text
drop_text-IsPlain n [] h = tt
drop_text-IsPlain zero (c ∷ s) h = h
drop_text-IsPlain (suc n) (c ∷ s) (h, hs) = drop_text-IsPlain n s hs

pub remove_first-IsPlain : (p s : Text) → IsPlain s → IsPlain (remove_first p s)
unfolding remove_first
remove_first-IsPlain p [] h = tt
remove_first-IsPlain p (c ∷ s) (h, hs) = elim (Bool-cases (starts_with p (c ∷ s))) [
  | inl found ↦ rw found (drop_text-IsPlain (length p) (c ∷ s) (h, hs))
  | inr absent ↦ rw absent (h, remove_first-IsPlain p s hs)
]

pub metodo_label-IsPlain : (m : MetodoSimple) → IsPlain (metodo_label m)
unfolding metodo_label
metodo_label-IsPlain efectivo = omega arith
metodo_label-IsPlain debito = omega arith
metodo_label-IsPlain credito = omega arith
metodo_label-IsPlain qr = omega arith
metodo_label-IsPlain transferencia = omega arith

pub metodo_pago_label-IsPlain : (m : MetodoPago) → IsPlain (metodo_pago_label m)
unfolding metodo_pago_label
metodo_pago_label-IsPlain (simple m) = metodo_label-IsPlain m
metodo_pago_label-IsPlain mixto = omega arith

-- What is written of numbers, dates and identifiers holds no control character.
pub record IsPlainFormat (W : Type 0) (f : Format W) : Type 0 where
  pub price : (x : W) → IsPlain (f.price x)
  pub number : (x : W) → IsPlain (f.number x)
  pub integer : (n : ℤ) → IsPlain (f.integer n)
  pub date : (t : ℕ) → IsPlain (f.date t)
  pub time : (t : ℕ) → IsPlain (f.time t)
  pub sale_id : (n : ℕ) → IsPlain (f.sale_id n)

module _ {W : Type 0} ⦃d : Number W⦄ (f : Format W) (p : IsPlainFormat W f) where
  price_line :
      (before s : Text) (x : W) (w : ℕ)
      → IsPlain before
      → IsPlain s
      → IsPlain (left_right s (before ++ f.price x) w)
  price_line before s x w hb hs = left_right-IsPlain s _ w hs (plain_append before _ hb (p.price x))

  abbrev IsPlainShown : Option (Text × W) → Type 0
  IsPlainShown none = Unit
  IsPlainShown (some (before, _)) = IsPlain before

  shown_promo-IsPlainShown : (o : Option W) → IsPlainShown (shown_promo f o)
  unfolding shown_promo
  shown_promo-IsPlainShown none = tt
  shown_promo-IsPlainShown (some pct) = elim (Bool-cases (d.truthy pct)) [
    | inl more ↦ rw more (omega arith)
    | inr none_left ↦ rw none_left tt
  ]

  shown_discount-IsPlainShown : (item : CartItem W) → IsPlainShown (shown_discount f item)
  unfolding shown_discount
  shown_discount-IsPlainShown item = elim (Bool-cases (d.lt (num 0) item.descuento)) [
    | inl by_hand ↦ rw by_hand (omega arith)
    | inr promo ↦ rw promo (shown_promo-IsPlainShown item.promo_descuento)
  ]

  shown_line-IsPlain :
      (item : CartItem W) (w : ℕ) (o : Option (Text × W))
      → IsPlainShown o
      → All IsPlain (shown_line f item w o)
  unfolding shown_line discount_text
  shown_line-IsPlain item w none h = tt
  shown_line-IsPlain item w (some (before, pct)) h = (
    price_line (units "- ") _ _ w (omega arith)
        (plain_append before _ h (plain_append _ (units "%") (p.number pct) (omega arith))),
    tt,
  )

  item_lines-IsPlain :
      (w : ℕ) (item : CartItem W) → IsPlain (units item.nombre) → All IsPlain (item_lines f w item)
  unfolding item_lines discount_lines
  item_lines-IsPlain w item h = (
    fit_name-IsPlain _ w h,
    (
      left_right-IsPlain _ _ w
          (plain_append _ _ (p.integer item.cantidad)
            (plain_append (units " x ") _ (omega arith) (p.price item.precio)))
          (p.price item.subtotal),
      shown_line-IsPlain item w _ (shown_discount-IsPlainShown item),
    ),
  )

  pub all_item_lines-IsPlain :
      (w : ℕ) (items : List (CartItem W))
      → All (λ item. IsPlain (units item.nombre)) items
      → All IsPlain (all_item_lines f w items)
  unfolding all_item_lines
  all_item_lines-IsPlain w [] h = tt
  all_item_lines-IsPlain w (item ∷ items) (h, hs) =
      All-append IsPlain (item_lines f w item) (all_item_lines f w items)
        (item_lines-IsPlain w item h) (all_item_lines-IsPlain w items hs)

  pub reduction_lines-IsPlain :
      (w : ℕ) (sale : SaleRecord W) → All IsPlain (reduction_lines f w sale)
  unfolding reduction_lines
  reduction_lines-IsPlain w sale = elim (Bool-cases (d.lt sale.total_con_descuento sale.total)) [
    | inl reduced ↦ rw reduced (
      left_right-IsPlain _ _ w (omega arith) (p.price sale.total),
      (
        price_line (units "- ") _ _ w (omega arith) (omega arith),
        (repeat-IsPlain 0x2d w (omega arith), tt),
      ),
    )
    | inr same ↦ rw same tt
  ]

  pago_lines-IsPlain : (w : ℕ) (ps : List (PagoDetalle W)) → All IsPlain (pago_lines f w ps)
  unfolding pago_lines
  pago_lines-IsPlain w [] = tt
  pago_lines-IsPlain w (q ∷ ps) = (
    left_right-IsPlain _ _ w
        (plain_append (units "  ") _ (omega arith)
          (plain_append _ _ (metodo_label-IsPlain q.metodo) (omega arith)))
        (p.price q.monto),
    pago_lines-IsPlain w ps,
  )

  vuelto_lines-IsPlain : (w : ℕ) (o : Option W) → All IsPlain (vuelto_lines f w o)
  unfolding vuelto_lines
  vuelto_lines-IsPlain w none = tt
  vuelto_lines-IsPlain w (some v) = elim (Bool-cases (d.lt (num 0) v)) [
    | inl more ↦ rw more (left_right-IsPlain _ _ w (omega arith) (p.price v), tt)
    | inr none_left ↦ rw none_left tt
  ]

  breakdown_lines-IsPlain :
      (w : ℕ) (m : MetodoPago) (ps : Option (List (PagoDetalle W))) (v : Option W)
      → All IsPlain (breakdown_lines f w m ps v)
  unfolding breakdown_lines
  breakdown_lines-IsPlain w mixto (some (q ∷ ps)) v =
      All-append IsPlain (pago_lines f w (q ∷ ps)) (vuelto_lines f w v)
        (pago_lines-IsPlain w (q ∷ ps)) (vuelto_lines-IsPlain w v)
  breakdown_lines-IsPlain w mixto (some []) v = tt
  breakdown_lines-IsPlain w mixto none v = tt
  breakdown_lines-IsPlain w (simple m) ps v = tt

  pub payment_lines-IsPlain : (w : ℕ) (sale : SaleRecord W) → All IsPlain (payment_lines f w sale)
  unfolding payment_lines
  payment_lines-IsPlain w sale = (
    left_right-IsPlain _ _ w (omega arith) (metodo_pago_label-IsPlain sale.metodo_pago),
    breakdown_lines-IsPlain w sale.metodo_pago sale.pagos sale.vuelto,
  )
