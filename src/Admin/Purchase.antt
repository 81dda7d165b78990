-- ===== src/Admin/Purchase.antt =====
-- frontend/src/pages/admin/NuevaCompraPage.tsx: the form of a purchase, and the request that it sends.
-- A date is the year, the month and the day that the code reads of a `Date`.
pub mod Edits
pub mod Sent
pub mod Keys
use Prim.Native.String.{String}
use text.Mathlib.Text.{◌==◌ as str_eq}
use blend_pos.Prelude.{
  ℕ, suc, ◌+◌, ◌==◌, Option, none, some, List, [], ◌∷◌, ◌++◌, map, foldl, filter, Bool, true, false,
  not, ◌||◌, if◌then◌else◌, ℤ, pos, max_ℤ,
}
use blend_pos.Number.{Number, num}
use blend_pos.Sale.Ticket.{digits, pad}

pub data MetodoCompra : Type 0 where
  efectivo transferencia cheque tarjeta_debito tarjeta_credito cuenta_corriente otro : MetodoCompra

pub record PagoRow (W : Type 0) : Type 0 where
  pub key : ℕ
  pub metodo : MetodoCompra
  pub monto : W
  pub referencia : String

pub record ItemRow (W : Type 0) : Type 0 where
  pub key : ℕ
  pub nombre : String
  pub precio : W
  pub descuento : W
  pub impuesto : String
  pub cantidad : ℤ
  pub observaciones : String

pub record Fecha : Type 0 where
  pub year : ℕ
  pub month : ℕ
  pub day : ℕ

pub record PurchaseForm (W : Type 0) : Type 0 where
  pub numero : String
  pub fecha_compra : Option Fecha
  pub fecha_vence : Option Fecha
  pub moneda : String
  pub deposito : Option String
  pub notas : String
  pub proveedor_id : Option ℕ
  pub items : List (ItemRow W)
  pub next_key : ℕ
  pub pagos : List (PagoRow W)
  pub next_pago_key : ℕ

-- `CrearCompraRequest`; a date is the digits of its three parts, the last digit of each first
pub record CompraItemRequest (W : Type 0) : Type 0 where
  pub nombre_producto : String
  pub precio : W
  pub descuento_pct : W
  pub impuesto_pct : W
  pub cantidad : ℤ
  pub observaciones : Option String

pub record PagoCompraRequest (W : Type 0) : Type 0 where
  pub metodo : MetodoCompra
  pub monto : W
  pub referencia : Option String

abbrev pub DateText : Type 0
DateText = List ℕ × List ℕ × List ℕ

pub record CrearCompraRequest (W : Type 0) : Type 0 where
  pub numero : Option String
  pub proveedor_id : ℕ
  pub fecha_compra : DateText
  pub fecha_vencimiento : Option DateText
  pub moneda : String
  pub deposito : Option String
  pub notas : Option String
  pub items : List (CompraItemRequest W)
  pub pagos : List (PagoCompraRequest W)

-- what the button to save does: a warning, or the request
pub data Guardar (W : Type 0) : Type 0 where
  missing_supplier missing_date missing_items : Guardar W
  sends : CrearCompraRequest W → Guardar W

unfoldable pub to_date_str : Fecha → DateText
to_date_str f = (
  digits (suc f.year) f.year,
  pad 2 (digits (suc f.month) f.month),
  pad 2 (digits (suc f.day) f.day),
)

-- `text || undefined`
abbrev pub unless_blank : String → Option String
unless_blank t = if str_eq t "" then none else some t

-- what the totals of the screen add up
pub record Totals (W : Type 0) : Type 0 where
  pub sub : W
  pub desc : W

module _ {W : Type 0} ⦃d : Number W⦄ where
  unfoldable pub line_base : ItemRow W → W
  line_base row = d.mul row.precio (d.of_ℤ row.cantidad)

  unfoldable pub line_discount : ItemRow W → W
  unfolding line_base
  line_discount row = d.mul (line_base row) (d.div row.descuento (num 100))

  unfoldable pub line_tax : ItemRow W → W
  unfolding line_base line_discount
  line_tax row =
      d.mul (d.sub (line_base row) (line_discount row))
        (d.div (d.parse_float row.impuesto) (num 100))

  unfoldable pub calc_line_total : ItemRow W → W
  unfolding line_base line_discount line_tax
  calc_line_total row =
      d.max (num 0) (d.add (d.sub (line_base row) (line_discount row)) (line_tax row))

  unfoldable pub add_totals : Totals W → ItemRow W → Totals W
  unfolding line_base line_discount line_tax
  add_totals t row = record {
    sub = d.add t.sub (d.add (line_base row) (line_tax row));
    desc = d.add t.desc (line_discount row);
  }

  -- the subtotal and the discount; the total is their difference
  unfoldable pub totals : List (ItemRow W) → Totals W
  unfolding add_totals
  totals = foldl add_totals (record { sub = num 0; desc = num 0 })

  unfoldable pub purchase_total : List (ItemRow W) → W
  unfolding totals
  purchase_total items = d.sub (totals items).sub (totals items).desc

  unfoldable pub total_pagado : List (PagoRow W) → W
  total_pagado = foldl (λ s p. d.add s p.monto) (num 0)

  unfoldable pub blank_item : ℕ → ItemRow W
  blank_item key = record {
    key = key;
    nombre = "";
    precio = num 0;
    descuento = num 0;
    impuesto = "21";
    cantidad = pos 1;
    observaciones = "";
  }

  unfoldable pub blank_pago : ℕ → PagoRow W
  blank_pago key = record { key = key; metodo = efectivo; monto = num 0; referencia = "" }

  unfoldable pub empty_form : Fecha → PurchaseForm W
  unfolding blank_item
  empty_form today = record {
    numero = "";
    fecha_compra = some today;
    fecha_vence = none;
    moneda = "ARS";
    deposito = some "Principal";
    notas = "";
    proveedor_id = none;
    items = blank_item 1 ∷ [];
    next_key = 2;
    pagos = [];
    next_pago_key = 1;
  }

  abbrev pub is_paid : PagoRow W → Bool
  is_paid p = d.lt (num 0) p.monto

  module _ (trim : String → String) where
    unfoldable pub is_filled : ItemRow W → Bool
    is_filled r = not (str_eq (trim r.nombre) "") || d.lt (num 0) r.precio

    unfoldable pub item_request : ItemRow W → CompraItemRequest W
    item_request r = record {
      nombre_producto = r.nombre;
      precio = r.precio;
      descuento_pct = r.descuento;
      impuesto_pct = d.parse_float r.impuesto;
      cantidad = r.cantidad;
      observaciones = unless_blank (trim r.observaciones);
    }

    unfoldable pub pago_request : PagoRow W → PagoCompraRequest W
    pago_request p = record {
      metodo = p.metodo;
      monto = p.monto;
      referencia = unless_blank (trim p.referencia);
    }

    unfoldable pub payload : ℕ → Fecha → PurchaseForm W → CrearCompraRequest W
    unfolding is_filled item_request pago_request to_date_str
    payload proveedor fecha f = record {
      numero = unless_blank (trim f.numero);
      proveedor_id = proveedor;
      fecha_compra = to_date_str fecha;
      fecha_vencimiento = elim f.fecha_vence [ none ↦ none | some v ↦ some (to_date_str v) ];
      moneda = if str_eq (trim f.moneda) "" then "ARS" else trim f.moneda;
      deposito = f.deposito;
      notas = unless_blank (trim f.notas);
      items = map item_request (filter is_filled f.items);
      pagos = map pago_request (filter is_paid f.pagos);
    }

    unfoldable pub check_form : Option ℕ → Option Fecha → PurchaseForm W → Guardar W
    unfolding payload is_filled
    check_form none fecha f = missing_supplier
    check_form (some proveedor) none f = missing_date
    check_form (some proveedor) (some fecha) f = elim (filter is_filled f.items) [
      | [] ↦ missing_items
      | r ∷ rs ↦ sends (payload proveedor fecha f)
    ]

    unfoldable pub handle_guardar : PurchaseForm W → Guardar W
    unfolding check_form
    handle_guardar f = check_form f.proveedor_id f.fecha_compra f
