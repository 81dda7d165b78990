-- ===== src/Offline/Request.antt =====
-- `toRegistrarVentaRequest` of frontend/src/services/api/sales.ts: what the backend is sent for a stored sale.
pub mod Receiver
use Prim.Native.String.{String}
use text.Mathlib.Text.{◌==◌ as str_eq}
use blend_pos.Prelude.{
  ℕ, ◌==◌, Option, none, some, List, [], ◌∷◌, map, Bool, true, false, not, if◌then◌else◌, get_or, ℤ,
}
use blend_pos.Number.{Number, num}
use blend_pos.Cart.{CartItem, MetodoPago, MetodoSimple, simple, mixto, efectivo, PagoDetalle}
use blend_pos.Sale.{TipoComprobante, ticket_interno, factura_a, factura_b, factura_c}
use blend_pos.Offline.Db.{LocalSale}

-- functions of the JavaScript library: `s.trim()` and `+x.toFixed(2)`
pub record Formats (W : Type 0) : Type 0 where
  pub trim : String → String
  pub to_fixed2 : W → W

pub record ItemVenta (W : Type 0) : Type 0 where
  pub producto_id : ℕ
  pub cantidad : ℤ
  pub descuento : W

pub record PagoVenta (W : Type 0) : Type 0 where
  pub metodo : MetodoSimple
  pub monto : W

-- The payload; `none` is a key that it lacks, and for the session the empty text.
pub record VentaRequest (W : Type 0) : Type 0 where
  pub sesion_caja_id : Option ℕ
  pub items : List (ItemVenta W)
  pub pagos : List (PagoVenta W)
  pub offline_id : ℕ
  pub cliente_email : Option String
  pub tipo_comprobante : TipoComprobante
  pub receptor_nombre : Option String
  pub receptor_domicilio : Option String
  pub tipo_doc_receptor : Option ℕ
  pub nro_doc_receptor : Option String

-- `n` and `t` where they count as true
unfoldable pub present_number : Option ℕ → Option ℕ
present_number none = none
present_number (some n) = if n == 0 then none else some n

unfoldable pub present_text : Option String → Option String
present_text none = none
present_text (some t) = if str_eq t "" then none else some t

-- the metodo of a payment that is made up for an old sale
unfoldable pub metodo_of : MetodoPago → MetodoSimple
metodo_of (simple m) = m
metodo_of mixto = efectivo

-- the last branches: no document was given
unfoldable pub default_receiver : TipoComprobante → Option String → Option (ℕ × String)
default_receiver ticket_interno cuit = none
default_receiver factura_a cuit = elim (present_text cuit) [
  | some c ↦ some (80, c)
  | none ↦ some (99, "0")
]
default_receiver factura_b cuit = some (99, "0")
default_receiver factura_c cuit = some (99, "0")

-- `tipo_doc_receptor` and `nro_doc_receptor`
unfoldable pub receiver :
    Option ℕ → Option String → TipoComprobante → Option String → Option (ℕ × String)
receiver tipo nro comprobante cuit = elim (present_number tipo) [
  | none ↦ default_receiver comprobante cuit
  | some t ↦ elim (present_text nro) [
    | none ↦ default_receiver comprobante cuit
    | some n ↦ some (t, n)
  ]
]

module _ {W : Type 0} ⦃d : Number W⦄ (formats : Formats W) where
  -- a text that is present and not blank, trimmed
  unfoldable pub trimmed : Option String → Option String
  trimmed o = elim (present_text o) [ none ↦ none | some t ↦ present_text (some (formats.trim t)) ]

  unfoldable pub descuento_of : W → CartItem W → W
  descuento_of global_pct item =
      let line_total = d.mul item.precio (d.of_ℤ item.cantidad) in
      let item_pct = d.div (d.max item.descuento (get_or item.promo_descuento (num 0))) (num 100) in
      let subtotal = d.mul (d.mul line_total (d.sub (num 1) item_pct)) (d.sub (num 1) global_pct) in
      let discount = d.sub line_total subtotal in
      if d.lt (num 0) discount then formats.to_fixed2 discount else num 0

  unfoldable pub item_venta : W → CartItem W → ItemVenta W
  item_venta global_pct item = record {
    producto_id = item.id;
    cantidad = item.cantidad;
    descuento = descuento_of global_pct item;
  }

  abbrev pub pago_venta : PagoDetalle W → PagoVenta W
  pago_venta p = record { metodo = p.metodo; monto = p.monto }

  unfoldable pub pagos_venta : LocalSale W → List (PagoVenta W)
  pagos_venta s =
      let whole = record { metodo = metodo_of s.metodo_pago; monto = s.total_con_descuento } ∷ [] in
      elim s.pagos [
        | none ↦ whole
        | some ps ↦ elim ps [ [] ↦ whole | p ∷ rest ↦ pago_venta p ∷ map pago_venta rest ]
      ]

  unfoldable pub to_registrar_venta_request : LocalSale W → VentaRequest W
  to_registrar_venta_request s =
      let comprobante = get_or s.tipo_comprobante ticket_interno in
      let who = receiver s.tipo_doc_receptor s.nro_doc_receptor comprobante s.cuit_receptor in
      record {
        sesion_caja_id = s.sesion_caja_id;
        items = map (item_venta (d.div (get_or s.descuento_global (num 0)) (num 100))) s.items;
        pagos = pagos_venta s;
        offline_id = s.id;
        cliente_email = trimmed s.cliente_email;
        tipo_comprobante = comprobante;
        receptor_nombre = trimmed s.receptor_nombre;
        receptor_domicilio = trimmed s.receptor_domicilio;
        tipo_doc_receptor = elim who [ none ↦ none | some w ↦ some w.0 ];
        nro_doc_receptor = elim who [ none ↦ none | some w ↦ some w.1 ];
      }
