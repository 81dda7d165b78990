-- ===== src/Sale/Store.antt =====
-- frontend/src/store/useSaleStore.ts: the history of sales and the ticket counter.
use Prim.Native.String.{String}
use blend_pos.Prelude.{
  ℕ, ◌+◌, Option, none, some, List, [], ◌∷◌, map, Bool, true, false, ltb, if◌then◌else◌, get_or,
  take, ℤ,
}
use blend_pos.Number.{Number, num, or_else}
use blend_pos.Cart.{CartItem, CartState, MetodoPago, simple, mixto, PagoDetalle}
use blend_pos.Cart.Edits.{clear_cart}
use blend_pos.Sale.{SaleRecord, TipoComprobante, ticket_interno}
use blend_pos.Sale.Ticket.{ticket}

abbrev pub max_historial : ℕ
max_historial = 200

pub record SaleState (W : Type 0) : Type 0 where
  pub historial : List (SaleRecord W)
  pub cajero : String
  pub ticket_counter : ℕ

-- What the payment dialog passes on.
pub record Pago (W : Type 0) : Type 0 where
  pub metodo_pago : MetodoPago
  pub pagos : Option (List (PagoDetalle W))
  pub efectivo_recibido : Option W
  pub vuelto : Option W
  pub cliente_email : Option String
  pub tipo_comprobante : Option TipoComprobante
  pub cuit_receptor : Option String
  pub tipo_doc_receptor : Option ℕ
  pub nro_doc_receptor : Option String
  pub receptor_nombre : Option String
  pub receptor_domicilio : Option String

-- What the call takes from its surroundings: `crypto.randomUUID()`, the clock, the open session.
pub record Moment : Type 0 where
  pub id : ℕ
  pub fecha : ℕ
  pub sesion : Option ℕ

-- the calls that `confirmSale` starts and does not wait for
pub data Effect (W : Type 0) : Type 0 where
  enqueue_sale : SaleRecord W → Effect W
  deduct_local_stock : List (ℕ × ℤ) → Effect W

pub record Confirmed (W : Type 0) : Type 0 where
  pub sale : SaleRecord W
  pub state : SaleState W
  pub cart : CartState W
  pub effects : List (Effect W)

-- `!pagos || pagos.length === 0`
abbrev pub no_pagos : {W : Type 0} → Option (List (PagoDetalle W)) → Bool
no_pagos none = true
no_pagos (some []) = true
no_pagos (some (_ ∷ _)) = false

-- `[{ metodo, monto }]`, but for a mixed payment
abbrev pub whole_pago :
    {W : Type 0} → MetodoPago → W → Option (List (PagoDetalle W)) → Option (List (PagoDetalle W))
whole_pago (simple m) monto pagos = some (record { metodo = m; monto = monto } ∷ [])
whole_pago mixto monto pagos = pagos

module _ {W : Type 0} ⦃d : Number W⦄ where
  unfoldable pub final_total : CartState W → W
  final_total c = or_else c.total_con_descuento c.total

  unfoldable pub pagos_of : Pago W → CartState W → Option (List (PagoDetalle W))
  pagos_of pago c =
      if no_pagos pago.pagos
      then whole_pago pago.metodo_pago (final_total c) pago.pagos
      else pago.pagos

  unfoldable pub sale_of : Moment → Pago W → CartState W → SaleState W → SaleRecord W
  sale_of now pago c s = record {
    id = now.id;
    numero_ticket = ticket (s.ticket_counter + 1);
    fecha = now.fecha;
    items = c.cart;
    total = c.total;
    total_con_descuento = c.total_con_descuento;
    metodo_pago = pago.metodo_pago;
    pagos = pagos_of pago c;
    efectivo_recibido = pago.efectivo_recibido;
    vuelto = pago.vuelto;
    cajero = s.cajero;
    sesion_caja_id = now.sesion;
    cliente_email = pago.cliente_email;
    tipo_comprobante = get_or pago.tipo_comprobante ticket_interno;
    cuit_receptor = pago.cuit_receptor;
    tipo_doc_receptor = pago.tipo_doc_receptor;
    nro_doc_receptor = pago.nro_doc_receptor;
    receptor_nombre = pago.receptor_nombre;
    receptor_domicilio = pago.receptor_domicilio;
    descuento_global = if d.lt (num 0) c.descuento_global then some c.descuento_global else none;
  }

  unfoldable pub deducted : List (CartItem W) → List (ℕ × ℤ)
  deducted = map λ i. (i.id, i.cantidad)

  unfoldable pub confirm_sale : Moment → Pago W → CartState W → SaleState W → Confirmed W
  confirm_sale now pago c s =
      let sale = sale_of now pago c s in
      record {
        sale = sale;
        state = record s {
          historial = take max_historial (sale ∷ s.historial);
          ticket_counter = s.ticket_counter + 1;
        };
        cart = clear_cart c;
        effects = enqueue_sale sale ∷ deduct_local_stock (deducted c.cart) ∷ [];
      }

module _ {W : Type 0} where
  unfoldable pub set_cajero : String → SaleState W → SaleState W
  set_cajero nombre s = record s { cajero = nombre }

  -- `getLastTicketNumber` answers 0 when it fails.
  unfoldable pub sync_ticket_counter : ℕ → SaleState W → SaleState W
  sync_ticket_counter last s =
      if ltb s.ticket_counter last then record s { ticket_counter = last } else s

  unfoldable pub initial_sales : SaleState W
  initial_sales = record { historial = []; cajero = "Cajero"; ticket_counter = 0 }

  -- `partialize` and `merge`, around a reload of the page
  unfoldable pub partialize : SaleState W → List (SaleRecord W) × ℕ
  partialize s = (s.historial, s.ticket_counter)

  unfoldable pub merge : Option (List (SaleRecord W) × ℕ) → SaleState W → SaleState W
  merge none current = record current { historial = [] }
  merge (some (historial, counter)) current = record current {
    historial = take max_historial historial;
    ticket_counter = counter;
  }
