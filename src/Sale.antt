-- ===== src/Sale.antt =====
-- frontend/src/store/useSaleStore.ts: the record of a sale.
pub mod Ticket
pub mod Store
pub mod History
use Prim.Native.String.{String}
use blend_pos.Prelude.{ℕ, Option, List}
use blend_pos.Cart.{CartItem, MetodoPago, PagoDetalle}

pub data TipoComprobante : Type 0 where
  ticket_interno factura_a factura_b factura_c : TipoComprobante

pub record SaleRecord (W : Type 0) : Type 0 where
  pub id : ℕ
  pub numero_ticket : List ℕ
  pub fecha : ℕ
  pub items : List (CartItem W)
  pub total : W
  pub total_con_descuento : W
  pub metodo_pago : MetodoPago
  pub pagos : Option (List (PagoDetalle W))
  pub efectivo_recibido : Option W
  pub vuelto : Option W
  pub cajero : String
  pub sesion_caja_id : Option ℕ
  pub cliente_email : Option String
  pub tipo_comprobante : TipoComprobante
  pub cuit_receptor : Option String
  pub tipo_doc_receptor : Option ℕ
  pub nro_doc_receptor : Option String
  pub receptor_nombre : Option String
  pub receptor_domicilio : Option String
  pub descuento_global : Option W
