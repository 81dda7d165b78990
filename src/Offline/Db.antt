-- ===== src/Offline/Db.antt =====
-- frontend/src/offline/db.ts: the rows of the local database. Times are milliseconds; where the
-- source keeps an ISO text that may be malformed, a `Stamp`.
use Prim.Native.String.{String}
use blend_pos.Prelude.{ℕ, Bool, Option, List, ℤ}
use blend_pos.Sale.{TipoComprobante}
use blend_pos.Cart.{CartItem, MetodoPago, PagoDetalle}

pub record LocalSale (W : Type 0) : Type 0 where
  pub id : ℕ
  pub numero_ticket : List ℕ
  pub fecha : ℕ
  pub items : List (CartItem W)
  pub total : W
  pub total_con_descuento : W
  pub metodo_pago : MetodoPago
  pub pagos : Option (List (PagoDetalle W))
  pub efectivo_recibido : Option W
  pub vuelto : Option W
  pub cajero : String
  pub sesion_caja_id : Option ℕ
  pub cliente_email : Option String
  pub tipo_comprobante : Option TipoComprobante
  pub cuit_receptor : Option String
  pub tipo_doc_receptor : Option ℕ
  pub nro_doc_receptor : Option String
  pub receptor_nombre : Option String
  pub receptor_domicilio : Option String
  pub descuento_global : Option W
  pub synced : Bool

pub data SyncQueueStatus : Type 0 where
  pending synced error : SyncQueueStatus

-- What `Date.parse` makes of a text.
pub data Stamp : Type 0 where
  at : ℕ → Stamp
  malformed : Stamp

-- `lastError`: the backend's state of the sale, or the message of an exception
pub data LastError : Type 0 where
  estado : Option String → LastError
  message : String → LastError

-- `id` is absent only before `add`, so a row of the table has it.
pub record SyncQueueItem : Type 0 where
  pub id : ℕ
  pub sale_id : Option ℕ
  pub created_at : ℕ
  pub updated_at : Option ℕ
  pub status : SyncQueueStatus
  pub tries : ℕ
  pub next_attempt_at : Option Stamp
  pub last_error : Option LastError

pub record LocalProduct (W : Type 0) : Type 0 where
  pub id : ℕ
  pub codigo_barras : String
  pub nombre : String
  pub precio : W
  pub stock : ℤ
