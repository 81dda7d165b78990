-- ===== src/Payment.antt =====
-- frontend/src/components/pos/PaymentModal.tsx: from what the payment dialog holds to the argument of
-- `confirmSale`. The e-mail is only passed on; its format is not asked for by `canConfirm`.
pub mod Amounts
use Prim.Native.String.{String}
use text.Mathlib.Text.{◌==◌ as str_eq}
use blend_pos.Prelude.{
  ℕ, ◌==◌, Option, none, some, List, [], ◌∷◌, ◌++◌, Bool, true, false, not, ◌&&◌, ◌||◌, leb,
  if◌then◌else◌,
}
use blend_pos.Number.{Number, num, or_else}
use blend_pos.Cart.{
  CartState, MetodoPago, MetodoSimple, simple, mixto, efectivo, debito, credito, qr, transferencia,
  PagoDetalle,
}
use blend_pos.Sale.{TipoComprobante, ticket_interno, factura_a, factura_b, factura_c}
use blend_pos.Sale.Store.{Pago}

-- what an amount field holds
pub data Entry (W : Type 0) : Type 0 where
  typed : String → Entry W
  number : W → Entry W

pub data DocumentoReceptor : Type 0 where
  cuit dni : DocumentoReceptor

-- functions of the JavaScript library: `s.replace(/\D/g, '')`, `s.trim()` and `s.length`
pub record Texts : Type 0 where
  pub digits_of : String → String
  pub trim : String → String
  pub size : String → ℕ

-- the fields of the dialog; `none` as `tipo_comprobante` is 'auto'
pub record Form (W : Type 0) : Type 0 where
  pub metodo_pago : MetodoPago
  pub monto_recibido : Entry W
  pub mixto_debito : Entry W
  pub mixto_credito : Entry W
  pub mixto_qr : Entry W
  pub mixto_transferencia : Entry W
  pub cliente_email : String
  pub tipo_comprobante : Option TipoComprobante
  pub tipo_documento : DocumentoReceptor
  pub documento : String
  pub nombre : String
  pub domicilio : String

-- `tipoComprobante === 'factura_a' || …`
unfoldable pub requires_buyer : Option TipoComprobante → Bool
requires_buyer none = false
requires_buyer (some ticket_interno) = false
requires_buyer (some _) = true

unfoldable pub resolved_doc : Option TipoComprobante → DocumentoReceptor → DocumentoReceptor
resolved_doc (some factura_a) _ = cuit
resolved_doc _ doc = doc

-- The tests `/^\d{11}$/` and `/^\d{7,8}$/` of a text that holds digits only.
unfoldable pub is_doc_size : DocumentoReceptor → ℕ → Bool
is_doc_size cuit n = n == 11
is_doc_size dni n = leb 7 n && leb n 8

module _ (texts : Texts) where
  -- the buyer's data of an invoice are valid
  unfoldable pub is_buyer_valid : {W : Type 0} → Form W → Bool
  is_buyer_valid f =
      let required = requires_buyer f.tipo_comprobante in
      not required
      || (is_doc_size (resolved_doc f.tipo_comprobante f.tipo_documento)
            (texts.size (texts.digits_of f.documento))
          && leb 3 (texts.size (texts.trim f.nombre))
          && leb 5 (texts.size (texts.trim f.domicilio)))

  abbrev pub if_buyer {ℓ} : {A : Type ℓ} {W : Type 0} → Form W → A → Option A
  if_buyer f x = if requires_buyer f.tipo_comprobante then some x else none

  abbrev pub non_empty : String → Option String
  non_empty t = if str_eq t "" then none else some t

module _ {W : Type 0} ⦃d : Number W⦄ where
  unfoldable pub to_number : Entry W → W
  to_number (typed t) = or_else (or_else (d.parse_float t) (num 0)) (num 0)
  to_number (number x) = or_else x (num 0)

  abbrev pub is_empty : Entry W → Bool
  is_empty (typed t) = str_eq t ""
  is_empty (number _) = false

  unfoldable pub amount_due : CartState W → W
  amount_due c = if d.lt (num 0) c.descuento_global then c.total_con_descuento else c.total

  unfoldable pub non_cash : Form W → W
  non_cash f =
      d.add
        (d.add (d.add (to_number f.mixto_debito) (to_number f.mixto_credito))
          (to_number f.mixto_qr))
        (to_number f.mixto_transferencia)

  -- `cashDue` of a mixed payment
  unfoldable pub cash_due : Form W → CartState W → W
  cash_due f c = d.sub (amount_due c) (non_cash f)

  -- `isRecibidoVacio ? due : numericRecibido`
  unfoldable pub received : Form W → W → W
  received f due = if is_empty f.monto_recibido then due else to_number f.monto_recibido

  -- the amounts suffice
  unfoldable pub covers : Form W → CartState W → MetodoPago → Bool
  covers f c (simple efectivo) = d.le (amount_due c) (received f (amount_due c))
  covers f c (simple _) = true
  covers f c mixto =
      let due = cash_due f c in
      if d.lt due (num 0)
      then false
      else if d.eq due (num 0)
      then d.eq (non_cash f) (amount_due c)
      else d.le due (if d.lt (num 0) due then received f due else num 0)

  unfoldable pub can_confirm : Texts → Form W → CartState W → Bool
  can_confirm texts f c = is_buyer_valid texts f && covers f c f.metodo_pago

  -- `if (x > 0) detalles.push(…)`
  unfoldable pub push_if : MetodoSimple → W → List (PagoDetalle W) → List (PagoDetalle W)
  push_if m x ps = if d.lt (num 0) x then ps ++ (record { metodo = m; monto = x } ∷ []) else ps

  unfoldable pub detalles : Form W → CartState W → List (PagoDetalle W)
  detalles f c = push_if efectivo (cash_due f c) (
      push_if transferencia (to_number f.mixto_transferencia) (
        push_if qr (to_number f.mixto_qr) (
          push_if credito (to_number f.mixto_credito)
            (push_if debito (to_number f.mixto_debito) []))))

  -- the breakdown, the cash received and the change
  unfoldable pub amounts :
      Form W → CartState W → MetodoPago → Option (List (PagoDetalle W)) × Option W × Option W
  amounts f c (simple efectivo) =
      let cash = received f (amount_due c) in (none, some cash, some (d.sub cash (amount_due c)))
  amounts f c (simple _) = (none, none, none)
  amounts f c mixto =
      let due = cash_due f c in
      if d.lt (num 0) due
      then (some (detalles f c), some (received f due), some (d.sub (received f due) due))
      else (some (detalles f c), none, none)

  -- `handleConfirmPayment`: the argument of `confirmSale`, or nothing
  unfoldable pub handle_confirm_payment : Texts → Form W → CartState W → Option (Pago W)
  handle_confirm_payment texts f c =
      let paid = amounts f c f.metodo_pago in
      let documento = texts.digits_of f.documento in
      let doc = resolved_doc f.tipo_comprobante f.tipo_documento in
      if not (can_confirm texts f c)
      then none
      else some (record {
        metodo_pago = f.metodo_pago;
        pagos = paid.0;
        efectivo_recibido = paid.1;
        vuelto = paid.2;
        cliente_email = non_empty texts (texts.trim f.cliente_email);
        tipo_comprobante = f.tipo_comprobante;
        cuit_receptor = elim doc [ cuit ↦ if_buyer texts f documento | dni ↦ none ];
        tipo_doc_receptor = if_buyer texts f (elim doc [ cuit ↦ 80 | dni ↦ 96 ]);
        nro_doc_receptor = if_buyer texts f documento;
        receptor_nombre = if_buyer texts f (texts.trim f.nombre);
        receptor_domicilio = if_buyer texts f (texts.trim f.domicilio);
      })
