-- ===== src/Offline/Request/Receiver.antt =====
-- What every request of frontend/src/services/api/sales.ts says of the receiver.
use Prim.Native.String.{String}
use mathlib.Core.Path.{subst}
use blend_pos.Prelude.{
  ℕ, ◌≡◌, ◌⊎◌, inl, inr, refl, sym, Option, none, some, Bool, true, false, Option-cases, get_or,
}
use blend_pos.Number.{Number}
use blend_pos.Sale.{TipoComprobante, ticket_interno, factura_a, factura_b, factura_c}
use blend_pos.Offline.Db.{LocalSale}
use blend_pos.Offline.Request.{
  Formats, present_number, present_text, default_receiver, receiver, to_registrar_venta_request,
}

abbrev is_factura_a : TipoComprobante → Bool
is_factura_a factura_a = true
is_factura_a _ = false

abbrev is_ticket : TipoComprobante → Bool
is_ticket ticket_interno = true
is_ticket _ = false

-- the type or the number of a document is missing
abbrev pub HasNoDocument : Option ℕ → Option String → Type 0
HasNoDocument tipo nro = (present_number tipo ≡ none) ⊎ (present_text nro ≡ none)

-- Which document names the receiver of a sale: the one that was given, by its type and number; the
-- CUIT (type 80) of an invoice A without one; the anonymous buyer (type 99) of an invoice with neither.
abbrev pub IsReceiver :
    Option ℕ → Option String → TipoComprobante → Option String → ℕ × String → Type 0
IsReceiver tipo nro t cuit w =
    ((present_number tipo ≡ some w.0) × (present_text nro ≡ some w.1))
    ⊎ ((HasNoDocument tipo nro × (t ≡ factura_a) × (w.0 ≡ 80) × (present_text cuit ≡ some w.1))
        ⊎ (HasNoDocument tipo nro
            × (is_ticket t ≡ false)
            × ((is_factura_a t ≡ false) ⊎ (present_text cuit ≡ none))
            × (w.0 ≡ 99)
            × (w.1 ≡ "0")))

-- an internal ticket without a document names nobody; everything else names a receiver
abbrev pub NamesReceiver :
    Option ℕ → Option String → TipoComprobante → Option String → Option (ℕ × String) → Type 0
NamesReceiver tipo nro t cuit none = (t ≡ ticket_interno) × HasNoDocument tipo nro
NamesReceiver tipo nro t cuit (some w) = IsReceiver tipo nro t cuit w

default_receiver-NamesReceiver :
    (tipo : Option ℕ) (nro : Option String) (t : TipoComprobante) (cuit : Option String)
    → HasNoDocument tipo nro
    → NamesReceiver tipo nro t cuit (default_receiver t cuit)
unfolding default_receiver
default_receiver-NamesReceiver tipo nro ticket_interno cuit h = (refl, h)
default_receiver-NamesReceiver tipo nro factura_a cuit h = elim (Option-cases (present_text cuit)) [
  | inl absent ↦ rw (default_receiver, absent) (inr (inr (h, refl, inr absent, refl, refl)))
  | inr (c, given) ↦ rw (default_receiver, given) (inr (inl (h, refl, refl, given)))
]
default_receiver-NamesReceiver tipo nro factura_b cuit h = inr (inr (h, refl, inl refl, refl, refl))
default_receiver-NamesReceiver tipo nro factura_c cuit h = inr (inr (h, refl, inl refl, refl, refl))

receiver-NamesReceiver :
    (tipo : Option ℕ) (nro : Option String) (t : TipoComprobante) (cuit : Option String)
    → NamesReceiver tipo nro t cuit (receiver tipo nro t cuit)
unfolding receiver
receiver-NamesReceiver tipo nro t cuit = elim (Option-cases (present_number tipo)) [
  | inl absent ↦ rw (receiver, absent) (default_receiver-NamesReceiver tipo nro t cuit (inl absent))
  | inr (k, given) ↦ elim (Option-cases (present_text nro)) [
    | inl absent ↦
        rw (receiver, given, absent) (default_receiver-NamesReceiver tipo nro t cuit (inr absent))
    | inr (n, numbered) ↦ rw (receiver, given, numbered) (inl (given, numbered))
  ]
]

-- the two fields of a request as one
unfoldable pub document_of : Option ℕ → Option String → Option (ℕ × String)
document_of (some k) (some n) = some (k, n)
document_of _ _ = none

document_of_parts :
    (o : Option (ℕ × String))
    → document_of
        (elim o [ none ↦ none | some w ↦ some w.0 ])
        (elim o [ none ↦ none | some w ↦ some w.1 ])
      ≡ o
unfolding document_of
document_of_parts none = refl
document_of_parts (some w) = refl

module _ {W : Type 0} ⦃d : Number W⦄ (formats : Formats W) where
  -- A request names the document that the sale gives, if it gives its type and its number. If not, an
  -- invoice A names its CUIT if it gives one, any other invoice the anonymous buyer, and an internal
  -- ticket nobody.
  pub to_registrar_venta_request-NamesReceiver :
      (s : LocalSale W)
      → let r = to_registrar_venta_request formats s in
        NamesReceiver s.tipo_doc_receptor s.nro_doc_receptor r.tipo_comprobante s.cuit_receptor
          (document_of r.tipo_doc_receptor r.nro_doc_receptor)
  unfolding to_registrar_venta_request
  to_registrar_venta_request-NamesReceiver s =
      let t = get_or s.tipo_comprobante ticket_interno in
      let who = receiver s.tipo_doc_receptor s.nro_doc_receptor t s.cuit_receptor in
      subst (NamesReceiver s.tipo_doc_receptor s.nro_doc_receptor t s.cuit_receptor)
        (sym (document_of_parts who))
        (receiver-NamesReceiver s.tipo_doc_receptor s.nro_doc_receptor t s.cuit_receptor)
