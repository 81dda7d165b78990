-- ===== src/Tests/SyncTests.antt =====
-- The queue of sales and the catalog at concrete rows, on the tables of Offline/Table/Memory.antt.
use mathlib.Core.Option.{some-injective}
use blend_pos.Prelude.{
  ℕ, ◌*◌, ◌/◌, ◌≡◌, refl, none, some, List, [], ◌∷◌, Bool, true, false, arith, pos, ◌++◌, ◌≢◌, ◌==◌,
  Bool-cases, inl, inr,
}
use blend_pos.Number.{num}
use blend_pos.Number.Fixed.{Fixed, fixed_number}
use blend_pos.Cart.{simple, efectivo, as_number, RawItem, add_item, initial, sin_stock}
use blend_pos.Sale.{SaleRecord, ticket_interno}
use blend_pos.Sale.{factura_a}
use blend_pos.Offline.Request.{Formats, to_registrar_venta_request}
use blend_pos.Offline.Request.Receiver.{
  to_registrar_venta_request-NamesReceiver, NamesReceiver, document_of,
}
use blend_pos.Offline.Table.{Table}
use blend_pos.Offline.JsMap
use blend_pos.Offline.Table.Memory.{memory, Memory, sort, nub, insert}
use blend_pos.Offline.Db.{SyncQueueItem, LocalSale, LocalProduct, error}
use blend_pos.Offline.Sync.{index_batch, is_due, new_entry, Reply, answered, Tick}
use blend_pos.Offline.Sync.Steps.{
  Batch, Begun, next_batch, to_local_sale, bulk_get, start, enqueue_sale, begin_sync, sending,
  finish_sync, recover_errors,
}
use blend_pos.Offline.Sync.System.{
  System, fresh, Reach, here, next, enqueue, send, settle, purge, IsSafe, confirmed_by, sales_of,
  spent_rows,
}
use blend_pos.Offline.Sync.Items.{IsItem, remember}
use blend_pos.Offline.Sync.Safety.{Reach-IsSafe}
use blend_pos.Offline.Sync.Recovery.{recover_errors_purges}
use blend_pos.Offline.Catalog.{
  ApiProduct, ApiReply, SyncMeta, delta_sync_catalog, get_local_stock, get_last_sync_at,
}
use blend_pos.Offline.Catalog.Sync.{deactivated_refused}

abbrev queue_rows : Table SyncQueueItem (λ q. q.id)
queue_rows = memory (λ q. q.id)

abbrev sale_rows : Table (LocalSale Fixed) (λ s. s.id)
sale_rows = memory (λ s. s.id)

abbrev a_sale : SaleRecord Fixed
a_sale = record {
  id = 41;
  numero_ticket = 1 ∷ 0 ∷ 0 ∷ 0 ∷ 0 ∷ 0 ∷ [];
  fecha = 1000;
  items = [];
  total = num 10;
  total_con_descuento = num 10;
  metodo_pago = simple efectivo;
  pagos = none;
  efectivo_recibido = none;
  vuelto = none;
  cajero = "Ana";
  sesion_caja_id = none;
  cliente_email = none;
  tipo_comprobante = ticket_interno;
  cuit_receptor = none;
  tipo_doc_receptor = none;
  nro_doc_receptor = none;
  receptor_nombre = none;
  receptor_domicilio = none;
  descuento_global = none;
}

abbrev new_database : System queue_rows sale_rows
new_database =
    fresh queue_rows sale_rows (record { log = []; counter = 0 }) (record { log = []; counter = 0 })

abbrev one_queued : System queue_rows sale_rows
one_queued = record new_database {
  queue = (enqueue_sale queue_rows sale_rows a_sale 1000 new_database.queue new_database.sales).0;
  sales = (enqueue_sale queue_rows sale_rows a_sale 1000 new_database.queue new_database.sales).1;
  sale_of = remember (queue_rows.next new_database.queue) 41 new_database.sale_of;
}

sync_code : Unit {0}
unfolding begin_sync next_batch bulk_get start index_batch JsMap.put JsMap.keys enqueue_sale is_due
    new_entry to_local_sale sort nub insert
sync_code = tt

abbrev begun_items : Begun Fixed → List SyncQueueItem
begun_items (sending b) = b.items
begun_items _ = []

abbrev begun_sales : Begun Fixed → List (LocalSale Fixed)
begun_sales (sending b) = b.sales
begun_sales _ = []

abbrev first_batch : Batch Fixed
first_batch = record {
  items = begun_items (begin_sync queue_rows sale_rows true 2000 one_queued.queue one_queued.sales);
  sales = begun_sales (begin_sync queue_rows sale_rows true 2000 one_queued.queue one_queued.sales);
}

abbrev sent : System queue_rows sale_rows
sent = record one_queued { under_way = first_batch ∷ [] }

abbrev taken_reply : Reply
taken_reply = answered (record { id = some 90; estado = "completada"; offline_id = some 41 } ∷ [])

abbrev clock : ℕ → Tick
clock j = record { iso = 3000; now = 3000; random = 7 }

abbrev settled : System queue_rows sale_rows
settled = record sent {
  queue = (finish_sync queue_rows sale_rows clock first_batch taken_reply sent.queue sent.sales).0;
  sales = (finish_sync queue_rows sale_rows clock first_batch taken_reply sent.queue sent.sales).1;
  under_way = [];
  confirmed = confirmed_by queue_rows sale_rows first_batch taken_reply ++ [];
}

begins :
    begin_sync queue_rows sale_rows true 2000 one_queued.queue one_queued.sales
    ≡ sending first_batch
unfolding sync_code
begins = refl

-- the page starts again
abbrev restarted : System queue_rows sale_rows
restarted = record settled {
  queue = (recover_errors queue_rows sale_rows 4000 settled.queue).0;
  purged = sales_of (spent_rows queue_rows sale_rows settled.queue) ++ settled.purged;
}

restarted_reached : Reach queue_rows sale_rows new_database restarted
restarted_reached =
    next
      (next
        (next (next here (enqueue new_database a_sale 1000))
          (send one_queued true 2000 first_batch begins))
        (settle sent [] [] first_batch clock taken_reply refl))
      (purge settled 4000)

Reach-IsSafe_example : IsSafe queue_rows sale_rows restarted
Reach-IsSafe_example =
    Reach-IsSafe queue_rows sale_rows (record { log = []; counter = 0 })
      (record { log = []; counter = 0 }) restarted_reached

abbrev failed_row : SyncQueueItem
failed_row = record {
  id = 5;
  sale_id = some 41;
  created_at = 1000;
  updated_at = none;
  status = error;
  tries = 3;
  next_attempt_at = none;
  last_error = none;
}

abbrev failed_queue : Memory (λ (q : SyncQueueItem). q.id)
failed_queue = record { log = failed_row ∷ []; counter = 0 }

failed_queue-Rows :
    (j : ℕ) (q : SyncQueueItem)
    → queue_rows.get j failed_queue ≡ some q
    → IsItem (λ _. some 41) (queue_rows.next failed_queue) q
failed_queue-Rows j q e = elim (Bool-cases (5 == j)) [
  | inl same ↦
      let found : some failed_row ≡ some q = rw same at e in
      rw (← some-injective _ _ found) (record {
        status = refl;
        owned = refl;
        given = queue_rows.get-lt-next 5 failed_queue {r = failed_row} refl;
      })
  | inr other ↦ let missing : none ≡ some q = rw other at e in ground arith
]

recover_errors_purges_example :
    ((recover_errors queue_rows sale_rows 9000 failed_queue).1 ≡ 0)
    × ((j : ℕ) (q : SyncQueueItem)
        → queue_rows.get j failed_queue ≡ some q
        → q.status ≡ error
        → queue_rows.get j (recover_errors queue_rows sale_rows 9000 failed_queue).0 ≡ none)
recover_errors_purges_example =
    recover_errors_purges queue_rows sale_rows (λ _. some 41) 9000 failed_queue failed_queue-Rows

abbrev product_rows : Table (LocalProduct Fixed) (λ p. p.id)
product_rows = memory (λ p. p.id)

abbrev meta_rows : Table SyncMeta (λ m. m.key)
meta_rows = memory (λ m. m.key)

abbrev listed : ℕ → Bool → ApiProduct Fixed
listed id activo = record {
  id = id;
  codigo_barras = "779";
  nombre = "Yerba";
  precio_venta = as_number (num 1500);
  stock_actual = some (pos 6);
  activo = activo;
}

abbrev no_products : Memory (λ (p : LocalProduct Fixed). p.id)
no_products = record { log = []; counter = 0 }

abbrev no_meta : Memory (λ (m : SyncMeta). m.key)
no_meta = record { log = []; counter = 0 }

abbrev some_products : Memory (λ (p : LocalProduct Fixed). p.id)
some_products = record {
  log =
      record { id = 7; codigo_barras = "779"; nombre = "Yerba"; precio = num 1500; stock = pos 6 }
      ∷ [];
  counter = 0;
}

abbrev synced_meta : Memory (λ (m : SyncMeta). m.key)
synced_meta = record { log = record { key = 0; value = 500 } ∷ []; counter = 0 }

abbrev download : List (ApiProduct Fixed)
download = listed 7 true ∷ listed 8 false ∷ []

download_some : download ≢ []
download_some e = ground (arith, e)

abbrev yerba : RawItem Fixed
yerba = record { id = 7; nombre = "Yerba"; precio = as_number (num 1500); codigo_barras = "779" }

last_synced : get_last_sync_at product_rows meta_rows synced_meta ≡ some 500
unfolding get_last_sync_at
last_synced = refl

deactivated_refused_example :
    let answer : ApiReply Fixed = some (some ([] ++ (listed 7 false ∷ []))) in
    let (products', _, _) =
      delta_sync_catalog product_rows meta_rows none answer 700 710 some_products synced_meta in
    (get_local_stock product_rows meta_rows 7 products' ≡ pos 0)
    × (add_item yerba (some (get_local_stock product_rows meta_rows 7 products')) initial
        ≡ (initial, some (sin_stock "Yerba")))
deactivated_refused_example =
    deactivated_refused product_rows meta_rows none [] [] (listed 7 false) 700 710 500 some_products
      synced_meta yerba initial last_synced refl refl refl

abbrev formats : Formats Fixed
formats = record { trim = λ t. t; to_fixed2 = λ x. x / 100 * 100 }

abbrev invoiced : LocalSale Fixed
invoiced = record (to_local_sale a_sale) {
  tipo_comprobante = some factura_a;
  cuit_receptor = some "20123456786";
}

to_registrar_venta_request-NamesReceiver_example :
    let r = to_registrar_venta_request formats invoiced in
    NamesReceiver invoiced.tipo_doc_receptor invoiced.nro_doc_receptor r.tipo_comprobante
      invoiced.cuit_receptor
      (document_of r.tipo_doc_receptor r.nro_doc_receptor)
to_registrar_venta_request-NamesReceiver_example =
    to_registrar_venta_request-NamesReceiver formats invoiced
