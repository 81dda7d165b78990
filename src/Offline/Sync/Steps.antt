-- ===== src/Offline/Sync/Steps.antt =====
-- The operations of frontend/src/offline/sync.ts on the two tables.
use Prim.Native.String.{String}
use blend_pos.Prelude.{
  ℕ, ◌+◌, Bool, true, false, not, Option, none, some, List, [], ◌∷◌, map, ◌==◌, leb, if◌then◌else◌,
  filter, take, length, any,
}
use blend_pos.Sale.{SaleRecord}
use blend_pos.Offline.Db.{LocalSale, SyncQueueItem, pending, at, estado}
use blend_pos.Offline.JsMap.{JsMap}
use blend_pos.Offline.JsMap
use blend_pos.Offline.Table.{Table, where_equals, bulk_put}
use blend_pos.Offline.Sync.{
  Tick, Reply, answered, failed, SyncSaleResult, is_sync_success, is_due, is_pending, is_error,
  new_entry, retry, index_batch, index_results, after_failure, sync_batch_size,
  max_tries_before_error,
}

-- What is known while a request is under way.
pub record Batch (W : Type 0) : Type 0 where
  pub items : List SyncQueueItem
  pub sales : List (LocalSale W)

-- How far `trySyncQueue` comes before it waits for the backend.
pub data Begun (W : Type 0) : Type 0 where
  idle : Begun W
  orphans : List ℕ → Begun W
  sending : Batch W → Begun W

abbrev pub ids : List SyncQueueItem → List ℕ
ids qs = map (λ q. q.id) qs

-- `filter(Boolean)` of `bulkGet`
unfoldable pub bulk_get :
    {W : Type 0} (T : Table (LocalSale W) (λ s. s.id)) → T.Store → List ℕ → List (LocalSale W)
bulk_get T store [] = []
bulk_get T store (k ∷ ks) = elim (T.get k store) [
  | none ↦ bulk_get T store ks
  | some s ↦ s ∷ bulk_get T store ks
]

unfoldable pub synced_copy : {W : Type 0} → Bool → LocalSale W → LocalSale W
synced_copy b s = record s { synced = b }

unfoldable pub to_local_sale : {W : Type 0} → SaleRecord W → LocalSale W
to_local_sale sale = record {
  id = sale.id;
  numero_ticket = sale.numero_ticket;
  fecha = sale.fecha;
  items = sale.items;
  total = sale.total;
  total_con_descuento = sale.total_con_descuento;
  metodo_pago = sale.metodo_pago;
  pagos = sale.pagos;
  efectivo_recibido = sale.efectivo_recibido;
  vuelto = sale.vuelto;
  cajero = sale.cajero;
  sesion_caja_id = sale.sesion_caja_id;
  cliente_email = sale.cliente_email;
  tipo_comprobante = some sale.tipo_comprobante;
  cuit_receptor = sale.cuit_receptor;
  tipo_doc_receptor = sale.tipo_doc_receptor;
  nro_doc_receptor = sale.nro_doc_receptor;
  receptor_nombre = sale.receptor_nombre;
  receptor_domicilio = sale.receptor_domicilio;
  descuento_global = sale.descuento_global;
  synced = false;
}

abbrev pub reset : ℕ → SyncQueueItem → SyncQueueItem
reset created_at q = record q {
  status = pending;
  tries = 0;
  next_attempt_at = some (at created_at);
  updated_at = some created_at;
}

abbrev pub is_spent : SyncQueueItem → Bool
is_spent q = leb max_tries_before_error q.tries

-- the branches before the request
unfoldable pub start : {W : Type 0} → List SyncQueueItem → List (LocalSale W) → Begun W
start [] found = idle
start (q ∷ qs) [] = orphans (ids (q ∷ qs))
start (q ∷ qs) (s ∷ ss) = sending (record { items = q ∷ qs; sales = s ∷ ss })

module _ (Q : Table SyncQueueItem (λ q. q.id)) {W : Type 0}
    (S : Table (LocalSale W) (λ s. s.id)) where
  unfoldable pub enqueue_sale : SaleRecord W → ℕ → Q.Store → S.Store → Q.Store × S.Store
  enqueue_sale sale created_at queue sales =
      (Q.add (new_entry sale.id created_at) queue, S.put (to_local_sale sale) sales)

  -- the rows that are tried next
  unfoldable pub next_batch : ℕ → Q.Store → List SyncQueueItem
  next_batch now queue = take sync_batch_size (
      filter (is_due now)
        (Q.sort_by (λ q. q.created_at) (where_equals Q (λ q. is_pending q.status) queue)))

  unfoldable pub begin_sync : Bool → ℕ → Q.Store → S.Store → Begun W
  begin_sync online now queue sales =
      if not online
      then idle
      else let batch = next_batch now queue in
        start batch (bulk_get S sales (JsMap.keys (index_batch batch [])))

  -- the rows without a sale are dropped
  unfoldable pub drop_orphans : List ℕ → Q.Store → Q.Store
  drop_orphans ks queue = Q.bulk_delete ks queue

  -- `result && isSyncSuccess(result)`
  unfoldable pub is_taken : JsMap SyncSaleResult → LocalSale W → Bool
  is_taken results sale = elim (JsMap.get sale.id results) [
    | none ↦ false
    | some r ↦ is_sync_success r
  ]

  -- `okQueueIds`
  unfoldable pub rows_of : JsMap SyncQueueItem → List (LocalSale W) → List ℕ
  rows_of m [] = []
  rows_of m (s ∷ ss) = elim (JsMap.get s.id m) [
    | none ↦ rows_of m ss
    | some q ↦ q.id ∷ rows_of m ss
  ]

  -- `result?.estado`
  unfoldable pub estado_of : JsMap SyncSaleResult → LocalSale W → Option String
  estado_of results sale = elim (JsMap.get sale.id results) [ none ↦ none | some r ↦ some r.estado ]

  -- the loop over the entries that failed
  unfoldable pub retry_all :
      (ℕ → Tick)
      → JsMap SyncSaleResult
      → JsMap SyncQueueItem
      → List (LocalSale W)
      → Q.Store
      → Q.Store
  retry_all ticks results m [] queue = queue
  retry_all ticks results m (s ∷ ss) queue = retry_all ticks results m ss (elim (JsMap.get s.id m) [
    | none ↦ queue
    | some q ↦ Q.put (retry (ticks q.id) (estado (estado_of results s)) q) queue
  ])

  unfoldable pub finish_sync : (ℕ → Tick) → Batch W → Reply → Q.Store → S.Store → Q.Store × S.Store
  finish_sync ticks b (answered rs) queue sales =
      let results = index_results rs [] in
      let m = index_batch b.items [] in
      let taken = filter (is_taken results) b.sales in
      let rest = filter (λ s. not (is_taken results s)) b.sales in
      (
        retry_all ticks results m rest (Q.bulk_delete (rows_of m taken) queue),
        bulk_put S (map (synced_copy true) taken) sales,
      )
  finish_sync ticks b (failed f online) queue sales =
      (bulk_put Q (map (after_failure ticks f online) b.items) queue, sales)

  -- the first half of `recoverLostSales`, with the number of rows reset
  unfoldable pub recover_errors : ℕ → Q.Store → Q.Store × ℕ
  recover_errors created_at queue =
      let errors = where_equals Q (λ q. is_error q.status) queue in
      let to_reset = filter (λ q. not (is_spent q)) errors in
      let to_purge = filter is_spent errors in
      (
        Q.bulk_delete (ids to_purge) (bulk_put Q (map (reset created_at) to_reset) queue),
        length to_reset,
      )

  -- `existingQueueSaleIds.has(id)`
  unfoldable pub is_queued : ℕ → Q.Store → Bool
  is_queued id queue = any (λ q. elim q.sale_id [ none ↦ false | some k ↦ k == id ]) (Q.rows queue)

  -- the loop of the second half
  unfoldable pub requeue :
      ℕ → Q.Store → List (LocalSale W) → Q.Store → S.Store → ℕ → Q.Store × S.Store × ℕ
  requeue created_at before [] queue sales n = (queue, sales, n)
  requeue created_at before (s ∷ ss) queue sales n =
      let next =
        requeue created_at before ss (Q.add (new_entry s.id created_at) queue)
          (S.put (synced_copy false s) sales) (n + 1) in
      let skip = requeue created_at before ss queue sales n in
      if is_queued s.id before then skip else next

  unfoldable pub recover_lost_sales : ℕ → Q.Store → S.Store → Q.Store × S.Store × ℕ
  recover_lost_sales created_at queue sales =
      let (queue', n) = recover_errors created_at queue in
      requeue created_at queue' (where_equals S (λ s. s.synced) sales) queue' sales n

  unfoldable pub get_sync_stats : Q.Store → ℕ × ℕ
  get_sync_stats queue = (
    length (where_equals Q (λ q. is_pending q.status) queue),
    length (where_equals Q (λ q. is_error q.status) queue),
  )
