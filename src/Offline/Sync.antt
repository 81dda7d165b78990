-- ===== src/Offline/Sync.antt =====
-- frontend/src/offline/sync.ts: sales wait in a queue until the backend has taken them.
-- `trySyncQueue` waits twice for others: it is modelled as `begin_sync`, up to the request, and
-- `finish_sync`, from the reply on, each on the tables as they are at that moment.
pub mod Steps
pub mod Items
pub mod System
pub mod Queue
pub mod Sent
pub mod Added
pub mod Lost
pub mod Safety
pub mod Backoff
pub mod Recovery
use Prim.Native.Nat.{min}
use Prim.Native.String.{String}
use text.Mathlib.Text.{◌==◌ as str_eq}
use blend_pos.Prelude.{
  ℕ, zero, suc, ◌+◌, ◌-◌, ◌*◌, ◌/◌, ◌^◌, ◌≡◌, refl, Bool, true, false, not, ◌&&◌, ◌||◌, Option,
  none, some, List, [], ◌∷◌, map, foldl, ◌==◌, leb, ltb, if◌then◌else◌, filter, take, includes,
  length, Option-cases, is_some,
}
use blend_pos.Offline.Db.{
  LocalSale, SyncQueueItem, SyncQueueStatus, pending, synced, error, Stamp, at, malformed,
  LastError, estado, message,
}
use blend_pos.Offline.JsMap.{JsMap}
use blend_pos.Offline.JsMap
use blend_pos.Offline.Table.{Table, where_equals, bulk_put}

abbrev pub sync_batch_size : ℕ
sync_batch_size = 25

abbrev pub max_tries_before_error : ℕ
max_tries_before_error = 3

abbrev pub min_backoff_ms : ℕ
min_backoff_ms = 5_000

abbrev pub max_backoff_ms : ℕ
max_backoff_ms = 5 * 60_000

-- `Math.random()` is `random / 2 ^ 53`. The product is exact here; `1 + jitter` is
-- (5 * 2 ^ 52 + random) / 2 ^ 54 times 1, so that 1.25 <= 1 + jitter < 1.75.
unfoldable pub compute_backoff_ms : ℕ → ℕ → ℕ
compute_backoff_ms tries random =
    let base = min_backoff_ms * 2 ^ (tries - 1) in
    min max_backoff_ms (base * (5 * 2 ^ 52 + random) / 2 ^ 54)

-- What the clock and `Math.random()` give while one row is updated.
pub record Tick : Type 0 where
  pub iso : ℕ
  pub now : ℕ
  pub random : ℕ

pub record SyncSaleResult : Type 0 where
  pub id : Option ℕ
  pub estado : String
  pub offline_id : Option ℕ

-- The exceptions that the request can end in.
pub data Failure : Type 0 where
  offline_error : String → Failure
  -- a `TypeError`, and whether its message speaks of the network
  type_error : Bool → String → Failure
  other_error : String → Failure

-- How the wait for the backend ends. A transaction that aborts leaves the tables alone and is caught
-- like a failed request.
pub data Reply : Type 0 where
  answered : List SyncSaleResult → Reply
  failed : Failure → Bool → Reply

unfoldable pub is_sync_success : SyncSaleResult → Bool
is_sync_success r =
    str_eq r.estado "completada"
    || (is_some r.id && not (str_eq r.estado "error") && not (str_eq r.estado "rechazada"))

-- `!q.nextAttemptAt`, or a time that is malformed or past
unfoldable pub is_due : ℕ → SyncQueueItem → Bool
is_due now q = elim q.next_attempt_at [
  | none ↦ true
  | some t ↦ elim t [ malformed ↦ true | at ts ↦ leb ts now ]
]

abbrev pub is_pending : SyncQueueStatus → Bool
is_pending pending = true
is_pending _ = false

abbrev pub is_error : SyncQueueStatus → Bool
is_error error = true
is_error _ = false

-- The row that `enqueueSale` and `recoverLostSales` add.
unfoldable pub new_entry : ℕ → ℕ → ℕ → SyncQueueItem
new_entry sale_id created_at id = record {
  id = id;
  sale_id = some sale_id;
  created_at = created_at;
  updated_at = some created_at;
  status = pending;
  tries = 0;
  next_attempt_at = some (at created_at);
  last_error = none;
}

-- one more attempt has failed
unfoldable pub retry : Tick → LastError → SyncQueueItem → SyncQueueItem
retry t why q = record q {
  tries = q.tries + 1;
  last_error = some why;
  updated_at = some t.iso;
  next_attempt_at = some (at (t.now + compute_backoff_ms (q.tries + 1) t.random));
  status = if leb max_tries_before_error (q.tries + 1) then error else pending;
}

-- the network is down: no attempt is counted
unfoldable pub postpone : Tick → LastError → SyncQueueItem → SyncQueueItem
postpone t why q = record q {
  last_error = some why;
  updated_at = some t.iso;
  next_attempt_at = some (at (t.now + min_backoff_ms));
}

abbrev pub message_of : Failure → String
message_of (offline_error m) = m
message_of (type_error _ m) = m
message_of (other_error m) = m

-- `isOfflineError`, with `navigator.onLine`
abbrev pub is_offline : Failure → Bool → Bool
is_offline (offline_error _) online = true
is_offline (type_error network _) online = network || not online
is_offline (other_error _) online = not online

-- the rows that a failed request has touched
unfoldable pub after_failure : (ℕ → Tick) → Failure → Bool → SyncQueueItem → SyncQueueItem
after_failure ticks f online q =
    if is_offline f online
    then postpone (ticks q.id) (message (message_of f)) q
    else retry (ticks q.id) (message (message_of f)) q

-- `batchBySaleId`: from a sale to its queue row
unfoldable pub index_batch : List SyncQueueItem → JsMap SyncQueueItem → JsMap SyncQueueItem
index_batch [] m = m
index_batch (q ∷ qs) m = index_batch qs (elim q.sale_id [ none ↦ m | some k ↦ JsMap.put k q m ])

-- `byOfflineId`
unfoldable pub index_results : List SyncSaleResult → JsMap SyncSaleResult → JsMap SyncSaleResult
index_results [] m = m
index_results (r ∷ rs) m =
    index_results rs (elim r.offline_id [ none ↦ m | some k ↦ JsMap.put k r m ])
