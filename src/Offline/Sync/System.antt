-- ===== src/Offline/Sync/System.antt =====
-- The queue in operation: sales are enqueued, attempts to send them begin and end, and lost sales are
-- recovered, in any order and with any number of requests under way (frontend/src/offline/sync.ts has
-- no lock).
use blend_pos.Prelude.{
  ℕ, ◌≡◌, Bool, true, false, Option, none, some, List, [], ◌∷◌, ◌++◌, filter, includes, All, ◌⊎◌,
  if◌then◌else◌,
}
use blend_pos.Sale.{SaleRecord}
use blend_pos.Offline.Db.{LocalSale, SyncQueueItem}
use blend_pos.Offline.Table.{Table, where_equals}
use blend_pos.Offline.Sync.{is_error, new_entry, Tick, Reply, answered, failed, index_results}
use blend_pos.Offline.Sync.Items.{IsItem, remember}
use blend_pos.Offline.Sync.Queue.{ids_of, Holds}
use blend_pos.Offline.Sync.Steps.{
  Batch, orphans, sending, enqueue_sale, begin_sync, drop_orphans, finish_sync, is_taken, is_queued,
  is_spent, recover_errors, requeue,
}

-- the sales of some rows
unfoldable pub sales_of : List SyncQueueItem → List ℕ
sales_of [] = []
sales_of (q ∷ qs) = elim q.sale_id [ none ↦ sales_of qs | some k ↦ k ∷ sales_of qs ]

module _ (Q : Table SyncQueueItem (λ q. q.id)) {W : Type 0}
    (S : Table (LocalSale W) (λ s. s.id)) where
  -- `sale_of` remembers for which sale each key of the queue was made, `confirmed` the sales that
  -- some reply has reported as taken, and `purged` the sales whose rows `recoverLostSales` has
  -- deleted. The code keeps none of the three.
  pub record System : Type 0 where
    pub queue : Q.Store
    pub sales : S.Store
    pub under_way : List (Batch W)
    pub sale_of : ℕ → Option ℕ
    pub confirmed : List ℕ
    pub purged : List ℕ

  abbrev pub confirmed_by : Batch W → Reply → List ℕ
  confirmed_by b (answered rs) = ids_of (filter (is_taken Q S (index_results rs [])) b.sales)
  confirmed_by b (failed _ _) = []

  -- the rows that `recoverLostSales` deletes: those that have failed 3 times
  abbrev pub spent_rows : Q.Store → List SyncQueueItem
  spent_rows queue = filter is_spent (where_equals Q (λ q. is_error q.status) queue)

  -- what `sale_of` is after the second half of `recoverLostSales`
  unfoldable pub requeued :
      ℕ → Q.Store → List (LocalSale W) → Q.Store → (ℕ → Option ℕ) → ℕ → Option ℕ
  requeued now before [] queue f = f
  requeued now before (s ∷ ss) queue f =
      let next =
        requeued now before ss (Q.add (new_entry s.id now) queue)
          (remember (Q.next queue) s.id f) in
      let skip = requeued now before ss queue f in if is_queued Q S s.id before then skip else next

  pub data Step : System → System → Type 0 where
    enqueue :
        (y : System) (sale : SaleRecord W) (now : ℕ)
        → Step y (record y {
          queue = (enqueue_sale Q S sale now y.queue y.sales).0;
          sales = (enqueue_sale Q S sale now y.queue y.sales).1;
          sale_of = remember (Q.next y.queue) sale.id y.sale_of;
        })
    drop :
        (y : System) (online : Bool) (now : ℕ) (ks : List ℕ)
        → begin_sync Q S online now y.queue y.sales ≡ orphans ks
        → Step y (record y { queue = drop_orphans Q S ks y.queue })
    send :
        (y : System) (online : Bool) (now : ℕ) (b : Batch W)
        → begin_sync Q S online now y.queue y.sales ≡ sending b
        → Step y (record y { under_way = b ∷ y.under_way })
    settle :
        (y : System) (before after : List (Batch W)) (b : Batch W) (ticks : ℕ → Tick)
        (reply : Reply)
        → y.under_way ≡ before ++ (b ∷ after)
        → Step y (record y {
          queue = (finish_sync Q S ticks b reply y.queue y.sales).0;
          sales = (finish_sync Q S ticks b reply y.queue y.sales).1;
          under_way = before ++ after;
          confirmed = confirmed_by b reply ++ y.confirmed;
        })
    -- The first half of `recoverLostSales`, which starts with the page and with the dashboard: the rows
    -- that it reads and its transaction are one step.
    purge :
        (y : System) (now : ℕ)
        → Step y (record y {
          queue = (recover_errors Q S now y.queue).0;
          purged = sales_of (spent_rows y.queue) ++ y.purged;
        })
    -- The second half. `before` and `found` are the queue and the synced sales that it has read, which
    -- other steps may have changed since; `n` is the number of rows that the first half has reset.
    requeues :
        (y : System) (now : ℕ) (before : Q.Store) (found : List (LocalSale W)) (n : ℕ)
        → Step y (record y {
          queue = (requeue Q S now before found y.queue y.sales n).0;
          sales = (requeue Q S now before found y.queue y.sales n).1;
          sale_of = requeued now before found y.queue y.sale_of;
        })
    -- the page is closed, also by a reload: the tables stay, the requests do not
    reload : (y : System) → Step y (record y { under_way = [] })

  -- the system on a database that is new
  abbrev pub fresh : Q.Store → S.Store → System
  fresh queue sales = record {
    queue = Q.clear queue;
    sales = S.clear sales;
    under_way = [];
    sale_of = λ _. none;
    confirmed = [];
    purged = [];
  }

  pub data Reach (y : System) : System → Type 0 where
    here : Reach y y
    next : {z w : System} → Reach y z → Step z w → Reach y w

  abbrev pub IsBatch : (ℕ → Option ℕ) → ℕ → Batch W → Type 0
  IsBatch f bound b = All (IsItem f bound) b.items

  pub record IsSafe (y : System) : Type 0 where
    pub rows :
        (j : ℕ) (q : SyncQueueItem) → Q.get j y.queue ≡ some q → IsItem y.sale_of (Q.next y.queue) q
    pub batches : All (IsBatch y.sale_of (Q.next y.queue)) y.under_way
    -- a sale that is not marked as synced has a row in the queue, or had one that was purged
    pub kept :
        (k : ℕ) (s : LocalSale W)
        → S.get k y.sales ≡ some s
        → s.synced ≡ false
        → Holds Q S k y.queue ⊎ (includes k y.purged ≡ true)
    -- a sale that is marked as synced was reported as taken
    pub taken :
        (k : ℕ) (s : LocalSale W)
        → S.get k y.sales ≡ some s
        → s.synced ≡ true
        → includes k y.confirmed ≡ true
