-- ===== src/Offline/Sync/Safety.antt =====
-- No sale is lost and none is marked as synced on its own: the invariant of the queue of
-- frontend/src/offline/sync.ts, over every order of its operations, `recoverLostSales` included.
use native.Mathlib.Nat.{le_of_eq}
use blend_pos.Prelude.{
  All-imp, ℕ, ◌≡◌, refl, sym, ◌∙◌, ◌≤◌, Bool, false, not, Option, some, List, [], ◌∷◌, ◌++◌, arith,
  filter, includes, All, Bool-cases, inl, inr,
}
use blend_pos.Sale.{SaleRecord}
use blend_pos.Offline.Db.{LocalSale, SyncQueueItem}
use blend_pos.Offline.Table.{Table}
use blend_pos.Offline.Sync.{
  Tick, Reply, Failure, SyncSaleResult, answered, failed, index_batch, index_results,
}
use blend_pos.Offline.Sync.Steps.{
  Batch, enqueue_sale, to_local_sale, begin_sync, orphans, sending, drop_orphans, finish_sync,
  is_taken, rows_of,
}
use blend_pos.Offline.Sync.Items.{
  IsItem, All-IsItem-mono, index_batch-Entries, after_failure-IsItem, remember,
}
use blend_pos.Offline.Sync.Queue.{
  ids_of, Rows, Keeps, bulk_put-Keeps, retry_all-Keeps, bulk_delete-Holds, bulk_delete-Rows,
}
use blend_pos.Offline.Sync.Sent.{get-marked, orphans-absent, sending-items, next_batch-Stored}
use blend_pos.Offline.Sync.Added.{or_else, stored-IsSafe}
use blend_pos.Offline.Sync.Lost.{includes-append, purge-IsSafe, requeue-IsSafe}
use blend_pos.Offline.Sync.System.{
  System, Step, enqueue, drop, send, settle, purge, requeues, reload, fresh, Reach, here, next,
  IsBatch, IsSafe, confirmed_by,
}

module _ {ℓ κ} {A : Type ℓ} (P : A → Type κ) where
  All-without :
      (xs : List A) (x : A) (ys : List A) → All P (xs ++ (x ∷ ys)) → All P (xs ++ ys) × P x
  All-without [] x ys (h, hs) = (hs, h)
  All-without (z ∷ zs) x ys (h, hs) = let (rest, p) = All-without zs x ys hs in ((h, rest), p)

module _ (Q : Table SyncQueueItem (λ q. q.id)) {W : Type 0}
    (S : Table (LocalSale W) (λ s. s.id)) where
  All-IsBatch-mono :
      (f : ℕ → Option ℕ) {m n : ℕ} (bs : List (Batch W))
      → m ≤ n
      → All (IsBatch Q S f m) bs
      → All (IsBatch Q S f n) bs
  All-IsBatch-mono f [] le h = tt
  All-IsBatch-mono f (b ∷ bs) le (h, hs) =
      (All-IsItem-mono f b.items le h, All-IsBatch-mono f bs le hs)

  -- the queue after a reply
  settle-Keeps :
      (f : ℕ → Option ℕ) (ticks : ℕ → Tick) (b : Batch W) (why : Failure) (online : Bool)
      (queue : Q.Store) (sales : S.Store)
      → IsBatch Q S f (Q.next queue) b
      → Rows Q S f queue
      → Keeps Q S f queue (finish_sync Q S ticks b (failed why online) queue sales).0
  unfolding finish_sync
  settle-Keeps f ticks b why online queue sales h rows =
      bulk_put-Keeps Q S f _ queue (after_failure-IsItem f _ ticks why online b.items h) rows

  module _ (y : System Q S) (v : IsSafe Q S y) where
    abbrev settled : List (Batch W) → List (Batch W) → Batch W → (ℕ → Tick) → Reply → System Q S
    settled before after b ticks reply = record y {
      queue = (finish_sync Q S ticks b reply y.queue y.sales).0;
      sales = (finish_sync Q S ticks b reply y.queue y.sales).1;
      under_way = before ++ after;
      confirmed = confirmed_by Q S b reply ++ y.confirmed;
    }

    abbrev enqueued : SaleRecord W → ℕ → System Q S
    enqueued sale now = record y {
      queue = (enqueue_sale Q S sale now y.queue y.sales).0;
      sales = (enqueue_sale Q S sale now y.queue y.sales).1;
      sale_of = remember (Q.next y.queue) sale.id y.sale_of;
    }

    settle_failed-IsSafe :
        (before after : List (Batch W)) (b : Batch W) (ticks : ℕ → Tick) (why : Failure)
        (online : Bool)
        → y.under_way ≡ before ++ (b ∷ after)
        → IsSafe Q S (settled before after b ticks (failed why online))
    unfolding finish_sync
    settle_failed-IsSafe before after b ticks why online e =
        let (rest, batch) = All-without _ before b after (rw e at v.batches) in
        let keeps = settle-Keeps y.sale_of ticks b why online y.queue y.sales batch v.rows in
        record {
          rows = keeps.rows;
          batches = All-IsBatch-mono y.sale_of (before ++ after) keeps.next_le rest;
          kept = λ k s there fresh. or_else (keeps.holds k) (v.kept k s there fresh);
          taken = v.taken;
        }

    settle_answered-IsSafe :
        (before after : List (Batch W)) (b : Batch W) (ticks : ℕ → Tick) (rs : List SyncSaleResult)
        → y.under_way ≡ before ++ (b ∷ after)
        → IsSafe Q S (settled before after b ticks (answered rs))
    unfolding finish_sync
    settle_answered-IsSafe before after b ticks rs e =
        let (rest, batch) = All-without _ before b after (rw e at v.batches) in
        let m = index_batch b.items [] in
        let taken = filter (is_taken Q S (index_results rs [])) b.sales in
        let entries = index_batch-Entries y.sale_of (Q.next y.queue) b.items [] batch tt in
        let deleted = Q.bulk_delete (rows_of Q S m taken) y.queue in
        let keeps =
          retry_all-Keeps Q S y.sale_of ticks (index_results rs []) m (Q.next y.queue)
            (filter (λ s. not (is_taken Q S (index_results rs []) s)) b.sales) deleted
            (le_of_eq (sym (Q.next-bulk_delete _ y.queue))) entries
            (bulk_delete-Rows Q S y.sale_of _ y.queue v.rows) in
        record {
          rows = keeps.rows;
          batches =
              All-IsBatch-mono y.sale_of (before ++ after)
                (rw (Q.next-bulk_delete (rows_of Q S m taken) y.queue) at keeps.next_le) rest;
          kept = λ k s there fresh. elim (get-marked Q S taken y.sales k s there) [
            | inl (_, marked) ↦ cc
            | inr (away, old) ↦
                or_else
                  (λ h. keeps.holds k (
                    bulk_delete-Holds Q S y.sale_of m (Q.next y.queue) taken y.queue entries v.rows
                      k away h))
                  (v.kept k s old fresh)
          ];
          taken = λ k s there marked. elim (get-marked Q S taken y.sales k s there) [
            | inl (inside, _) ↦ ground (arith, includes-append k (ids_of taken) y.confirmed)
            | inr (_, old) ↦
                ground (arith, includes-append k (ids_of taken) y.confirmed, v.taken k s old marked)
          ];
        }

    enqueue-IsSafe : (sale : SaleRecord W) (now : ℕ) → IsSafe Q S (enqueued sale now)
    unfolding enqueue_sale to_local_sale
    enqueue-IsSafe sale now = stored-IsSafe Q S y v (to_local_sale sale) now refl

    drop-IsSafe :
        (online : Bool) (now : ℕ) (ks : List ℕ)
        → begin_sync Q S online now y.queue y.sales ≡ orphans ks
        → IsSafe Q S (record y { queue = drop_orphans Q S ks y.queue })
    unfolding drop_orphans
    drop-IsSafe online now ks e = record {
      rows = bulk_delete-Rows Q S y.sale_of ks y.queue v.rows;
      batches = rw (Q.next-bulk_delete ks y.queue) v.batches;
      kept = λ k s there fresh.
          or_else
            (λ (j, q, row, owns).
              (j, q, Q.get-bulk_delete j ks y.queue ∙ rw (spared k s there j q row owns) row, owns))
            (v.kept k s there fresh);
      taken = v.taken;
    }
      where
        spared :
            (k : ℕ) (s : LocalSale W)
            → S.get k y.sales ≡ some s
            → (j : ℕ) (q : SyncQueueItem) → Q.get j y.queue ≡ some q
            → q.sale_id ≡ some k
            → includes j ks ≡ false
        spared k s there j q row owns = elim (Bool-cases (includes j ks)) [
          | inl gone ↦
              let absent = orphans-absent Q S online now y.queue y.sales ks e j k q row owns gone in
              cc
          | inr stays ↦ stays
        ]

    send-IsSafe :
        (online : Bool) (now : ℕ) (b : Batch W)
        → begin_sync Q S online now y.queue y.sales ≡ sending b
        → IsSafe Q S (record y { under_way = b ∷ y.under_way })
    send-IsSafe online now b e = record {
      rows = v.rows;
      batches = (
        rw (sending-items Q S online now y.queue y.sales b e) (
            All-imp _ (IsItem y.sale_of (Q.next y.queue)) _ (λ q h. v.rows q.id q h.0.0)
              (next_batch-Stored Q S now y.queue)),
        v.batches,
      );
      kept = v.kept;
      taken = v.taken;
    }

  Step-IsSafe : {y z : System Q S} → Step Q S y z → IsSafe Q S y → IsSafe Q S z
  Step-IsSafe (enqueue y sale now) v = enqueue-IsSafe y v sale now
  Step-IsSafe (drop y online now ks e) v = drop-IsSafe y v online now ks e
  Step-IsSafe (send y online now b e) v = send-IsSafe y v online now b e
  Step-IsSafe (settle y before after b ticks (answered rs) e) v =
      settle_answered-IsSafe y v before after b ticks rs e
  Step-IsSafe (settle y before after b ticks (failed why online) e) v =
      settle_failed-IsSafe y v before after b ticks why online e
  Step-IsSafe (purge y now) v = purge-IsSafe Q S y v now
  Step-IsSafe (requeues y now before found n) v = requeue-IsSafe Q S now before found n y v
  Step-IsSafe (reload y) v = record { rows = v.rows; batches = tt; kept = v.kept; taken = v.taken }

  fresh-IsSafe : (queue : Q.Store) (sales : S.Store) → IsSafe Q S (fresh Q S queue sales)
  fresh-IsSafe queue sales = record {
    rows = λ j q e. ground (arith, Q.get-clear j queue);
    batches = tt;
    kept = λ k s e _. ground (arith, S.get-clear k sales);
    taken = λ k s e _. ground (arith, S.get-clear k sales);
  }

  -- From a new database, in every state that enqueued sales, attempts to send, their replies, the two
  -- halves of `recoverLostSales` and reloads of the page lead to, in any order and with any number of
  -- requests under way: a stored sale that is not marked as synced has a row in the queue, or
  -- `recoverLostSales` has deleted a row of it that had failed 3 times; a sale that is marked as
  -- synced was reported as taken by some reply; and every row is pending below 3 attempts and failed
  -- from 3 on, and keeps the sale that its key was made for.
  pub Reach-IsSafe :
      (queue : Q.Store) (sales : S.Store) {z : System Q S}
      → Reach Q S (fresh Q S queue sales) z
      → IsSafe Q S z
  Reach-IsSafe queue sales here = fresh-IsSafe queue sales
  Reach-IsSafe queue sales (next r st) = Step-IsSafe st (Reach-IsSafe queue sales r)
