-- ===== src/Offline/Sync/Queue.antt =====
-- What the writes of frontend/src/offline/sync.ts do to the rows of the queue.
use mathlib.Core.Option.{some-injective}
use blend_pos.Prelude.{
  ℕ, ◌≡◌, refl, sym, ◌∙◌, ◌≤◌, false, Option, some, List, [], ◌∷◌, map, arith, ◌==◌, includes, All,
  Bool-cases, Option-cases, inl, inr, ==_iff, ap,
}
use blend_pos.Offline.Db.{LocalSale, SyncQueueItem, estado}
use blend_pos.Offline.JsMap.{JsMap}
use blend_pos.Offline.JsMap
use blend_pos.Offline.Table.{Table, bulk_put, get_key}
use blend_pos.Offline.Sync.{Tick, SyncSaleResult, retry}
use blend_pos.Offline.Sync.Steps.{retry_all, rows_of, estado_of}
use blend_pos.Offline.Sync.Items.{IsItem, IsItem-mono, All-IsItem-mono, IsEntry, retry-IsItem}

abbrev pub ids_of : {W : Type 0} → List (LocalSale W) → List ℕ
ids_of = map λ s. s.id

module _ (Q : Table SyncQueueItem (λ q. q.id)) {W : Type 0}
    (S : Table (LocalSale W) (λ s. s.id)) where
  -- some row stands for sale `k`
  abbrev pub Holds : ℕ → Q.Store → Type 0
  Holds k queue = (j : ℕ) × (q : SyncQueueItem) × (Q.get j queue ≡ some q) × (q.sale_id ≡ some k)

  abbrev pub Rows : (ℕ → Option ℕ) → Q.Store → Type 0
  Rows f queue = (j : ℕ) (q : SyncQueueItem) → Q.get j queue ≡ some q → IsItem f (Q.next queue) q

  -- A change of the queue that keeps the rows well formed and drops no sale.
  pub record Keeps (f : ℕ → Option ℕ) (queue queue' : Q.Store) : Type 0 where
    pub next_le : Q.next queue ≤ Q.next queue'
    pub rows : Rows f queue'
    pub holds : (k : ℕ) → Holds k queue → Holds k queue'

  module _ (f : ℕ → Option ℕ) where
    pub Keeps-refl : (queue : Q.Store) → Rows f queue → Keeps f queue queue
    Keeps-refl queue r = record { next_le = omega arith; rows = r; holds = λ k h. h }

    pub Keeps-trans : {a b c : Q.Store} → Keeps f a b → Keeps f b c → Keeps f a c
    Keeps-trans g h = record {
      next_le = omega (arith, g.next_le, h.next_le);
      rows = h.rows;
      holds = λ k x. h.holds k (g.holds k x);
    }

    -- a key belongs to the sale of its row
    pub row_owner :
        {queue : Q.Store} {j : ℕ} {r : SyncQueueItem}
        → Rows f queue
        → Q.get j queue ≡ some r
        → f j ≡ r.sale_id
    row_owner {queue} {j} {r} rows e = ap f (sym (get_key Q j queue e)) ∙ sym (rows j r e).owned

    put-Rows :
        (q : SyncQueueItem) (queue : Q.Store)
        → IsItem f (Q.next queue) q
        → Rows f queue
        → Rows f (Q.put q queue)
    put-Rows q queue item rows j r e = elim (Bool-cases (q.id == j)) [
      | inl same ↦
          let found : some q ≡ some r = rw (Q.get-put, same) at e in
          rw (← some-injective _ _ found) (IsItem-mono f (Q.next-put q queue) item)
      | inr other ↦ IsItem-mono f (Q.next-put q queue) (rows j r (rw (Q.get-put, other) at e))
    ]

    put-Holds :
        (q : SyncQueueItem) (queue : Q.Store)
        → IsItem f (Q.next queue) q
        → Rows f queue
        → (k : ℕ) → Holds k queue
        → Holds k (Q.put q queue)
    put-Holds q queue item rows k (j, r, e, owns) = elim (Bool-cases (q.id == j)) [
      | inl same ↦ (
        j,
        q,
        Q.get-put j q queue ∙ rw same refl,
        item.owned ∙ ap f ((==_iff q.id j).0 same) ∙ row_owner rows e ∙ owns,
      )
      | inr other ↦ (j, r, Q.get-put j q queue ∙ rw other e, owns)
    ]

    pub put-Keeps :
        (q : SyncQueueItem) (queue : Q.Store)
        → IsItem f (Q.next queue) q
        → Rows f queue
        → Keeps f queue (Q.put q queue)
    put-Keeps q queue item rows = record {
      next_le = Q.next-put q queue;
      rows = put-Rows q queue item rows;
      holds = put-Holds q queue item rows;
    }

    pub bulk_put-Keeps :
        (qs : List SyncQueueItem) (queue : Q.Store)
        → All (IsItem f (Q.next queue)) qs
        → Rows f queue
        → Keeps f queue (bulk_put Q qs queue)
    unfolding bulk_put
    bulk_put-Keeps [] queue h rows = Keeps-refl queue rows
    bulk_put-Keeps (q ∷ qs) queue (h, hs) rows =
        let one = put-Keeps q queue h rows in
        Keeps-trans one
          (bulk_put-Keeps qs (Q.put q queue) (All-IsItem-mono f qs one.next_le hs) one.rows)

    pub retry_all-Keeps :
        (ticks : ℕ → Tick) (results : JsMap SyncSaleResult) (m : JsMap SyncQueueItem) (n : ℕ)
        (sales : List (LocalSale W)) (queue : Q.Store)
        → n ≤ Q.next queue
        → JsMap.Entries (IsEntry f n) m
        → Rows f queue
        → Keeps f queue (retry_all Q S ticks results m sales queue)
    unfolding retry_all
    retry_all-Keeps ticks results m n [] queue le h rows = Keeps-refl queue rows
    retry_all-Keeps ticks results m n (s ∷ ss) queue le h rows =
        elim (Option-cases (JsMap.get s.id m)) [
          | inl missing ↦ rw missing (retry_all-Keeps ticks results m n ss queue le h rows)
          | inr (q, found) ↦
              let item = (JsMap.get-Entries (IsEntry f n) s.id m h found).0 in
              let one =
                put-Keeps (retry (ticks q.id) (estado (estado_of Q S results s)) q) queue
                  (retry-IsItem f _ (ticks q.id) _ (IsItem-mono f le item)) rows in
              rw found (
                Keeps-trans one
                  (retry_all-Keeps ticks results m n ss _ (omega (arith, one.next_le)) h one.rows))
        ]

    entry_elsewhere :
        (q : SyncQueueItem) (sale j k : ℕ)
        → q.sale_id ≡ f q.id
        → q.sale_id ≡ some sale
        → f j ≡ some k
        → (sale == k) ≡ false
        → (q.id == j) ≡ false
    entry_elsewhere q sale j k owned entry fj other = ground (arith, ==_iff q.id j, ==_iff sale k)

    rows_of-excludes :
        (m : JsMap SyncQueueItem) (n : ℕ) (taken : List (LocalSale W)) (j k : ℕ)
        → JsMap.Entries (IsEntry f n) m
        → f j ≡ some k
        → includes k (ids_of taken) ≡ false
        → includes j (rows_of Q S m taken) ≡ false
    unfolding rows_of
    rows_of-excludes m n [] j k h fj away = refl
    rows_of-excludes m n (s ∷ ss) j k h fj away = elim (Option-cases (JsMap.get s.id m)) [
      | inl missing ↦ rw (missing, includes) (rows_of-excludes m n ss j k h fj (ground arith))
      | inr (q, found) ↦
          let entry = JsMap.get-Entries (IsEntry f n) s.id m h found in
          let rest = rows_of-excludes m n ss j k h fj (ground arith) in
          rw (found, includes)
            (ground (arith, entry_elsewhere q s.id j k entry.0.owned entry.1 fj, rest))
    ]

    -- Deleting the rows of the sales that were taken drops no other sale.
    pub bulk_delete-Holds :
        (m : JsMap SyncQueueItem) (n : ℕ) (taken : List (LocalSale W)) (queue : Q.Store)
        → JsMap.Entries (IsEntry f n) m
        → Rows f queue
        → (k : ℕ) → includes k (ids_of taken) ≡ false
        → Holds k queue
        → Holds k (Q.bulk_delete (rows_of Q S m taken) queue)
    bulk_delete-Holds m n taken queue h rows k away (j, q, e, owns) =
        let owner : f j ≡ some k = row_owner rows e ∙ owns in
        (
          j,
          q,
          Q.get-bulk_delete j _ queue ∙ rw (rows_of-excludes m n taken j k h owner away) e,
          owns,
        )

    pub bulk_delete-Rows :
        (ks : List ℕ) (queue : Q.Store) → Rows f queue → Rows f (Q.bulk_delete ks queue)
    bulk_delete-Rows ks queue rows j q e = elim (Bool-cases (includes j ks)) [
      | inl gone ↦ ground (arith, Q.get-bulk_delete j ks queue)
      | inr stays ↦ rw (Q.next-bulk_delete ks queue) (rows j q (rw (Q.get-bulk_delete, stays) at e))
    ]
