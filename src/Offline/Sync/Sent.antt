-- ===== src/Offline/Sync/Sent.antt =====
-- Which sales and rows an attempt to send takes up (frontend/src/offline/sync.ts).
use mathlib.Core.Option.{some-injective}
use blend_pos.Prelude.{
  All-take, All-imp, All-filtered, ℕ, ◌≡◌, refl, sym, ◌∙◌, ◌≤◌, Bool, true, false, Option, none,
  some, List, [], ◌∷◌, map, arith, ◌==◌, includes, All, Bool-cases, Option-cases, inl, inr, ◌⊎◌,
  ==_iff, ==-self, ap, length, length-take-le,
}
use blend_pos.Offline.Db.{LocalSale, SyncQueueItem}
use blend_pos.Offline.JsMap.{JsMap}
use blend_pos.Offline.JsMap
use blend_pos.Offline.Table.{Table, bulk_put}
use blend_pos.Offline.Sync.{index_batch, is_due, is_pending, sync_batch_size}
use blend_pos.Offline.Sync.Steps.{
  Batch, orphans, sending, bulk_get, synced_copy, next_batch, start, begin_sync, ids,
}
use blend_pos.Offline.Sync.Queue.{ids_of}

index_batch-keeps :
    (k : ℕ) (qs : List SyncQueueItem) (m : JsMap SyncQueueItem)
    → includes k (JsMap.keys m) ≡ true
    → includes k (JsMap.keys (index_batch qs m)) ≡ true
unfolding index_batch
index_batch-keeps k [] m h = h
index_batch-keeps k (q ∷ qs) m h = index_batch-keeps k qs _ (entry_keeps q.sale_id q m h)
  where
    entry_keeps :
        (o : Option ℕ) (q : SyncQueueItem) (m : JsMap SyncQueueItem)
        → includes k (JsMap.keys m) ≡ true
        → includes k (JsMap.keys (elim o [ none ↦ m | some j ↦ JsMap.put j q m ])) ≡ true
    entry_keeps none q m h = h
    entry_keeps (some j) q m h = ground (arith, JsMap.includes-keys-put k j q m)

module _ (Q : Table SyncQueueItem (λ q. q.id)) {W : Type 0}
    (S : Table (LocalSale W) (λ s. s.id)) where
  abbrev pub Stored : Q.Store → SyncQueueItem → Type 0
  Stored queue q = Q.get q.id queue ≡ some q

  -- The rows of a batch are rows of the queue, pending and due, and at most 25.
  pub next_batch-Stored :
      (now : ℕ) (queue : Q.Store)
      → All
          (λ q. (Stored queue q × (is_pending q.status ≡ true)) × (is_due now q ≡ true))
          (next_batch Q S now queue)
  unfolding next_batch
  next_batch-Stored now queue =
      let Pending = λ (q : SyncQueueItem). Stored queue q × (is_pending q.status ≡ true) in
      All-take _ sync_batch_size _ (
        All-filtered Pending (is_due now) _ (
          Q.sort_by-All (λ q. q.created_at) Pending _
            (All-filtered (Stored queue) (λ q. is_pending q.status) (Q.rows queue)
              (Q.rows-get queue))))

  pub next_batch-length : (now : ℕ) (queue : Q.Store) → length (next_batch Q S now queue) ≤ 25
  unfolding next_batch
  next_batch-length now queue = length-take-le 25 _

  bulk_get-nil :
      (k : ℕ) (ks : List ℕ) (sales : S.Store)
      → bulk_get S sales ks ≡ []
      → includes k ks ≡ true
      → S.get k sales ≡ none
  unfolding bulk_get
  bulk_get-nil k [] sales e h = cc
  bulk_get-nil k (j ∷ js) sales e h = elim (Option-cases (S.get j sales)) [
    | inl missing ↦ elim (Bool-cases (j == k)) [
      | inl same ↦ rw (← (==_iff j k).0 same) missing
      | inr other ↦ bulk_get-nil k js sales (rw (missing, bulk_get) at e) (ground arith)
    ]
    | inr (s, found) ↦ ground arith
  ]

  -- Marking sales leaves every other sale alone.
  pub get-marked :
      (taken : List (LocalSale W)) (sales : S.Store) (k : ℕ) (s : LocalSale W)
      → S.get k (bulk_put S (map (synced_copy true) taken) sales) ≡ some s
      → ((includes k (ids_of taken) ≡ true) × (s.synced ≡ true))
        ⊎ ((includes k (ids_of taken) ≡ false) × (S.get k sales ≡ some s))
  unfolding bulk_put synced_copy
  get-marked [] sales k s e = inr (refl, e)
  get-marked (x ∷ xs) sales k s e = grind (
    arith,
    get-marked xs (S.put (synced_copy true x) sales) k s e,
    S.get-put k (synced_copy true x) sales,
  )

  start-orphans :
      (batch : List SyncQueueItem) (found : List (LocalSale W)) {ks : List ℕ}
      → start batch found ≡ orphans ks
      → (found ≡ []) × (ids batch ≡ ks)
  unfolding start
  start-orphans [] found e = cc
  start-orphans (q ∷ qs) [] e = (refl, cc)
  start-orphans (q ∷ qs) (s ∷ ss) e = cc

  start-sending :
      (batch : List SyncQueueItem) (found : List (LocalSale W)) {b : Batch W}
      → start batch found ≡ sending b
      → b.items ≡ batch
  unfolding start
  start-sending [] found e = cc
  start-sending (q ∷ qs) [] e = cc
  start-sending (q ∷ qs) (s ∷ ss) e = cc

  -- A stored row whose key is in the batch is in the index, under its sale.
  index_batch-includes :
      (queue : Q.Store) (qs : List SyncQueueItem) (m : JsMap SyncQueueItem) (j k : ℕ)
      (q : SyncQueueItem)
      → All (Stored queue) qs
      → Q.get j queue ≡ some q
      → q.sale_id ≡ some k
      → includes j (ids qs) ≡ true
      → includes k (JsMap.keys (index_batch qs m)) ≡ true
  unfolding index_batch
  index_batch-includes queue [] m j k q h e owns there = cc
  index_batch-includes queue (r ∷ rs) m j k q (h, hs) e owns there = elim (Bool-cases (r.id == j)) [
    | inl same ↦
        let found : some r ≡ some q =
          sym h ∙ ap (λ i. Q.get i queue) ((==_iff r.id j).0 same) ∙ e in
        let owner : r.sale_id ≡ some k =
          ap SyncQueueItem.sale_id (some-injective _ _ found) ∙ owns in
        index_batch-keeps k rs _ (rw (owner, JsMap.includes-keys-put, ==-self) refl)
    | inr other ↦ index_batch-includes queue rs _ j k q hs e owns (ground arith)
  ]

  -- A row that is dropped as an orphan stands for no stored sale.
  pub orphans-absent :
      (online : Bool) (now : ℕ) (queue : Q.Store) (sales : S.Store) (ks : List ℕ)
      → begin_sync Q S online now queue sales ≡ orphans ks
      → (j k : ℕ) (q : SyncQueueItem) → Q.get j queue ≡ some q
      → q.sale_id ≡ some k
      → includes j ks ≡ true
      → S.get k sales ≡ none
  unfolding begin_sync
  orphans-absent false now queue sales ks e j k q there owns gone = cc
  orphans-absent true now queue sales ks e j k q there owns gone =
      let batch = next_batch Q S now queue in
      let (nothing, all) = start-orphans batch _ e in
      bulk_get-nil k _ sales nothing (
        index_batch-includes queue batch [] j k q
          (All-imp _ (Stored queue) batch (λ x h. h.0.0) (next_batch-Stored now queue)) there owns
          (rw all gone))

  pub sending-items :
      (online : Bool) (now : ℕ) (queue : Q.Store) (sales : S.Store) (b : Batch W)
      → begin_sync Q S online now queue sales ≡ sending b
      → b.items ≡ next_batch Q S now queue
  unfolding begin_sync
  sending-items false now queue sales b e = cc
  sending-items true now queue sales b e = start-sending _ _ e
