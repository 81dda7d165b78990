-- ===== src/Offline/Sync/Items.antt =====
-- The rows of the queue that frontend/src/offline/sync.ts writes.
use blend_pos.Prelude.{
  ℕ, suc, ◌==◌, ◌≡◌, refl, ◌<◌, ◌≤◌, Bool, Option, none, some, List, [], ◌∷◌, map, arith, leb,
  if◌then◌else◌, All, Bool-cases, inl, inr,
}
use blend_pos.Offline.Db.{SyncQueueItem, LastError, pending, error}
use blend_pos.Offline.JsMap.{JsMap}
use blend_pos.Offline.JsMap
use blend_pos.Offline.Sync.{
  Tick, Failure, retry, postpone, index_batch, new_entry, after_failure, is_offline,
}

-- A row counts its attempts below the limit, is marked as failed at the limit, keeps the sale that
-- its key was made for, and has a key that was given out.
pub record IsItem (f : ℕ → Option ℕ) (bound : ℕ) (q : SyncQueueItem) : Type 0 where
  pub status : q.status ≡ (if leb 3 q.tries then error else pending)
  pub owned : q.sale_id ≡ f q.id
  pub given : q.id < bound

module _ (f : ℕ → Option ℕ) where
  pub IsItem-mono : {m n : ℕ} {q : SyncQueueItem} → m ≤ n → IsItem f m q → IsItem f n q
  IsItem-mono le h = record { status = h.status; owned = h.owned; given = omega arith }

  pub All-IsItem-mono :
      {m n : ℕ} (qs : List SyncQueueItem) → m ≤ n → All (IsItem f m) qs → All (IsItem f n) qs
  All-IsItem-mono [] le h = tt
  All-IsItem-mono (q ∷ qs) le (h, hs) = (IsItem-mono le h, All-IsItem-mono qs le hs)

  module _ (n : ℕ) where
    pub retry-IsItem :
        {q : SyncQueueItem} (t : Tick) (why : LastError) → IsItem f n q → IsItem f n (retry t why q)
    unfolding retry
    retry-IsItem t why h = record { status = refl; owned = h.owned; given = h.given }

    postpone-IsItem :
        {q : SyncQueueItem} (t : Tick) (why : LastError)
        → IsItem f n q
        → IsItem f n (postpone t why q)
    unfolding postpone
    postpone-IsItem t why h = record { status = h.status; owned = h.owned; given = h.given }

    pub after_failure-IsItem :
        (ticks : ℕ → Tick) (why : Failure) (online : Bool) (qs : List SyncQueueItem)
        → All (IsItem f n) qs
        → All (IsItem f n) (map (after_failure ticks why online) qs)
    unfolding after_failure
    after_failure-IsItem ticks why online [] h = tt
    after_failure-IsItem ticks why online (q ∷ qs) (h, hs) = (
      elim (Bool-cases (is_offline why online)) [
        | inl down ↦ rw down (postpone-IsItem (ticks q.id) _ h)
        | inr up ↦ rw up (retry-IsItem (ticks q.id) _ h)
      ],
      after_failure-IsItem ticks why online qs hs,
    )

    -- each entry of `batchBySaleId` is a row of the batch, under its sale
    abbrev pub IsEntry : ℕ → SyncQueueItem → Type 0
    IsEntry k q = IsItem f n q × (q.sale_id ≡ some k)

    add-IsEntry-Entries :
        (o : Option ℕ) (q : SyncQueueItem) (m : JsMap SyncQueueItem)
        → IsItem f n q
        → q.sale_id ≡ o
        → JsMap.Entries IsEntry m
        → JsMap.Entries IsEntry (elim o [ none ↦ m | some k ↦ JsMap.put k q m ])
    add-IsEntry-Entries none q m h same e = e
    add-IsEntry-Entries (some k) q m h same e = JsMap.put-Entries IsEntry k q m (h, same) e

    pub index_batch-Entries :
        (qs : List SyncQueueItem) (m : JsMap SyncQueueItem)
        → All (IsItem f n) qs
        → JsMap.Entries IsEntry m
        → JsMap.Entries IsEntry (index_batch qs m)
    unfolding index_batch
    index_batch-Entries [] m h e = e
    index_batch-Entries (q ∷ qs) m (h, hs) e =
        index_batch-Entries qs _ hs (add-IsEntry-Entries q.sale_id q m h refl e)

-- the sale that a new key was made for
abbrev pub remember : ℕ → ℕ → (ℕ → Option ℕ) → ℕ → Option ℕ
remember key sale f j = if key == j then some sale else f j

module _ (f : ℕ → Option ℕ) (n sale : ℕ) where
  pub IsItem-remember : (q : SyncQueueItem) → IsItem f n q → IsItem (remember n sale f) (suc n) q
  IsItem-remember q h = record {
    status = h.status;
    owned = ground (arith, h.owned, h.given);
    given = omega (arith, h.given);
  }

  pub All-IsItem-remember :
      (qs : List SyncQueueItem) → All (IsItem f n) qs → All (IsItem (remember n sale f) (suc n)) qs
  All-IsItem-remember [] h = tt
  All-IsItem-remember (q ∷ qs) (h, hs) = (IsItem-remember q h, All-IsItem-remember qs hs)

  pub new_entry-IsItem : (now : ℕ) → IsItem (remember n sale f) (suc n) (new_entry sale now n)
  unfolding new_entry
  new_entry-IsItem now = record { status = refl; owned = ground arith; given = omega arith }

pub new_entry-keyed : (sale now n : ℕ) → (new_entry sale now n).id ≡ n
unfolding new_entry
new_entry-keyed sale now n = refl
