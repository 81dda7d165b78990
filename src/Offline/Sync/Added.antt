-- ===== src/Offline/Sync/Added.antt =====
-- A sale that is stored with a new row for it keeps the queue of frontend/src/offline/sync.ts right.
use mathlib.Core.Option.{some-injective}
use blend_pos.Prelude.{
  ℕ, suc, ◌≡◌, refl, false, some, List, [], ◌∷◌, arith, ◌==◌, All, Bool-cases, inl, inr, ==_iff,
  ◌⊎◌,
}
use blend_pos.Offline.Db.{LocalSale, SyncQueueItem}
use blend_pos.Offline.Table.{Table}
use blend_pos.Offline.Sync.{new_entry}
use blend_pos.Offline.Sync.Steps.{Batch}
use blend_pos.Offline.Sync.Items.{
  remember, IsItem-remember, All-IsItem-remember, new_entry-IsItem, new_entry-keyed,
}
use blend_pos.Offline.Sync.Queue.{Holds, Rows}
use blend_pos.Offline.Sync.System.{System, IsBatch, IsSafe}

-- the left side goes through a function
pub or_else {ℓ κ μ} : {A : Type ℓ} {B : Type κ} {P : Type μ} → (A → B) → A ⊎ P → B ⊎ P
or_else f (inl a) = inl (f a)
or_else f (inr p) = inr p

module _ (Q : Table SyncQueueItem (λ q. q.id)) {W : Type 0}
    (S : Table (LocalSale W) (λ s. s.id)) where
  module _ (y : System Q S) (v : IsSafe Q S y) where
    abbrev pub stored : LocalSale W → ℕ → System Q S
    stored sale now = record y {
      queue = Q.add (new_entry sale.id now) y.queue;
      sales = S.put sale y.sales;
      sale_of = remember (Q.next y.queue) sale.id y.sale_of;
    }

    stored-rows :
        (sale : LocalSale W) (now : ℕ) → Rows Q S (stored sale now).sale_of (stored sale now).queue
    stored-rows sale now j q e = elim (Bool-cases (Q.next y.queue == j)) [
      | inl same ↦
          let found : some (new_entry sale.id now (Q.next y.queue)) ≡ some q =
            rw (Q.get-add j (new_entry sale.id now) (new_entry-keyed sale.id now) y.queue, same) at
              e in
          rw
            (
              Q.next-add (new_entry sale.id now) (new_entry-keyed sale.id now) y.queue,
              ← some-injective _ _ found,
            )
            (new_entry-IsItem y.sale_of (Q.next y.queue) sale.id now)
      | inr other ↦ rw (Q.next-add (new_entry sale.id now) (new_entry-keyed sale.id now) y.queue) (
          IsItem-remember y.sale_of (Q.next y.queue) sale.id q (
            v.rows j q (
              rw (Q.get-add j (new_entry sale.id now) (new_entry-keyed sale.id now) y.queue, other)
                at e)))
    ]

    batches-remember :
        (sale : ℕ) (bs : List (Batch W))
        → All (IsBatch Q S y.sale_of (Q.next y.queue)) bs
        → All (IsBatch Q S (remember (Q.next y.queue) sale y.sale_of) (suc (Q.next y.queue))) bs
    batches-remember sale [] h = tt
    batches-remember sale (b ∷ bs) (h, hs) =
        (All-IsItem-remember y.sale_of _ sale b.items h, batches-remember sale bs hs)

    stored-Holds :
        (sale : LocalSale W) (now k : ℕ) → Holds Q S k y.queue → Holds Q S k (stored sale now).queue
    stored-Holds sale now k (j, q, e, owns) = (
      j,
      q,
      ground (
        arith,
        Q.get-add j (new_entry sale.id now) (new_entry-keyed sale.id now) y.queue,
        Q.get-lt-next j y.queue e,
      ),
      owns,
    )

    stored-Holds_new : (sale : LocalSale W) (now : ℕ) → Holds Q S sale.id (stored sale now).queue
    unfolding new_entry
    stored-Holds_new sale now = (
      Q.next y.queue,
      new_entry sale.id now (Q.next y.queue),
      ground (
        arith,
        Q.get-add (Q.next y.queue) (new_entry sale.id now) (new_entry-keyed sale.id now) y.queue,
      ),
      refl,
    )

    pub stored-IsSafe :
        (sale : LocalSale W) (now : ℕ) → sale.synced ≡ false → IsSafe Q S (stored sale now)
    stored-IsSafe sale now unsynced = record {
      rows = stored-rows sale now;
      batches =
          rw (Q.next-add (new_entry sale.id now) (new_entry-keyed sale.id now) y.queue)
            (batches-remember sale.id y.under_way v.batches);
      kept = λ k s there fresh. elim (Bool-cases (sale.id == k)) [
        | inl same ↦ inl (rw (← (==_iff sale.id k).0 same) (stored-Holds_new sale now))
        | inr other ↦
            or_else (stored-Holds sale now k) (v.kept k s (rw (S.get-put, other) at there) fresh)
      ];
      taken = λ k s there marked. elim (Bool-cases (sale.id == k)) [
        | inl same ↦
            let found : some sale ≡ some s = rw (S.get-put, same) at there in
            let fresh : s.synced ≡ false = rw (← some-injective _ _ found) unsynced in cc
        | inr other ↦ v.taken k s (rw (S.get-put, other) at there) marked
      ];
    }
