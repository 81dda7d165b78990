-- ===== src/Offline/Sync/Lost.antt =====
-- `recoverLostSales` of frontend/src/offline/sync.ts keeps the queue right.
use mathlib.Core.Option.{some-injective}
use blend_pos.Prelude.{
  ◌+◌, ℕ, ◌≡◌, refl, sym, ◌∙◌, ◌⊎◌, inl, inr, true, false, some, List, [], ◌∷◌, ◌++◌, arith, ◌==◌,
  ◌||◌, includes, All, All-filter, Bool-cases, Option-cases, ==_iff,
}
use blend_pos.Offline.Db.{LocalSale, SyncQueueItem}
use blend_pos.Offline.Table.{Table, bulk_put, where_equals}
use blend_pos.Offline.Sync.{is_error}
use blend_pos.Offline.Sync.Steps.{
  recover_errors, recover_lost_sales, requeue, is_queued, is_spent, ids, synced_copy,
}
use blend_pos.Offline.Sync.Queue.{Holds, bulk_delete-Rows}
use blend_pos.Offline.Sync.Recovery.{errors-spent, filter_none}
use blend_pos.Offline.Sync.Added.{stored, stored-IsSafe}
use blend_pos.Offline.Sync.System.{
  System, Reach, here, next, purge, requeues, IsSafe, requeued, spent_rows, sales_of,
}

pub includes-append :
    (k : ℕ) (xs ys : List ℕ) → includes k (xs ++ ys) ≡ (includes k xs || includes k ys)
includes-append k [] ys = refl
includes-append k (x ∷ xs) ys = ground (arith, includes-append k xs ys)

module _ (Q : Table SyncQueueItem (λ q. q.id)) {W : Type 0}
    (S : Table (LocalSale W) (λ s. s.id)) where
  -- the sale of a row that is among some rows is among their sales
  includes-sales_of :
      (queue : Q.Store) (k j : ℕ) (q : SyncQueueItem) (xs : List SyncQueueItem)
      → Q.get j queue ≡ some q
      → q.sale_id ≡ some k
      → All (λ x. Q.get x.id queue ≡ some x) xs
      → includes j (ids xs) ≡ true
      → includes k (sales_of xs) ≡ true
  unfolding sales_of
  includes-sales_of queue k j q [] row owns h e = cc
  includes-sales_of queue k j q (x ∷ xs) row owns (hx, h) e = elim (Bool-cases (x.id == j)) [
    | inl same ↦
        let there : Q.get j queue ≡ some x = rw (← (==_iff x.id j).0 same) hx in
        let owned : x.sale_id ≡ some k = rw (some-injective _ _ (sym there ∙ row)) owns in
        rw owned (ground arith)
    | inr other ↦
        let more = includes-sales_of queue k j q xs row owns h (ground (arith, other, e)) in
        elim (Option-cases x.sale_id) [
          | inl missing ↦ rw missing more
          | inr (i, owned) ↦ rw owned (ground (arith, more))
        ]
  ]

  module _ (y : System Q S) (v : IsSafe Q S y) where
    rows_after :
        (now : ℕ)
        → (recover_errors Q S now y.queue).0 ≡ Q.bulk_delete (ids (spent_rows Q S y.queue)) y.queue
    unfolding recover_errors bulk_put
    rows_after now = rw (filter_none is_spent _ (errors-spent Q S y.sale_of y.queue v.rows)) refl

    -- a sale with a row keeps it, or it is among the purged ones
    purged_or_held :
        (k : ℕ)
        → Holds Q S k y.queue ⊎ (includes k y.purged ≡ true)
        → Holds Q S k (Q.bulk_delete (ids (spent_rows Q S y.queue)) y.queue)
          ⊎ (includes k (sales_of (spent_rows Q S y.queue) ++ y.purged) ≡ true)
    purged_or_held k (inr before) =
        inr (ground (arith, includes-append k (sales_of (spent_rows Q S y.queue)) y.purged, before))
    purged_or_held k (inl (j, q, row, owns)) =
        let gone = ids (spent_rows Q S y.queue) in
        elim (Bool-cases (includes j gone)) [
          | inl deleted ↦
              let among =
                includes-sales_of y.queue k j q (spent_rows Q S y.queue) row owns
                  (All-filter _ is_spent _
                    (All-filter _ (λ r. is_error r.status) _ (Q.rows-get y.queue)))
                  deleted in
              inr (
                ground
                  (arith, includes-append k (sales_of (spent_rows Q S y.queue)) y.purged, among))
          | inr stays ↦ inl (j, q, Q.get-bulk_delete j gone y.queue ∙ rw stays row, owns)
        ]

    pub purge-IsSafe :
        (now : ℕ)
        → IsSafe Q S (record y {
          queue = (recover_errors Q S now y.queue).0;
          purged = sales_of (spent_rows Q S y.queue) ++ y.purged;
        })
    purge-IsSafe now = rw (rows_after now) (record {
      rows = bulk_delete-Rows Q S y.sale_of (ids (spent_rows Q S y.queue)) y.queue v.rows;
      batches = rw (Q.next-bulk_delete (ids (spent_rows Q S y.queue)) y.queue) v.batches;
      kept = λ k s there fresh. purged_or_held k (v.kept k s there fresh);
      taken = v.taken;
    })

  pub requeue-IsSafe :
      (now : ℕ) (before : Q.Store) (found : List (LocalSale W)) (n : ℕ) (y : System Q S)
      → IsSafe Q S y
      → IsSafe Q S (record y {
        queue = (requeue Q S now before found y.queue y.sales n).0;
        sales = (requeue Q S now before found y.queue y.sales n).1;
        sale_of = requeued Q S now before found y.queue y.sale_of;
      })
  unfolding requeue requeued synced_copy
  requeue-IsSafe now before [] n y v = v
  requeue-IsSafe now before (s ∷ ss) n y v = elim (Bool-cases (is_queued Q S s.id before)) [
    | inl queued ↦ rw queued (requeue-IsSafe now before ss n y v)
    | inr lost ↦
        let again = synced_copy false s in
        rw lost (
          requeue-IsSafe now before ss (n + 1) (stored Q S y v again now)
            (stored-IsSafe Q S y v again now refl))
  ]

  -- `recoverLostSales` without anything in between is its two steps
  recover_lost_sales-Reach :
      (y : System Q S) (now : ℕ)
      → let before = (recover_errors Q S now y.queue).0 in
        Reach Q S y (record y {
          queue = (recover_lost_sales Q S now y.queue y.sales).0;
          sales = (recover_lost_sales Q S now y.queue y.sales).1;
          sale_of =
              requeued Q S now before (where_equals S (λ s. s.synced) y.sales) before y.sale_of;
          purged = sales_of (spent_rows Q S y.queue) ++ y.purged;
        })
  unfolding recover_lost_sales
  recover_lost_sales-Reach y now =
      let (before, n) = recover_errors Q S now y.queue in
      next (next here (purge y now))
        (requeues _ now before (where_equals S (λ s. s.synced) y.sales) n)
