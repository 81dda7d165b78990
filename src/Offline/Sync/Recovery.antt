-- ===== src/Offline/Sync/Recovery.antt =====
-- What `recoverLostSales` of frontend/src/offline/sync.ts does to the rows that have failed.
use blend_pos.Prelude.{
  All-imp, All-filtered, ℕ, ◌≡◌, refl, sym, ◌∙◌, Bool, true, not, Option, none, some, List, [], ◌∷◌,
  arith, ◌==◌, filter, find, includes, All, Bool-cases, inl, inr,
}
use blend_pos.Offline.Db.{LocalSale, SyncQueueItem, error}
use blend_pos.Offline.Table.{Table, bulk_put, where_equals}
use blend_pos.Offline.Sync.{is_error}
use blend_pos.Offline.Sync.Steps.{recover_errors, ids, is_spent}
use blend_pos.Offline.Sync.Items.{IsItem}
use blend_pos.Offline.Sync.Queue.{Rows}

-- Filters that let all, or nothing, through.
module _ {ℓ} {A : Type ℓ} (p : A → Bool) where
  filter_whole : (xs : List A) → All (λ x. p x ≡ true) xs → filter p xs ≡ xs
  filter_whole [] h = refl
  filter_whole (x ∷ xs) (h, hs) = rw (h, filter_whole xs hs) refl

  pub filter_none : (xs : List A) → All (λ x. p x ≡ true) xs → filter (λ x. not (p x)) xs ≡ []
  filter_none [] h = refl
  filter_none (x ∷ xs) (h, hs) = rw (h) (filter_none xs hs)

includes-filter :
    (j : ℕ) (p : SyncQueueItem → Bool) (xs : List SyncQueueItem) {q : SyncQueueItem}
    → find (λ r. r.id == j) xs ≡ some q
    → p q ≡ true
    → includes j (ids (filter p xs)) ≡ true
includes-filter j p [] e h = cc
includes-filter j p (x ∷ xs) e h = elim (Bool-cases (x.id == j)) [
  | inl same ↦ ground (arith, e, h, same)
  | inr other ↦ ground (arith, includes-filter j p xs (rw other at e) h)
]

spent_of_error :
    (f : ℕ → Option ℕ) (n : ℕ) (q : SyncQueueItem)
    → IsItem f n q
    → is_error q.status ≡ true
    → is_spent q ≡ true
spent_of_error f n q h e = ground (arith, h.status)

module _ (Q : Table SyncQueueItem (λ q. q.id)) {W : Type 0}
    (S : Table (LocalSale W) (λ s. s.id)) where
  pub errors-spent :
      (f : ℕ → Option ℕ) (queue : Q.Store)
      → Rows Q S f queue
      → All (λ q. is_spent q ≡ true) (where_equals Q (λ q. is_error q.status) queue)
  errors-spent f queue rows =
      All-imp _ (λ q. is_spent q ≡ true) _
        (λ q h. spent_of_error f (Q.next queue) q (rows q.id q h.0) h.1)
        (All-filtered (λ q. Q.get q.id queue ≡ some q) (λ q. is_error q.status) (Q.rows queue)
          (Q.rows-get queue))

  -- On a queue with well-formed rows, `recoverLostSales` resets no row: it reports 0 rows reset, and
  -- deletes every row that has failed.
  pub recover_errors_purges :
      (f : ℕ → Option ℕ) (now : ℕ) (queue : Q.Store)
      → Rows Q S f queue
      → ((recover_errors Q S now queue).1 ≡ 0)
        × ((j : ℕ) (q : SyncQueueItem)
            → Q.get j queue ≡ some q
            → q.status ≡ error
            → Q.get j (recover_errors Q S now queue).0 ≡ none)
  unfolding recover_errors
  recover_errors_purges f now queue rows =
      let spent = errors-spent f queue rows in
      rw (filter_none is_spent _ spent, filter_whole is_spent _ spent)
        (
          refl,
          λ j q there failed. ground (
            arith,
            Q.get-bulk_delete j (ids (where_equals Q (λ r. is_error r.status) queue))
                (bulk_put Q [] queue),
            includes-filter j (λ r. is_error r.status) (Q.rows queue) {q = q}
                (sym (Q.get-eq-find j queue) ∙ there) (rw failed refl),
          ),
        )
