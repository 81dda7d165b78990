-- ===== src/Offline/Table.antt =====
-- A table of the browser's database, as the third-party library Dexie documents it: rows by their
-- primary key, and a key generator that never goes back. The tables of frontend/src/offline are
-- arguments of this type, so every theorem holds of any implementation with these laws.
pub mod Memory
use mathlib.Core.Option.{some-injective}
use blend_pos.Prelude.{
  find_holds, ℕ, suc, ◌≡◌, ◌≤◌, ◌<◌, Bool, Option, none, some, List, foldl, ◌==◌, if◌then◌else◌,
  All, filter, find, includes, true, [], ◌∷◌, Bool-cases, inl, inr, ==_iff, sym, ◌∙◌,
}

pub record Table (Row : Type 0) (key : Row → ℕ) : Type 1 where
  pub Store : Type 0
  pub get : ℕ → Store → Option Row
  -- `toArray()`
  pub rows : Store → List Row
  pub put : Row → Store → Store
  -- `add` of a row whose key the table generates
  pub add : (ℕ → Row) → Store → Store
  pub bulk_delete : List ℕ → Store → Store
  pub clear : Store → Store
  -- the next key that the generator gives
  pub next : Store → ℕ
  -- `sortBy` of a collection
  pub sort_by : (Row → ℕ) → List Row → List Row
  pub get-put :
      (j : ℕ) (r : Row) (s : Store) → get j (put r s) ≡ (if key r == j then some r else get j s)
  pub get-add :
      (j : ℕ) (f : ℕ → Row)
      → ((n : ℕ) → key (f n) ≡ n)
      → (s : Store) → get j (add f s) ≡ (if next s == j then some (f (next s)) else get j s)
  pub get-bulk_delete :
      (j : ℕ) (ks : List ℕ) (s : Store)
      → get j (bulk_delete ks s) ≡ (if includes j ks then none else get j s)
  pub get-clear : (j : ℕ) (s : Store) → get j (clear s) ≡ none
  pub get-eq-find : (j : ℕ) (s : Store) → get j s ≡ find (λ r. key r == j) (rows s)
  pub rows-get : (s : Store) → All (λ r. get (key r) s ≡ some r) (rows s)
  pub get-lt-next : (j : ℕ) (s : Store) {r : Row} → get j s ≡ some r → j < next s
  pub next-put : (r : Row) (s : Store) → next s ≤ next (put r s)
  pub next-add :
      (f : ℕ → Row) → ((n : ℕ) → key (f n) ≡ n) → (s : Store) → next (add f s) ≡ suc (next s)
  pub next-bulk_delete : (ks : List ℕ) (s : Store) → next (bulk_delete ks s) ≡ next s
  pub sort_by-All :
      (f : Row → ℕ) (P : Row → Type 0) (xs : List Row) → All P xs → All P (sort_by f xs)

module _ {Row : Type 0} {key : Row → ℕ} (T : Table Row key) where
  -- `where(…).equals(…).toArray()`
  abbrev pub where_equals : (Row → Bool) → T.Store → List Row
  where_equals p s = filter p (T.rows s)

  -- `bulkPut`, and a loop of `put`
  unfoldable pub bulk_put : List Row → T.Store → T.Store
  bulk_put rs s = foldl (λ t r. T.put r t) s rs

  -- a row stands under its key
  pub get_key : (j : ℕ) (s : T.Store) {r : Row} → T.get j s ≡ some r → key r ≡ j
  get_key j s {r = r} e =
      (==_iff (key r) j).0 (find_holds (λ x. key x == j) (T.rows s) (sym (T.get-eq-find j s) ∙ e))
