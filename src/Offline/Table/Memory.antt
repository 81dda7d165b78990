-- ===== src/Offline/Table/Memory.antt =====
-- A table in memory: the laws of `Table` can hold. A list of writes, the newest first.
use Prim.Native.Nat.{max}
use blend_pos.Prelude.{
  ℕ, suc, ◌≡◌, refl, ◌≤◌, ◌<◌, Bool, false, not, Option, none, some, List, [], ◌∷◌, arith, ◌==◌,
  leb, if◌then◌else◌, filter, find, includes, All, All-imp, All-filtered, ==_iff,
}
use blend_pos.Offline.Table.{Table}

module _ {Row : Type 0} (key : Row → ℕ) where
  pub record Memory : Type 0 where
    pub log : List Row
    pub counter : ℕ

  unfoldable pub bound : List Row → ℕ
  bound [] = 0
  bound (r ∷ rs) = max (suc (key r)) (bound rs)

  unfoldable pub nub : List Row → List Row
  nub [] = []
  nub (r ∷ rs) = r ∷ filter (λ x. not (key x == key r)) (nub rs)

  unfoldable pub insert : (Row → ℕ) → Row → List Row → List Row
  insert f r [] = r ∷ []
  insert f r (x ∷ xs) = if leb (f r) (f x) then r ∷ x ∷ xs else x ∷ insert f r xs

  unfoldable pub sort : (Row → ℕ) → List Row → List Row
  sort f [] = []
  sort f (x ∷ xs) = insert f x (sort f xs)

  abbrev pub at : ℕ → Memory → Option Row
  at j s = find (λ r. key r == j) s.log

  abbrev pub next_key : Memory → ℕ
  next_key s = max s.counter (bound s.log)

  insert-All :
      (f : Row → ℕ) (P : Row → Type 0) (r : Row) (xs : List Row)
      → P r
      → All P xs
      → All P (insert f r xs)
  unfolding insert
  insert-All f P r [] h hs = (h, tt)
  insert-All f P r (x ∷ xs) h (k, ks) = let rest = insert-All f P r xs h ks in ground arith

  pub sort-All : (f : Row → ℕ) (P : Row → Type 0) (xs : List Row) → All P xs → All P (sort f xs)
  unfolding sort
  sort-All f P [] h = tt
  sort-All f P (x ∷ xs) (h, hs) = insert-All f P x (sort f xs) h (sort-All f P xs hs)

  find-kept :
      (j k : ℕ) (xs : List Row)
      → (k == j) ≡ false
      → find (λ r. key r == j) (filter (λ x. not (key x == k)) xs) ≡ find (λ r. key r == j) xs
  find-kept j k [] h = refl
  find-kept j k (x ∷ xs) h = ground (arith, find-kept j k xs h)

  pub find-nub :
      (j : ℕ) (xs : List Row) → find (λ r. key r == j) xs ≡ find (λ r. key r == j) (nub xs)
  unfolding nub
  find-nub j [] = refl
  find-nub j (x ∷ xs) = ground (arith, find-nub j xs, find-kept j (key x) (nub xs))

  pub find-deleted :
      (j : ℕ) (ks : List ℕ) (xs : List Row)
      → find (λ r. key r == j) (filter (λ x. not (includes (key x) ks)) xs)
        ≡ (if includes j ks then none else find (λ r. key r == j) xs)
  find-deleted j ks [] = ground arith
  find-deleted j ks (x ∷ xs) = ground (arith, find-deleted j ks xs, ==_iff (key x) j)

  find-lt-bound :
      (j : ℕ) (xs : List Row) {r : Row} → find (λ r. key r == j) xs ≡ some r → j < bound xs
  unfolding bound
  find-lt-bound j [] e = cc
  find-lt-bound j (x ∷ xs) {r = r} e = ground (arith, find-lt-bound j xs {r = r})

  bound-filter : (p : Row → Bool) (xs : List Row) → bound (filter p xs) ≤ bound xs
  unfolding bound
  bound-filter p [] = omega arith
  bound-filter p (x ∷ xs) = ground (arith, bound-filter p xs)

  pub nub-get : (xs : List Row) → All (λ r. find (λ x. key x == key r) xs ≡ some r) (nub xs)
  unfolding nub
  nub-get [] = tt
  nub-get (x ∷ xs) = (
    ground arith,
    All-imp _ (λ r. find (λ y. key y == key r) (x ∷ xs) ≡ some r) _
        (λ r h. ground (arith, h.0, h.1, ==_iff (key r) (key x), ==_iff (key x) (key r)))
        (All-filtered (λ r. find (λ y. key y == key r) xs ≡ some r) (λ r. not (key r == key x))
          (nub xs) (nub-get xs)),
  )

  pub get-add :
      (j : ℕ) (f : ℕ → Row) (keyed : (n : ℕ) → key (f n) ≡ n) (s : Memory)
      → find (λ r. key r == j) (f (next_key s) ∷ s.log)
        ≡ (if next_key s == j then some (f (next_key s)) else at j s)
  get-add j f keyed s = rw (keyed (next_key s)) refl

  pub get-lt-next : (j : ℕ) (s : Memory) {r : Row} → at j s ≡ some r → j < next_key s
  get-lt-next j s {r = r} e = omega (arith, find-lt-bound j s.log e)

  pub next-add :
      (f : ℕ → Row) (keyed : (n : ℕ) → key (f n) ≡ n) (s : Memory)
      → max s.counter (bound (f (next_key s) ∷ s.log)) ≡ suc (next_key s)
  unfolding bound
  next-add f keyed s = omega (arith, keyed (next_key s))

  pub next-put : (r : Row) (s : Memory) → next_key s ≤ max s.counter (bound (r ∷ s.log))
  unfolding bound
  next-put r s = omega arith

  pub next-bulk_delete :
      (ks : List ℕ) (s : Memory)
      → max (next_key s) (bound (filter (λ x. not (includes (key x) ks)) s.log)) ≡ next_key s
  next-bulk_delete ks s = omega (arith, bound-filter (λ x. not (includes (key x) ks)) s.log)

abbrev pub memory : {Row : Type 0} (key : Row → ℕ) → Table Row key
memory key = record {
  Store = Memory key;
  get = at key;
  rows = λ s. nub key s.log;
  put = λ r s. record s { log = r ∷ s.log };
  add = λ f s. record s { log = f (next_key key s) ∷ s.log };
  bulk_delete = λ ks s. record {
    log = filter (λ x. not (includes (key x) ks)) s.log;
    counter = next_key key s;
  };
  clear = λ s. record { log = []; counter = next_key key s };
  next = next_key key;
  sort_by = sort key;
  get-put = λ j r s. refl;
  get-add = get-add key;
  get-bulk_delete = λ j ks s. find-deleted key j ks s.log;
  get-clear = λ j s. refl;
  get-eq-find = λ j s. find-nub key j s.log;
  rows-get = λ s. nub-get key s.log;
  get-lt-next = get-lt-next key;
  next-put = next-put key;
  next-add = next-add key;
  next-bulk_delete = next-bulk_delete key;
  sort_by-All = sort-All key;
}
