-- ===== src/Offline/Catalog/Stock.antt =====
-- How sales take stock off the local catalog (frontend/src/offline/catalog.ts).
use blend_pos.Prelude.{
  ℕ, ◌≡◌, refl, sym, ◌∙◌, Option, none, some, List, [], ◌∷◌, arith, ◌==◌, if◌then◌else◌, ℤ, pos,
  ◌+ℤ◌, ◌-ℤ◌, int_laws, Option-cases, Bool-cases, inl, inr, ==_iff, ap,
}
use blend_pos.Number.{Number}
use blend_pos.Offline.Db.{LocalProduct}
use blend_pos.Offline.Table.{Table, get_key}
use blend_pos.Offline.Catalog.{SyncMeta, deduct_one, deduct_local_stock}

-- how much of a product a list of sold lines takes
abbrev pub sold : ℕ → List (ℕ × ℤ) → ℤ
sold k [] = pos 0
sold k ((id, n) ∷ items) = (if id == k then n else pos 0) +ℤ sold k items

-- the row of a product after some of it was sold
abbrev pub less : {W : Type 0} → ℤ → Option (LocalProduct W) → Option (LocalProduct W)
less n none = none
less n (some p) = some (record p { stock = p.stock -ℤ n })

abbrev with_stock : {W : Type 0} → LocalProduct W → ℤ → LocalProduct W
with_stock p n = record p { stock = n }

less-zero : {W : Type 0} (o : Option (LocalProduct W)) → less (pos 0) o ≡ o
less-zero none = refl
less-zero (some p) = ap (λ (n : ℤ). some (with_stock p n)) (omega int_laws)

less-less :
    {W : Type 0} (m n : ℤ) (o : Option (LocalProduct W)) → less m (less n o) ≡ less (n +ℤ m) o
less-less m n none = refl
less-less m n (some p) = ap (λ (n : ℤ). some (with_stock p n)) (omega int_laws)

zero_add : (m : ℤ) → pos 0 +ℤ m ≡ m
zero_add m = omega int_laws

module _ {W : Type 0} ⦃d : Number W⦄ (P : Table (LocalProduct W) (λ p. p.id))
    (M : Table SyncMeta (λ m. m.key)) where
  get-deduct_one :
      (k id : ℕ) (n : ℤ) (products : P.Store)
      → P.get k (deduct_one P M id n products)
        ≡ (if id == k then less n (P.get k products) else P.get k products)
  unfolding deduct_one
  get-deduct_one k id n products = elim (Option-cases (P.get id products)) [
    | inl missing ↦ ground (arith, missing, ==_iff id k)
    | inr (p, found) ↦ ground (
      arith,
      found,
      P.get-put k (record p { stock = p.stock -ℤ n }) products,
      get_key P id products found,
      ==_iff id k,
    )
  ]

  -- The rows after a sale's lines were taken off are the rows before it, each with its stock lowered
  -- by all that the lines hold of the product; a product that is not in the catalog stays out of it.
  pub get-deduct_local_stock :
      (k : ℕ) (items : List (ℕ × ℤ)) (products : P.Store)
      → P.get k (deduct_local_stock P M items products) ≡ less (sold k items) (P.get k products)
  unfolding deduct_local_stock
  get-deduct_local_stock k [] products = sym (less-zero (P.get k products))
  get-deduct_local_stock k ((id, n) ∷ items) products =
      get-deduct_local_stock k items (deduct_one P M id n products)
      ∙ (rw (get-deduct_one k id n products) (elim (Bool-cases (id == k)) [
        | inl same ↦ rw same (less-less (sold k items) n (P.get k products))
        | inr other ↦ rw (other, zero_add) refl
      ]))
