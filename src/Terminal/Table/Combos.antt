-- ===== src/Terminal/Table/Combos.antt =====
-- The units that the rows of frontend/src/components/pos/SalesTable.tsx show of a product, and what the
-- complete combos take of the units that are left.
use mathlib.Core.Path.{subst}
use native.Mathlib.Nat.{le-div_iff_mul-le}
use blend_pos.Prelude.{
  ℕ, ◌*◌, ◌≤◌, ◌≡◌, refl, ◌∙◌, List, [], ◌∷◌, ◌++◌, true, false, ◌==◌, if◌then◌else◌, find,
  includes, is_some, find_holds, All, arith, Bool-cases, Option-cases, inl, inr, ==_iff, ℤ, pos,
  pos_part, ◌+ℤ◌, ◌-ℤ◌, ◌≤ℤ◌, int_laws,
}
use blend_pos.Cart.{CartItem, Record, has_id}
use blend_pos.Promotions.{PromocionProducto, assign}
use blend_pos.Terminal.Table.{
  DisplayRow, combo, individual, left, product_keys, least_sets, with_found, combo_items, consume,
}

-- no product is listed twice
abbrev pub Separate : {W : Type 0} → List (PromocionProducto W) → Type 0
Separate [] = Unit
Separate (p ∷ ps) = All (λ q. (p.id == q.id) ≡ false) ps × Separate ps

module _ {W : Type 0} where
  abbrev items_units : ℕ → List (CartItem W × ℕ) → ℤ
  items_units k [] = pos 0
  items_units k ((c, n) ∷ xs) = (if c.id == k then pos n else pos 0) +ℤ items_units k xs

  -- the units of a product that a row shows
  abbrev row_units : ℕ → DisplayRow W → ℤ
  row_units k (combo row) = items_units k row.items
  row_units k (individual row) = if row.cart_item.id == k then row.display_qty else pos 0

  -- the units of a product that the table shows in all
  abbrev pub units_shown : ℕ → List (DisplayRow W) → ℤ
  units_shown k [] = pos 0
  units_shown k (r ∷ rs) = row_units k r +ℤ units_shown k rs

  pub units_shown-append :
      (k : ℕ) (xs ys : List (DisplayRow W))
      → units_shown k (xs ++ ys) ≡ units_shown k xs +ℤ units_shown k ys
  units_shown-append k [] ys = omega int_laws
  units_shown-append k (x ∷ xs) ys = rw (units_shown-append k xs ys) (omega int_laws)

  -- the units of a product that a combo of `ps` takes
  abbrev pub taken : ℕ → ℕ → List (PromocionProducto W) → ℤ
  taken k qty ps = if includes k (product_keys ps) then pos qty else pos 0

  includes-absent :
      (k : ℕ) (p : PromocionProducto W) (ps : List (PromocionProducto W))
      → (p.id == k) ≡ true
      → All (λ q. (p.id == q.id) ≡ false) ps
      → includes k (product_keys ps) ≡ false
  includes-absent k p [] e h = refl
  includes-absent k p (q ∷ ps) e (h, hs) =
      let rest = includes-absent k p ps e hs in ground (arith, rest, ==_iff p.id k, ==_iff q.id k)

  pub left-consume :
      (k qty : ℕ) (ps : List (PromocionProducto W)) (r : Record ℤ)
      → Separate ps
      → left (consume qty ps r) k ≡ left r k -ℤ taken k qty ps
  unfolding consume
  left-consume k qty [] r s = omega int_laws
  left-consume k qty (p ∷ ps) r (a, s) =
      left-consume k qty ps (assign p.id (left r p.id -ℤ pos qty) r) s
      ∙ (elim (Bool-cases (p.id == k)) [
        | inl same ↦
            let here : p.id ≡ k = (==_iff p.id k).0 same in
            rw (same, includes-absent k p ps same a, here) (omega int_laws)
        | inr other ↦ rw other refl
      ])

  pub items_units-combo :
      (k qty : ℕ) (cart : List (CartItem W)) (ps : List (PromocionProducto W))
      → Separate ps
      → All (λ p. is_some (find (has_id p.id) cart) ≡ true) ps
      → items_units k (combo_items cart qty ps) ≡ taken k qty ps
  unfolding combo_items with_found
  items_units-combo k qty cart [] s h = refl
  items_units-combo k qty cart (p ∷ ps) (a, s) (h, hs) =
      let rest = items_units-combo k qty cart ps s hs in
      elim (Option-cases (find (has_id p.id) cart)) [
        | inl missing ↦ absurd (ground (arith, h, missing))
        | inr (c, found) ↦
            let here : c.id ≡ p.id = (==_iff c.id p.id).0 (find_holds (has_id p.id) cart found) in
            rw (found, here)
              (elim (Bool-cases (p.id == k)) [
                | inl same ↦ rw (same, rest, includes-absent k p ps same a) (omega int_laws)
                | inr other ↦ rw (other, rest) (omega int_laws)
              ])
      ]

  pub least_sets-bound :
      (r : Record ℤ) (n m : ℕ) (p : PromocionProducto W) (ps : List (PromocionProducto W))
      → 1 ≤ n
      → m ≤ least_sets r n p ps
      → All (λ x. m * n ≤ pos_part (left r x.id)) (p ∷ ps)
  unfolding least_sets
  least_sets-bound r n m p [] one h = ((le-div_iff_mul-le one).0 h, tt)
  least_sets-bound r n m p (q ∷ qs) one h = (
    (le-div_iff_mul-le one).0 (omega (arith, h)),
    least_sets-bound r n m q qs one (omega (arith, h)),
  )

  pub taken-nonneg : (k qty : ℕ) (ps : List (PromocionProducto W)) → pos 0 ≤ℤ taken k qty ps
  taken-nonneg k qty ps = ground arith

  pub taken-le :
      (k qty : ℕ) (r : Record ℤ) (ps : List (PromocionProducto W))
      → pos 0 ≤ℤ left r k
      → All (λ x. qty ≤ pos_part (left r x.id)) ps
      → taken k qty ps ≤ℤ left r k
  taken-le k qty r [] low h = omega (int_laws, low)
  taken-le k qty r (p ∷ ps) low (h, hs) = elim (Bool-cases (p.id == k)) [
    | inl same ↦
        let here : p.id ≡ k = (==_iff p.id k).0 same in
        let enough : qty ≤ pos_part (left r k) =
          subst (λ (j : ℕ). qty ≤ pos_part (left r j)) here h in
        rw same (ground (arith, enough, low))
    | inr other ↦ rw other (taken-le k qty r ps low hs)
  ]
