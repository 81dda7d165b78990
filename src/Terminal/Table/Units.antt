-- ===== src/Terminal/Table/Units.antt =====
-- The rows of frontend/src/components/pos/SalesTable.tsx show every unit of the cart once.
use blend_pos.Prelude.{
  ℕ, suc, ◌*◌, ◌≤◌, ◌≡◌, refl, ap, ◌∙◌, none, List, [], ◌∷◌, foldl, Bool, true, false, ◌==◌,
  if◌then◌else◌, get_or, find, is_some, All, arith, Bool-cases, inl, inr, ==_iff, ℤ, pos, pos_part,
  ◌+ℤ◌, ◌-ℤ◌, ◌≤ℤ◌, leb_ℤ, int_laws,
}
use blend_pos.Number.{Number}
use blend_pos.Cart.{CartItem, Record, has_id, quantity_in}
use blend_pos.Cart.Lines.{Absent, Unique, IsLine, IsCart}
use blend_pos.Promotions.{Promocion, PromocionProducto, at_least_one, assign, all}
use blend_pos.Terminal.Table.{
  combo, Pool, left, remaining_of, least_sets, combo_row, take_sets, scan_products, scan_promo,
  individual_row, individual_rows, first_pool, build_display_rows,
}
use blend_pos.Terminal.Table.Combos.{
  Separate, units_shown, units_shown-append, taken, left-consume, items_units-combo,
  least_sets-bound, taken-nonneg, taken-le,
}

at_least_one-positive : (n : ℤ) → 1 ≤ at_least_one n
at_least_one-positive n = ground arith

+ℤ_swap : (x y : ℤ) → x +ℤ y ≡ y +ℤ x
+ℤ_swap x y = omega int_laws

nothing_left : {x : ℤ} → pos 0 ≤ℤ x → leb_ℤ x (pos 0) ≡ true → pos 0 ≡ x
nothing_left low out = ground (arith, low, out)

move_units :
    (l t u q : ℤ)
    → pos 0 ≤ℤ l
    → l ≤ℤ q
    → l +ℤ u ≡ q
    → pos 0 ≤ℤ t
    → t ≤ℤ l
    → (pos 0 ≤ℤ l -ℤ t) × (l -ℤ t ≤ℤ q) × ((l -ℤ t) +ℤ (u +ℤ (t +ℤ pos 0)) ≡ q)
move_units l t u q low high sum given fits =
    let regroup : (l -ℤ t) +ℤ (u +ℤ (t +ℤ pos 0)) ≡ l +ℤ u = omega int_laws in
    (omega int_laws, omega int_laws, regroup ∙ sum)

module _ {W : Type 0} ⦃d : Number W⦄ where
  -- what the pool of a scan says of a product: nothing is lost, and nothing is taken twice
  abbrev IsBalanced : List (CartItem W) → Pool W → Type 0
  IsBalanced cart pool =
      (k : ℕ)
      → (pos 0 ≤ℤ left pool.remaining k)
        × (left pool.remaining k ≤ℤ quantity_in k cart)
        × (left pool.remaining k +ℤ units_shown k pool.rows ≡ quantity_in k cart)

  found_in :
      (cart : List (CartItem W)) (k : ℕ)
      → pos 1 ≤ℤ quantity_in k cart
      → is_some (find (has_id k) cart) ≡ true
  unfolding quantity_in
  found_in cart k h = ground (arith, h)

  all_found :
      (cart : List (CartItem W)) (n : ℕ) (pool : Pool W) (ps : List (PromocionProducto W))
      → 1 ≤ n
      → IsBalanced cart pool
      → all (λ x. leb_ℤ (pos n) (left pool.remaining x.id)) ps ≡ true
      → All (λ p. is_some (find (has_id p.id) cart) ≡ true) ps
  all_found cart n pool [] one h e = tt
  all_found cart n pool (p ∷ ps) one h e =
      let (low, high, sum) = h p.id in
      elim (Bool-cases (leb_ℤ (pos n) (left pool.remaining p.id))) [
        | inl enough ↦ (
          found_in cart p.id (ground (arith, enough, high, one)),
          all_found cart n pool ps one h (rw enough at e),
        )
        | inr short ↦ absurd (ground (arith, e, short))
      ]

  take_sets-IsBalanced :
      (cart : List (CartItem W)) (promo : Promocion W) (sets n : ℕ)
      (ps : List (PromocionProducto W))
      → (pool : Pool W) → Separate ps
      → All (λ p. is_some (find (has_id p.id) cart) ≡ true) ps
      → All (λ x. sets * n ≤ pos_part (left pool.remaining x.id)) ps
      → IsBalanced cart pool
      → IsBalanced cart (take_sets cart promo sets n ps pool)
  unfolding take_sets combo_row
  take_sets-IsBalanced cart promo sets n ps pool s found enough h = elim (Bool-cases (sets == 0)) [
    | inl none_complete ↦ rw none_complete h
    | inr some_complete ↦ rw some_complete λ k.
        let (low, high, sum) = h k in
        let gone = left-consume k (sets * n) ps pool.remaining s in
        let shown = items_units-combo k (sets * n) cart ps s found in
        let fits = taken-le k (sets * n) pool.remaining ps low enough in
        let new = combo (combo_row cart promo sets n ps) in
        let joined = units_shown-append k pool.rows (new ∷ []) in
        let given = taken-nonneg k (sets * n) ps in
        rw (gone, joined, shown)
          (move_units (left pool.remaining k) (taken k (sets * n) ps) (units_shown k pool.rows)
            (quantity_in k cart) low high sum given fits)
  ]

  scan_products-IsBalanced :
      (cart : List (CartItem W)) (promo : Promocion W) (n : ℕ) (ps : List (PromocionProducto W))
      → (pool : Pool W) → Separate ps
      → 1 ≤ n
      → IsBalanced cart pool
      → IsBalanced cart (scan_products cart promo n ps pool)
  unfolding scan_products
  scan_products-IsBalanced cart promo n [] pool s one h = h
  scan_products-IsBalanced cart promo n (p ∷ []) pool s one h = h
  scan_products-IsBalanced cart promo n (p ∷ q ∷ ps) pool s one h =
      let sets = least_sets pool.remaining n p (q ∷ ps) in
      elim (Bool-cases (all (λ x. leb_ℤ (pos n) (left pool.remaining x.id)) (p ∷ q ∷ ps))) [
        | inl present ↦ rw present (
            take_sets-IsBalanced cart promo sets n (p ∷ q ∷ ps) pool s
              (all_found cart n pool (p ∷ q ∷ ps) one h present)
              (least_sets-bound pool.remaining n sets p (q ∷ ps) one (omega arith)) h)
        | inr missing ↦ rw missing h
      ]

  either-IsBalanced :
      (cart : List (CartItem W)) (b : Bool) (x y : Pool W)
      → IsBalanced cart x
      → IsBalanced cart y
      → IsBalanced cart (if b then x else y)
  either-IsBalanced cart true x y h k = h
  either-IsBalanced cart false x y h k = k

  scan_promo-IsBalanced :
      (cart : List (CartItem W)) (pool : Pool W) (promo : Promocion W)
      → Separate promo.productos
      → IsBalanced cart pool
      → IsBalanced cart (scan_promo cart pool promo)
  unfolding scan_promo
  scan_promo-IsBalanced cart pool promo s h =
      let n = at_least_one (get_or promo.cantidad_requerida (pos 1)) in
      let positive = at_least_one-positive (get_or promo.cantidad_requerida (pos 1)) in
      either-IsBalanced cart promo.activa (scan_products cart promo n promo.productos pool) pool
        (scan_products-IsBalanced cart promo n promo.productos pool s positive h) h

  scan-IsBalanced :
      (cart : List (CartItem W)) (promos : List (Promocion W)) (pool : Pool W)
      → All (λ promo. Separate promo.productos) promos
      → IsBalanced cart pool
      → IsBalanced cart (foldl (scan_promo cart) pool promos)
  scan-IsBalanced cart [] pool s h = h
  scan-IsBalanced cart (promo ∷ promos) pool (s, ss) h =
      scan-IsBalanced cart promos (scan_promo cart pool promo) ss
        (scan_promo-IsBalanced cart pool promo s h)

  quantity_in-cons :
      (k : ℕ) (c : CartItem W) (cart : List (CartItem W))
      → quantity_in k (c ∷ cart) ≡ (if c.id == k then c.cantidad else quantity_in k cart)
  unfolding quantity_in
  quantity_in-cons k c cart = ground arith

  remaining_of-Absent :
      (r : Record ℤ) (k : ℕ) (cart : List (CartItem W))
      → Absent k cart
      → left (remaining_of r cart) k ≡ left r k
  unfolding remaining_of
  remaining_of-Absent r k [] a = refl
  remaining_of-Absent r k (c ∷ cs) (away, a) =
      remaining_of-Absent (assign c.id c.cantidad r) k cs a ∙ rw away refl

  left-remaining_of :
      (k : ℕ) (r : Record ℤ) (cart : List (CartItem W))
      → Unique cart
      → left r k ≡ pos 0
      → left (remaining_of r cart) k ≡ quantity_in k cart
  unfolding remaining_of quantity_in
  left-remaining_of k r [] u h = h
  left-remaining_of k r (c ∷ cs) (a, u) h = elim (Bool-cases (c.id == k)) [
    | inl same ↦
        let here : c.id ≡ k = (==_iff c.id k).0 same in
        remaining_of-Absent (assign c.id c.cantidad r) k cs (rw (← here) a)
        ∙ rw (quantity_in-cons k c cs, same) refl
    | inr other ↦
        rw (quantity_in-cons k c cs, other)
          (left-remaining_of k (assign c.id c.cantidad r) cs u (rw other h))
  ]

  quantity_in-Absent :
      (k : ℕ) (cart : List (CartItem W)) → Absent k cart → quantity_in k cart ≡ pos 0
  unfolding quantity_in
  quantity_in-Absent k [] a = refl
  quantity_in-Absent k (c ∷ cs) (away, a) =
      rw (quantity_in-cons k c cs, away) (quantity_in-Absent k cs a)

  quantity_in-nonneg :
      (k : ℕ) (cart : List (CartItem W)) → All IsLine cart → pos 0 ≤ℤ quantity_in k cart
  unfolding quantity_in
  quantity_in-nonneg k [] h = omega int_laws
  quantity_in-nonneg k (c ∷ cs) (h, hs) = elim (Bool-cases (c.id == k)) [
    | inl same ↦ rw (quantity_in-cons k c cs, same) (omega (int_laws, h))
    | inr other ↦ rw (quantity_in-cons k c cs, other) (quantity_in-nonneg k cs hs)
  ]

  first_pool-IsBalanced :
      (cart : List (CartItem W)) → IsCart cart → IsBalanced cart (first_pool cart)
  unfolding first_pool
  first_pool-IsBalanced cart (lines, unique) k =
      let all_left = left-remaining_of k (λ _. none) cart unique refl in
      let low = quantity_in-nonneg k cart lines in rw all_left (low, omega int_laws, omega int_laws)

  individual_rows-Absent :
      (pool : Pool W) (k i : ℕ) (cart : List (CartItem W))
      → Absent k cart
      → units_shown k (individual_rows pool i cart) ≡ pos 0
  unfolding individual_rows individual_row
  individual_rows-Absent pool k i [] a = refl
  individual_rows-Absent pool k i (c ∷ cs) (away, a) =
      let rest = individual_rows-Absent pool k (suc i) cs a in
      elim (Bool-cases (leb_ℤ (left pool.remaining c.id) (pos 0))) [
        | inl out ↦ rw out rest
        | inr in_hand ↦ rw (in_hand, away, rest) (omega int_laws)
      ]

  individual_rows_show :
      (pool : Pool W) (k i : ℕ) (cart : List (CartItem W))
      → Unique cart
      → pos 0 ≤ℤ left pool.remaining k
      → left pool.remaining k ≤ℤ quantity_in k cart
      → units_shown k (individual_rows pool i cart) ≡ left pool.remaining k
  unfolding individual_rows individual_row quantity_in
  individual_rows_show pool k i [] u low high = omega (int_laws, low, high)
  individual_rows_show pool k i (c ∷ cs) (a, u) low high = elim (Bool-cases (c.id == k)) [
    | inl same ↦
        let here : c.id ≡ k = (==_iff c.id k).0 same in
        let rest = individual_rows-Absent pool k (suc i) cs (rw (← here) a) in
        let moved = ap (left pool.remaining) here in
        elim (Bool-cases (leb_ℤ (left pool.remaining c.id) (pos 0))) [
          | inl out ↦ rw (out, rest, ← moved) (nothing_left (rw (← moved) at low) out)
          | inr in_hand ↦ rw (in_hand, same, rest, moved) (omega int_laws)
        ]
    | inr other ↦
        let tail = rw (quantity_in-cons k c cs, other) at high in
        let rest = individual_rows_show pool k (suc i) cs u low tail in
        elim (Bool-cases (leb_ℤ (left pool.remaining c.id) (pos 0))) [
          | inl out ↦ rw out rest
          | inr in_hand ↦ rw (in_hand, other, rest) (omega int_laws)
        ]
  ]

  -- The table shows every unit of the cart exactly once, in a combo or by itself: for each product,
  -- the units that the rows show add up to its quantity in the cart, provided that each product is
  -- on one line of the cart with a positive quantity, and no promotion lists a product twice.
  pub units_shown-build_display_rows :
      (cart : List (CartItem W)) (promociones : List (Promocion W)) (k : ℕ)
      → IsCart cart
      → All (λ promo. Separate promo.productos) promociones
      → units_shown k (build_display_rows cart promociones) ≡ quantity_in k cart
  unfolding build_display_rows
  units_shown-build_display_rows cart promociones k h separate =
      let start = first_pool-IsBalanced cart h in
      let pool = foldl (scan_promo cart) (first_pool cart) promociones in
      let (low, high, sum) = scan-IsBalanced cart promociones (first_pool cart) separate start k in
      let joined = units_shown-append k pool.rows (individual_rows pool 0 cart) in
      rw (joined, individual_rows_show pool k 0 cart h.1 low high)
        (+ℤ_swap (units_shown k pool.rows) (left pool.remaining k) ∙ sum)
