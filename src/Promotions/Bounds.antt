-- ===== src/Promotions/Bounds.antt =====
-- What every result of `computePromoDescuentos` (frontend/src/store/usePromocionesStore.ts) obeys.
use Prim.Native.String.{String}
use mathlib.Core.Option.{some-injective}
use blend_pos.Prelude.{
  ℕ, ◌≡◌, refl, ◌⊎◌, Option, none, some, List, [], ◌∷◌, Bool, true, false, not, ◌==◌, if◌then◌else◌,
  get_or, includes, arith, Bool-cases, inl, inr, ==_iff, pos,
}
use blend_pos.Number.{Number, IsClamped, num}
use blend_pos.Promotions.{
  Promocion, PromocionProducto, CartView, Discounts, assign, at_least_one, apply_discount,
  apply_single, apply_combo, apply_combo_lines, complete_sets, all,
}

module _ {W : Type 0} ⦃d : Number W⦄ (v : CartView W) (N : String → Type 0) where
  -- `N` says which names a discount may have
  pub record IsGood (ds : Discounts W) : Type 0 where
    pub bounded :
        (k : ℕ) (x : W) → ds.pcts k ≡ some x → (d.lt (num 0) x ≡ true) × (d.le x (num 100) ≡ true)
    pub in_cart : (k : ℕ) (x : W) → ds.pcts k ≡ some x → includes k v.ids ≡ true
    pub named : (k : ℕ) → (ds.pcts k ≡ none) ⊎ ((name : String) × (ds.names k ≡ some name) × N name)

  pub unless_zero :
      (n : ℕ) {a b : Discounts W} → IsGood a → IsGood b → IsGood (if n == 0 then b else a)
  unless_zero n {a} {b} h k = elim (Bool-cases (n == 0)) [
    | inl zero_sets ↦ rw zero_sets k
    | inr some_sets ↦ rw some_sets h
  ]

  pub unless_none {ℓ} :
      {A : Type ℓ} (o : Option A) {b : Discounts W} (f : A → Discounts W)
      → IsGood b
      → ((x : A) → o ≡ some x → IsGood (f x))
      → IsGood (elim o [ none ↦ b | some x ↦ f x ])
  unless_none none f k h = k
  unless_none (some x) f k h = h x refl

  pub either : (t : Bool) {a b : Discounts W} → IsGood a → IsGood b → IsGood (if t then a else b)
  either true h k = h
  either false h k = k

  pub unless_off :
      (on : Bool) {a b : Discounts W}
      → IsGood a
      → (on ≡ true → IsGood b)
      → IsGood (if not on then a else b)
  unless_off true h k = k refl
  unless_off false h k = h

  module _ ⦃c : IsClamped W⦄ where
    assigned_bounds :
        (old : Option W) (pct : W)
        → ((x : W) → old ≡ some x → d.lt (num 0) x ≡ true)
        → d.lt (get_or old (num 0)) (d.min (num 100) (d.max (num 0) pct)) ≡ true
        → (d.lt (num 0) (d.min (num 100) (d.max (num 0) pct)) ≡ true)
          × (d.le (d.min (num 100) (d.max (num 0) pct)) (num 100) ≡ true)
    assigned_bounds none pct h lt = (lt, c.clamp-le pct (num 0) lt)
    assigned_bounds (some x) pct h lt = (c.lt_trans (num 0) x _ (h x refl) lt, c.clamp-le pct x lt)

    -- A new entry of the record keeps what holds of the others.
    assign-IsGood :
        (id : ℕ) (new : W) (name : String) (ds : Discounts W)
        → includes id v.ids ≡ true
        → (d.lt (num 0) new ≡ true) × (d.le new (num 100) ≡ true)
        → N name
        → IsGood ds
        → IsGood (record { pcts = assign id new ds.pcts; names = assign id name ds.names })
    assign-IsGood id new name ds there range n g = record {
      bounded = λ k x e. elim (Bool-cases (id == k)) [
        | inl same ↦
            let found : some new ≡ some x = rw same at e in rw (← some-injective _ _ found) range
        | inr other ↦ g.bounded k x (rw other at e)
      ];
      in_cart = λ k x e. elim (Bool-cases (id == k)) [
        | inl same ↦ rw (← (==_iff id k).0 same) there
        | inr other ↦ g.in_cart k x (rw other at e)
      ];
      named = λ k. elim (Bool-cases (id == k)) [
        | inl same ↦ inr (name, rw same refl, n)
        | inr other ↦ rw other (g.named k)
      ];
    }

    pub apply_discount-IsGood :
        (id : ℕ) (pct : W) (name : String) (ds : Discounts W)
        → includes id v.ids ≡ true
        → N name
        → IsGood ds
        → IsGood (apply_discount id pct name ds)
    unfolding apply_discount
    apply_discount-IsGood id pct name ds there n g =
        let new = d.min (num 100) (d.max (num 0) pct) in
        elim (Bool-cases (d.lt (get_or (ds.pcts id) (num 0)) new)) [
          | inl more ↦
              let range = assigned_bounds (ds.pcts id) pct (λ x e. (g.bounded id x e).0) more in
              rw more (assign-IsGood id new name ds there range n g)
          | inr less ↦ rw less g
        ]

    pub apply_single-IsGood :
        (promo : Promocion W) (p : PromocionProducto W) (ds : Discounts W)
        → N promo.nombre
        → IsGood ds
        → IsGood (apply_single promo p v ds)
    unfolding apply_single
    apply_single-IsGood promo p ds n g = elim (Bool-cases (includes p.id v.ids)) [
      | inl there ↦
          rw there (unless_zero _ (apply_discount-IsGood p.id _ promo.nombre ds there n g) g)
      | inr away ↦ rw away g
    ]

    apply_combo_lines-IsGood :
        (promo : Promocion W) (value : W) (sets n : ℕ) (ps : List (PromocionProducto W))
        (ds : Discounts W)
        → all (λ p. includes p.id v.ids) ps ≡ true
        → N promo.nombre
        → IsGood ds
        → IsGood (apply_combo_lines promo value sets n v ps ds)
    unfolding apply_combo_lines
    apply_combo_lines-IsGood promo value sets units [] ds h n g = g
    apply_combo_lines-IsGood promo value sets units (p ∷ ps) ds h n g =
        let here : includes p.id v.ids ≡ true = ground arith in
        let rest : all (λ p. includes p.id v.ids) ps ≡ true = ground arith in
        apply_combo_lines-IsGood promo value sets units ps _ rest n
          (unless_zero _ (apply_discount-IsGood p.id _ promo.nombre ds here n g) g)

    pub apply_combo-IsGood :
        (promo : Promocion W) (ds : Discounts W)
        → N promo.nombre
        → IsGood ds
        → IsGood (apply_combo promo v ds)
    unfolding apply_combo
    apply_combo-IsGood promo ds n g =
        elim (Bool-cases (all (λ p. includes p.id v.ids) promo.productos)) [
          | inl there ↦ rw there (
              unless_none
                (complete_sets v (at_least_one (get_or promo.cantidad_requerida (pos 1)))
                  promo.productos)
                _ g
                λ sets _.
                  unless_zero sets
                    (apply_combo_lines-IsGood promo _ sets _ promo.productos ds there n g) g)
          | inr away ↦ rw away g
        ]
