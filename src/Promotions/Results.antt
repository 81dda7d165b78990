-- ===== src/Promotions/Results.antt =====
-- What `computePromoDescuentos` of frontend/src/store/usePromocionesStore.ts returns, for every list of promotions.
use Prim.Native.Nat.{min}
use Prim.Native.String.{String}
use mathlib.Core.Option.{some-injective}
use blend_pos.Prelude.{
  ℕ, ◌-◌, ◌≡◌, none, some, List, [], ◌∷◌, true, not, ◌&&◌, ◌==◌, ltb, includes, All, All-append,
  All-imp, All-weaker, ◌⊎◌, arith, Bool-cases, Option-cases, inl, inr, ==-self, refl,
}
use blend_pos.Number.{Number, IsClamped}
use blend_pos.Promotions.{
  Promocion, PromocionProducto, Grupo, CartView, Discounts, no_discounts, at_least_one, is_nil,
  quantity,
}
use blend_pos.Promotions.Groups.{
  Match, GroupMatch, Share, match_group, match_groups, group_sets, add_share, distribute,
  distribute_all, apply_shares, apply_groups, in_group, is_matched,
}
use blend_pos.Promotions.Compute.{
  apply_classic, apply_promo, apply_promos, compute_promo_descuentos, is_grouped,
}
use blend_pos.Promotions.Bounds.{
  IsGood, apply_discount-IsGood, apply_single-IsGood, apply_combo-IsGood, unless_zero, unless_none,
  unless_off, either,
}

includes_more :
    (j : ℕ) (js ks : List ℕ)
    → All (λ k. includes k js ≡ true) ks
    → All (λ k. includes k (j ∷ js) ≡ true) ks
includes_more j js ks = All-imp _ _ ks (λ k h. ground arith)

includes_self : (ks : List ℕ) → All (λ k. includes k ks ≡ true) ks
includes_self [] = tt
includes_self (k ∷ ks) = (rw (==-self k) refl, includes_more k ks ks (includes_self ks))

module _ {W : Type 0} ⦃d : Number W⦄ (v : CartView W) where
  -- products of the cart
  abbrev Matched : List (Match W) → Type 0
  Matched = All (λ m. includes m.id v.ids ≡ true)

  abbrev Shared : List (Share W) → Type 0
  Shared = All (λ x. includes x.id v.ids ≡ true)

  match_group-Matched :
      (g : Grupo W) (ids : List ℕ) (ms : List (Match W)) (total : ℕ)
      → All (λ k. includes k v.ids ≡ true) ids
      → Matched ms
      → Matched (match_group v g ids ms total).0
  unfolding match_group
  match_group-Matched g [] ms total h k = k
  match_group-Matched g (id ∷ ids) ms total (here, h) k =
      elim (Bool-cases (in_group g id && not (quantity v id == 0) && not (is_matched id ms))) [
        | inl taken ↦ rw taken (match_group-Matched g ids _ _ h (All-append _ ms _ k (here, tt)))
        | inr skipped ↦ rw skipped (match_group-Matched g ids ms total h k)
      ]

  match_groups-Matched :
      (gs : List (Grupo W)) (ms : List (GroupMatch W))
      → match_groups v gs ≡ some ms
      → All (λ g. Matched g.matched) ms
  unfolding match_groups
  match_groups-Matched [] ms e = rw (← some-injective _ _ e) tt
  match_groups-Matched (g ∷ gs) ms e =
      elim (Bool-cases (ltb (match_group v g v.ids [] 0).1 (at_least_one g.cantidad_requerida))) [
        | inl short ↦ let e : none ≡ some ms = rw short at e in ground arith
        | inr enough ↦ elim (Option-cases (match_groups v gs)) [
          | inl fails ↦ let e : none ≡ some ms = rw (enough, fails) at e in ground arith
          | inr (rest, found) ↦
              let e = rw (enough, found) at e in
              rw (← some-injective _ _ e) (
                match_group-Matched g v.ids [] 0 (includes_self v.ids) tt,
                match_groups-Matched gs rest found,
              )
        ]
      ]

  add_share-Shared :
      (m : Match W) (n : ℕ) (xs : List (Share W))
      → includes m.id v.ids ≡ true
      → Shared xs
      → Shared (add_share m n xs)
  unfolding add_share
  add_share-Shared m n [] here h = (here, tt)
  add_share-Shared m n (x ∷ xs) here (hx, h) = elim (Bool-cases (x.id == m.id)) [
    | inl same ↦ rw same (hx, h)
    | inr other ↦ rw other (hx, add_share-Shared m n xs here h)
  ]

  distribute-Shared :
      (r : ℕ) (ms : List (Match W)) (xs : List (Share W))
      → Matched ms
      → Shared xs
      → Shared (distribute r ms xs)
  unfolding distribute
  distribute-Shared r [] xs k h = h
  distribute-Shared r (m ∷ ms) xs (here, k) h = elim (Bool-cases (ltb 0 (min r m.qty))) [
    | inl some_units ↦
        rw some_units (distribute-Shared (r - min r m.qty) ms _ k (add_share-Shared m _ xs here h))
    | inr no_units ↦ rw no_units (distribute-Shared (r - min r m.qty) ms xs k h)
  ]

  distribute_all-Shared :
      (sets : ℕ) (gs : List (GroupMatch W)) (xs : List (Share W))
      → All (λ g. Matched g.matched) gs
      → Shared xs
      → Shared (distribute_all sets gs xs)
  unfolding distribute_all
  distribute_all-Shared sets [] xs k h = h
  distribute_all-Shared sets (g ∷ gs) xs (here, k) h =
      distribute_all-Shared sets gs _ k (distribute-Shared _ g.matched xs here h)

  -- the name of a promotion of the list that is active
  abbrev pub IsActiveName : List (Promocion W) → String → Type 0
  IsActiveName [] name = ⊥
  IsActiveName (p ∷ ps) name = ((p.activa ≡ true) × (p.nombre ≡ name)) ⊎ IsActiveName ps name

  module _ ⦃c : IsClamped W⦄ (N : String → Type 0) where
    apply_shares-IsGood :
        (promo : Promocion W) (value : W) (sets : ℕ) (xs : List (Share W)) (ds : Discounts W)
        → Shared xs
        → N promo.nombre
        → IsGood v N ds
        → IsGood v N (apply_shares promo value sets xs ds)
    unfolding apply_shares
    apply_shares-IsGood promo value sets [] ds h n g = g
    apply_shares-IsGood promo value sets (x ∷ xs) ds (here, h) n g =
        apply_shares-IsGood promo value sets xs _ h n
          (apply_discount-IsGood v N x.id _ promo.nombre ds here n g)

    apply_groups-IsGood :
        (promo : Promocion W) (ds : Discounts W)
        → N promo.nombre
        → IsGood v N ds
        → IsGood v N (apply_groups promo v ds)
    unfolding apply_groups
    apply_groups-IsGood promo ds n g = unless_none v N (match_groups v promo.grupos) _ g λ ms found.
        let there = match_groups-Matched promo.grupos ms found in
        unless_none v N (group_sets ms) _ g λ sets _.
          let shares = distribute_all-Shared sets ms [] there tt in
          unless_zero v N sets (apply_shares-IsGood promo _ sets _ ds shares n g) g

    apply_classic-IsGood :
        (promo : Promocion W) (ps : List (PromocionProducto W)) (ds : Discounts W)
        → N promo.nombre
        → IsGood v N ds
        → IsGood v N (apply_classic promo ps v ds)
    unfolding apply_classic
    apply_classic-IsGood promo [] ds n g = apply_combo-IsGood v N promo ds n g
    apply_classic-IsGood promo (p ∷ []) ds n g = apply_single-IsGood v N promo p ds n g
    apply_classic-IsGood promo (_ ∷ _ ∷ _) ds n g = apply_combo-IsGood v N promo ds n g

    apply_promo-IsGood :
        (promo : Promocion W) (ds : Discounts W)
        → (promo.activa ≡ true → N promo.nombre)
        → IsGood v N ds
        → IsGood v N (apply_promo v promo ds)
    unfolding apply_promo
    apply_promo-IsGood promo ds n g = unless_off v N promo.activa g λ active.
        either v N (is_grouped promo.modo && not (is_nil promo.grupos))
          (apply_groups-IsGood promo ds (n active) g)
          (apply_classic-IsGood promo promo.productos ds (n active) g)

    apply_promos-IsGood :
        (ps : List (Promocion W)) (ds : Discounts W)
        → All (λ p. p.activa ≡ true → N p.nombre) ps
        → IsGood v N ds
        → IsGood v N (apply_promos v ps ds)
    unfolding apply_promos
    apply_promos-IsGood [] ds n g = g
    apply_promos-IsGood (p ∷ ps) ds (n, ns) g =
        apply_promos-IsGood ps _ ns (apply_promo-IsGood p ds n g)

  active_names :
      (ps : List (Promocion W)) → All (λ p. p.activa ≡ true → IsActiveName ps p.nombre) ps
  active_names [] = tt
  active_names (p ∷ ps) = (
    λ active. inl (active, refl),
    All-weaker _ _ ps (λ q h active. inr (h active)) (active_names ps),
  )

  -- Whatever the promotions and the cart, every percentage that `computePromoDescuentos` returns is
  -- above 0 and at most 100, belongs to a product of the cart, and comes with the name of an active
  -- promotion of the list. The hypotheses on the number type are those of `IsClamped`.
  pub compute_promo_descuentos-IsGood :
      ⦃c : IsClamped W⦄ (promos : List (Promocion W))
      → IsGood v (IsActiveName promos) (compute_promo_descuentos promos v)
  unfolding compute_promo_descuentos
  compute_promo_descuentos-IsGood promos =
      apply_promos-IsGood (IsActiveName promos) promos no_discounts (active_names promos) (record {
        bounded = λ k x e. ground arith;
        in_cart = λ k x e. ground arith;
        named = λ k. inl refl;
      })
