-- ===== src/Promotions/Groups.antt =====
-- Promotions by groups of products (frontend/src/store/usePromocionesStore.ts).
use Prim.Native.Nat.{min}
use blend_pos.Prelude.{
  ℕ, ◌+◌, ◌-◌, ◌*◌, ◌/◌, Option, none, some, List, [], ◌∷◌, ◌++◌, foldl, Bool, not, ◌&&◌, ◌==◌, ltb,
  if◌then◌else◌, get_or, any, find,
}
use blend_pos.Number.{Number, num}
use blend_pos.Promotions.{
  Promocion, PromocionProducto, Grupo, CartView, Discounts, TipoPromocion, porcentaje, monto_fijo,
  precio_fijo_combo, at_least_one, apply_discount, quantity, nat, combo_share,
}

pub record Match (W : Type 0) : Type 0 where
  pub id : ℕ
  pub qty : ℕ
  pub price : W

pub record GroupMatch (W : Type 0) : Type 0 where
  pub grupo_req : ℕ
  pub matched : List (Match W)
  pub total_qty : ℕ

-- a product with the units of it that take part in the combos
pub record Share (W : Type 0) : Type 0 where
  pub id : ℕ
  pub discounted_qty : ℕ
  pub total_qty : ℕ
  pub price : W

module _ {W : Type 0} ⦃d : Number W⦄ where
  -- `priceMap[pid] ?? (grupo.productos.find(…)?.precio_venta ?? 0)`
  unfoldable pub price_in : CartView W → Grupo W → ℕ → W
  price_in v g id =
      get_or (v.prices id) (elim (find (λ (p : PromocionProducto W). p.id == id) g.productos) [
        | none ↦ num 0
        | some p ↦ p.precio_venta
      ])

  abbrev pub in_group : Grupo W → ℕ → Bool
  in_group g id = any (λ p. p.id == id) g.productos

  abbrev pub is_matched : ℕ → List (Match W) → Bool
  is_matched id ms = any (λ m. m.id == id) ms

  -- the loop over the products of the cart: the matched ones so far, in order, and their units
  unfoldable pub match_group :
      CartView W → Grupo W → List ℕ → List (Match W) → ℕ → List (Match W) × ℕ
  match_group v g [] ms total = (ms, total)
  match_group v g (id ∷ ids) ms total =
      let qty = quantity v id in
      let taken =
        match_group v g ids (ms ++ (record { id = id; qty = qty; price = price_in v g id } ∷ []))
          (total + qty) in
      let skipped = match_group v g ids ms total in
      if in_group g id && not (qty == 0) && not (is_matched id ms) then taken else skipped

  -- the loop over the groups; `none` if one is not satisfied
  unfoldable pub match_groups : CartView W → List (Grupo W) → Option (List (GroupMatch W))
  match_groups v [] = some []
  match_groups v (g ∷ gs) =
      let (ms, total) = match_group v g v.ids [] 0 in
      let req = at_least_one g.cantidad_requerida in
      if ltb total req then none else elim (match_groups v gs) [
        | none ↦ none
        | some rest ↦ some (record { grupo_req = req; matched = ms; total_qty = total } ∷ rest)
      ]

  unfoldable pub group_sets : List (GroupMatch W) → Option ℕ
  group_sets [] = none
  group_sets (m ∷ ms) = elim (group_sets ms) [
    | none ↦ some (m.total_qty / m.grupo_req)
    | some k ↦ some (min (m.total_qty / m.grupo_req) k)
  ]

  -- `existing.discountedQty += take`, or a new entry at the end
  unfoldable pub add_share : Match W → ℕ → List (Share W) → List (Share W)
  add_share m take [] =
      record { id = m.id; discounted_qty = take; total_qty = m.qty; price = m.price } ∷ []
  add_share m take (x ∷ xs) =
      if x.id == m.id
      then record x { discounted_qty = x.discounted_qty + take } ∷ xs
      else x ∷ add_share m take xs

  -- the greedy distribution of one group's units
  unfoldable pub distribute : ℕ → List (Match W) → List (Share W) → List (Share W)
  distribute remaining [] shares = shares
  distribute remaining (m ∷ ms) shares =
      let take = min remaining m.qty in
      distribute (remaining - take) ms (if ltb 0 take then add_share m take shares else shares)

  unfoldable pub distribute_all : ℕ → List (GroupMatch W) → List (Share W) → List (Share W)
  distribute_all sets [] shares = shares
  distribute_all sets (g ∷ gs) shares =
      distribute_all sets gs (distribute (sets * g.grupo_req) g.matched shares)

  unfoldable pub shares_value : List (Share W) → W
  shares_value = foldl (λ sum x. d.add sum (d.mul x.price (nat x.discounted_qty))) (num 0)

  unfoldable pub group_pct : TipoPromocion → W → W → ℕ → Share W → W
  group_pct porcentaje valor value sets x =
      d.mul valor (d.div (nat x.discounted_qty) (nat x.total_qty))
  group_pct precio_fijo_combo valor value sets x =
      combo_share (d.mul (d.max (num 0) (d.sub value valor)) (nat sets)) value x.price
        x.discounted_qty x.total_qty
  group_pct monto_fijo valor value sets x =
      combo_share (d.mul (nat sets) valor) value x.price x.discounted_qty x.total_qty

  unfoldable pub apply_shares : Promocion W → W → ℕ → List (Share W) → Discounts W → Discounts W
  apply_shares promo value sets [] ds = ds
  apply_shares promo value sets (x ∷ xs) ds =
      apply_shares promo value sets xs
        (apply_discount x.id (group_pct promo.tipo promo.valor value sets x) promo.nombre ds)

  unfoldable pub apply_groups : Promocion W → CartView W → Discounts W → Discounts W
  apply_groups promo v ds = elim (match_groups v promo.grupos) [
    | none ↦ ds
    | some ms ↦ elim (group_sets ms) [
      | none ↦ ds
      | some sets ↦
          if sets == 0
          then ds
          else let shares = distribute_all sets ms [] in
            apply_shares promo (shares_value shares) sets shares ds
    ]
  ]
