-- ===== src/Promotions/Shares.antt =====
-- How many units the group promotions of frontend/src/store/usePromocionesStore.ts discount.
use Prim.Native.Nat.{min}
use native.Mathlib.Nat.{le-div_iff_mul-le}
use mathlib.Core.Option.{some-injective}
use blend_pos.Prelude.{
  ℕ, ◌+◌, ◌-◌, ◌*◌, ◌/◌, ◌≤◌, ◌≡◌, refl, none, some, List, [], ◌∷◌, ◌++◌, not, ◌&&◌, ◌==◌, ltb,
  arith, Bool-cases, Option-cases, inl, inr, ℤ,
}
use blend_pos.Number.{Number}
use blend_pos.Promotions.{CartView, Grupo, at_least_one, quantity}
use blend_pos.Promotions.Groups.{
  Match, GroupMatch, Share, match_group, match_groups, group_sets, add_share, distribute,
  distribute_all, in_group, is_matched, price_in,
}

module _ {W : Type 0} where
  -- the units of the products of a group
  unfoldable pub available : List (Match W) → ℕ
  available [] = 0
  available (m ∷ ms) = m.qty + available ms

  -- the units discounted, over all products
  unfoldable pub given : List (Share W) → ℕ
  given [] = 0
  given (x ∷ xs) = x.discounted_qty + given xs

  -- the units one set takes, over all groups
  unfoldable pub set_size : List (GroupMatch W) → ℕ
  set_size [] = 0
  set_size (g ∷ gs) = g.grupo_req + set_size gs

  -- A group of the list has `sets` times its required units.
  unfoldable pub Covers : ℕ → List (GroupMatch W) → Type 0
  Covers sets [] = Unit
  Covers sets (g ∷ gs) = (sets * g.grupo_req ≤ available g.matched) × Covers sets gs

at_least_one_pos : (n : ℤ) → 1 ≤ at_least_one n
at_least_one_pos n = ground arith

module _ {W : Type 0} ⦃d : Number W⦄ where
  given-add_share :
      (m : Match W) (n : ℕ) (xs : List (Share W)) → given (add_share m n xs) ≡ n + given xs
  unfolding given add_share
  given-add_share m n [] = omega arith
  given-add_share m n (x ∷ xs) = let rest = given-add_share m n xs in ground arith

  given-distribute :
      (r : ℕ) (ms : List (Match W)) (xs : List (Share W))
      → given (distribute r ms xs) ≡ min r (available ms) + given xs
  unfolding distribute available
  given-distribute r [] xs = omega arith
  given-distribute r (m ∷ ms) xs = elim (Bool-cases (ltb 0 (min r m.qty))) [
    | inl some_units ↦
        let rest = given-distribute (r - min r m.qty) ms (add_share m (min r m.qty) xs) in
        let added = given-add_share m (min r m.qty) xs in rw some_units (omega (arith, rest, added))
    | inr no_units ↦
        let rest = given-distribute (r - min r m.qty) ms xs in
        let zero_units : min r m.qty ≡ 0 = ground arith in
        rw no_units (omega (arith, rest, zero_units))
  ]

  given-distribute_all :
      (sets : ℕ) (gs : List (GroupMatch W)) (xs : List (Share W))
      → Covers sets gs
      → given (distribute_all sets gs xs) ≡ sets * set_size gs + given xs
  unfolding distribute_all set_size Covers
  given-distribute_all sets [] xs h = omega arith
  given-distribute_all sets (g ∷ gs) xs (enough, more) =
      let rest = given-distribute_all sets gs (distribute (sets * g.grupo_req) g.matched xs) more in
      let here = given-distribute (sets * g.grupo_req) g.matched xs in grind (arith, rest, here)

  available-append : (ms ns : List (Match W)) → available (ms ++ ns) ≡ available ms + available ns
  unfolding available
  available-append [] ns = omega arith
  available-append (m ∷ ms) ns = omega (arith, available-append ms ns)

  -- The total of a group is the sum of the quantities it matched.
  match_group_total :
      (v : CartView W) (g : Grupo W) (ids : List ℕ) (ms : List (Match W)) (total : ℕ)
      → available ms ≡ total
      → available (match_group v g ids ms total).0 ≡ (match_group v g ids ms total).1
  unfolding match_group available
  match_group_total v g [] ms total h = h
  match_group_total v g (id ∷ ids) ms total h =
      let m : Match W = record { id = id; qty = quantity v id; price = price_in v g id } in
      let grown : available (ms ++ (m ∷ [])) ≡ total + quantity v id =
        omega (arith, available-append ms (m ∷ []), h) in
      elim (Bool-cases (in_group g id && not (quantity v id == 0) && not (is_matched id ms))) [
        | inl taken ↦ rw taken (match_group_total v g ids _ _ grown)
        | inr skipped ↦ rw skipped (match_group_total v g ids ms total h)
      ]

  -- what the loop over the groups says of each of them
  unfoldable pub Totalled : List (GroupMatch W) → Type 0
  Totalled [] = Unit
  Totalled (g ∷ gs) = (available g.matched ≡ g.total_qty) × (1 ≤ g.grupo_req) × Totalled gs

  match_groups-Totalled :
      (v : CartView W) (gs : List (Grupo W)) (ms : List (GroupMatch W))
      → match_groups v gs ≡ some ms
      → Totalled ms
  unfolding match_groups Totalled available
  match_groups-Totalled v [] ms e = rw (← some-injective _ _ e) tt
  match_groups-Totalled v (g ∷ gs) ms e =
      elim (Bool-cases (ltb (match_group v g v.ids [] 0).1 (at_least_one g.cantidad_requerida))) [
        | inl short ↦ let e : none ≡ some ms = rw short at e in ground arith
        | inr enough ↦ elim (Option-cases (match_groups v gs)) [
          | inl fails ↦ let e : none ≡ some ms = rw (enough, fails) at e in ground arith
          | inr (rest, found) ↦
              let e = rw (enough, found) at e in
              rw (← some-injective _ _ e) (
                match_group_total v g v.ids [] 0 refl,
                at_least_one_pos g.cantidad_requerida,
                match_groups-Totalled v gs rest found,
              )
        ]
      ]

  none-Covers : (ms : List (GroupMatch W)) (n : ℕ) → group_sets ms ≡ none → Covers n ms
  unfolding group_sets Covers
  none-Covers [] n e = tt
  none-Covers (g ∷ gs) n e = elim (Option-cases (group_sets gs)) [
    | inl none_left ↦ let e = rw none_left at e in ground arith
    | inr (k, found) ↦ let e = rw found at e in ground arith
  ]

  fits :
      (n : ℕ) (g : GroupMatch W)
      → n ≤ g.total_qty / g.grupo_req
      → 1 ≤ g.grupo_req
      → n * g.grupo_req ≤ g.total_qty
  fits n g le req = (le-div_iff_mul-le req).0 le

  group_sets-Covers :
      (ms : List (GroupMatch W)) (sets n : ℕ)
      → Totalled ms
      → group_sets ms ≡ some sets
      → n ≤ sets
      → Covers n ms
  unfolding group_sets Totalled Covers
  group_sets-Covers [] sets n t e le = tt
  group_sets-Covers (g ∷ gs) sets n (t, req, ts) e le = elim (Option-cases (group_sets gs)) [
    | inl none_left ↦
        let one : g.total_qty / g.grupo_req ≡ sets = some-injective _ _ (rw none_left at e) in
        (rw t (fits n g (rw one le) req), none-Covers gs n none_left)
    | inr (k, found) ↦
        let both : min (g.total_qty / g.grupo_req) k ≡ sets = some-injective _ _ (rw found at e) in
        (
          rw t (fits n g (omega (arith, both, le)) req),
          group_sets-Covers gs k n ts found (omega (arith, both, le)),
        )
  ]

  -- When every group of a promotion is satisfied, the units that the greedy distribution discounts
  -- are those of the complete sets: their number times the required units of all groups.
  pub groups_given :
      (v : CartView W) (gs : List (Grupo W)) (ms : List (GroupMatch W)) (sets : ℕ)
      → match_groups v gs ≡ some ms
      → group_sets ms ≡ some sets
      → given (distribute_all sets ms []) ≡ sets * set_size ms
  unfolding given
  groups_given v gs ms sets matched counted =
      let totals = match_groups-Totalled v gs ms matched in
      let covers = group_sets-Covers ms sets sets totals counted (omega arith) in
      omega (arith, given-distribute_all sets ms [] covers)
