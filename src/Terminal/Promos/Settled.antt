-- ===== src/Terminal/Promos/Settled.antt =====
-- The effect that brings the discounts of the promotions into the cart settles after one run
-- (frontend/src/pages/PosTerminal.tsx, frontend/src/store/useCartStore.ts).
use Prim.Native.String.{String}
use text.Mathlib.TextPositions.{eq_refl}
use blend_pos.Prelude.{
  ℕ, ◌≡◌, refl, ap, ◌∙◌, Option, none, some, List, [], ◌∷◌, map, true, false, get_or, Bool-cases,
  inl, inr, pos_part,
}
use blend_pos.Number.{Number, num}
use blend_pos.Cart.{CartItem, CartState, Record, same_name, with_cart, line_price}
use blend_pos.Cart.Edits.{same_promo, promo_line, promo_changes, set_promo_discounts}
use blend_pos.Promotions.{Promocion, CartView, assign}
use blend_pos.Promotions.Compute.{compute_promo_descuentos}
use blend_pos.Terminal.Promos.{price_map, quantity_map, cart_view, refresh_promos}

same_name_refl : (o : Option String) → same_name o o ≡ true
same_name_refl none = refl
same_name_refl (some t) = eq_refl t

module _ {W : Type 0} ⦃d : Number W⦄ where
  promo_line_keeps :
      (pcts : Record W) (names : Record String) (c : CartItem W)
      → let x = promo_line pcts names c in
        (x.id ≡ c.id) × (x.precio ≡ c.precio) × (x.cantidad ≡ c.cantidad)
  unfolding promo_line
  promo_line_keeps pcts names c =
      elim (Bool-cases (same_promo (get_or (pcts c.id) (num 0)) (names c.id) c)) [
        | inl same ↦ rw same (refl, refl, refl)
        | inr other ↦ rw other (refl, refl, refl)
      ]

  module _ (f : CartItem W → CartItem W)
      (keeps : (c : CartItem W)
        → ((f c).id ≡ c.id) × ((f c).precio ≡ c.precio) × ((f c).cantidad ≡ c.cantidad)) where
    price_map-map :
        (r : Record W) (cart : List (CartItem W)) → price_map r (map f cart) ≡ price_map r cart
    unfolding price_map
    price_map-map r [] = refl
    price_map-map r (c ∷ cs) =
        let (id, precio, cantidad) = keeps c in
        rw (id, precio) (price_map-map (assign c.id c.precio r) cs)

    quantity_map-map :
        (r : Record ℕ) (cart : List (CartItem W))
        → quantity_map r (map f cart) ≡ quantity_map r cart
    unfolding quantity_map
    quantity_map-map r [] = refl
    quantity_map-map r (c ∷ cs) =
        let (id, precio, cantidad) = keeps c in
        rw (id, cantidad) (quantity_map-map (assign c.id (pos_part c.cantidad) r) cs)

    ids-map : (cart : List (CartItem W)) → map (λ c. c.id) (map f cart) ≡ map (λ c. c.id) cart
    ids-map [] = refl
    ids-map (c ∷ cs) = let (id, precio, cantidad) = keeps c in rw (id, ids-map cs) refl

    cart_view-map : (cart : List (CartItem W)) → cart_view (map f cart) ≡ cart_view cart
    unfolding cart_view
    cart_view-map cart =
        rw (ids-map cart, price_map-map (λ _. none) cart, quantity_map-map (λ _. none) cart) refl

  -- a number that equals itself: all but NaN
  module _ (same : (x : W) → d.eq x x ≡ true) (pcts : Record W) (names : Record String) where
    settled :
        (pct : W) (name : Option String) (x : CartItem W)
        → same_promo pct name (record x { promo_descuento = some pct; promo_nombre = name }) ≡ true
    unfolding same_promo
    settled pct name x = rw (same pct, same_name_refl name) refl

    same_promo-promo_line :
        (c : CartItem W)
        → let x = promo_line pcts names c in
          same_promo (get_or (pcts x.id) (num 0)) (names x.id) x ≡ true
    unfolding promo_line
    same_promo-promo_line c =
        let pct = get_or (pcts c.id) (num 0) in
        let new = line_price c.cantidad c.precio (d.max c.descuento pct) in
        elim (Bool-cases (same_promo (get_or (pcts c.id) (num 0)) (names c.id) c)) [
          | inl before ↦ rw before before
          | inr other ↦ rw other (settled pct (names c.id) (record c { subtotal = new }))
        ]

    promo_changes-promo_line :
        (cart : List (CartItem W))
        → promo_changes pcts names (map (promo_line pcts names) cart) ≡ false
    unfolding promo_changes
    promo_changes-promo_line [] = refl
    promo_changes-promo_line (c ∷ cs) =
        rw (same_promo-promo_line c, promo_changes-promo_line cs) refl

    set_promo_discounts_twice :
        (s : CartState W)
        → set_promo_discounts pcts names (set_promo_discounts pcts names s)
          ≡ set_promo_discounts pcts names s
    unfolding set_promo_discounts with_cart
    set_promo_discounts_twice s = elim (Bool-cases (promo_changes pcts names s.cart)) [
      | inl changed ↦ rw (changed, promo_changes-promo_line s.cart) refl
      | inr kept ↦ rw (kept, kept) refl
    ]

  set_promo_discounts-cart_view :
      (pcts : Record W) (names : Record String) (s : CartState W)
      → cart_view (set_promo_discounts pcts names s).cart ≡ cart_view s.cart
  unfolding set_promo_discounts with_cart
  set_promo_discounts-cart_view pcts names s = elim (Bool-cases (promo_changes pcts names s.cart)) [
    | inl changed ↦
        rw changed (cart_view-map (promo_line pcts names) (promo_line_keeps pcts names) s.cart)
    | inr kept ↦ rw kept refl
  ]

  -- The effect settles: run again on the cart that it leaves, it changes nothing, if every number
  -- equals itself.
  pub refresh_promos_settles :
      (same : (x : W) → d.eq x x ≡ true) (promociones : List (Promocion W)) (s : CartState W)
      → refresh_promos promociones (refresh_promos promociones s) ≡ refresh_promos promociones s
  unfolding refresh_promos
  refresh_promos_settles same promociones s =
      let ds = compute_promo_descuentos promociones (cart_view s.cart) in
      let view = set_promo_discounts-cart_view ds.pcts ds.names s in
      ap
        (λ (v : CartView W).
          let es = compute_promo_descuentos promociones v in
          set_promo_discounts es.pcts es.names (set_promo_discounts ds.pcts ds.names s))
        view
      ∙ set_promo_discounts_twice same ds.pcts ds.names s
