-- ===== src/Terminal/Promos.antt =====
-- The effect of frontend/src/pages/PosTerminal.tsx that brings the discounts of the promotions into the
-- cart, after a change of its products or quantities.
pub mod Settled
use Prim.Native.String.{String}
use text.Mathlib.Text.{◌==◌ as str_eq}
use blend_pos.Prelude.{
  ℕ, ◌≡◌, refl, ap, ◌∙◌, Option, none, some, List, [], ◌∷◌, map, Bool, true, false, not, ◌&&◌, ◌||◌,
  if◌then◌else◌, any, get_or, Bool-cases, inl, inr, arith, pos_part,
}
use blend_pos.Number.{Number, num}
use blend_pos.Cart.{CartItem, CartState, Record, same_name, with_cart}
use blend_pos.Cart.Edits.{same_pct, same_promo, promo_line, promo_changes, set_promo_discounts}
use blend_pos.Promotions.{Promocion, CartView, Discounts, assign}
use blend_pos.Promotions.Compute.{compute_promo_descuentos}

module _ {W : Type 0} where
  -- `priceMap` and `quantityMap`
  unfoldable pub price_map : Record W → List (CartItem W) → Record W
  price_map r [] = r
  price_map r (c ∷ cs) = price_map (assign c.id c.precio r) cs

  unfoldable pub quantity_map : Record ℕ → List (CartItem W) → Record ℕ
  quantity_map r [] = r
  quantity_map r (c ∷ cs) = quantity_map (assign c.id (pos_part c.cantidad) r) cs

  unfoldable pub cart_view : List (CartItem W) → CartView W
  unfolding price_map quantity_map
  cart_view cart = record {
    ids = map (λ c. c.id) cart;
    prices = price_map (λ _. none) cart;
    quantities = quantity_map (λ _. none) cart;
  }

module _ {W : Type 0} ⦃d : Number W⦄ where
  unfoldable pub refresh_promos : List (Promocion W) → CartState W → CartState W
  unfolding cart_view
  refresh_promos promociones s =
      let ds = compute_promo_descuentos promociones (cart_view s.cart) in
      set_promo_discounts ds.pcts ds.names s
