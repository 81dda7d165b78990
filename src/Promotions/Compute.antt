-- ===== src/Promotions/Compute.antt =====
-- `computePromoDescuentos` of frontend/src/store/usePromocionesStore.ts.
use blend_pos.Prelude.{List, [], ◌∷◌, Bool, true, false, not, ◌&&◌, if◌then◌else◌}
use blend_pos.Number.{Number}
use blend_pos.Promotions.{
  Promocion, ModoPromocion, clasico, grupos, CartView, Discounts, PromocionProducto, no_discounts,
  apply_single, apply_combo, is_nil,
}
use blend_pos.Promotions.Groups.{apply_groups}

abbrev pub is_grouped : ModoPromocion → Bool
is_grouped grupos = true
is_grouped clasico = false

module _ {W : Type 0} ⦃d : Number W⦄ where
  unfoldable pub apply_classic :
      Promocion W → List (PromocionProducto W) → CartView W → Discounts W → Discounts W
  apply_classic promo (p ∷ []) v ds = apply_single promo p v ds
  apply_classic promo _ v ds = apply_combo promo v ds

  -- one round of the loop over the promotions
  unfoldable pub apply_promo : CartView W → Promocion W → Discounts W → Discounts W
  apply_promo v promo ds =
      if not promo.activa
      then ds
      else if is_grouped promo.modo && not (is_nil promo.grupos)
      then apply_groups promo v ds
      else apply_classic promo promo.productos v ds

  unfoldable pub apply_promos : CartView W → List (Promocion W) → Discounts W → Discounts W
  apply_promos v [] ds = ds
  apply_promos v (p ∷ ps) ds = apply_promos v ps (apply_promo v p ds)

  unfoldable pub compute_promo_descuentos : List (Promocion W) → CartView W → Discounts W
  compute_promo_descuentos promos v = apply_promos v promos no_discounts
