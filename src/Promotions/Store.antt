-- ===== src/Promotions/Store.antt =====
-- The state of frontend/src/store/usePromocionesStore.ts: `fetchActivePromociones`, cut at its request,
-- so that fetches may overlap.
use blend_pos.Prelude.{
  ◌≡◌, refl, Option, none, some, List, [], ◌∷◌, Bool, true, false, foldl, if◌then◌else◌,
}
use blend_pos.Number.{Number}
use blend_pos.Promotions.{Promocion, CartView, Discounts}
use blend_pos.Promotions.Compute.{compute_promo_descuentos}

pub record PromocionesState (W : Type 0) : Type 0 where
  pub promociones : List (Promocion W)
  pub loading : Bool

pub data FetchEvent (W : Type 0) : Type 0 where
  -- a call, with or without a connection
  calls : Bool → FetchEvent W
  -- what a request answers; `none` when it is rejected
  answers : Option (List (Promocion W)) → FetchEvent W

module _ {W : Type 0} where
  unfoldable pub no_promociones : PromocionesState W
  no_promociones = record { promociones = []; loading = false }

  unfoldable pub fetch_start : Bool → PromocionesState W → PromocionesState W
  fetch_start online s = if online then record s { loading = true } else s

  unfoldable pub fetch_end : Option (List (Promocion W)) → PromocionesState W → PromocionesState W
  fetch_end none s = record s { loading = false }
  fetch_end (some ps) s = record { promociones = ps; loading = false }

  unfoldable pub fetch_step : PromocionesState W → FetchEvent W → PromocionesState W
  unfolding fetch_start fetch_end
  fetch_step s (calls online) = fetch_start online s
  fetch_step s (answers reply) = fetch_end reply s

  -- the last list that was answered, or what there was before
  abbrev pub last_answer : List (Promocion W) → List (FetchEvent W) → List (Promocion W)
  last_answer ps [] = ps
  last_answer ps (calls online ∷ es) = last_answer ps es
  last_answer ps (answers none ∷ es) = last_answer ps es
  last_answer ps (answers (some qs) ∷ es) = last_answer qs es

  -- However calls and answers interleave, the promotions are those of the last answer that came in: a
  -- rejected request and a call without a connection leave them as they are.
  pub fetch_step-last_answer :
      (s : PromocionesState W) (es : List (FetchEvent W))
      → (foldl fetch_step s es).promociones ≡ last_answer s.promociones es
  unfolding fetch_step fetch_start fetch_end
  fetch_step-last_answer s [] = refl
  fetch_step-last_answer s (calls true ∷ es) =
      fetch_step-last_answer (record s { loading = true }) es
  fetch_step-last_answer s (calls false ∷ es) = fetch_step-last_answer s es
  fetch_step-last_answer s (answers none ∷ es) =
      fetch_step-last_answer (record s { loading = false }) es
  fetch_step-last_answer s (answers (some ps) ∷ es) =
      fetch_step-last_answer (record { promociones = ps; loading = false }) es

module _ {W : Type 0} ⦃d : Number W⦄ where
  -- `computePromoDescuentos` reads the promotions of the store
  unfoldable pub store_descuentos : PromocionesState W → CartView W → Discounts W
  store_descuentos s v = compute_promo_descuentos s.promociones v
