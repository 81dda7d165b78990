-- ===== src/Cart/Lines.antt =====
-- The lines of a cart: each carries the price that its quantity and discounts give, has a
-- quantity above 0, and no product stands on two lines.
use Prim.Native.String.{String}
use mathlib.Core.Bool.{false}
use blend_pos.Prelude.{
  ℕ, zero, suc, ◌≡◌, refl, Bool, none, List, [], ◌∷◌, ◌++◌, map, arith, filter, find_index, All,
  All-append, All-filter, All-map, ℤ, pos, ◌≤ℤ◌, ◌<ℤ◌, int_laws, Option-cases, inl, inr,
}
use blend_pos.Number.{Number, HasUnits, num}
use blend_pos.Cart.{
  CartItem, RawItem, Record, has_id, map_at, effective_pct, line_price, bump, new_item,
  fill_barcode, add_line, price_of,
}
use blend_pos.Cart.Edits.{set_quantity, discount_line, promo_line}

module _ {W : Type 0} ⦃d : Number W⦄ where
  abbrev pub IsLine : CartItem W → Type 0
  IsLine c = (c.subtotal ≡ line_price c.cantidad c.precio (effective_pct c)) × (pos 0 <ℤ c.cantidad)

  abbrev pub Absent : ℕ → List (CartItem W) → Type 0
  Absent k = All λ c. has_id k c ≡ false

  abbrev pub Unique : List (CartItem W) → Type 0
  Unique [] = Unit
  Unique (c ∷ cs) = Absent c.id cs × Unique cs

  abbrev pub IsCart : List (CartItem W) → Type 0
  IsCart cart = All IsLine cart × Unique cart

  Unique-map :
      (f : CartItem W → CartItem W) (cart : List (CartItem W))
      → ((c : CartItem W) → (f c).id ≡ c.id)
      → Unique cart
      → Unique (map f cart)
  Unique-map f [] same u = tt
  Unique-map f (c ∷ cs) same (a, u) = (
    All-map (λ x. has_id (f c).id x ≡ false) f cs (λ x h. rw (same x) h) (rw (same c) a),
    Unique-map f cs same u,
  )

  pub IsCart-map :
      (f : CartItem W → CartItem W) (cart : List (CartItem W))
      → ((c : CartItem W) → (f c).id ≡ c.id)
      → ((c : CartItem W) → IsLine c → IsLine (f c))
      → IsCart cart
      → IsCart (map f cart)
  IsCart-map f cart same step (h, u) = (All-map IsLine f cart step h, Unique-map f cart same u)

  Unique-filter :
      (p : CartItem W → Bool) (cart : List (CartItem W)) → Unique cart → Unique (filter p cart)
  Unique-filter p [] u = tt
  Unique-filter p (c ∷ cs) (a, u) =
      let rest = Unique-filter p cs u in
      let away = All-filter (λ x. has_id c.id x ≡ false) p cs a in ground arith

  pub IsCart-filter :
      (p : CartItem W → Bool) (cart : List (CartItem W)) → IsCart cart → IsCart (filter p cart)
  IsCart-filter p cart (h, u) = (All-filter IsLine p cart h, Unique-filter p cart u)

  module _ (P : CartItem W → Type 0) (f : CartItem W → CartItem W) where
    All-map_at :
        (n : ℕ) (cart : List (CartItem W))
        → ((c : CartItem W) → P c → P (f c))
        → All P cart
        → All P (map_at f n cart)
    unfolding map_at
    All-map_at n [] step h = tt
    All-map_at zero (c ∷ cs) step (h, hs) = (step c h, hs)
    All-map_at (suc n) (c ∷ cs) step (h, hs) = (h, All-map_at n cs step hs)

  Unique-map_at :
      (f : CartItem W → CartItem W) (n : ℕ) (cart : List (CartItem W))
      → ((c : CartItem W) → (f c).id ≡ c.id)
      → Unique cart
      → Unique (map_at f n cart)
  unfolding map_at
  Unique-map_at f n [] same u = tt
  Unique-map_at f zero (c ∷ cs) same (a, u) = (rw (same c) a, u)
  Unique-map_at f (suc n) (c ∷ cs) same (a, u) = (
    All-map_at (λ x. has_id c.id x ≡ false) f n cs (λ x h. rw (same x) h) a,
    Unique-map_at f n cs same u,
  )

  Unique-concat :
      (cart : List (CartItem W)) (c : CartItem W)
      → Absent c.id cart
      → Unique cart
      → Unique (cart ++ (c ∷ []))
  Unique-concat [] c a u = (tt, tt)
  Unique-concat (x ∷ xs) c (e, a) (b, u) = (
    All-append (λ y. has_id x.id y ≡ false) xs (c ∷ []) b (ground arith, tt),
    Unique-concat xs c a u,
  )

  -- `findIndex` answers -1 only if the product is on no line.
  pub Absent-of_find_index :
      (k : ℕ) (cart : List (CartItem W)) → find_index (has_id k) cart ≡ none → Absent k cart
  Absent-of_find_index k [] h = tt
  Absent-of_find_index k (c ∷ cs) h = ground (arith, Absent-of_find_index k cs)

  line_price_unit : ⦃u : HasUnits W⦄ → (p : W) → p ≡ line_price (pos 1) p (d.max (num 0) (num 0))
  unfolding line_price
  line_price_unit ⦃u⦄ p = rw (u.max-self, line_price, u.zero-div, u.sub-zero, u.mul-one, u.one-mul)

  bump-IsLine : (c : CartItem W) → IsLine c → IsLine (bump c)
  unfolding bump effective_pct
  bump-IsLine c (h, p) = (refl, omega int_laws)

  new_item-IsLine : ⦃u : HasUnits W⦄ → (raw : RawItem W) → IsLine (new_item raw)
  unfolding new_item effective_pct
  new_item-IsLine raw = (line_price_unit (price_of raw.precio), omega arith)

  fill_barcode-id : (k : ℕ) (code : String) (c : CartItem W) → (fill_barcode k code c).id ≡ c.id
  unfolding fill_barcode
  fill_barcode-id k code c = ground arith

  fill_barcode-IsLine :
      (k : ℕ) (code : String) (c : CartItem W) → IsLine c → IsLine (fill_barcode k code c)
  unfolding fill_barcode effective_pct
  fill_barcode-IsLine k code c h = ground arith

  append_new-IsCart :
      ⦃u : HasUnits W⦄
      → (raw : RawItem W) (cart : List (CartItem W)) → find_index (has_id raw.id) cart ≡ none
      → IsCart cart
      → IsCart (cart ++ (new_item raw ∷ []))
  append_new-IsCart raw cart missing (h, u) = (
    All-append IsLine cart (new_item raw ∷ []) h (new_item-IsLine raw, tt),
    Unique-concat cart (new_item raw) (unfold new_item in Absent-of_find_index raw.id cart missing)
        u,
  )

  bump_at-IsCart : (i : ℕ) (cart : List (CartItem W)) → IsCart cart → IsCart (map_at bump i cart)
  bump_at-IsCart i cart (h, u) = (
    All-map_at IsLine bump i cart bump-IsLine h,
    Unique-map_at bump i cart (λ c. unfold bump in refl) u,
  )

  pub add_line-IsCart :
      ⦃u : HasUnits W⦄
      → (raw : RawItem W) (cart : List (CartItem W)) → IsCart cart
      → IsCart (add_line raw cart)
  unfolding add_line
  add_line-IsCart raw cart (h, u) = elim (Option-cases (find_index (has_id raw.id) cart)) [
    | inl missing ↦ rw missing (
        IsCart-map _ _ (fill_barcode-id _ _) (fill_barcode-IsLine _ _)
          (append_new-IsCart raw cart missing (h, u)))
    | inr (i, found) ↦ rw found (
        IsCart-map _ _ (fill_barcode-id _ _) (fill_barcode-IsLine _ _)
          (bump_at-IsCart i cart (h, u)))
  ]

  set_quantity-IsLine :
      (k : ℕ) (n : ℤ) (c : CartItem W) → pos 1 ≤ℤ n → IsLine c → IsLine (set_quantity k n c)
  unfolding set_quantity effective_pct
  set_quantity-IsLine k n c p h = ground arith

  pub set_quantity-IsCart :
      (k : ℕ) (n : ℤ) (cart : List (CartItem W))
      → pos 1 ≤ℤ n
      → IsCart cart
      → IsCart (map (set_quantity k n) cart)
  unfolding set_quantity
  set_quantity-IsCart k n cart p =
      IsCart-map (set_quantity k n) cart (λ c. ground arith) (λ c. set_quantity-IsLine k n c p)

  discount_line-IsLine :
      (k : ℕ) (pct : W) (c : CartItem W) → IsLine c → IsLine (discount_line k pct c)
  unfolding discount_line effective_pct
  discount_line-IsLine k pct c h = ground arith

  pub discount_line-IsCart :
      (k : ℕ) (pct : W) (cart : List (CartItem W))
      → IsCart cart
      → IsCart (map (discount_line k pct) cart)
  unfolding discount_line
  discount_line-IsCart k pct cart =
      IsCart-map (discount_line k pct) cart (λ c. ground arith) (discount_line-IsLine k pct)

  promo_line-IsLine :
      (pcts : Record W) (names : Record String) (c : CartItem W)
      → IsLine c
      → IsLine (promo_line pcts names c)
  unfolding promo_line effective_pct
  promo_line-IsLine pcts names c h = ground arith

  pub promo_line-IsCart :
      (pcts : Record W) (names : Record String) (cart : List (CartItem W))
      → IsCart cart
      → IsCart (map (promo_line pcts names) cart)
  unfolding promo_line
  promo_line-IsCart pcts names cart =
      IsCart-map (promo_line pcts names) cart (λ c. ground arith) (promo_line-IsLine pcts names)
