-- ===== src/Cart.antt =====
-- frontend/src/store/useCartStore.ts: the cart store. Identifiers (UUIDs) are only compared, so
-- they are naturals; amounts and percentages are of an abstract number type; quantities, stock and
-- the selected row are integers.
pub mod Edits
pub mod Actions
pub mod Lines
pub mod Selection
pub mod Totals
pub mod Quantities
use Prim.Native.String.{String}
use text.Mathlib.Text.{◌==◌ as str_eq}
use blend_pos.Prelude.{
  ℕ, zero, suc, ◌≡◌, Bool, true, false, not, ◌&&◌, ◌||◌, Option, none, some, List, [], ◌∷◌, ◌++◌,
  map, foldl, ◌==◌, if◌then◌else◌, get_or, length, get_elem?, filter, any, find, find_index, ℤ, pos,
  negsuc, ◌+ℤ◌, ◌-ℤ◌, ltb_ℤ, leb_ℤ, min_ℤ, max_ℤ,
}
use blend_pos.Number.{Number, num, or_else}

-- `PagoDetalle['metodo']`
pub data MetodoSimple : Type 0 where
  efectivo debito credito qr transferencia : MetodoSimple

pub data MetodoPago : Type 0 where
  simple : MetodoSimple → MetodoPago
  mixto : MetodoPago

pub record PagoDetalle (W : Type 0) : Type 0 where
  pub metodo : MetodoSimple
  pub monto : W

pub record CartItem (W : Type 0) : Type 0 where
  pub id : ℕ
  pub nombre : String
  pub precio : W
  pub codigo_barras : String
  -- a whole number of units
  pub cantidad : ℤ
  pub subtotal : W
  -- percentages: by hand, and by a promotion
  pub descuento : W
  pub promo_descuento : Option W
  pub promo_nombre : Option String

pub record CartState (W : Type 0) : Type 0 where
  pub cart : List (CartItem W)
  pub total : W
  pub descuento_global : W
  pub total_con_descuento : W
  pub last_added : Option (CartItem W)
  pub selected_row_index : ℤ

-- The backend sends some decimals as strings.
pub data RawPrice (W : Type 0) : Type 0 where
  as_number : W → RawPrice W
  as_text : String → RawPrice W

pub record RawItem (W : Type 0) : Type 0 where
  pub id : ℕ
  pub nombre : String
  pub precio : RawPrice W
  pub codigo_barras : String

-- What `notifications.show` tells the cashier.
pub data Notice : Type 0 where
  sin_stock : String → Notice
  stock_insuficiente : Option String → ℤ → Notice

-- `c.id === id`
abbrev pub has_id : {W : Type 0} → ℕ → CartItem W → Bool
has_id k c = c.id == k

-- `cart.map((c, i) => i === n ? f(c) : c)`
unfoldable pub map_at {ℓ} : {A : Type ℓ} → (A → A) → ℕ → List A → List A
map_at f n [] = []
map_at f zero (x ∷ xs) = f x ∷ xs
map_at f (suc n) (x ∷ xs) = x ∷ map_at f n xs

-- A `Record<string, V>`: what each key holds.
abbrev pub Record {ℓ} : Type ℓ → Type ℓ
Record V = ℕ → Option V

-- `a === b` on texts that may be undefined
abbrev pub same_name : Option String → Option String → Bool
same_name none none = true
same_name (some a) (some b) = str_eq a b
same_name _ _ = false

-- `-1` when nothing is found
abbrev pub index_or : Option ℕ → ℤ
index_or none = negsuc 0
index_or (some i) = pos i

module _ {W : Type 0} ⦃d : Number W⦄ where
  unfoldable pub effective_pct : CartItem W → W
  effective_pct item = d.max item.descuento (get_or item.promo_descuento (num 0))

  -- `precio * cantidad` less a percentage, in the order of the source's operations
  unfoldable pub line_price : ℤ → W → W → W
  line_price cantidad precio pct =
      d.mul (d.mul (d.of_ℤ cantidad) precio) (d.sub (num 1) (d.div pct (num 100)))

  unfoldable pub compute_total : List (CartItem W) → W
  compute_total = foldl (λ sum item. d.add sum item.subtotal) (num 0)

  unfoldable pub compute_total_con_descuento : W → W → W
  compute_total_con_descuento total descuento_global =
      d.mul total (d.sub (num 1) (d.div descuento_global (num 100)))

  unfoldable pub initial : CartState W
  initial = record {
    cart = [];
    total = num 0;
    descuento_global = num 0;
    total_con_descuento = num 0;
    last_added = none;
    selected_row_index = negsuc 0;
  }

  -- the part of `set` that the changes of the lines share
  unfoldable pub with_cart : List (CartItem W) → CartState W → CartState W
  with_cart cart s = record s {
    cart = cart;
    total = compute_total cart;
    total_con_descuento = compute_total_con_descuento (compute_total cart) s.descuento_global;
  }

  unfoldable pub price_of : RawPrice W → W
  price_of (as_number p) = p
  price_of (as_text t) = or_else (d.parse_float t) (num 0)

  unfoldable pub bump : CartItem W → CartItem W
  bump c = record c {
    cantidad = c.cantidad +ℤ pos 1;
    subtotal = line_price (c.cantidad +ℤ pos 1) c.precio (effective_pct c);
  }

  unfoldable pub new_item : RawItem W → CartItem W
  new_item raw = record {
    id = raw.id;
    nombre = raw.nombre;
    precio = price_of raw.precio;
    codigo_barras = raw.codigo_barras;
    cantidad = pos 1;
    subtotal = price_of raw.precio;
    descuento = num 0;
    promo_descuento = some (num 0);
    promo_nombre = none;
  }

  unfoldable pub fill_barcode : ℕ → String → CartItem W → CartItem W
  fill_barcode id code c =
      if c.id == id && str_eq c.codigo_barras "" then record c { codigo_barras = code } else c

  -- the lines after `addItem` has passed the stock check
  unfoldable pub add_line : RawItem W → List (CartItem W) → List (CartItem W)
  add_line raw cart =
      map (fill_barcode raw.id raw.codigo_barras) (elim (find_index (has_id raw.id) cart) [
        | some i ↦ map_at bump i cart
        | none ↦ cart ++ (new_item raw ∷ [])
      ])

  unfoldable pub quantity_in : ℕ → List (CartItem W) → ℤ
  quantity_in id cart = elim (find (has_id id) cart) [ none ↦ pos 0 | some c ↦ c.cantidad ]

  unfoldable pub put_line : RawItem W → CartState W → CartState W
  put_line raw s =
      let cart = add_line raw s.cart in
      record (with_cart cart s) {
        last_added = find (has_id raw.id) cart;
        selected_row_index = index_or (find_index (has_id raw.id) cart);
      }

  -- `addItem`, resumed with what `getLocalStock` answered; `none` is its rejection.
  unfoldable pub add_item : RawItem W → Option ℤ → CartState W → CartState W × Option Notice
  add_item raw none s = (put_line raw s, none)
  add_item raw (some stock) s =
      if leb_ℤ stock (pos 0)
      then (s, some (sin_stock raw.nombre))
      else if ltb_ℤ stock (quantity_in raw.id s.cart +ℤ pos 1)
      then (s, some (stock_insuficiente (some raw.nombre) stock))
      else (put_line raw s, none)
