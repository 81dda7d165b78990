-- ===== src/Admin/Products.antt =====
-- frontend/src/pages/admin/GestionProductosPage.tsx: the table of products with its filters, its order,
-- its pages and its selection. The functions of JavaScript on texts and `sort` are parameters; the
-- answers of the backend are arguments.
pub mod Events
pub mod Pages
pub mod Selection
use Prim.Native.String.{String}
use text.Mathlib.Text.{◌==◌ as str_eq}
use Prim.Native.Nat.{max}
use blend_pos.Prelude.{
  ℕ, suc, ◌+◌, ◌-◌, ◌*◌, ◌/◌, ◌==◌, Option, none, some, List, [], ◌∷◌, ◌++◌, map, foldl, filter,
  Bool, true, false, not, ◌&&◌, ◌||◌, if◌then◌else◌, includes, length, take, drop, get_or, ltb, ℤ,
  ltb_ℤ,
}
use blend_pos.Number.{Number, num}
use blend_pos.Cart.{RawPrice, as_number, as_text}
use blend_pos.Promotions.{all}

-- the fields of `IProducto` that the page reads
pub record Producto (W : Type 0) : Type 0 where
  pub id : ℕ
  pub codigo_barras : String
  pub nombre : String
  pub descripcion : String
  pub categoria : String
  pub precio_costo : W
  pub precio_venta : W
  pub stock : ℤ
  pub stock_minimo : ℤ
  pub activo : Bool

pub record ProductoResponse (W : Type 0) : Type 0 where
  pub id : ℕ
  pub codigo_barras : String
  pub nombre : String
  pub descripcion : Option String
  pub categoria : Option String
  pub precio_costo : RawPrice W
  pub precio_venta : RawPrice W
  pub stock_actual : ℤ
  pub stock_minimo : ℤ
  pub activo : Bool

-- the columns that the table is sorted by
pub data Column : Type 0 where
  by_nombre by_categoria by_precio_costo by_precio_venta by_margen by_stock : Column

pub data Direction : Type 0 where
  asc desc : Direction

-- the sign of what a comparison returns
pub data Sign : Type 0 where
  negative equal positive : Sign

pub record Filters : Type 0 where
  pub busqueda : String
  pub filtro_categoria : Option String
  pub filtro_estado : Option String
  pub mostrar_inactivos : Bool

pub record ProductsPage (W : Type 0) : Type 0 where
  pub productos : List (Producto W)
  pub filters : Filters
  pub sort_by : Option Column
  pub sort_dir : Direction
  pub selected_ids : List ℕ
  pub current_page : ℕ
  pub bulk_delete_open : Bool
  pub api_error : Bool

-- the functions of JavaScript on texts, and `Array.prototype.sort`
pub record Runtime (W : Type 0) : Type 0 where
  pub to_lower_case : String → String
  -- `text.includes(part)`, the part first
  pub has_part : String → String → Bool
  pub text_lt : String → String → Bool
  -- `Number(text)`
  pub number_of_text : String → W
  pub sort : (Producto W → Producto W → Sign) → List (Producto W) → List (Producto W)

-- `a === b` on columns
unfoldable pub same_column : Column → Column → Bool
same_column by_nombre by_nombre = true
same_column by_categoria by_categoria = true
same_column by_precio_costo by_precio_costo = true
same_column by_precio_venta by_precio_venta = true
same_column by_margen by_margen = true
same_column by_stock by_stock = true
same_column _ _ = false

-- `!text`
abbrev pub is_unset : Option String → Bool
is_unset none = true
is_unset (some t) = str_eq t ""

unfoldable pub signed : Direction → Bool → Bool → Sign
signed asc true greater = negative
signed desc true greater = positive
signed asc false true = positive
signed desc false true = negative
signed _ false false = equal

-- the rows of the table on a page: `slice`
abbrev pub rows_per_page : ℕ
rows_per_page = 50

unfoldable pub paginated_rows {ℓ} : {A : Type ℓ} → ℕ → List A → List A
paginated_rows page xs =
    take (page * rows_per_page - (page - 1) * rows_per_page) (drop ((page - 1) * rows_per_page) xs)

-- `Math.max(1, Math.ceil(n / ROWS_PER_PAGE))`
unfoldable pub total_pages : ℕ → ℕ
total_pages n = max 1 ((n + 49) / rows_per_page)

-- `next.add` and `next.delete`
unfoldable pub add_id : List ℕ → ℕ → List ℕ
add_id ids id = if includes id ids then ids else ids ++ (id ∷ [])

unfoldable pub delete_id : List ℕ → ℕ → List ℕ
delete_id ids id = filter (λ j. not (j == id)) ids

unfoldable pub toggle_select : ℕ → List ℕ → List ℕ
unfolding add_id delete_id
toggle_select id ids = if includes id ids then delete_id ids id else add_id ids id

abbrev pub row_ids : {W : Type 0} → List (Producto W) → List ℕ
row_ids = map λ p. p.id

unfoldable pub all_filtered_selected : List ℕ → List ℕ → Bool
all_filtered_selected filtered ids = ltb 0 (length filtered) && all (λ id. includes id ids) filtered

unfoldable pub toggle_select_all : List ℕ → List ℕ → List ℕ
unfolding all_filtered_selected add_id delete_id
toggle_select_all filtered ids =
    if all_filtered_selected filtered ids
    then foldl delete_id ids filtered
    else foldl add_id ids filtered

module _ {W : Type 0} where
  unfoldable pub toggle_sort : Column → ProductsPage W → ProductsPage W
  unfolding same_column
  toggle_sort col s = elim s.sort_by [
    | none ↦ record s { sort_by = some col; sort_dir = asc; current_page = 1 }
    | some c ↦
        if same_column c col
        then elim s.sort_dir [
          | asc ↦ record s { sort_dir = desc; current_page = 1 }
          | desc ↦ record s { sort_by = none; sort_dir = asc; current_page = 1 }
        ]
        else record s { sort_by = some col; sort_dir = asc; current_page = 1 }
  ]

module _ {W : Type 0} ⦃d : Number W⦄ (r : Runtime W) where
  abbrev number_of : RawPrice W → W
  number_of (as_number x) = x
  number_of (as_text t) = r.number_of_text t

  unfoldable pub map_producto : ProductoResponse W → Producto W
  map_producto p = record {
    id = p.id;
    codigo_barras = p.codigo_barras;
    nombre = p.nombre;
    descripcion = get_or p.descripcion "";
    categoria = get_or p.categoria "otros";
    precio_costo = number_of p.precio_costo;
    precio_venta = number_of p.precio_venta;
    stock = p.stock_actual;
    stock_minimo = p.stock_minimo;
    activo = p.activo;
  }

  unfoldable pub is_shown : Filters → Producto W → Bool
  is_shown f p =
      let match_busqueda =
        str_eq f.busqueda ""
        || (r.has_part (r.to_lower_case f.busqueda) (r.to_lower_case p.nombre)
            || r.has_part f.busqueda p.codigo_barras) in
      let match_cat =
        is_unset f.filtro_categoria || str_eq p.categoria (get_or f.filtro_categoria "") in
      let match_estado =
        is_unset f.filtro_estado
        || (if str_eq (get_or f.filtro_estado "") "activo" then p.activo else not p.activo) in
      let match_activo = f.mostrar_inactivos || p.activo in
      match_busqueda && (match_cat && (match_estado && match_activo))

  unfoldable pub margin : Producto W → W
  margin p =
      if d.lt (num 0) p.precio_costo
      then d.div (d.sub p.precio_venta p.precio_costo) p.precio_costo
      else num 0

  -- `valA < valB`
  unfoldable pub is_before : Column → Producto W → Producto W → Bool
  unfolding margin
  is_before by_categoria a b = r.text_lt a.categoria b.categoria
  is_before by_precio_costo a b = d.lt a.precio_costo b.precio_costo
  is_before by_precio_venta a b = d.lt a.precio_venta b.precio_venta
  is_before by_margen a b = d.lt (margin a) (margin b)
  is_before by_stock a b = ltb_ℤ a.stock b.stock
  is_before by_nombre a b = r.text_lt (r.to_lower_case a.nombre) (r.to_lower_case b.nombre)

  unfoldable pub compare_by : Column → Direction → Producto W → Producto W → Sign
  unfolding signed is_before
  compare_by col dir a b = signed dir (is_before col a b) (is_before col b a)

  unfoldable pub filtered : ProductsPage W → List (Producto W)
  unfolding is_shown compare_by
  filtered s = elim s.sort_by [
    | none ↦ filter (is_shown s.filters) s.productos
    | some col ↦ r.sort (compare_by col s.sort_dir) (filter (is_shown s.filters) s.productos)
  ]
