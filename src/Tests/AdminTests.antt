-- ===== src/Tests/AdminTests.antt =====
-- The screens of the administration at small inputs, in fixed-point amounts.
use blend_pos.Prelude.{
  ℕ, ◌+◌, ◌-◌, ◌*◌, ◌==◌, ◌≤◌, ◌≡◌, refl, none, some, List, [], ◌∷◌, true, false, pos, length,
  arith,
}
use blend_pos.Number.{num}
use blend_pos.Number.Fixed.{Fixed, fixed_number}
use blend_pos.Promotions.{all}
use blend_pos.Admin.Products.{
  Producto, ProductsPage, Runtime, asc, filtered, paginated_rows, total_pages, rows_per_page,
}
use blend_pos.Admin.Products.Events.{handle_bulk_delete}
use blend_pos.Admin.Products.Pages.{first_pages, first_pages_complete}
use blend_pos.Admin.Products.Selection.{handle_bulk_delete_effect}
use blend_pos.Admin.Purchase.{PurchaseForm, ItemRow, Fecha, cheque}
use blend_pos.Admin.Purchase.Edits.{
  FormEvent, adds_row, adds_pago, removes_row, updates_row, run_form,
}
use blend_pos.Admin.Purchase.Sent.{HasZero}
use blend_pos.Admin.Purchase.Keys.{IsWellKeyed, run_form-IsWellKeyed}
use blend_pos.Admin.Dashboard.{
  Venta, VentaItem, ventas_por_hora, metodo_pago_totals, items_vendidos, productos_map,
}
use blend_pos.Admin.Dashboard.Hours.{tickets}
use blend_pos.Admin.Dashboard.Sums.{counted, units_of_sales, dashboard_adds_up}

abbrev rows : List ℕ
rows = 1 ∷ 2 ∷ 3 ∷ []

first_pages_complete_example :
    (first_pages rows (total_pages 3) ≡ rows) × (length (paginated_rows 1 rows) ≤ rows_per_page)
first_pages_complete_example = first_pages_complete rows 1

abbrev runtime : Runtime Fixed
runtime = record {
  to_lower_case = λ t. t;
  has_part = λ part t. true;
  text_lt = λ a b. false;
  number_of_text = λ t. 0;
  sort = λ order xs. xs;
}

abbrev pan : Producto Fixed
pan = record {
  id = 1;
  codigo_barras = "7790";
  nombre = "Pan";
  descripcion = "";
  categoria = "otros";
  precio_costo = num 40;
  precio_venta = num 60;
  stock = pos 3;
  stock_minimo = pos 1;
  activo = true;
}

-- the third page of a list that a deletion makes shorter
abbrev products : ProductsPage Fixed
products = record {
  productos = pan ∷ [];
  filters = record {
    busqueda = "";
    filtro_categoria = none;
    filtro_estado = none;
    mostrar_inactivos = false;
  };
  sort_by = none;
  sort_dir = asc;
  selected_ids = 1 ∷ 4 ∷ [];
  current_page = 3;
  bulk_delete_open = true;
  api_error = false;
}

handle_bulk_delete_effect_example :
    let (s', counts) = handle_bulk_delete runtime (λ id. id == 1) none products in
    (counts.0 + counts.1 ≡ 2)
    × ((counts.1 == 0) ≡ all (λ id. id == 1) (1 ∷ 4 ∷ []))
    × (s'.selected_ids ≡ [])
    × (s'.current_page ≡ 3)
    × (length (paginated_rows s'.current_page (filtered runtime s'))
        ≤ length (filtered runtime s') - (3 - 1) * 50)
handle_bulk_delete_effect_example = handle_bulk_delete_effect runtime (λ id. id == 1) none products

instance abbrev fixed_zero : HasZero Fixed
fixed_zero = record { zero-mul = λ x. omega arith; zero-sub = refl; add-zero = λ x. omega arith }

abbrev today : Fecha
today = record { year = 2025; month = 11; day = 25 }

abbrev edits : List (FormEvent Fixed)
edits =
    adds_row
    ∷ updates_row 1 (λ r. record r { nombre = "Harina"; precio = num 900 })
    ∷ adds_pago
    ∷ removes_row 2
    ∷ adds_row
    ∷ []

run_form-IsWellKeyed_example : IsWellKeyed (run_form today edits)
run_form-IsWellKeyed_example = run_form-IsWellKeyed today edits

abbrev flour : ItemRow Fixed
flour = record {
  key = 1;
  nombre = "Harina";
  precio = num 900;
  descuento = num 10;
  impuesto = "21";
  cantidad = pos 2;
  observaciones = "";
}

abbrev purchase : PurchaseForm Fixed
purchase = record {
  numero = "";
  fecha_compra = some today;
  fecha_vence = none;
  moneda = "ARS";
  deposito = none;
  notas = "";
  proveedor_id = some 5;
  items = flour ∷ record flour { key = 2; nombre = ""; precio = num 0 } ∷ [];
  next_key = 3;
  pagos = record { key = 1; metodo = cheque; monto = num 500; referencia = "" } ∷ [];
  next_pago_key = 2;
}

abbrev bread : VentaItem Fixed
bread = record { producto = 1; nombre = "Pan"; cantidad = pos 2; subtotal = num 120 }

abbrev sales : List (Venta Fixed)
sales =
    record { hour = 9; total = num 120; metodo_pago = "efectivo"; items = bread ∷ [] }
    ∷ record { hour = 23; total = num 240; metodo_pago = "qr"; items = bread ∷ bread ∷ [] }
    ∷ []

dashboard_adds_up_example :
    (tickets (ventas_por_hora sales) ≡ 2)
    × (counted (metodo_pago_totals sales) ≡ 2)
    × (items_vendidos (productos_map sales) ≡ units_of_sales sales)
dashboard_adds_up_example = dashboard_adds_up sales (omega arith, (omega arith, tt))
