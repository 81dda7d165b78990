-- ===== src/Admin/Products/Events.antt =====
-- What happens on the page frontend/src/pages/admin/GestionProductosPage.tsx: the answers of the backend,
-- the bulk deletion, and the changes of the table.
use blend_pos.Prelude.{
  ℕ, suc, ◌==◌, Option, none, some, List, [], ◌∷◌, map, Bool, true, false, not, if◌then◌else◌, ℤ,
}
use blend_pos.Number.{Number}
use blend_pos.Admin.Products.{
  ProductoResponse, Column, Filters, ProductsPage, Runtime, row_ids, toggle_select,
  toggle_select_all, toggle_sort, map_producto, filtered,
}

unfoldable pub count_answers : (ℕ → Bool) → List ℕ → ℕ × ℕ
count_answers accepts [] = (0, 0)
count_answers accepts (id ∷ ids) =
    let rest = count_answers accepts ids in
    if accepts id then (suc rest.0, rest.1) else (rest.0, suc rest.1)

module _ {W : Type 0} ⦃d : Number W⦄ (r : Runtime W) where
  -- `fetchProductos`; `none` is a rejected request
  unfoldable pub fetch_productos :
      Option (List (ProductoResponse W)) → ProductsPage W → ProductsPage W
  unfolding map_producto
  fetch_productos none s = record s { api_error = true }
  fetch_productos (some ps) s = record s { productos = map (map_producto r) ps; api_error = false }

  -- `handleBulkDelete`: which requests the backend accepts, and what it lists then. The last part
  -- counts the requests that it accepted and those that it did not.
  unfoldable pub handle_bulk_delete :
      (ℕ → Bool) → Option (List (ProductoResponse W)) → ProductsPage W → ProductsPage W × (ℕ × ℕ)
  unfolding count_answers fetch_productos
  handle_bulk_delete accepts listed s = (
    record (fetch_productos listed s) { selected_ids = []; bulk_delete_open = false },
    count_answers accepts s.selected_ids,
  )

  -- `toggleActivo`: the answer says whether the request for the product was accepted
  unfoldable pub toggle_activo : Bool → ℕ → ProductsPage W → ProductsPage W
  toggle_activo false id s = s
  toggle_activo true id s = record s {
    productos = map (λ p. if p.id == id then record p { activo = not p.activo } else p) s.productos;
  }

  -- `handleStockSubmit`: the stock that the backend answers, `none` when it refuses
  unfoldable pub handle_stock_submit : Option ℤ → ℕ → ProductsPage W → ProductsPage W
  handle_stock_submit none id s = s
  handle_stock_submit (some stock_actual) id s = record s {
    productos = map (λ p. if p.id == id then record p { stock = stock_actual } else p) s.productos;
  }

  -- what happens on the page
  pub data PageEvent : Type 0 where
    lists : Option (List (ProductoResponse W)) → PageEvent
    sets_filters : Filters → PageEvent
    sorts_by : Column → PageEvent
    goes_to : ℕ → PageEvent
    selects_one : ℕ → PageEvent
    selects_all : PageEvent
    deletes_selected : (ℕ → Bool) → Option (List (ProductoResponse W)) → PageEvent
    toggles_activo : Bool → ℕ → PageEvent
    adjusts_stock : Option ℤ → ℕ → PageEvent

  -- A change of the filters or of the order goes back to the first page.
  unfoldable pub page_step : ProductsPage W → PageEvent → ProductsPage W
  unfolding fetch_productos toggle_sort toggle_select toggle_select_all filtered handle_bulk_delete
      toggle_activo handle_stock_submit
  page_step s (lists answer) = fetch_productos answer s
  page_step s (sets_filters f) = record s { filters = f; current_page = 1 }
  page_step s (sorts_by col) = toggle_sort col s
  page_step s (goes_to n) = record s { current_page = n }
  page_step s (selects_one id) = record s { selected_ids = toggle_select id s.selected_ids }
  page_step s selects_all = record s {
    selected_ids = toggle_select_all (row_ids (filtered r s)) s.selected_ids;
  }
  page_step s (deletes_selected accepts listed) = (handle_bulk_delete accepts listed s).0
  page_step s (toggles_activo accepted id) = toggle_activo accepted id s
  page_step s (adjusts_stock answer id) = handle_stock_submit answer id s
