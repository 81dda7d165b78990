-- ===== src/Tests/PosTests.antt =====
-- The page of the point of sale: its keys, its table and what it scans, in fixed-point amounts.
use blend_pos.Prelude.{==_iff, ℕ, ◌≡◌, refl, none, some, List, [], ◌∷◌, true, false, pos, inl, inr}
use blend_pos.Number.{num}
use blend_pos.Number.Fixed.{Fixed, fixed_number, Fixed-HasUnits}
use blend_pos.Cart.{RawItem, as_number, quantity_in}
use blend_pos.Promotions.{Promocion, PromocionProducto, porcentaje, clasico}
use blend_pos.Terminal.{adds, on_cart, presses_apply, no_dialogs}
use blend_pos.Terminal.Keys.{
  Key, f8, escape, plus_key, minus_key, Pos, PosEvent, key_down, acts, on_page, run_pos,
}
use blend_pos.Terminal.Keys.Shift.{IsSound, run_pos-IsSound}
use blend_pos.Terminal.Promos.{refresh_promos}
use blend_pos.Terminal.Promos.Settled.{refresh_promos_settles}
use blend_pos.Terminal.Table.{build_display_rows}
use blend_pos.Terminal.Table.Combos.{units_shown}
use blend_pos.Terminal.Table.Units.{units_shown-build_display_rows}
use blend_pos.Offline.Table.Memory.{nub}
use blend_pos.Offline.Catalog.Search.{Has}
use blend_pos.Cart.Actions.{run}
use blend_pos.Tests.CartTests.{actions}
use blend_pos.Cart.Totals.{run-IsValid}
use blend_pos.Tests.CatalogTests.{product_rows, shelf, search_text, same_order, reordering, product}
use blend_pos.Terminal.Scan.{PriceAnswer, added, handle_add_product}
use blend_pos.Offline.Db.{LocalProduct}
use text.Mathlib.Text.{◌==◌ as str_eq}
use blend_pos.Terminal.Scan.Sound.{IsStocked, IsSold, handle_add_product-IsSold}
use blend_pos.Terminal.Scan.Complete.{handle_add_product_finds}

abbrev mate : PromocionProducto Fixed
mate = record { id = 8; nombre = "Coca"; precio_venta = num 900 }

abbrev pair : Promocion Fixed
pair = record {
  nombre = "Yerba y Coca";
  tipo = porcentaje;
  valor = num 10;
  modo = clasico;
  cantidad_requerida = some (pos 1);
  activa = true;
  productos = record { id = 7; nombre = "Yerba"; precio_venta = num 1500 } ∷ mate ∷ [];
  grupos = [];
}

units_shown-build_display_rows_example :
    units_shown 7 (build_display_rows (run actions).cart (pair ∷ []))
    ≡ quantity_in 7 (run actions).cart
units_shown-build_display_rows_example =
    units_shown-build_display_rows (run actions).cart (pair ∷ []) 7
      (run-IsValid ⦃u = Fixed-HasUnits⦄ actions).lines (((refl, tt), (tt, tt)), tt)

abbrev bread : RawItem Fixed
bread = record { id = 7; nombre = "Pan"; precio = as_number (num 60); codigo_barras = "77" }

abbrev shift : List (PosEvent Fixed)
shift =
    acts (on_cart (adds bread (some (pos 5))))
    ∷ key_down (some (pos 5)) on_page plus_key
    ∷ key_down none on_page f8
    ∷ acts (presses_apply (as_number (num 45)))
    ∷ key_down none on_page escape
    ∷ key_down none on_page minus_key
    ∷ []

run_pos-IsSound_example : IsSound ⦃u = Fixed-HasUnits⦄ (run_pos true shift)
run_pos-IsSound_example = run_pos-IsSound ⦃u = Fixed-HasUnits⦄ refl shift

abbrev in_history : Pos Fixed
in_history = record {
  terminal = record { cart = run actions; dialogs = no_dialogs };
  view = record {
    scanner_value = "";
    search_visible = false;
    search_initial_query = "";
    history_open = true;
  };
}

abbrev code : Key → ℕ
code escape = 1
code _ = 0

abbrev in_price_check : Pos Fixed
in_price_check = record in_history {
  terminal = record in_history.terminal {
    dialogs = record no_dialogs { is_price_check_open = true };
  };
}

abbrev fresh : PriceAnswer Fixed
fresh = record { nombre = "Hierba"; precio_venta = as_number (num 1700); stock_disponible = pos 2 }

handle_add_product-IsSold_example :
    IsSold product_rows shelf
      (handle_add_product search_text same_order product_rows (some fresh) "7792" shelf)
handle_add_product-IsSold_example =
    handle_add_product-IsSold search_text same_order reordering product_rows shelf (some fresh)
      "7792"

scanned : Has (product 3 "7792" "hierba" 2) (product_rows.rows shelf)
unfolding nub
scanned = inr (inr (inl refl))

handle_add_product_finds_example :
    (raw : RawItem Fixed) × (x : LocalProduct Fixed) × (handle_add_product search_text same_order
        product_rows
        (some fresh)
        "7792"
        shelf
      ≡ added raw)
    × (raw.id ≡ x.id)
    × IsStocked product_rows shelf x
    × (str_eq x.codigo_barras "7792" ≡ true)
handle_add_product_finds_example =
    handle_add_product_finds search_text same_order product_rows shelf (some fresh) "7792"
      (product 3 "7792" "hierba" 2) scanned refl refl refl

refresh_promos_settles_example :
    refresh_promos (pair ∷ []) (refresh_promos (pair ∷ []) (run actions))
    ≡ refresh_promos (pair ∷ []) (run actions)
refresh_promos_settles_example =
    refresh_promos_settles (λ x. (==_iff x x).1 refl) (pair ∷ []) (run actions)
