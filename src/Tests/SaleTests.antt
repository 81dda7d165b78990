-- ===== src/Tests/SaleTests.antt =====
-- Sales and promotions at concrete carts, in fixed-point amounts.
use blend_pos.Prelude.{◌*◌, ◌≡◌, refl, none, some, List, [], ◌∷◌, true, pos, ◌==◌, if◌then◌else◌}
use blend_pos.Number.{num}
use blend_pos.Number.Fixed.{Fixed, fixed_number, Fixed-IsClamped}
use blend_pos.Cart.{simple, efectivo, CartState, compute_total_con_descuento}
use blend_pos.Prelude.{foldl}
use blend_pos.Number.Fixed.{Fixed-HasUnits}
use blend_pos.Cart.{RawItem, as_number, quantity_in}
use blend_pos.Cart.Actions
use blend_pos.Cart.Actions.{Action, add}
use blend_pos.Offline.Db.{LocalProduct}
use blend_pos.Offline.Table.{Table}
use blend_pos.Offline.Table.Memory.{memory, Memory}
use blend_pos.Offline.Catalog.{SyncMeta}
use blend_pos.Offline.Catalog.Stock.{less}
use blend_pos.Offline.Catalog.Sold.{on_products, sale_takes_stock}
use blend_pos.Sale.Store.{Pago, Moment, SaleState, confirm_sale}
use blend_pos.Sale.History.{
  SaleAction, confirm, name_cashier, sync_counter, reload, run, IsNumbered, run-IsNumbered,
}
use blend_pos.Promotions.{Promocion, PromocionProducto, Grupo, CartView, porcentaje, grupos}
use blend_pos.Promotions.Groups.{
  GroupMatch, match_groups, match_group, group_sets, distribute_all, price_in,
}
use blend_pos.Promotions.Compute.{compute_promo_descuentos}
use blend_pos.Promotions.Bounds.{IsGood}
use blend_pos.Promotions.Results.{compute_promo_descuentos-IsGood, IsActiveName}
use blend_pos.Promotions.Shares.{given, set_size, groups_given}

abbrev cash : Pago Fixed
cash = record {
  metodo_pago = simple efectivo;
  pagos = none;
  efectivo_recibido = none;
  vuelto = none;
  cliente_email = none;
  tipo_comprobante = none;
  cuit_receptor = none;
  tipo_doc_receptor = none;
  nro_doc_receptor = none;
  receptor_nombre = none;
  receptor_domicilio = none;
}

abbrev now : Moment
now = record { id = 41; fecha = 1000; sesion = some 3 }

abbrev full_cart : CartState Fixed
full_cart = record {
  cart = [];
  total = num 50;
  descuento_global = num 0;
  total_con_descuento = num 50;
  last_added = none;
  selected_row_index = pos 0;
}

abbrev days : List (SaleAction Fixed)
days =
    confirm now cash full_cart
    ∷ sync_counter 9
    ∷ reload
    ∷ name_cashier "Ana"
    ∷ confirm now cash full_cart
    ∷ []

run-IsNumbered_example : IsNumbered (run days)
run-IsNumbered_example = run-IsNumbered days

free : ◌≡◌ {A = Fixed} (compute_total_con_descuento (num 50) (num 100)) (num 0)
unfolding compute_total_con_descuento
free = refl

abbrev no_sales : SaleState Fixed
no_sales = record { historial = []; cajero = "Ana"; ticket_counter = 0 }

abbrev coca : PromocionProducto Fixed
coca = record { id = 7; nombre = "Coca"; precio_venta = num 90 }

abbrev alfajor : PromocionProducto Fixed
alfajor = record { id = 8; nombre = "Alfajor"; precio_venta = num 40 }

abbrev bebidas : Grupo Fixed
bebidas = record { cantidad_requerida = pos 2; productos = coca ∷ [] }

abbrev dulces : Grupo Fixed
dulces = record { cantidad_requerida = pos 1; productos = alfajor ∷ [] }

abbrev combo : Promocion Fixed
combo = record {
  nombre = "Merienda";
  tipo = porcentaje;
  valor = num 20;
  modo = grupos;
  cantidad_requerida = none;
  activa = true;
  productos = [];
  grupos = bebidas ∷ dulces ∷ [];
}

abbrev viewed_cart : CartView Fixed
viewed_cart = record {
  ids = 7 ∷ 8 ∷ [];
  prices = λ _. none;
  quantities = λ k. if k == 7 then some 5 else some 3;
}

compute_promo_descuentos-IsGood_example :
    IsGood viewed_cart
      (IsActiveName viewed_cart (combo ∷ []))
      (compute_promo_descuentos (combo ∷ []) viewed_cart)
compute_promo_descuentos-IsGood_example =
    compute_promo_descuentos-IsGood viewed_cart ⦃c = Fixed-IsClamped⦄ (combo ∷ [])

abbrev matches : List (GroupMatch Fixed)
matches =
    record {
      grupo_req = 2;
      matched = record { id = 7; qty = 5; price = num 90 } ∷ [];
      total_qty = 5;
    }
    ∷ record {
      grupo_req = 1;
      matched = record { id = 8; qty = 3; price = num 40 } ∷ [];
      total_qty = 3;
    }
    ∷ []

matched : match_groups viewed_cart (bebidas ∷ dulces ∷ []) ≡ some matches
unfolding match_groups match_group price_in
matched = refl

two_sets : group_sets matches ≡ some 2
unfolding group_sets
two_sets = refl

groups_given_example : given (distribute_all 2 matches []) ≡ 2 * set_size matches
groups_given_example = groups_given viewed_cart (bebidas ∷ dulces ∷ []) matches 2 matched two_sets

abbrev yerba : RawItem Fixed
yerba = record { id = 7; nombre = "Yerba"; precio = as_number (num 1500); codigo_barras = "779" }

abbrev product_rows : Table (LocalProduct Fixed) (λ p. p.id)
product_rows = memory (λ p. p.id)

abbrev meta_rows : Table SyncMeta (λ m. m.key)
meta_rows = memory (λ m. m.key)

abbrev some_products : Memory (λ (p : LocalProduct Fixed). p.id)
some_products = record {
  log =
      record { id = 7; codigo_barras = "779"; nombre = "Yerba"; precio = num 1500; stock = pos 6 }
      ∷ [];
  counter = 0;
}

abbrev adds : List (Action Fixed)
adds = add yerba (some (pos 6)) ∷ add yerba (some (pos 6)) ∷ []

sale_takes_stock_example :
    product_rows.get 7 (
      foldl
        (on_products product_rows meta_rows)
        some_products
        (confirm_sale now cash (Actions.run adds) no_sales).effects)
    ≡ less (quantity_in 7 (Actions.run adds).cart) (product_rows.get 7 some_products)
sale_takes_stock_example =
    sale_takes_stock product_rows meta_rows ⦃u = Fixed-HasUnits⦄ adds now cash no_sales 7
      some_products
