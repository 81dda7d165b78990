-- ===== src/Tests/CatalogTests.antt =====
-- Searches in a small catalog, in fixed-point amounts.
use Prim.Native.String.{String, find as position, len}
use blend_pos.Prelude.{
  ℕ, ◌≡◌, ◌≤◌, refl, List, [], ◌∷◌, false, arith, ◌==◌, leb, length, pos, inl, inr, suc,
}
use blend_pos.Number.{num}
use blend_pos.Number.Fixed.{Fixed, fixed_number}
use blend_pos.Offline.Db.{LocalProduct}
use blend_pos.Offline.Table.{Table}
use blend_pos.Offline.Table.Memory.{memory, Memory, nub}
use blend_pos.Offline.Catalog.Search.{SearchText, Has, IsReordering, search_catalog_products}
use blend_pos.Offline.Catalog.Complete.{search_finds}

abbrev pub product_rows : Table (LocalProduct Fixed) (λ p. p.id)
product_rows = memory (λ p. p.id)

abbrev pub product : ℕ → String → String → ℕ → LocalProduct Fixed
product id code nombre n = record {
  id = id;
  codigo_barras = code;
  nombre = nombre;
  precio = num 1500;
  stock = pos n;
}

abbrev pub shelf : Memory (λ (p : LocalProduct Fixed). p.id)
shelf = record {
  log =
      product 1 "7790" "pan" 3
      ∷ product 2 "7791" "yerba" 6
      ∷ product 3 "7792" "hierba" 2
      ∷ product 4 "7793" "erbol" 0
      ∷ [];
  counter = 5;
}

abbrev pub search_text : SearchText
search_text = record {
  trim = λ s. s;
  to_lower_case = λ s. s;
  is_code = λ _. false;
  starts_ignoring_case = λ part s. position s part == 0;
  has_part = λ part s. leb (position s part) (len s);
}

abbrev pub same_order : List (LocalProduct Fixed) → List (LocalProduct Fixed)
same_order xs = xs

pub reordering : IsReordering search_text same_order
reordering = record { by_name-All = λ Q xs h. h; by_name-any = λ p xs h. h }

two_hits :
    search_catalog_products search_text same_order product_rows "erb" 3 shelf
    ≡ product 2 "7791" "yerba" 6 ∷ product 3 "7792" "hierba" 2 ∷ []
unfolding search_catalog_products nub
two_hits = refl

on_shelf : Has (product 2 "7791" "yerba" 6) (product_rows.rows shelf)
unfolding nub
on_shelf = inr (inl refl)

few : suc (length (search_catalog_products search_text same_order product_rows "erb" 3 shelf)) ≤ 3
few = rw two_hits (omega arith)

search_finds_example :
    Has
      (product 2 "7791" "yerba" 6)
      (search_catalog_products search_text same_order product_rows "erb" 3 shelf)
search_finds_example =
    search_finds product_rows shelf search_text same_order reordering "erb" 3
      (product 2 "7791" "yerba" 6) on_shelf refl refl refl few
