-- ===== src/Offline/Catalog/Search.antt =====
-- `searchCatalogProducts` of frontend/src/offline/catalog.ts: the products that the search field of
-- the point of sale offers.
use Prim.Native.String.{String}
use text.Mathlib.Text.{◌==◌ as str_eq}
use blend_pos.Prelude.{
  ℕ, ◌-◌, ◌≡◌, ◌⊎◌, Option, none, some, List, [], ◌∷◌, ◌++◌, map, Bool, not, ◌&&◌, ◌||◌, leb,
  if◌then◌else◌, filter, find, take, length, includes, pos, ltb_ℤ, All,
}
use blend_pos.Offline.Db.{LocalProduct}
use blend_pos.Offline.Table.{Table}

-- the functions of JavaScript and of the database's index on texts
pub record SearchText : Type 0 where
  pub trim : String → String
  pub to_lower_case : String → String
  -- `/^\d{4,}$/.test`
  pub is_code : String → Bool
  -- does a name begin with a text, by `startsWithIgnoreCase`
  pub starts_ignoring_case : String → String → Bool
  -- `text.includes(part)`, the part first
  pub has_part : String → String → Bool

module _ {W : Type 0} where
  abbrev pub is_available : LocalProduct W → Bool
  is_available p = ltb_ℤ (pos 0) p.stock

  abbrev pub product_ids : List (LocalProduct W) → List ℕ
  product_ids = map λ p. p.id

  -- `xs` holds `p`
  abbrev pub Has : LocalProduct W → List (LocalProduct W) → Type 0
  Has p [] = ⊥
  Has p (x ∷ xs) = (p ≡ x) ⊎ Has p xs

  module _ (t : SearchText) (by_name : List (LocalProduct W) → List (LocalProduct W)) where
    -- the rows whose name begins with the query, in the order of the index on names
    unfoldable pub name_results : String → ℕ → List (LocalProduct W) → List (LocalProduct W)
    name_results q limit rows =
        take limit
          (by_name (filter (λ p. t.starts_ignoring_case q p.nombre && is_available p) rows))

    abbrev pub is_part : String → String → LocalProduct W → Bool
    is_part q code p = t.has_part q (t.to_lower_case p.nombre) || t.has_part code p.codigo_barras

    unfoldable pub more_results :
        String → String → ℕ → List ℕ → List (LocalProduct W) → List (LocalProduct W)
    more_results q code remaining found rows =
        take remaining
          (filter (λ p. is_available p && (not (includes p.id found) && is_part q code p)) rows)

    unfoldable pub text_results :
        String → String → ℕ → List (LocalProduct W) → List (LocalProduct W)
    unfolding name_results more_results
    text_results q code limit rows =
        let starts = name_results q limit rows in
        if leb limit (length starts)
        then starts
        else starts ++ more_results q code (limit - length starts) (product_ids starts) rows

    -- an exact barcode in stock is the only result
    unfoldable pub code_results :
        String → Option (LocalProduct W) → List (LocalProduct W) → List (LocalProduct W)
    code_results code none others = others
    code_results code (some p) others = if is_available p then p ∷ [] else others

    unfoldable pub search_rows : String → ℕ → List (LocalProduct W) → List (LocalProduct W)
    unfolding text_results code_results
    search_rows query limit rows =
        let q = t.to_lower_case (t.trim query) in
        let code = t.trim query in
        if str_eq q ""
        then take limit (filter is_available rows)
        else if t.is_code code
        then code_results code (find (λ p. str_eq p.codigo_barras code) rows)
            (text_results q code limit rows)
        else text_results q code limit rows

    unfoldable pub search_catalog_products :
        (P : Table (LocalProduct W) (λ p. p.id)) → String → ℕ → P.Store → List (LocalProduct W)
    unfolding search_rows
    search_catalog_products P query limit products = search_rows query limit (P.rows products)

    -- The index on names only reorders what it is given.
    pub record IsReordering : Type 1 where
      pub by_name-All :
          (Q : LocalProduct W → Type 0) (xs : List (LocalProduct W)) → All Q xs → All Q (by_name xs)
      pub by_name-any :
          (p : LocalProduct W) (xs : List (LocalProduct W)) → Has p xs → Has p (by_name xs)
