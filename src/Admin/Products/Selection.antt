-- ===== src/Admin/Products/Selection.antt =====
-- The selection of rows of frontend/src/pages/admin/GestionProductosPage.tsx and the bulk deletion.
use blend_pos.Prelude.{
  ℕ, zero, suc, ◌+◌, ◌-◌, ◌*◌, take, drop, ◌≤◌, ◌≡◌, refl, ◌∙◌, List, [], ◌∷◌, ◌++◌, foldl, length,
  includes, Bool, not, ◌&&◌, ◌||◌, ◌==◌, if◌then◌else◌, Bool-cases, inl, inr, ==_iff, arith, Option,
  none, some,
}
use blend_pos.Promotions.{all}
use blend_pos.Number.{Number}
use blend_pos.Admin.Products.{
  ProductsPage, ProductoResponse, Runtime, add_id, delete_id, all_filtered_selected,
  toggle_select_all, filtered, paginated_rows,
}
use blend_pos.Admin.Products.Events.{count_answers, handle_bulk_delete, fetch_productos}

includes-append :
    (k : ℕ) (xs ys : List ℕ) → includes k (xs ++ ys) ≡ (includes k xs || includes k ys)
includes-append k [] ys = refl
includes-append k (x ∷ xs) ys = ground (arith, includes-append k xs ys)

includes-delete_id :
    (k id : ℕ) (ids : List ℕ) → includes k (delete_id ids id) ≡ (includes k ids && not (k == id))
unfolding delete_id
includes-delete_id k id [] = refl
includes-delete_id k id (j ∷ ids) =
    ground (arith, includes-delete_id k id ids, ==_iff j id, ==_iff k id, ==_iff j k)

includes-add_id :
    (k id : ℕ) (ids : List ℕ) → includes k (add_id ids id) ≡ (includes k ids || (id == k))
unfolding add_id
includes-add_id k id ids = elim (Bool-cases (includes id ids)) [
  | inl there ↦ rw there (ground (arith, there, ==_iff id k))
  | inr missing ↦ rw missing (ground (arith, includes-append k ids (id ∷ [])))
]

includes-delete_all :
    (k : ℕ) (rows ids : List ℕ)
    → includes k (foldl delete_id ids rows) ≡ (includes k ids && not (includes k rows))
includes-delete_all k [] ids = ground arith
includes-delete_all k (r ∷ rows) ids = ground (
  arith,
  includes-delete_all k rows (delete_id ids r),
  includes-delete_id k r ids,
  ==_iff r k,
  ==_iff k r,
)

includes-add_all :
    (k : ℕ) (rows ids : List ℕ)
    → includes k (foldl add_id ids rows) ≡ (includes k ids || includes k rows)
includes-add_all k [] ids = ground arith
includes-add_all k (r ∷ rows) ids =
    ground (arith, includes-add_all k rows (add_id ids r), includes-add_id k r ids)

-- The box of the header selects all rows that the filters let through, or none of them when all were
-- selected, and it never touches the selection of another product.
pub toggle_select_all_effect :
    (k : ℕ) (filtered ids : List ℕ)
    → includes k (toggle_select_all filtered ids)
      ≡ (if includes k filtered then not (all_filtered_selected filtered ids) else includes k ids)
unfolding toggle_select_all
toggle_select_all_effect k filtered ids = elim (Bool-cases (all_filtered_selected filtered ids)) [
  | inl full ↦ rw (full, includes-delete_all k filtered ids) (ground arith)
  | inr partial ↦ rw (partial, includes-add_all k filtered ids) (ground arith)
]

count_answers_total :
    (accepts : ℕ → Bool) (ids : List ℕ)
    → let (ok, fail) = count_answers accepts ids in
      (ok + fail ≡ length ids) × ((fail == 0) ≡ all accepts ids)
unfolding count_answers
count_answers_total accepts [] = (refl, refl)
count_answers_total accepts (id ∷ ids) =
    let rest = count_answers_total accepts ids in (ground (arith, rest), ground (arith, rest))

length-drop : {A : Type 0} → (n : ℕ) (xs : List A) → length (drop n xs) ≡ length xs - n
length-drop zero xs = omega arith
length-drop (suc n) [] = omega arith
length-drop (suc n) (x ∷ xs) = length-drop n xs ∙ omega arith

length-take-short : {A : Type 0} → (n : ℕ) (xs : List A) → length (take n xs) ≤ length xs
length-take-short zero xs = omega arith
length-take-short (suc n) [] = omega arith
length-take-short (suc n) (x ∷ xs) = omega (arith, length-take-short n xs)

length-paginated_rows :
    {A : Type 0}
    → (page : ℕ) (xs : List A) → length (paginated_rows page xs) ≤ length xs - (page - 1) * 50
unfolding paginated_rows
length-paginated_rows page xs =
    let start = (page - 1) * 50 in
    omega (arith, length-drop start xs, length-take-short (page * 50 - start) (drop start xs))

module _ {W : Type 0} ⦃d : Number W⦄ (r : Runtime W) where
  -- A bulk deletion asks the backend once for each selected product, and reports no failure exactly
  -- when all were accepted. Then nothing is selected, and the page is the same one, whatever the
  -- backend lists, so the table shows only rows that come after those of the pages before it.
  pub handle_bulk_delete_effect :
      (accepts : ℕ → Bool) (listed : Option (List (ProductoResponse W))) (s : ProductsPage W)
      → let (s', counts) = handle_bulk_delete r accepts listed s in
        (counts.0 + counts.1 ≡ length s.selected_ids)
        × ((counts.1 == 0) ≡ all accepts s.selected_ids)
        × (s'.selected_ids ≡ [])
        × (s'.current_page ≡ s.current_page)
        × (length (paginated_rows s'.current_page (filtered r s'))
            ≤ length (filtered r s') - (s.current_page - 1) * 50)
  unfolding handle_bulk_delete fetch_productos
  handle_bulk_delete_effect accepts none s =
      let (sum, failures) = count_answers_total accepts s.selected_ids in
      (sum, failures, refl, refl, length-paginated_rows s.current_page _)
  handle_bulk_delete_effect accepts (some ps) s =
      let (sum, failures) = count_answers_total accepts s.selected_ids in
      (sum, failures, refl, refl, length-paginated_rows s.current_page _)
