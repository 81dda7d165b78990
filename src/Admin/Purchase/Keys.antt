-- ===== src/Admin/Purchase/Keys.antt =====
-- The rows of the form of frontend/src/pages/admin/NuevaCompraPage.tsx are told apart by their keys.
use blend_pos.Prelude.{
  All-weaker, ℕ, suc, ◌<◌, ◌≡◌, refl, List, [], ◌∷◌, ◌++◌, map, foldl, filter, All, All-append,
  All-filter, All-map, Bool, false, not, ◌==◌, if◌then◌else◌, Bool-cases, inl, inr, ==_iff, arith,
}
use blend_pos.Number.{Number}
use blend_pos.Admin.Purchase.{
  ItemRow, PagoRow, PurchaseForm, Fecha, blank_item, blank_pago, empty_form,
}
use blend_pos.Admin.Purchase.Edits.{
  FormEvent, adds_row, adds_pago, removes_row, removes_pago, updates_row, updates_pago, update_row,
  update_pago, form_step, run_form,
}

module _ {A : Type 0} (key : A → ℕ) where
  abbrev Distinct : List A → Type 0
  Distinct [] = Unit
  Distinct (x ∷ xs) = All (λ y. (key y == key x) ≡ false) xs × Distinct xs

  -- all keys are below the next one, and no two rows share one
  abbrev pub IsKeyed : ℕ → List A → Type 0
  IsKeyed n xs = All (λ x. key x < n) xs × Distinct xs

  Distinct-append :
      (n : ℕ) (x : A) (xs : List A)
      → key x ≡ n
      → All (λ y. key y < n) xs
      → Distinct xs
      → Distinct (xs ++ (x ∷ []))
  Distinct-append n x [] e h u = (tt, tt)
  Distinct-append n x (y ∷ ys) e (h, hs) (a, u) = (
    All-append (λ z. (key z == key y) ≡ false) ys (x ∷ []) a (other, tt),
    Distinct-append n x ys e hs u,
  )
    where
      other : (key x == key y) ≡ false
      other = ground (arith, e, h, ==_iff (key x) (key y))

  IsKeyed-append :
      (n : ℕ) (x : A) (xs : List A) → key x ≡ n → IsKeyed n xs → IsKeyed (suc n) (xs ++ (x ∷ []))
  IsKeyed-append n x xs e (h, u) = (
    All-append (λ y. key y < suc n) xs (x ∷ [])
        (All-weaker (λ y. key y < n) (λ y. key y < suc n) xs (λ y k. omega (arith, k)) h)
        (omega (arith, e), tt),
    Distinct-append n x xs e h u,
  )

  IsKeyed-filter : (n : ℕ) (p : A → Bool) (xs : List A) → IsKeyed n xs → IsKeyed n (filter p xs)
  IsKeyed-filter n p xs (h, u) = (All-filter (λ y. key y < n) p xs h, Distinct-filter xs u)
    where
      Distinct-filter : (ys : List A) → Distinct ys → Distinct (filter p ys)
      Distinct-filter [] v = tt
      Distinct-filter (y ∷ ys) (a, v) = elim (Bool-cases (p y)) [
        | inl kept ↦
            rw kept (All-filter (λ z. (key z == key y) ≡ false) p ys a, Distinct-filter ys v)
        | inr dropped ↦ rw dropped (Distinct-filter ys v)
      ]

  IsKeyed-map :
      (n : ℕ) (f : A → A) (xs : List A)
      → ((x : A) → key (f x) ≡ key x)
      → IsKeyed n xs
      → IsKeyed n (map f xs)
  IsKeyed-map n f [] same h = (tt, tt)
  IsKeyed-map n f (x ∷ xs) same ((h, hs), (a, u)) =
      let rest = IsKeyed-map n f xs same (hs, u) in
      (
        (rw (same x) h, rest.0),
        (
          All-map (λ y. (key y == key (f x)) ≡ false) f xs (λ y k. rw (same y) k) (rw (same x) a),
          rest.1,
        ),
      )

module _ {W : Type 0} ⦃d : Number W⦄ where
  -- the rows of the form and its payments
  abbrev pub IsWellKeyed : PurchaseForm W → Type 0
  IsWellKeyed s =
      IsKeyed (λ (r : ItemRow W). r.key) s.next_key s.items
      × IsKeyed (λ (p : PagoRow W). p.key) s.next_pago_key s.pagos

  update_row_keeps :
      (k : ℕ) (f : ItemRow W → ItemRow W) (r : ItemRow W)
      → (if r.key == k then record (f r) { key = r.key } else r).key ≡ r.key
  update_row_keeps k f r = ground arith

  update_pago_keeps :
      (k : ℕ) (f : PagoRow W → PagoRow W) (p : PagoRow W)
      → (if p.key == k then record (f p) { key = p.key } else p).key ≡ p.key
  update_pago_keeps k f p = ground arith

  form_step-IsWellKeyed :
      (s : PurchaseForm W) (e : FormEvent W) → IsWellKeyed s → IsWellKeyed (form_step s e)
  unfolding form_step update_row update_pago blank_item blank_pago
  form_step-IsWellKeyed s adds_row (h, k) =
      (IsKeyed-append (λ r. r.key) s.next_key (blank_item s.next_key) s.items refl h, k)
  form_step-IsWellKeyed s adds_pago (h, k) =
      (h, IsKeyed-append (λ p. p.key) s.next_pago_key (blank_pago s.next_pago_key) s.pagos refl k)
  form_step-IsWellKeyed s (removes_row key) (h, k) =
      (IsKeyed-filter (λ r. r.key) s.next_key (λ r. not (r.key == key)) s.items h, k)
  form_step-IsWellKeyed s (removes_pago key) (h, k) =
      (h, IsKeyed-filter (λ p. p.key) s.next_pago_key (λ p. not (p.key == key)) s.pagos k)
  form_step-IsWellKeyed s (updates_row key f) (h, k) =
      (IsKeyed-map (λ r. r.key) s.next_key _ s.items (update_row_keeps key f) h, k)
  form_step-IsWellKeyed s (updates_pago key f) (h, k) =
      (h, IsKeyed-map (λ p. p.key) s.next_pago_key _ s.pagos (update_pago_keeps key f) k)

  run_on-IsWellKeyed :
      (es : List (FormEvent W)) (s : PurchaseForm W)
      → IsWellKeyed s
      → IsWellKeyed (foldl form_step s es)
  run_on-IsWellKeyed [] s h = h
  run_on-IsWellKeyed (e ∷ es) s h =
      run_on-IsWellKeyed es (form_step s e) (form_step-IsWellKeyed s e h)

  -- After any additions, removals and edits of rows and payments no two rows and no two payments of
  -- the form share a key, and every key is below the next one that is given.
  pub run_form-IsWellKeyed :
      (today : Fecha) (es : List (FormEvent W)) → IsWellKeyed (run_form today es)
  unfolding run_form empty_form blank_item
  run_form-IsWellKeyed today es =
      run_on-IsWellKeyed es (empty_form today) (((omega arith, tt), (tt, tt)), (tt, tt))
