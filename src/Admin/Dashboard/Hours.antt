-- ===== src/Admin/Dashboard/Hours.antt =====
-- The hours that the chart of frontend/src/pages/admin/DashboardPage.tsx shows are those with sales.
use Prim.Native.Nat.{min, max}
use blend_pos.Prelude.{
  All-weaker, All-both, ℕ, zero, suc, ◌+◌, ◌-◌, ◌≤◌, ◌<◌, ◌≡◌, refl, ap, ◌∙◌, List, [], ◌∷◌, All,
  take, drop, ltb, length, arith, Bool-cases, inl, inr,
}
use blend_pos.Admin.Dashboard.{Slot, least, greatest, horas_con_ventas, shown_hours}

least-le : (x : ℕ) (xs : List ℕ) → All (λ j. least x xs ≤ j) (x ∷ xs)
unfolding least
least-le x [] = (omega arith, tt)
least-le x (y ∷ ys) =
    let m = least y ys in
    (
      omega arith,
      All-weaker (λ j. m ≤ j) (λ j. min x m ≤ j) (y ∷ ys) (λ j h. omega (arith, h)) (least-le y ys),
    )

greatest-le : (x : ℕ) (xs : List ℕ) → All (λ j. j ≤ greatest x xs) (x ∷ xs)
unfolding greatest
greatest-le x [] = (omega arith, tt)
greatest-le x (y ∷ ys) =
    let m = greatest y ys in
    (
      omega arith,
      All-weaker (λ j. j ≤ m) (λ j. j ≤ max x m) (y ∷ ys) (λ j h. omega (arith, h))
          (greatest-le y ys),
    )

module _ {W : Type 0} where
  abbrev pub tickets : List (Slot W) → ℕ
  tickets [] = 0
  tickets (s ∷ ss) = s.tickets + tickets ss

  tickets-drop :
      (i n : ℕ) (ss : List (Slot W))
      → All (λ j. i + n ≤ j) (horas_con_ventas i ss)
      → tickets (drop n ss) ≡ tickets ss
  unfolding horas_con_ventas
  tickets-drop i zero ss h = refl
  tickets-drop i (suc n) [] h = refl
  tickets-drop i (suc n) (s ∷ ss) h = elim (Bool-cases (ltb 0 s.tickets)) [
    | inl busy ↦ absurd (omega (arith, (rw busy at h).0))
    | inr idle ↦
        let rest =
          All-weaker (λ j. i + suc n ≤ j) (λ j. suc i + n ≤ j) _ (λ j k. omega (arith, k))
            (rw idle at h) in
        let zero_here : s.tickets ≡ 0 = ground (arith, idle) in
        rw zero_here (tickets-drop (suc i) n ss rest ∙ omega arith)
  ]

  tickets-take :
      (i n : ℕ) (ss : List (Slot W))
      → All (λ j. j < i + n) (horas_con_ventas i ss)
      → tickets (take n ss) ≡ tickets ss
  unfolding horas_con_ventas
  tickets-take i zero [] h = refl
  tickets-take i (suc n) [] h = refl
  tickets-take i zero (s ∷ ss) h = elim (Bool-cases (ltb 0 s.tickets)) [
    | inl busy ↦ absurd (omega (arith, (rw busy at h).0))
    | inr idle ↦
        let rest =
          All-weaker (λ j. j < i + 0) (λ j. j < suc i + 0) _ (λ j k. omega (arith, k))
            (rw idle at h) in
        let zero_here : s.tickets ≡ 0 = ground (arith, idle) in
        let none_left = tickets-take (suc i) zero ss rest in rw zero_here (omega (arith, none_left))
  ]
  tickets-take i (suc n) (s ∷ ss) h =
      ap (λ (m : ℕ). s.tickets + m) (tickets-take (suc i) n ss later)
    where
      later : All (λ j. j < suc i + n) (horas_con_ventas (suc i) ss)
      later = elim (Bool-cases (ltb 0 s.tickets)) [
        | inl busy ↦
            All-weaker (λ j. j < i + suc n) (λ j. j < suc i + n) _ (λ j k. omega (arith, k))
              (rw busy at h).1
        | inr idle ↦
            All-weaker (λ j. j < i + suc n) (λ j. j < suc i + n) _ (λ j k. omega (arith, k))
              (rw idle at h)
      ]

  hours-lt : (i : ℕ) (ss : List (Slot W)) → All (λ j. j < i + length ss) (horas_con_ventas i ss)
  unfolding horas_con_ventas
  hours-lt i [] = tt
  hours-lt i (s ∷ ss) =
      let rest =
        All-weaker (λ j. j < suc i + length ss) (λ j. j < i + suc (length ss)) _
          (λ j k. omega (arith, k)) (hours-lt (suc i) ss) in
      elim (Bool-cases (ltb 0 s.tickets)) [
        | inl busy ↦ rw busy (omega arith, rest)
        | inr idle ↦ rw idle rest
      ]

  -- fewer slots have no other hours
  hours-take :
      (P : ℕ → Type 0) (i n : ℕ) (ss : List (Slot W))
      → All P (horas_con_ventas i ss)
      → All P (horas_con_ventas i (take n ss))
  unfolding horas_con_ventas
  hours-take P i zero ss h = tt
  hours-take P i (suc n) [] h = tt
  hours-take P i (suc n) (s ∷ ss) h = elim (Bool-cases (ltb 0 s.tickets)) [
    | inl busy ↦ let (here, later) = rw busy at h in rw busy (here, hours-take P (suc i) n ss later)
    | inr idle ↦ rw idle (hours-take P (suc i) n ss (rw idle at h))
  ]

  no_hours : (i : ℕ) (ss : List (Slot W)) → horas_con_ventas i ss ≡ [] → tickets ss ≡ 0
  unfolding horas_con_ventas
  no_hours i [] e = refl
  no_hours i (s ∷ ss) e = elim (Bool-cases (ltb 0 s.tickets)) [
    | inl busy ↦ absurd (ground (arith, rw busy at e))
    | inr idle ↦
        let rest = no_hours (suc i) ss (rw idle at e) in
        let zero_here : s.tickets ≡ 0 = ground (arith, idle) in omega (arith, rest, zero_here)
  ]

  pub tickets-slice :
      (hs : List ℕ) (base : List (Slot W))
      → length base ≡ 24
      → horas_con_ventas 0 base ≡ hs
      → tickets (shown_hours hs base) ≡ tickets base
  unfolding shown_hours
  tickets-slice [] base size e =
      let below : All (λ j. 0 + 8 ≤ j) (horas_con_ventas 0 base) = rw e tt in
      let above : All (λ j. j < 0 + (20 + 1)) (horas_con_ventas 0 base) = rw e tt in
      tickets-drop 0 8 (take (20 + 1) base) (hours-take (λ j. 0 + 8 ≤ j) 0 (20 + 1) base below)
      ∙ tickets-take 0 (20 + 1) base above
  tickets-slice (h ∷ hs) base size e =
      let lo = least h hs - 1 in
      let hi = min 23 (greatest h hs + 1) in
      let bounds : All (λ j. (j ≤ greatest h hs) × (j < 0 + length base))
          (horas_con_ventas 0 base) =
        All-both (λ j. j ≤ greatest h hs) (λ j. j < 0 + length base) _ (rw e (greatest-le h hs))
          (hours-lt 0 base) in
      let above =
        All-weaker (λ j. (j ≤ greatest h hs) × (j < 0 + length base)) (λ j. j < 0 + (hi + 1)) _
          (λ j k. omega (arith, k, size)) bounds in
      let below =
        All-weaker (λ j. least h hs ≤ j) (λ j. 0 + lo ≤ j) _ (λ j k. omega (arith, k))
          (rw e (least-le h hs)) in
      tickets-drop 0 lo (take (hi + 1) base) (hours-take (λ j. 0 + lo ≤ j) 0 (hi + 1) base below)
      ∙ tickets-take 0 (hi + 1) base above
