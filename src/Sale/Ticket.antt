-- ===== src/Sale/Ticket.antt =====
-- `nextCounter.toString().padStart(6, '0')` in frontend/src/store/useSaleStore.ts: a ticket number
-- as its decimal digits.
use blend_pos.Prelude.{
  ℕ, zero, suc, ◌+◌, ◌*◌, ◌/◌, ◌%◌, ◌≡◌, refl, sym, ◌∙◌, ◌≤◌, ◌<◌, List, [], ◌∷◌, arith, ltb,
  if◌then◌else◌, length, ap,
}

-- The digits of `n`, the last one first. A number below the fuel has fewer digits than the fuel.
unfoldable pub digits : ℕ → ℕ → List ℕ
digits zero n = []
digits (suc fuel) n = let rest = digits fuel (n / 10) in if ltb n 10 then n ∷ [] else n % 10 ∷ rest

-- `padStart(width, '0')` of digits whose last one comes first
unfoldable pub pad : ℕ → List ℕ → List ℕ
pad zero ds = ds
pad (suc width) [] = 0 ∷ pad width []
pad (suc width) (d ∷ ds) = d ∷ pad width ds

unfoldable pub ticket : ℕ → List ℕ
unfolding digits pad
ticket n = pad 6 (digits (suc n) n)

-- the number that the digits show
pub value : List ℕ → ℕ
value [] = 0
value (d ∷ ds) = d + 10 * value ds

value-digits : (fuel n : ℕ) → n < fuel → value (digits fuel n) ≡ n
unfolding value digits
value-digits zero n h = elim h [ ]
value-digits (suc fuel) n h = ground (arith, value-digits fuel (n / 10))

value-pad : (width : ℕ) (ds : List ℕ) → value (pad width ds) ≡ value ds
unfolding value pad
value-pad zero ds = refl
value-pad (suc width) [] = omega (arith, value-pad width [])
value-pad (suc width) (d ∷ ds) = omega (arith, value-pad width ds)

-- A ticket number reads back as the counter that it was printed from.
pub value-ticket : (n : ℕ) → value (ticket n) ≡ n
unfolding ticket
value-ticket n = value-pad 6 (digits (suc n) n) ∙ value-digits (suc n) n (omega arith)

length-pad : (width : ℕ) (ds : List ℕ) → width ≤ length (pad width ds)
unfolding pad
length-pad zero ds = omega arith
length-pad (suc width) [] = omega (arith, length-pad width [])
length-pad (suc width) (d ∷ ds) = omega (arith, length-pad width ds)

-- Two counters never print the same ticket number, and every ticket number has six digits or more.
pub ticket_distinct : (m n : ℕ) → (ticket m ≡ ticket n → m ≡ n) × (6 ≤ length (ticket n))
unfolding ticket
ticket_distinct m n =
    (λ e. sym (value-ticket m) ∙ ap value e ∙ value-ticket n, length-pad 6 (digits (suc n) n))
