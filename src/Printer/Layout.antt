-- ===== src/Printer/Layout.antt =====
-- The text lines of frontend/src/services/ThermalPrinterService.ts: `repeat`, `center`, `leftRight`
-- and `divider`.
use Prim.Native.Nat.{max}
use blend_pos.Prelude.{
  ℕ, zero, suc, ◌+◌, ◌-◌, ◌/◌, ◌≡◌, refl, ◌≤◌, [], ◌∷◌, ◌++◌, ltb, if◌then◌else◌, arith, length,
  length-append, take, Bool-cases, inl, inr,
}
use blend_pos.Printer.{Text}

abbrev pub space : ℕ
space = 0x20

-- '…'
abbrev pub ellipsis : ℕ
ellipsis = 0x2026

unfoldable pub repeat : ℕ → ℕ → Text
repeat c zero = []
repeat c (suc n) = c ∷ repeat c n

unfoldable pub center : Text → ℕ → Text
center text width =
    let pad = width - length text in
    let left = pad / 2 in repeat space left ++ (text ++ repeat space (pad - left))

-- `left.length > maxLeft`, where `maxLeft = width - right.length - 1` may be negative, and
-- `substring` takes a negative end for 0
unfoldable pub trim_left : Text → ℕ → ℕ → Text
trim_left left taken width =
    if ltb width (length left + taken + 1)
    then take (width - taken - 1 - 1) left ++ (ellipsis ∷ [])
    else left

unfoldable pub left_right : Text → Text → ℕ → Text
left_right left right width =
    let trimmed = trim_left left (length right) width in
    trimmed ++ (repeat space (max 1 (width - length trimmed - length right)) ++ right)

unfoldable pub divider : ℕ → ℕ → Text
divider = repeat

-- a name that is cut to the paper's width
unfoldable pub fit_name : Text → ℕ → Text
fit_name name width =
    if ltb width (length name) then take (width - 1) name ++ (ellipsis ∷ []) else name

pub length-repeat : (c n : ℕ) → length (repeat c n) ≡ n
unfolding repeat
length-repeat c zero = refl
length-repeat c (suc n) = omega (arith, length-repeat c n)

length-take : (n : ℕ) (xs : Text) → n ≤ length xs → length (take n xs) ≡ n
length-take zero xs h = refl
length-take (suc n) [] h = elim h [ ]
length-take (suc n) (x ∷ xs) h = let rest = length-take n xs (omega arith) in omega arith

length-trim_left :
    (left : Text) (taken width : ℕ)
    → taken + 2 ≤ width
    → length (trim_left left taken width) + taken + 1 ≤ width
unfolding trim_left
length-trim_left left taken width h = elim (Bool-cases (ltb width (length left + taken + 1))) [
  | inl long ↦
      let n = length-take (width - taken - 1 - 1) left (ground arith) in
      rw long (omega (arith, n, length-append (take (width - taken - 1 - 1) left) (ellipsis ∷ [])))
  | inr short ↦ rw short (ground arith)
]

-- A line of two columns fills the paper exactly, if the right column leaves room for two characters.
pub length-left_right :
    (left right : Text) (width : ℕ)
    → length right + 2 ≤ width
    → length (left_right left right width) ≡ width
unfolding left_right
length-left_right left right width h =
    let trimmed = trim_left left (length right) width in
    let gap = max 1 (width - length trimmed - length right) in
    let bound = length-trim_left left (length right) width h in
    let outer = length-append trimmed (repeat space gap ++ right) in
    let inner = length-append (repeat space gap) right in
    let spaces = length-repeat space gap in ground arith

-- A centred text fills the paper exactly, or overflows it as it is.
pub length-center : (text : Text) (width : ℕ) → length (center text width) ≡ max width (length text)
unfolding center
length-center text width =
    let pad = width - length text in
    let left = pad / 2 in
    let outer = length-append (repeat space left) (text ++ repeat space (pad - left)) in
    let inner = length-append text (repeat space (pad - left)) in
    let before = length-repeat space left in
    let after = length-repeat space (pad - left) in ground arith

pub length-fit_name : (name : Text) (width : ℕ) → 1 ≤ width → length (fit_name name width) ≤ width
unfolding fit_name
length-fit_name name width h = elim (Bool-cases (ltb width (length name))) [
  | inl long ↦
      let n = length-take (width - 1) name (ground arith) in
      rw long (omega (arith, n, length-append (take (width - 1) name) (ellipsis ∷ [])))
  | inr short ↦ rw short (ground arith)
]
