-- ===== src/Number/Fixed.antt =====
-- Fixed-point numbers of four decimals, at which the laws hold: an instance for tests.
use Prim.Native.Nat.{min, max}
use blend_pos.Prelude.{ℕ, ◌+◌, ◌-◌, ◌*◌, ◌/◌, ◌≡◌, refl, true, not, arith, ltb, leb, ◌==◌, pos_part}
use blend_pos.Number.{Number, HasUnits, IsClamped}

abbrev pub Fixed : Type 0
Fixed = ℕ

instance abbrev pub fixed_number : Number Fixed
fixed_number = record {
  of_ℤ = λ n. pos_part n * 10_000;
  add = λ a b. a + b;
  sub = λ a b. a - b;
  mul = λ a b. a * b / 10_000;
  div = λ a b. a * 10_000 / b;
  min = min;
  max = max;
  lt = ltb;
  le = leb;
  eq = λ a b. a == b;
  truthy = λ a. not (a == 0);
  parse_float = λ _. 0;
}

pub Fixed-HasUnits : HasUnits Fixed
Fixed-HasUnits = record {
  one-mul = λ x. omega arith;
  mul-one = λ x. omega arith;
  zero-div = refl;
  sub-zero = refl;
  max-self = refl;
  zero_falsy = refl;
}

lt_trans : (x y z : ℕ) → ltb x y ≡ true → ltb y z ≡ true → ltb x z ≡ true
lt_trans x y z h k = ground arith

clamp-le :
    (x y : ℕ)
    → ltb y (min 1_000_000 (max 0 x)) ≡ true
    → leb (min 1_000_000 (max 0 x)) 1_000_000 ≡ true
clamp-le x y h = ground arith

pub Fixed-IsClamped : IsClamped Fixed
Fixed-IsClamped = record { clamp-le = clamp-le; lt_trans = lt_trans }
