-- ===== src/Number.antt =====
-- What the frontend does with a JavaScript number that holds an amount or a percentage. Amounts are
-- doubles, so the type is abstract: a theorem uses only the operations and the laws that it names,
-- and every law below holds of IEEE doubles, NaN and the infinities included.
pub mod Fixed
use Prim.Native.String.{String}
use blend_pos.Prelude.{ℕ, ◌≡◌, Bool, true, false, ℤ, pos, if◌then◌else◌}

pub record Number (W : Type 0) : Type 0 where
  pub of_ℤ : ℤ → W
  pub add : W → W → W
  pub sub : W → W → W
  pub mul : W → W → W
  pub div : W → W → W
  -- `Math.min` and `Math.max`
  pub min : W → W → W
  pub max : W → W → W
  -- `<`, `<=` and `===`
  pub lt : W → W → Bool
  pub le : W → W → Bool
  pub eq : W → W → Bool
  -- false for 0 and NaN
  pub truthy : W → Bool
  pub parse_float : String → W

module _ {W : Type 0} ⦃d : Number W⦄ where
  -- the literal `n`
  abbrev pub num : ℕ → W
  num n = d.of_ℤ (pos n)

  -- `x || y`
  abbrev pub or_else : W → W → W
  or_else x y = if d.truthy x then x else y

-- Multiplying by 1 and dividing 0 are exact.
pub record HasUnits (W : Type 0) ⦃d : Number W⦄ : Type 0 where
  pub one-mul : (x : W) → d.mul (num 1) x ≡ x
  pub mul-one : (x : W) → d.mul x (num 1) ≡ x
  pub zero-div : d.div (num 0) (num 100) ≡ num 0
  pub sub-zero : d.sub (num 1) (num 0) ≡ num 1
  pub max-self : d.max (num 0) (num 0) ≡ num 0
  pub zero_falsy : d.truthy (num 0) ≡ false

-- `Math.min(b, Math.max(a, x))` lies between the bounds as soon as it compares at all (it is NaN
-- when `x` is), and `<` chains.
pub record IsClamped (W : Type 0) ⦃d : Number W⦄ : Type 0 where
  pub clamp-le :
      (x y : W)
      → d.lt y (d.min (num 100) (d.max (num 0) x)) ≡ true
      → d.le (d.min (num 100) (d.max (num 0) x)) (num 100) ≡ true
  pub lt_trans : (x y z : W) → d.lt x y ≡ true → d.lt y z ≡ true → d.lt x z ≡ true
