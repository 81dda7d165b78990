-- ===== src/Offline/Sync/Backoff.antt =====
-- How long a row waits between attempts (frontend/src/offline/sync.ts).
use Prim.Native.Nat.{min}
use native.Mathlib.Nat.{pow-suc, mul-le-mul, le_refl}
use blend_pos.Prelude.{ℕ, zero, suc, ◌+◌, ◌-◌, ◌*◌, ◌/◌, ◌^◌, ◌≤◌, ◌<◌, ◌≡◌, arith}
use blend_pos.Offline.Sync.{compute_backoff_ms}

scaled_bounds :
    (base random : ℕ)
    → base * random ≤ base * 2 ^ 53
    → let wait = min 300000 (base * (5 * 2 ^ 52 + random) / 2 ^ 54) in
      (wait ≤ 300000) × (min 300000 (base + base / 4) ≤ wait) × (4 * wait ≤ 7 * base)
scaled_bounds base random h = omega arith

scaled_grows :
    (p r r' : ℕ)
    → p * r ≤ p * 2 ^ 53
    → min 300000 (5000 * p * (5 * 2 ^ 52 + r) / 2 ^ 54)
      ≤ min 300000 (5000 * (p * 2) * (5 * 2 ^ 52 + r') / 2 ^ 54)
scaled_grows p r r' h = omega arith

below : (p : ℕ) {r : ℕ} → r < 2 ^ 53 → p * r ≤ p * 2 ^ 53
below p h = mul-le-mul (le_refl p) (omega arith)

-- The wait never passes five minutes, is at least 5/4 of the doubled base or five minutes, and stays
-- below 7/4 of it, whatever `Math.random()` gives.
pub compute_backoff_ms_bounds :
    (tries random : ℕ)
    → random < 2 ^ 53
    → let base = 5000 * 2 ^ (tries - 1) in
      (compute_backoff_ms tries random ≤ 300000)
      × (min 300000 (base + base / 4) ≤ compute_backoff_ms tries random)
      × (4 * compute_backoff_ms tries random ≤ 7 * base)
unfolding compute_backoff_ms
compute_backoff_ms_bounds tries random h =
    let base = 5000 * 2 ^ (tries - 1) in scaled_bounds base random (below base h)

-- A later attempt never waits less than an earlier one, whatever the two random numbers are.
pub compute_backoff_ms_grows :
    (tries r r' : ℕ)
    → 1 ≤ tries
    → r < 2 ^ 53
    → compute_backoff_ms tries r ≤ compute_backoff_ms (tries + 1) r'
unfolding compute_backoff_ms
compute_backoff_ms_grows zero r r' t h = elim t [ ]
compute_backoff_ms_grows (suc n) r r' t h =
    let now : suc n - 1 ≡ n = omega arith in
    let later : suc n + 1 - 1 ≡ suc n = omega arith in
    rw (now, later, pow-suc 2 n) (scaled_grows (2 ^ n) r r' (below (2 ^ n) h))
