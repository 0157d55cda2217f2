-- ===== src/Latency/Log2.antt =====
-- `log2_64` is the integer part of the base 2 logarithm.
use network_ping_test.Base.{
  ℕ, zero, suc, ◌-◌, ◌^◌, ◌≤◌, ◌<◌, ◌≡◌, refl, Bool, true, false, ◌&&◌, none, some, get_elem?,
  dec_lt, arith, ◌==◌,
}
use network_ping_test.Latency.{log2_64, slot, smear, tab64}
use network_ping_test.Latency.Smear.{smear_lem}

-- The table read at the slot of k + 1 ones.
hit : ℕ → Bool
unfolding slot
hit k = elim (get_elem? tab64 (slot (2 ^ suc k - 1))) [ none ↦ false | some r ↦ r == k ]

hits : ℕ → Bool
hits zero = true
hits (suc n) = hit n && hits n

hits_all : hits 64 ≡ true
unfolding hits hit
hits_all = refl

hits-at : (n k : ℕ) → hits n ≡ true → k < n → hit k ≡ true
unfolding hits
hits-at zero k h lt = absurd (omega arith)
hits-at (suc n) k h lt = ground (arith, hits-at n k)

hit_lem : (k : ℕ) → hit k ≡ true → get_elem? tab64 (slot (2 ^ suc k - 1)) ≡ some k
unfolding hit
hit_lem k h = ground arith

-- The place of the highest digit.
digit : (n v : ℕ) → 0 < v → v < 2 ^ n → (k : ℕ) × (k < n) × (2 ^ k ≤ v) × (v < 2 ^ suc k)
digit zero v pos small = absurd (omega arith)
digit (suc n) v pos small = elim (dec_lt v (2 ^ n)) [
  | yes below ↦ let (k, lt, lo, hi) = digit n v pos below in (k, omega arith, lo, hi)
  | no top ↦ (n, omega arith, omega arith, small)
]

-- For every positive 64-bit value `log2_64` reads inside its table and returns the k with
-- 2 ^ k ≤ value < 2 ^ (k + 1).
pub log2_64_lem :
    (v : ℕ) → 0 < v → v < 2 ^ 64 → (k : ℕ) × (log2_64 v ≡ some k) × (2 ^ k ≤ v) × (v < 2 ^ suc k)
unfolding log2_64
log2_64_lem v pos small =
    let (k, lt, lo, hi) = digit 64 v pos small in
    let ones : smear v ≡ 2 ^ suc k - 1 = omega (arith, smear_lem k v small lo hi) in
    (k, rw ones (hit_lem k (hits-at 64 k hits_all lt)), lo, hi)
