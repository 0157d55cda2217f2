-- ===== src/Latency/Tests.antt =====
-- `log2_64` on concrete values.
use network_ping_test.Base.{ℕ, suc, ◌^◌, ◌≤◌, ◌<◌, ◌≡◌, refl, some, arith}
use network_ping_test.Latency.{log2_64, slot, smear, or_shift}
use network_ping_test.Latency.Log2.{log2_64_lem}

-- 0 has no logarithm, and falls into the last bucket.
log2_64_zero : log2_64 0 ≡ some 63
unfolding log2_64 smear slot or_shift
log2_64_zero = refl

log2_64_largest : log2_64 0xFFFFFFFFFFFFFFFF ≡ some 63
unfolding log2_64 smear slot or_shift
log2_64_largest = refl

log2_64_lem_example : (k : ℕ) × (log2_64 1000 ≡ some k) × (2 ^ k ≤ 1000) × (1000 < 2 ^ suc k)
log2_64_lem_example = log2_64_lem 1000 (omega arith) (omega arith)
