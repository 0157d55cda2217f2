-- ===== src/Latency/Smear.antt =====
-- The six shifts of `log2_64` turn a number with k + 1 binary digits into 2 ^ (k + 1) - 1.
use native.Mathlib.Nat.{div-div-eq-div-mul, pow-suc, pow-succ'}
use network_ping_test.Base.{
  ℕ, zero, suc, ◌+◌, ◌/◌, ◌%◌, ◌^◌, ◌≤◌, ◌<◌, max, ◌≢◌, ◌≡◌, refl, ap, ◌∙◌, sym, arith,
}
use network_ping_test.Base.Bits.{bit_or_half, bit_or_low}
use network_ping_test.Latency.{or_shift, smear}

-- `f` commutes with halving.
abbrev Halves : (ℕ → ℕ) → Type 0
Halves f = (v : ℕ) → f v / 2 ≡ f (v / 2)

-- The lowest bit of `f v` is clear just when the `m` residue of `v` is 0.
abbrev Window : ℕ → (ℕ → ℕ) → Type 0
Window m f = (v : ℕ) → (f v % 2 ≡ 0 → v % m ≡ 0) × (v % m ≡ 0 → f v % 2 ≡ 0)

div-suc : (v s : ℕ) → v / 2 ^ suc s ≡ v / 2 / 2 ^ s
div-suc v s = rw (pow-succ' 2 s) (sym (div-div-eq-div-mul v 2 (2 ^ s)))

Halves-shift : (f : ℕ → ℕ) → Halves f → (s v : ℕ) → f v / 2 ^ s ≡ f (v / 2 ^ s)
Halves-shift f h zero v = omega (arith, ap f (shift_zero v))
  where
    shift_zero : (w : ℕ) → w ≡ w / 2 ^ 0
    shift_zero w = omega arith
Halves-shift f h (suc s) v = rw (div-suc (f v) s, div-suc v s, h v) (Halves-shift f h s (v / 2))

or_shift-Halves : (f : ℕ → ℕ) (s : ℕ) → Halves f → Halves (λ v. or_shift s (f v))
unfolding or_shift
or_shift-Halves f s h v =
    rw (bit_or_half (f v) (f v / 2 ^ s), ← div-suc' (f v), div-suc (f v) s, h v) refl
  where
    div-suc' : (w : ℕ) → w / 2 ^ suc s ≡ w / 2 ^ s / 2
    div-suc' w = rw (pow-suc 2 s) (sym (div-div-eq-div-mul w (2 ^ s) 2))

-- How a residue by `q` splits into two residues by `p`.
abbrev Splits : ℕ → ℕ → Type 0
Splits p q =
    (v : ℕ) → (v % p ≡ 0 → v / p % p ≡ 0 → v % q ≡ 0) × (v % q ≡ 0 → (v % p ≡ 0) × (v / p % p ≡ 0))

or_shift-Window :
    (f : ℕ → ℕ) (s q : ℕ)
    → Halves f
    → Splits (2 ^ s) q
    → Window (2 ^ s) f
    → Window q (λ v. or_shift s (f v))
unfolding or_shift
or_shift-Window f s q h split w v = (
  λ e. (split v).0 ((w v).0 (omega (arith, low))) ((w (v / 2 ^ s)).0 (omega (arith, low))),
  λ e.
      let (here, above) = (split v).1 e in
      omega (arith, low, (w v).1 here, (w (v / 2 ^ s)).1 above),
)
  where
    low : or_shift s (f v) % 2 ≡ max (f v % 2) (f (v / 2 ^ s) % 2)
    low =
        bit_or_low (f v) (f v / 2 ^ s)
        ∙ ap (λ (n : ℕ). max (f v % 2) (n % 2)) (Halves-shift f h s v)

-- The stages of `smear`.
record Stage (m : ℕ) (f : ℕ → ℕ) : Type 0 where
  halves : Halves f
  window : Window m f

next-Stage :
    (f : ℕ → ℕ) (s q : ℕ) → Splits (2 ^ s) q → Stage (2 ^ s) f → Stage q (λ v. or_shift s (f v))
next-Stage f s q split st = record {
  halves = or_shift-Halves f s st.halves;
  window = or_shift-Window f s q st.halves split st.window;
}

smear-Stage : Stage (2 ^ 64) smear
unfolding smear
smear-Stage =
    next-Stage _ 32 (2 ^ 64) (λ v. omega arith)
      (next-Stage _ 16 (2 ^ 32) (λ v. omega arith)
        (next-Stage _ 8 (2 ^ 16) (λ v. omega arith)
          (next-Stage _ 4 (2 ^ 8) (λ v. omega arith)
            (next-Stage _ 2 (2 ^ 4) (λ v. omega arith)
              (next-Stage (λ v. v) 1 (2 ^ 2) (λ v. omega arith)
                (record { halves = λ v. refl; window = λ v. omega arith }))))))

smear_odd : (v : ℕ) → 0 < v → v < 2 ^ 64 → smear v % 2 ≡ 1
smear_odd v pos small = odd (zero_of (smear-Stage.window v).0)
  where
    zero_of : (smear v % 2 ≡ 0 → v % 2 ^ 64 ≡ 0) → smear v % 2 ≡ 0 → ⊥
    zero_of w e = omega (arith, w e)

    odd : smear v % 2 ≢ 0 → smear v % 2 ≡ 1
    odd ne = omega arith

-- On 64 bits `smear` of a number with k + 1 digits is k + 1 ones.
pub smear_lem : (k v : ℕ) → v < 2 ^ 64 → 2 ^ k ≤ v → v < 2 ^ suc k → smear v + 1 ≡ 2 ^ suc k
unfolding smear or_shift
smear_lem zero v h lo hi = rw one refl
  where
    one : v ≡ 1
    one = omega arith
smear_lem (suc k) v h lo hi =
    let below : smear (v / 2) + 1 ≡ 2 ^ suc k =
      smear_lem k (v / 2) (omega arith) (omega (arith, pow-succ' 2 k))
        (omega (arith, pow-succ' 2 (suc k))) in
    omega (arith, pow-succ' 2 (suc k), smear-Stage.halves v, smear_odd v (omega arith) h)
