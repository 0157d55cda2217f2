-- ===== src/Text/Numbers.antt =====
-- Numbers are read back from their print.
use mathlib.Core.List.{append-nil}
use network_ping_test.Base.{
  ℕ, zero, suc, ◌+◌, ◌*◌, ◌/◌, ◌%◌, ◌^◌, ◌<◌, ◌≡◌, refl, ◌∙◌, [], ◌∷◌, ◌++◌, true, false, ◌==◌,
  arith, Bool-cases, inl, inr, ap, sym, subst,
}
use network_ping_test.Base.Int.{ℤ, pos, negsuc}
use network_ping_test.Text.{
  Bytes, is_space, is_digit, digits, show, show_ℤ, skip_space, scan_digits, matched, scan_natural,
  scan_signed, scan_int, scan_ulong, is_int, negated,
}

-- A text that ends a number: empty, or one that begins with no digit.
abbrev pub Stops : Bytes → Type 0
Stops [] = Unit
Stops (c ∷ s) = is_digit c ≡ false

pub space-Stops : (s : Bytes) → Stops (b' ' ∷ s)
unfolding is_digit
space-Stops s = refl

scan_digits-Stops : (tail : Bytes) (n : ℕ) → Stops tail → scan_digits tail n ≡ (n, tail)
unfolding scan_digits
scan_digits-Stops [] n h = refl
scan_digits-Stops (c ∷ s) n h = rw h refl

digit_step :
    (d : ℕ) (s : Bytes) (n : ℕ)
    → d < 10
    → scan_digits ((b'0' + d) ∷ s) n ≡ scan_digits s (n * 10 + d)
unfolding scan_digits is_digit
digit_step d s n h = ground arith

scan_digits-digits :
    (k n : ℕ) (out tail : Bytes)
    → n < 10 ^ k
    → scan_digits (digits k n out ++ tail) 0 ≡ scan_digits (out ++ tail) n
unfolding digits
scan_digits-digits zero n out tail h = ap (scan_digits (out ++ tail)) {x = 0} {y = n} (omega arith)
scan_digits-digits (suc k) n out tail h = elim (Bool-cases (n / 10 == 0)) [
  | inl e ↦
      rw e (
        digit_step (n % 10) (out ++ tail) 0 (omega arith)
        ∙ ap (scan_digits (out ++ tail)) (small e))
  | inr e ↦ rw e (
      scan_digits-digits k (n / 10) ((b'0' + n % 10) ∷ out) tail (omega arith)
      ∙ (digit_step (n % 10) (out ++ tail) (n / 10) (omega arith)
          ∙ ap (scan_digits (out ++ tail)) whole))
]
  where
    small : (n / 10 == 0) ≡ true → 0 * 10 + n % 10 ≡ n
    small e = ground arith

    whole : n / 10 * 10 + n % 10 ≡ n
    whole = omega arith

is_digit_of : (n : ℕ) → is_digit (b'0' + n % 10) ≡ true
unfolding is_digit
is_digit_of n = ground arith

-- The print begins with a digit.
digits-head :
    (k n : ℕ) (out : Bytes)
    → (c : ℕ) × (s : Bytes) × (digits (suc k) n out ≡ c ∷ s) × (is_digit c ≡ true)
unfolding digits
digits-head zero n out = elim (Bool-cases (n / 10 == 0)) [
  | inl e ↦ rw e (b'0' + n % 10, out, refl, is_digit_of n)
  | inr e ↦ rw e (b'0' + n % 10, out, refl, is_digit_of n)
]
digits-head (suc k) n out = elim (Bool-cases (n / 10 == 0)) [
  | inl e ↦ rw e (b'0' + n % 10, out, refl, is_digit_of n)
  | inr e ↦ rw e (digits-head k (n / 10) ((b'0' + n % 10) ∷ out))
]

not_space : (c : ℕ) → is_digit c ≡ true → is_space c ≡ false
unfolding is_digit is_space
not_space c d = ground arith

not_sign : (c : ℕ) → is_digit c ≡ true → ((c == b'-') ≡ false) × ((c == b'+') ≡ false)
unfolding is_digit
not_sign c d = (ground arith, ground arith)

-- What the scanners make of a text that begins with a digit and reads as n.
module _ (c : ℕ) (s : Bytes) (n : ℕ) (tail : Bytes) (d : is_digit c ≡ true)
    (reads : scan_digits (c ∷ s) 0 ≡ (n, tail)) where
  natural_of : scan_natural (c ∷ s) ≡ matched n tail
  unfolding scan_natural
  natural_of = rw d (λ i. matched ((rw d at reads) i).0 ((rw d at reads) i).1)

  skip_none : skip_space (c ∷ s) ≡ c ∷ s
  unfolding skip_space
  skip_none = rw (not_space c d) refl

  signed_of : scan_signed (c ∷ s) ≡ matched (pos n) tail
  unfolding scan_signed
  signed_of = rw ((not_sign c d).0, (not_sign c d).1, natural_of) refl

  negative_of : scan_signed (b'-' ∷ c ∷ s) ≡ matched (negated n) tail
  unfolding scan_signed
  negative_of = rw natural_of refl

-- A number that is printed before a text that ends numbers.
pub show-reads :
    (n : ℕ) (tail : Bytes)
    → n < 2 ^ 64
    → Stops tail
    → (c : ℕ) × (s : Bytes) × (show n ++ tail ≡ c ∷ s)
      × (is_digit c ≡ true)
      × (scan_digits (c ∷ s) 0 ≡ (n, tail))
unfolding show
show-reads n tail h stops =
    let (c, s, e, d) = digits-head 19 n [] in
    let starts : digits 20 n [] ++ tail ≡ c ∷ (s ++ tail) = ap (λ x. x ++ tail) e in
    (
      c,
      s ++ tail,
      starts,
      d,
      ap (λ x. scan_digits x 0) (sym starts)
          ∙ (scan_digits-digits 20 n [] tail (omega arith) ∙ scan_digits-Stops tail n stops),
    )

-- `%d` reads an `int` back from its print, after a space and before a text that ends numbers.
pub scan_int-show :
    (z : ℤ) (tail : Bytes)
    → is_int z ≡ true
    → Stops tail
    → scan_int (b' ' ∷ (show_ℤ z ++ tail)) ≡ matched z tail
unfolding scan_int show_ℤ skip_space is_space
scan_int-show (pos n) tail h stops =
    let (c, s, e, d, reads) = show-reads n tail (ground arith) stops in
    rw (e, skip_none c s n tail d reads, signed_of c s n tail d reads, h)
scan_int-show (negsuc n) tail h stops =
    let (c, s, e, d, reads) = show-reads (suc n) tail (ground arith) stops in
    rw (e, negative_of c s (suc n) tail d reads, h)

-- `%lu` the same.
pub scan_ulong-show :
    (n : ℕ) (tail : Bytes)
    → n < 2 ^ 64
    → Stops tail
    → scan_ulong (b' ' ∷ (show n ++ tail)) ≡ matched n tail
unfolding scan_ulong skip_space is_space
scan_ulong-show n tail h stops =
    let (c, s, e, d, reads) = show-reads n tail h stops in
    rw (e, skip_none c s n tail d reads, signed_of c s n tail d reads) (ground arith)

pub scan_signed-show : (n : ℕ) → n < 2 ^ 64 → scan_signed (show n) ≡ matched (pos n) []
unfolding scan_signed
scan_signed-show n h =
    let (c, s, e, d, reads) = show-reads n [] h tt in
    subst (λ x. scan_signed x ≡ matched (pos n) []) (append-nil (show n))
      (subst (λ x. scan_signed x ≡ matched (pos n) []) (sym e) (signed_of c s n [] d reads))

-- The print has a first byte.
pub show-cons : (n : ℕ) → (c : ℕ) × (s : Bytes) × (show n ≡ c ∷ s)
unfolding show
show-cons n = let (c, s, e, d) = digits-head 19 n [] in (c, s, e)
