-- ===== src/Text/Words.antt =====
-- Words are read back.
use mathlib.Core.List.{append-nil}
use network_ping_test.Base.{subst, ◌≢◌}
use network_ping_test.Text.{undefined}
use network_ping_test.Base.{
  inl, inr, ◌==◌, ◌/◌, ◌%◌, ℕ, zero, suc, ◌+◌, ◌≤◌, ◌<◌, ◌≡◌, ◌≢◌, refl, [], ◌∷◌, ◌++◌, true, false,
  length, arith, All, Bool-cases,
}
use network_ping_test.Text.{
  Bytes, is_space, skip_space, span_word, scan_word, put_word, matched, show, digits,
}

abbrev pub IsWordByte : ℕ → Type 0
IsWordByte c = is_space c ≡ false

-- A text that ends a word: empty, or one that begins with white space.
abbrev pub EndsWord : Bytes → Type 0
EndsWord [] = Unit
EndsWord (c ∷ s) = is_space c ≡ true

pub space-EndsWord : (s : Bytes) → EndsWord (b' ' ∷ s)
unfolding is_space
space-EndsWord s = refl

span_word-EndsWord : (tail : Bytes) → EndsWord tail → span_word tail ≡ ([], tail)
unfolding span_word
span_word-EndsWord [] h = refl
span_word-EndsWord (c ∷ s) h = rw h refl

pub span_word-append :
    (w tail : Bytes) → All IsWordByte w → EndsWord tail → span_word (w ++ tail) ≡ (w, tail)
unfolding span_word
span_word-append [] tail a h = span_word-EndsWord tail h
span_word-append (c ∷ w) tail a h = rw (a.0, span_word-append w tail a.1 h) refl

-- `%s` reads a word back that fits the array with its closing 0.
pub scan_word-append :
    (size c : ℕ) (w tail : Bytes)
    → All IsWordByte (c ∷ w)
    → EndsWord tail
    → length (c ∷ w) < size
    → scan_word size ((c ∷ w) ++ tail) ≡ matched (c ∷ w) tail
unfolding scan_word skip_space
scan_word-append size c w tail a h fits =
    let read = span_word-append (c ∷ w) tail a h in rw (a.0, read) (ground arith)

-- A printed number is a word.
digits-IsWordByte : (k n : ℕ) (out : Bytes) → All IsWordByte out → All IsWordByte (digits k n out)
unfolding digits is_space
digits-IsWordByte zero n out a = a
digits-IsWordByte (suc k) n out a = elim (Bool-cases (n / 10 == 0)) [
  | inl e ↦ rw e (digit_byte n, a)
  | inr e ↦ rw e (digits-IsWordByte k (n / 10) ((b'0' + n % 10) ∷ out) (digit_byte n, a))
]
  where
    digit_byte : (m : ℕ) → is_space (b'0' + m % 10) ≡ false
    digit_byte m = ground arith

pub show-IsWordByte : (n : ℕ) → All IsWordByte (show n)
unfolding show
show-IsWordByte n = digits-IsWordByte 20 n [] tt

length-skip_space : (s : Bytes) → length (skip_space s) ≤ length s
unfolding skip_space
length-skip_space [] = omega arith
length-skip_space (c ∷ s) = ground (arith, length-skip_space s)

length-span_word : (s : Bytes) → length (span_word s).0 ≤ length s
unfolding span_word
length-span_word [] = omega arith
length-span_word (c ∷ s) = ground (arith, length-span_word s)

put_fits : (size : ℕ) (r : Bytes × Bytes) → length r.0 < size → put_word size r ≢ undefined
put_fits size ([], rest) h e = cc
put_fits size (c ∷ w, rest) h e = ground arith

-- A text that is shorter than the array does not overflow it.
pub scan_word-ne-undefined : (size : ℕ) (s : Bytes) → length s < size → scan_word size s ≢ undefined
unfolding scan_word
scan_word-ne-undefined size s h =
    put_fits size (span_word (skip_space s))
      (omega (arith, length-span_word (skip_space s), length-skip_space s))

-- A word that fills the array leaves no place for its closing 0.
pub scan_word-overflow :
    (size c : ℕ) (w : Bytes)
    → All IsWordByte (c ∷ w)
    → size ≤ length (c ∷ w)
    → scan_word size (c ∷ w) ≡ undefined
unfolding scan_word skip_space
scan_word-overflow size c w a long =
    let read : span_word (c ∷ w) ≡ (c ∷ w, []) =
      subst (λ x. span_word x ≡ (c ∷ w, [])) (append-nil (c ∷ w))
        (span_word-append (c ∷ w) [] a tt) in
    rw (a.0, read) (ground arith)
