-- ===== src/Text.antt =====
-- The text that the driver and the server exchange, as lists of bytes: what the C++ and Python code uses
-- of `operator<<`, `str`, `sscanf` and `split`. The conversions of `sscanf` skip white space, read as far
-- as they can, and are undefined for a number outside the type, and for a word that does not fit the
-- buffer with its closing 0.
pub mod Numbers
pub mod Words
use network_ping_test.Base.{
  ℕ, zero, suc, ◌+◌, ◌-◌, ◌*◌, ◌/◌, ◌%◌, ◌^◌, List, [], ◌∷◌, ◌++◌, Bool, true, false, not, ◌&&◌,
  ◌||◌, leb, ltb, ◌==◌, if◌then◌else◌, length, Option, none, some,
}
use network_ping_test.Base.Int.{ℤ, pos, negsuc}
use network_ping_test.Wait.{to_unsigned}

abbrev pub Bytes : Type 0
Bytes = List ℕ

-- `isspace` and `isdigit` in the C locale.
unfoldable pub is_space : ℕ → Bool
is_space c = c == b' ' || (leb 9 c && leb c 13)

pub is_digit : ℕ → Bool
is_digit c = leb b'0' c && leb c b'9'

-- The decimal digits of n before `out`. A 64-bit number has at most 20.
unfoldable pub digits : ℕ → ℕ → Bytes → Bytes
digits zero n out = out
digits (suc k) n out =
    let rest = digits k (n / 10) ((b'0' + n % 10) ∷ out) in
    if n / 10 == 0 then (b'0' + n % 10) ∷ out else rest

unfoldable pub show : ℕ → Bytes
unfolding digits
show n = digits 20 n []

unfoldable pub show_ℤ : ℤ → Bytes
unfolding show
show_ℤ (pos n) = show n
show_ℤ (negsuc n) = b'-' ∷ show (suc n)

pub skip_space : Bytes → Bytes
unfolding is_space
skip_space [] = []
skip_space (c ∷ s) = let rest = skip_space s in if is_space c then rest else c ∷ s

-- The digits that follow the digits that spell n, and what is left.
pub scan_digits : Bytes → ℕ → ℕ × Bytes
unfolding is_digit
scan_digits [] n = (n, [])
scan_digits (c ∷ s) n =
    let rest = scan_digits s (n * 10 + (c - b'0')) in if is_digit c then rest else (n, c ∷ s)

pub data Scanned (A : Type 0) : Type 0 where
  matched : A → Bytes → Scanned A
  mismatched undefined : Scanned A

abbrev pub Scanner : Type 0 → Type 0
Scanner A = Bytes → Scanned A

abbrev pub proceed : {A B : Type 0} → (A → Scanner B) → Scanned A → Scanned B
proceed f (matched a s) = f a s
proceed f mismatched = mismatched
proceed f undefined = undefined

infixl 5 ◌>>=◌
abbrev pub ◌>>=◌ : {A B : Type 0} → Scanner A → (A → Scanner B) → Scanner B
◌>>=◌ m f s = proceed f (m s)

abbrev pub yield : {A : Type 0} → A → Scanner A
yield a s = matched a s

-- One digit or more.
abbrev pub scan_natural : Scanner ℕ
unfolding scan_digits
scan_natural [] = mismatched
scan_natural (c ∷ s) =
    if is_digit c then matched (scan_digits (c ∷ s) 0).0 (scan_digits (c ∷ s) 0).1 else mismatched

abbrev pub negated : ℕ → ℤ
negated zero = pos 0
negated (suc n) = negsuc n

-- An optional sign.
abbrev pub scan_signed : Scanner ℤ
unfolding scan_natural
scan_signed [] = mismatched
scan_signed (c ∷ s) =
    if c == b'-'
    then proceed (λ n. yield (negated n)) (scan_natural s)
    else (if c == b'+'
        then proceed (λ n. yield (pos n)) (scan_natural s)
        else proceed (λ n. yield (pos n)) (scan_natural (c ∷ s)))

abbrev pub is_int : ℤ → Bool
is_int (pos n) = ltb n (2 ^ 31)
is_int (negsuc n) = ltb n (2 ^ 31)

-- `%d`
pub scan_int : Scanner ℤ
unfolding scan_signed skip_space
scan_int s =
    proceed (λ z rest. if is_int z then matched z rest else undefined) (scan_signed (skip_space s))

-- A magnitude that `unsigned long` holds.
abbrev pub is_ulong : ℤ → Bool
is_ulong (pos n) = ltb n (2 ^ 64)
is_ulong (negsuc n) = ltb (suc n) (2 ^ 64)

-- `%lu`: a sign is allowed, and negates modulo 2 ^ 64.
pub scan_ulong : Scanner ℕ
unfolding scan_signed skip_space
scan_ulong s =
    proceed (λ z rest. if is_ulong z then matched (to_unsigned z) rest else undefined)
      (scan_signed (skip_space s))

-- The bytes up to white space, and the rest.
pub span_word : Bytes → Bytes × Bytes
unfolding is_space
span_word [] = ([], [])
span_word (c ∷ s) =
    let rest = span_word s in if is_space c then ([], c ∷ s) else (c ∷ rest.0, rest.1)

-- `%s` into an array of `size` bytes.
abbrev pub put_word : ℕ → Bytes × Bytes → Scanned Bytes
put_word size ([], rest) = mismatched
put_word size (c ∷ w, rest) = if ltb (length (c ∷ w)) size then matched (c ∷ w) rest else undefined

pub scan_word : ℕ → Scanner Bytes
unfolding skip_space span_word
scan_word size s = put_word size (span_word (skip_space s))
