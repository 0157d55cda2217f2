-- ===== src/Latency.antt =====
-- server.cpp, `log2_64`: the bucket of a latency, by a multiplication and a table.
pub mod Smear
pub mod Log2
mod Tests
use Prim.Native.Nat.{bit_or}
use network_ping_test.Base.{ℕ, ◌+◌, ◌-◌, ◌*◌, ◌/◌, ◌%◌, ◌^◌, List, [], ◌∷◌, Option, get_elem?}

abbrev pub tab64 : List ℕ
tab64 =
    63 ∷ 0 ∷ 58 ∷ 1 ∷ 59 ∷ 47 ∷ 53 ∷ 2 ∷ 60 ∷ 39 ∷ 48 ∷ 27 ∷ 54 ∷ 33 ∷ 42 ∷ 3 ∷ 61 ∷ 51 ∷ 37 ∷ 40
    ∷ 49 ∷ 18 ∷ 28 ∷ 20 ∷ 55 ∷ 30 ∷ 34 ∷ 11 ∷ 43 ∷ 14 ∷ 22 ∷ 4 ∷ 62 ∷ 57 ∷ 46 ∷ 52 ∷ 38 ∷ 26 ∷ 32
    ∷ 41 ∷ 50 ∷ 36 ∷ 17 ∷ 19 ∷ 29 ∷ 10 ∷ 13 ∷ 21 ∷ 56 ∷ 45 ∷ 25 ∷ 31 ∷ 35 ∷ 16 ∷ 9 ∷ 12 ∷ 44 ∷ 24
    ∷ 15 ∷ 8 ∷ 23 ∷ 7 ∷ 6 ∷ 5 ∷ []

-- `value |= value >> s`
pub or_shift : ℕ → ℕ → ℕ
or_shift s value = bit_or value (value / 2 ^ s)

-- The six lines that copy the highest bit into all lower ones.
pub smear : ℕ → ℕ
unfolding or_shift
smear value = or_shift 32 (or_shift 16 (or_shift 8 (or_shift 4 (or_shift 2 (or_shift 1 value)))))

-- `((uint64_t)((value - (value >> 1)) * 0x07EDD5E59A4E28C2)) >> 58`
pub slot : ℕ → ℕ
slot value = (((value + 2 ^ 64 - value / 2) % 2 ^ 64) * 0x07EDD5E59A4E28C2) % 2 ^ 64 / 2 ^ 58

-- `none` would be a read outside the table.
pub log2_64 : ℕ → Option ℕ
unfolding smear slot
log2_64 value = get_elem? tab64 (slot (smear value))
