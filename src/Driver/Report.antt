-- ===== src/Driver/Report.antt =====
-- The server's report, as the driver reads it.
use mathlib.Core.List.{map}
use network_ping_test.Base.{
  ℕ, suc, ◌^◌, ◌<◌, ◌≡◌, refl, ap, ◌∙◌, List, [], ◌∷◌, ◌++◌, false, length, drop, arith, All, some,
  All-append,
}
use network_ping_test.Base.Int.{pos, ◌+ℤ◌}
use network_ping_test.Text.{Bytes, is_space, show}
use network_ping_test.Text.Numbers.{scan_signed-show, show-cons}
use network_ping_test.Text.Words.{IsWordByte, EndsWord, space-EndsWord, show-IsWordByte}
use network_ping_test.Driver.{
  split, prepend, int_of, ints_of, slice_1_to, slice_from, twice, with_ints, of_tokens, run_stats,
  RunStats,
}
use network_ping_test.Driver.Entries.{
  flat, as_items, put_entries-flat, length-flat, take-map, drop-map, zip-flat, Distinct,
  dict-Distinct,
}
use network_ping_test.Server.Protocol.{TestResult, serialize_to_str, put_numbers}

split-space : (s : Bytes) → split (b' ' ∷ s) ≡ split s
unfolding split
split-space s = rw (space-EndsWord s)

split-EndsWord :
    (tail : Bytes) (c : ℕ)
    → is_space c ≡ false
    → EndsWord tail
    → split (c ∷ tail) ≡ (c ∷ []) ∷ split tail
unfolding split
split-EndsWord [] c h e = rw h refl
split-EndsWord (d ∷ tail) c h e = rw (h, e) refl

split-word :
    (c : ℕ) (w tail : Bytes)
    → All IsWordByte (c ∷ w)
    → EndsWord tail
    → split ((c ∷ w) ++ tail) ≡ (c ∷ w) ∷ split tail
unfolding split
split-word c [] tail a e = split-EndsWord tail c a.0 e
split-word c (d ∷ w) tail a e =
    rw (a.0, a.1.0) (ap (prepend c) (rw a.1.0 at (split-word d w tail a.1 e)))

-- The words of a number and what follows.
split-show : (n : ℕ) (tail : Bytes) → EndsWord tail → split (show n ++ tail) ≡ show n ∷ split tail
split-show n tail e =
    let (c, s, starts) = show-cons n in
    rw starts (split-word c s tail (rw starts at (show-IsWordByte n)) e)

put_numbers-EndsWord : (ns : List ℕ) → EndsWord (put_numbers ns [])
put_numbers-EndsWord [] = tt
put_numbers-EndsWord (n ∷ ns) = space-EndsWord (show n ++ put_numbers ns [])

split-put_numbers : (ns : List ℕ) → split (put_numbers ns []) ≡ map show ns
unfolding split
split-put_numbers [] = refl
split-put_numbers (n ∷ ns) =
    split-space (show n ++ put_numbers ns [])
    ∙ (split-show n (put_numbers ns []) (put_numbers-EndsWord ns)
        ∙ ap (λ ws. show n ∷ ws) (split-put_numbers ns))

abbrev pub Fits : ℕ → Type 0
Fits n = n < 2 ^ 64

int_of-show : (n : ℕ) → Fits n → int_of (show n) ≡ some (pos n)
int_of-show n h = rw (scan_signed-show n h)

ints_of-show : (ns : List ℕ) → All Fits ns → ints_of (map show ns) ≡ some (map pos ns)
unfolding ints_of
ints_of-show [] a = refl
ints_of-show (n ∷ ns) a = rw (int_of-show n a.0, ints_of-show ns a.1) refl

-- A report that the driver can read: each number fits 64 bits, no two entries of the histogram have the
-- same key, and the base is one word.
pub record IsReport (base : Bytes) (r : TestResult) : Type 0 where
  pub first : ℕ
  pub others : Bytes
  pub base_text : base ≡ first ∷ others
  pub word : All IsWordByte (first ∷ others)
  pub mcount : Fits r.mcount
  pub entries : All Fits (flat r.lat_map)
  pub size : Fits (length r.lat_map)
  pub percentiles : All Fits r.percentiles
  pub count : Fits (length r.percentiles)
  pub distinct : Distinct r.lat_map

abbrev pub stats_of : Bytes → TestResult → RunStats
stats_of base r = record {
  msg_processed = pos r.mcount;
  lat_base = base;
  lat_distribution = as_items r.lat_map;
  percentiles = map pos r.percentiles;
}

-- The numbers after the base.
abbrev numbers : TestResult → List ℕ
numbers r = length r.lat_map ∷ (flat r.lat_map ++ length r.percentiles ∷ r.percentiles)

length-map : (xs : List ℕ) → length (map pos xs) ≡ length xs
length-map [] = refl
length-map (x ∷ xs) = ap suc (length-map xs)

tokens :
    (base : Bytes) (r : TestResult)
    → IsReport base r
    → split (serialize_to_str base r) ≡ show r.mcount ∷ base ∷ map show (numbers r)
unfolding serialize_to_str
tokens base r v = rw (put_entries-flat r.lat_map (length r.percentiles ∷ r.percentiles)) (
    split-show r.mcount (b' ' ∷ (base ++ put_numbers (numbers r) []))
      (space-EndsWord (base ++ put_numbers (numbers r) []))
    ∙ ap (λ ws. show r.mcount ∷ ws)
        (split-space (base ++ put_numbers (numbers r) [])
          ∙ (rw v.base_text (
                split-word v.first v.others (put_numbers (numbers r) []) v.word
                  (put_numbers-EndsWord (numbers r)))
              ∙ ap (λ ws. base ∷ ws) (split-put_numbers (numbers r)))))

stop_lem : (m : List (ℕ × ℕ)) → pos 1 +ℤ twice (pos (length m)) ≡ pos (length (length m ∷ flat m))
stop_lem m = ground (arith, length-flat m)

with_ints-numbers :
    (base : Bytes) (r : TestResult)
    → Distinct r.lat_map
    → with_ints (pos r.mcount) base (map pos (numbers r)) ≡ some (stats_of base r)
unfolding with_ints
with_ints-numbers base r h =
    rw (raw, rest, zip-flat r.lat_map, dict-Distinct r.lat_map h)
      (ground (arith, length-map r.percentiles))
  where
    after : List ℕ
    after = length r.percentiles ∷ r.percentiles

    raw :
        slice_1_to (pos 1 +ℤ twice (pos (length r.lat_map))) (map pos (numbers r))
        ≡ map pos (flat r.lat_map)
    raw =
        ap (λ z. slice_1_to z (map pos (numbers r))) (stop_lem r.lat_map)
        ∙ ap (drop 1)
            (take-map (length r.lat_map ∷ flat r.lat_map) (length r.percentiles ∷ r.percentiles))

    rest :
        slice_from (pos 1 +ℤ twice (pos (length r.lat_map))) (map pos (numbers r))
        ≡ map pos (length r.percentiles ∷ r.percentiles)
    rest =
        ap (λ z. slice_from z (map pos (numbers r))) (stop_lem r.lat_map)
        ∙ drop-map (length r.lat_map ∷ flat r.lat_map) (length r.percentiles ∷ r.percentiles)

-- The driver reads back every report from the text of the server: the count, the base, the histogram and
-- the percentiles.
pub run_stats-serialize_to_str :
    (base : Bytes) (r : TestResult)
    → IsReport base r
    → run_stats (serialize_to_str base r) ≡ some (stats_of base r)
unfolding run_stats of_tokens
run_stats-serialize_to_str base r v = rw (
  tokens base r v,
  int_of-show r.mcount v.mcount,
  ints_of-show (numbers r)
      (v.size, All-append Fits (flat r.lat_map) _ v.entries (v.count, v.percentiles)),
  with_ints-numbers base r v.distinct,
)
