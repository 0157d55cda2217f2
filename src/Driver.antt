-- ===== src/Driver.antt =====
-- main.py `get_run_stats`: the message that asks the server for a test, and the reading of its answer.
-- A list that is indexed or sliced outside, and a failed `assert`, raise an exception: `none`. Of the
-- texts that `int` takes, those with `_` between digits are left out.
pub mod Entries
pub mod Report
mod Tests
use network_ping_test.Base.{
  ℕ, zero, suc, ◌+◌, ◌-◌, ◌*◌, List, [], ◌∷◌, ◌++◌, Bool, true, false, ◌==◌, ◌&&◌, if◌then◌else◌,
  length, take, drop, Option, none, some,
}
use network_ping_test.Base.Int.{ℤ, pos, negsuc, ◌+ℤ◌, pos_part, neg_part}
use network_ping_test.Text.{
  Bytes, is_space, show, show_ℤ, Scanned, matched, mismatched, undefined, scan_signed,
}

-- The fields of `TestParams` of main.py that the message carries; the address is not resolved here.
pub record Request : Type 0 where
  pub address : Bytes
  pub port : ℤ
  pub count : ℤ
  pub runtime : ℤ
  pub min_timeout : ℕ
  pub max_timeout : ℕ
  pub msize : ℤ

-- The text that `ready_func` sends.
unfoldable pub ready_message : Request → Bytes
ready_message r =
    r.address
    ++ b' '
      ∷ (show_ℤ r.port
          ++ b' '
            ∷ (show_ℤ r.count
                ++ b' '
                  ∷ (show_ℤ r.runtime
                      ++ b' '
                        ∷ (show r.min_timeout
                            ++ b' ' ∷ (show r.max_timeout ++ b' ' ∷ (show_ℤ r.msize ++ []))))))

-- `bytes.split()`
abbrev pub prepend : ℕ → List Bytes → List Bytes
prepend c [] = (c ∷ []) ∷ []
prepend c (w ∷ ws) = (c ∷ w) ∷ ws

-- The byte c of a word, before the text s whose words are `rest`.
abbrev pub begin_word : ℕ → Bytes → List Bytes → List Bytes
begin_word c [] rest = (c ∷ []) ∷ []
begin_word c (d ∷ s) rest = if is_space d then (c ∷ []) ∷ rest else prepend c rest

pub split : Bytes → List Bytes
split [] = []
split (c ∷ s) = let rest = split s in if is_space c then rest else begin_word c s rest

-- `int(token)`
abbrev pub whole : Scanned ℤ → Option ℤ
whole (matched z []) = some z
whole (matched z (c ∷ s)) = none
whole mismatched = none
whole undefined = none

abbrev pub int_of : Bytes → Option ℤ
int_of token = whole (scan_signed token)

abbrev pub put_int : Option ℤ → Option (List ℤ) → Option (List ℤ)
put_int none rest = none
put_int (some z) none = none
put_int (some z) (some zs) = some (z ∷ zs)

-- `list(map(int, tokens))`
pub ints_of : List Bytes → Option (List ℤ)
ints_of [] = some []
ints_of (w ∷ ws) = let rest = ints_of ws in put_int (int_of w) rest

-- The place of a slice's bound in a list of n items: a negative one counts from the end.
abbrev pub bound_at : ℕ → ℤ → ℕ
bound_at n (pos i) = i
bound_at n (negsuc i) = n - suc i

-- `[1:stop]`, `[start:]`, `[::2]`, `[1::2]`
abbrev pub slice_1_to : ℤ → List ℤ → List ℤ
slice_1_to stop zs = drop 1 (take (bound_at (length zs) stop) zs)

abbrev pub slice_from : ℤ → List ℤ → List ℤ
slice_from start zs = drop (bound_at (length zs) start) zs

abbrev pub evens : List ℤ → List ℤ
evens [] = []
evens (z ∷ []) = z ∷ []
evens (z ∷ y ∷ zs) = z ∷ evens zs

abbrev pub odds : List ℤ → List ℤ
odds [] = []
odds (z ∷ []) = []
odds (z ∷ y ∷ zs) = y ∷ odds zs

abbrev pub zip : List ℤ → List ℤ → List (ℤ × ℤ)
zip [] ys = []
zip (x ∷ xs) [] = []
zip (x ∷ xs) (y ∷ ys) = (x, y) ∷ zip xs ys

abbrev pub equal : ℤ → ℤ → Bool
equal a b = (pos_part a == pos_part b) && (neg_part a == neg_part b)

-- `dict(pairs)`: a later value for a key takes the earlier one's place.
pub set_item : ℤ → ℤ → List (ℤ × ℤ) → List (ℤ × ℤ)
set_item key value [] = (key, value) ∷ []
set_item key value ((k, v) ∷ d) =
    let rest = set_item key value d in if equal k key then (k, value) ∷ d else (k, v) ∷ rest

pub dict : List (ℤ × ℤ) → List (ℤ × ℤ) → List (ℤ × ℤ)
unfolding set_item
dict [] d = d
dict ((k, v) ∷ ps) d = dict ps (set_item k v d)

-- What `get_run_stats` returns of the answer; `float(lat_base)` is left as the text.
pub record RunStats : Type 0 where
  pub msg_processed : ℤ
  pub lat_base : Bytes
  pub lat_distribution : List (ℤ × ℤ)
  pub percentiles : List ℤ

abbrev pub with_percentiles : ℤ → Bytes → List (ℤ × ℤ) → List ℤ → Option RunStats
with_percentiles count base lats [] = none
with_percentiles count base lats (perc_size ∷ percentiles) =
    if equal (pos (length (perc_size ∷ percentiles))) (perc_size +ℤ pos 1)
    then some (record {
      msg_processed = count;
      lat_base = base;
      lat_distribution = lats;
      percentiles = percentiles;
    })
    else none

abbrev pub twice : ℤ → ℤ
twice (pos n) = pos (n * 2)
twice (negsuc n) = negsuc (n * 2 + 1)

abbrev pub with_ints : ℤ → Bytes → List ℤ → Option RunStats
unfolding dict
with_ints count base [] = none
with_ints count base (size ∷ zs) =
    let raw = slice_1_to (pos 1 +ℤ twice size) (size ∷ zs) in
    with_percentiles count base (dict (zip (evens raw) (odds raw)) [])
      (slice_from (pos 1 +ℤ twice size) (size ∷ zs))

abbrev pub with_counts : Option ℤ → Bytes → Option (List ℤ) → Option RunStats
with_counts none base zs = none
with_counts (some count) base none = none
with_counts (some count) base (some zs) = with_ints count base zs

abbrev pub of_tokens : List Bytes → Option RunStats
unfolding ints_of
of_tokens [] = none
of_tokens (count ∷ []) = none
of_tokens (count ∷ base ∷ tokens) = with_counts (int_of count) base (ints_of tokens)

pub run_stats : Bytes → Option RunStats
unfolding split of_tokens
run_stats result = of_tokens (split result)
