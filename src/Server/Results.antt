-- ===== src/Server/Results.antt =====
-- server.cpp `run_test`, lines 574 to 595: what the workers have counted, put together. `unsigned long`
-- sums wrap at 2 ^ 64. An `unordered_map` is a list of its entries, a key at most once; its order is not
-- used. `std::sort` is insertion sort here: the result is the only sorted rearrangement.
pub mod Merge
pub mod Percentiles
pub mod Order
use network_ping_test.Base.{
  ℕ, zero, suc, ◌+◌, ◌*◌, ◌/◌, ◌%◌, ◌^◌, List, [], ◌∷◌, ◌++◌, Option, none, some, Bool, true, false,
  ◌==◌, leb, if◌then◌else◌, get_elem?,
}

-- The fields of `TestResult` that a worker writes.
pub record WorkerResult : Type 0 where
  pub mcount : ℕ
  pub lat_map : List (ℕ × ℕ)
  pub mess_count_for_sock : List (ℕ × ℕ)

abbrev pub add64 : ℕ → ℕ → ℕ
add64 a b = (a + b) % 2 ^ 64

-- `m.emplace(key, 0).first->second += amount`
unfoldable pub add_at : ℕ → ℕ → List (ℕ × ℕ) → List (ℕ × ℕ)
add_at key amount [] = (key, add64 0 amount) ∷ []
add_at key amount ((k, v) ∷ m) =
    if k == key then (k, add64 v amount) ∷ m else (k, v) ∷ add_at key amount m

-- `for(const auto & lat_ref: ires.lat_map)`
unfoldable pub add_map : List (ℕ × ℕ) → List (ℕ × ℕ) → List (ℕ × ℕ)
add_map [] total = total
add_map ((k, v) ∷ m) total = add_map m (add_at k v total)

-- `for(const auto & ires: tresults)`: `res.mcount` and `res.lat_map`.
unfoldable pub merge : List WorkerResult → ℕ → List (ℕ × ℕ) → ℕ × List (ℕ × ℕ)
merge [] mcount lat_map = (mcount, lat_map)
merge (r ∷ rs) mcount lat_map = merge rs (add64 mcount r.mcount) (add_map r.lat_map lat_map)

-- The messages of each socket, of all workers.
unfoldable pub values : List (ℕ × ℕ) → List ℕ
values [] = []
values ((k, v) ∷ m) = v ∷ values m

unfoldable pub collect_mps : List WorkerResult → List ℕ
collect_mps [] = []
collect_mps (r ∷ rs) = values r.mess_count_for_sock ++ collect_mps rs

-- `std::sort(begin(mps), end(mps))`
unfoldable pub insert_sorted : ℕ → List ℕ → List ℕ
insert_sorted x [] = x ∷ []
insert_sorted x (y ∷ ys) = if leb x y then x ∷ y ∷ ys else y ∷ insert_sorted x ys

unfoldable pub sort : List ℕ → List ℕ
sort [] = []
sort (x ∷ xs) = insert_sorted x (sort xs)

-- `params.num_conn * (i + 1) / (res.percentiles.size() + 1)`, with 19 percentiles
abbrev pub percentile_index : ℕ → ℕ → ℕ
percentile_index num_conn i = num_conn * (i + 1) / 20

-- `for(int i = 0; i < 19; ++i)`, with the rounds left; `none` is a read outside `mps`.
abbrev pub put_percentile : Option ℕ → Option (List ℕ) → Option (List ℕ)
put_percentile none rest = none
put_percentile (some p) none = none
put_percentile (some p) (some ps) = some (p ∷ ps)

unfoldable pub percentiles_from : ℕ → ℕ → ℕ → List ℕ → Option (List ℕ)
percentiles_from zero i num_conn mps = some []
percentiles_from (suc left) i num_conn mps =
    let rest = percentiles_from left (i + 1) num_conn mps in
    put_percentile (get_elem? mps (percentile_index num_conn i)) rest

unfoldable pub percentiles : ℕ → List ℕ → Option (List ℕ)
unfolding percentiles_from
percentiles num_conn mps = percentiles_from 19 0 num_conn mps
