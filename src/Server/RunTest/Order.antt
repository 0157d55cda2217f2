-- ===== src/Server/RunTest/Order.antt =====
-- The result of a test and the order of `tresults`.
use mathlib.Core.List.{Perm}
use network_ping_test.Base.{ℕ, ◌≡◌, refl, List, Option, none, some}
use network_ping_test.Os.{Outcome, done, more, fault, Trace}
use network_ping_test.Server.Results.{WorkerResult, collect_mps, sort, percentiles}
use network_ping_test.Server.Results.Merge.{count_at}
use network_ping_test.Server.Results.Order.{merge-Perm}
use network_ping_test.Server.Protocol.{TestResult}
use network_ping_test.Server.RunTest.{gather_results, with_percentiles}

-- The same result, but for the order in which the buckets stand.
abbrev pub Alike : Outcome TestResult → Outcome TestResult → Type 0
Alike (done r) (done r') =
    (r.mcount ≡ r'.mcount)
    × (r.percentiles ≡ r'.percentiles)
    × ((key : ℕ) → count_at key r.lat_map ≡ count_at key r'.lat_map)
Alike more more = Unit
Alike fault fault = Unit
Alike _ _ = ⊥

with_percentiles-Alike :
    (n n' : ℕ) (m m' : List (ℕ × ℕ)) (o : Option (List ℕ)) (t : Trace)
    → n ≡ n'
    → ((key : ℕ) → count_at key m ≡ count_at key m')
    → Alike (with_percentiles (n, m) o t).0 (with_percentiles (n', m') o t).0
with_percentiles-Alike n n' m m' none t e f = tt
with_percentiles-Alike n n' m m' (some ps) t e f = (e, refl, f)

-- Whatever order the workers' results stand in, the test has the same count, the same percentiles
-- and the same histogram, or the same undefined read.
pub gather_results-Perm :
    (num_conn : ℕ) (rs ss : List WorkerResult) (t : Trace)
    → Perm rs ss
    → Alike (gather_results num_conn rs t).0 (gather_results num_conn ss t).0
unfolding gather_results
gather_results-Perm num_conn rs ss t p =
    let (n, m, e) = merge-Perm rs ss p in
    rw e (with_percentiles-Alike _ _ _ _ (percentiles num_conn (sort (collect_mps ss))) t n m)
