-- ===== src/Server/RunTest/Counts.antt =====
-- The result that `run_test` reports.
use network_ping_test.Base.{ℕ, ◌%◌, ◌^◌, ◌≡◌, List, length, Option-cases, inl, inr}
use network_ping_test.Os.{Outcome, done, more, fault, Trace}
use network_ping_test.Server.Results.{WorkerResult, collect_mps, sort, percentiles}
use network_ping_test.Server.Results.Merge.{count_at, weights, mcounts, merge_lem}
use network_ping_test.Server.Results.Percentiles.{
  IsSorted, sort-IsSorted, Reads-IsSorted, percentiles-Reads,
}
use network_ping_test.Server.Protocol.{TestResult}
use network_ping_test.Server.RunTest.{gather_results}

-- A report adds up what the workers have left, and its 19 percentiles rise.
abbrev pub Reported : ℕ → List WorkerResult → TestResult → Type 0
Reported key rs r =
    (r.mcount ≡ mcounts rs % 2 ^ 64)
    × (count_at key r.lat_map ≡ weights key rs % 2 ^ 64)
    × (length r.percentiles ≡ 19)
    × IsSorted r.percentiles

abbrev pub Gathered : ℕ → List WorkerResult → Outcome TestResult × Trace → Type 0
Gathered key rs (done r, t) = Reported key rs r
Gathered key rs (more, t) = Unit
Gathered key rs (fault, t) = Unit

pub gather_results-Gathered :
    (key n : ℕ) (rs : List WorkerResult) (t : Trace) → Gathered key rs (gather_results n rs t)
unfolding gather_results
gather_results-Gathered key n rs t = elim (Option-cases (percentiles n (sort (collect_mps rs)))) [
  | inl e ↦ rw e tt
  | inr (ps, e) ↦
      let (len, reads) = percentiles-Reads n (sort (collect_mps rs)) ps e in
      rw e (
        (merge_lem key rs).0,
        (merge_lem key rs).1,
        len,
        Reads-IsSorted 0 n (sort (collect_mps rs)) ps (sort-IsSorted (collect_mps rs)) reads,
      )
]
