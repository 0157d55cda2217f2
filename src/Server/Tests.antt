-- ===== src/Server/Tests.antt =====
-- The dealing out of connections, and the results, on concrete inputs.
use network_ping_test.Base.{ℕ, ◌≡◌, refl, List, [], ◌∷◌, true, arith, some, none, length}
use network_ping_test.Os.{done}
use network_ping_test.Os.Sample.{system}
use network_ping_test.Selector.EPoll.{EPollRSelector}
use network_ping_test.Server.Spread.{spread}
use network_ping_test.Server.Spread.Share.{dealt, spread-dealt}
use mathlib.Core.List.Perm
use network_ping_test.Server.RunTest.{gather_results}
use network_ping_test.Server.RunTest.Order.{Alike, gather_results-Perm}
use network_ping_test.Server.Results.{WorkerResult, sort, percentiles}
use network_ping_test.Server.Results.Percentiles.{
  Reads, IsSorted, percentiles_lem, percentiles_out_of_range,
}

abbrev five : List ℕ
five = 10 ∷ 11 ∷ 12 ∷ 13 ∷ 14 ∷ []

abbrev selector_of : ℕ → EPollRSelector
selector_of efd = record {
  efd = some efd;
  events = record { events = []; num_ready = some 0; recv_time = 0 };
  current_ready = 0;
  end_of_ready = 0;
}

abbrev two : List EPollRSelector
two = selector_of 3 ∷ selector_of 4 ∷ []

spread-dealt_example : spread system two 2 0 five [] ≡ (done true, dealt two 2 0 five [])
spread-dealt_example =
    spread-dealt system two 2 0 five [] (omega arith) refl (λ efd fd mask u. refl)

abbrev worker : WorkerResult
worker = record {
  mcount = 5;
  lat_map = (9, 2) ∷ (10, 3) ∷ [];
  mess_count_for_sock = (10, 4) ∷ (11, 1) ∷ [];
}

percentiles_lem_example :
    (ps : List ℕ) × (percentiles 4 (sort (4 ∷ 1 ∷ 4 ∷ 2 ∷ [])) ≡ some ps)
    × (length ps ≡ 19)
    × Reads 0 4 (sort (4 ∷ 1 ∷ 4 ∷ 2 ∷ [])) ps
    × IsSorted ps
percentiles_lem_example = percentiles_lem 4 (4 ∷ 1 ∷ 4 ∷ 2 ∷ []) (omega arith) (omega arith)

-- Twenty connections, one of which never got a message through.
percentiles_out_of_range_example :
    percentiles 20
      (sort (3 ∷ 1 ∷ 4 ∷ 1 ∷ 5 ∷ 9 ∷ 2 ∷ 6 ∷ 5 ∷ 3 ∷ 5 ∷ 8 ∷ 9 ∷ 7 ∷ 9 ∷ 3 ∷ 2 ∷ 3 ∷ 8 ∷ []))
    ≡ none
percentiles_out_of_range_example =
    percentiles_out_of_range 20
      (3 ∷ 1 ∷ 4 ∷ 1 ∷ 5 ∷ 9 ∷ 2 ∷ 6 ∷ 5 ∷ 3 ∷ 5 ∷ 8 ∷ 9 ∷ 7 ∷ 9 ∷ 3 ∷ 2 ∷ 3 ∷ 8 ∷ []) (omega arith)

abbrev other : WorkerResult
other = record { mcount = 2; lat_map = (10, 1) ∷ []; mess_count_for_sock = (12, 2) ∷ (13, 9) ∷ [] }

gather_results-Perm_example :
    Alike
      (gather_results 4 (worker ∷ other ∷ []) []).0
      (gather_results 4 (other ∷ worker ∷ []) []).0
gather_results-Perm_example =
    gather_results-Perm 4 (worker ∷ other ∷ []) (other ∷ worker ∷ []) [] (Perm.swap other worker [])
