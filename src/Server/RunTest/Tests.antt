-- ===== src/Server/RunTest/Tests.antt =====
-- The main thread of a test on a concrete system.
use network_ping_test.Base.{ℕ, ◌≡◌, refl, [], ◌∷◌, true, none, some}
use network_ping_test.Os.{done}
use network_ping_test.Os.Sample.{system}
use network_ping_test.Server.Results.{
  WorkerResult, sort, percentiles, insert_sorted, values, add_map, add_at, percentiles_from,
}
use network_ping_test.Server.RunTest.{
  gather_results, conduct, write_first, run_workers, wait_active, sleep_for, sleep_while_active,
  join_workers,
}
use network_ping_test.Server.RunTest.Walk.{Walk, ended, conduct-Walk}
use network_ping_test.Server.Barrier.{sending}
use network_ping_test.Server.Protocol.{TestParams, TestResult}
use network_ping_test.Server.Results.{collect_mps, merge}
use network_ping_test.Base.{Bool, false, Option}
use network_ping_test.Base.Int.{pos}
use network_ping_test.Os.{Os, Outcome, more, fault, Trace, load_active}
use network_ping_test.Os.Sample.{value_of}
use network_ping_test.Os.Links.{Linked}

abbrev worker : WorkerResult
worker = record {
  mcount = 5;
  lat_map = (9, 2) ∷ (10, 3) ∷ [];
  mess_count_for_sock = (10, 4) ∷ (11, 1) ∷ [];
}

-- A system with one worker active.
abbrev active_value : Trace → Option ℕ
active_value [] = none
active_value (load_active ∷ t) = some 1
active_value (c ∷ t) = value_of (c ∷ t)

abbrev active : Os
active t = record (system t) { value = active_value t }

abbrev asked : TestParams
asked = record {
  ip = b'a' ∷ [];
  port = pos 80;
  num_conn = pos 2;
  runtime = pos 1;
  min_timeout = 0;
  max_timeout = 0;
  message_len = pos 8;
}

abbrev conducted : Outcome (Option TestResult) × Trace
conducted = conduct active (λ t. worker ∷ []) 9 asked 2 1 (5 ∷ 6 ∷ []) 8 []

abbrev has_result : Outcome (Option TestResult) → Bool
has_result (done (some r)) = true
has_result (done none) = false
has_result more = false
has_result fault = false

conducted_result : has_result conducted.0 ≡ true
unfolding conduct write_first run_workers wait_active sleep_for sleep_while_active join_workers
    gather_results merge collect_mps sort percentiles insert_sorted values add_map add_at
    percentiles_from
conducted_result = refl

conduct-Walk_example : Linked (Walk active 1 8) (λ o. some (ended o)) sending [] conducted
conduct-Walk_example = conduct-Walk active 1 8 (λ t. worker ∷ []) 9 asked 2 (5 ∷ 6 ∷ []) []
