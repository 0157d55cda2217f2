-- ===== src/Driver/Tests.antt =====
-- A request and a report.
use network_ping_test.Base.{◌≡◌, refl, [], ◌∷◌, some, arith}
use network_ping_test.Text.{Bytes, is_space}
use network_ping_test.Driver.{run_stats}
use network_ping_test.Driver.Report.{IsReport, stats_of, run_stats-serialize_to_str}
use network_ping_test.Server.Protocol.{TestResult, serialize_to_str}

abbrev result : TestResult
result = record {
  mcount = 1200;
  percentiles = 3 ∷ 5 ∷ 8 ∷ [];
  lat_map = (17, 1000) ∷ (12, 200) ∷ [];
}

-- The base "2" of the build with LOG2_LAT.
abbrev base : Bytes
base = b'2' ∷ []

result-IsReport : IsReport base result
unfolding is_space
result-IsReport = record {
  first = b'2';
  others = [];
  base_text = refl;
  word = (refl, tt);
  mcount = omega arith;
  entries = omega arith;
  size = omega arith;
  percentiles = omega arith;
  count = omega arith;
  distinct = omega arith;
}

run_stats-serialize_to_str_example :
    run_stats (serialize_to_str base result) ≡ some (stats_of base result)
run_stats-serialize_to_str_example = run_stats-serialize_to_str base result result-IsReport
