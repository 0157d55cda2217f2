-- ===== src/Server/RunTest/Closing.antt =====
-- How `run_test` of the server ends.
use network_ping_test.Base.{
  ℕ, suc, ◌≡◌, refl, List, ◌∷◌, Bool, true, false, arith, Option, none, some,
}
use network_ping_test.Base.Int.{ℤ, pos, negsuc}
use network_ping_test.Os.{
  epoll_create, gethostbyname, Os, Outcome, done, more, fault, Trace, store_done,
}
use network_ping_test.Selector.EPoll.{EPollRSelector}
use network_ping_test.Server.Connect.Ended.{connect_all-zero}
use network_ping_test.Server.Spread.{worker_count, max_sock_count}
use network_ping_test.Server.Results.{WorkerResult}
use network_ping_test.Server.Protocol.{TestParams, TestResult}
use network_ping_test.Server.RunTest.{destroy_all, with_room, with_count, connected, run_test}
use network_ping_test.Server.RunTest.Walk.{joins}
use network_ping_test.Server.RunTest.Counts.{Reported}

-- The end of a test with a number of workers, once the selectors are destroyed: a report is one of what
-- the workers had left when all of them had been joined, after `done.store(true)`.
abbrev pub Returns :
    ℕ → (Trace → List WorkerResult) → ℕ → Outcome (Option TestResult) × Trace → Type 0
Returns key tresults workers (done (some r), t) =
    (v : Trace) × (sels : List EPollRSelector) × (t
      ≡ destroy_all sels (joins workers 0 (store_done ∷ v)))
    × Reported key (tresults (joins workers 0 (store_done ∷ v))) r
Returns key tresults workers (done none, t) = Unit
Returns key tresults workers (more, t) = Unit
Returns key tresults workers (fault, t) = Unit

-- The number of workers of a test, which has none below 0 connections.
abbrev pub workers_of : ℤ → ℕ → ℕ
workers_of (pos n) worker_threads = worker_count n worker_threads
workers_of (negsuc n) worker_threads = 0

module _ (os : Os) (tresults : Trace → List WorkerResult) (fuel : ℕ) (params : TestParams)
    (key : ℕ) where
  -- Before that.
  abbrev Good : ℕ → Outcome (Option TestResult) × Trace → Type 0
  Good workers (done (some r), t) =
      (v : Trace) × (t ≡ joins workers 0 (store_done ∷ v))
      × Reported key (tresults (joins workers 0 (store_done ∷ v))) r
  Good workers (done none, t) = Unit
  Good workers (more, t) = Unit
  Good workers (fault, t) = Unit

-- What is left of a test after `connect_all`: if that failed, false; else a report, or false, or an
-- undefined end.
abbrev pub EndsTest :
    ℕ → (Trace → List WorkerResult) → ℕ → Bool → Outcome (Option TestResult) × Trace → Type 0
EndsTest key tresults workers true r = Returns key tresults workers r
EndsTest key tresults workers false r = r.0 ≡ done none

-- A test for 0 connections, which `connect_all` makes at once if it finds the host, divides by 0 workers.
pub run_test_zero :
    (os : Os) (tresults : Trace → List WorkerResult) (fuel : ℕ) (params : TestParams)
    (worker_threads addrs host efd : ℕ) (t : Trace)
    → params.num_conn ≡ pos 0
    → (os (gethostbyname ∷ t)).value ≡ some host
    → (os (epoll_create ∷ gethostbyname ∷ t)).value ≡ some efd
    → (run_test os tresults (suc fuel) params worker_threads addrs t).0 ≡ fault
unfolding run_test connected with_count with_room max_sock_count
run_test_zero os tresults fuel params workers addrs host efd t n h e =
    rw (n, connect_all-zero os addrs fuel 32 host efd t h e, no_workers) refl
  where
    no_workers : worker_count 0 workers ≡ 0
    no_workers = omega arith
