-- ===== src/Wait/Tests.antt =====
-- `epoll_wait_ex` on a concrete system.
use network_ping_test.Base.{◌^◌, ◌<◌, ◌≢◌, [], ◌∷◌, none, some, arith}
use network_ping_test.Base.Int.{pos}
use network_ping_test.Os.{Os, Trace, more}
use network_ping_test.Os.Sample.{system_contract, system, early}
use network_ping_test.Wait.{nanoseconds, EventsList, epoll_wait_ex}
use network_ping_test.Wait.Result.{Returned, epoll_wait_ex-Returned}
use network_ping_test.Wait.Deadline.{Ticks, epoll_wait_ex-ne-more}

abbrev two_places : EventsList
two_places = record {
  events = record { fd = 0; flags = 0 } ∷ record { fd = 0; flags = 0 } ∷ [];
  num_ready = none;
  recv_time = 0;
}

-- The system has no events, and says so.
abbrev silent : Os
silent t = record (system t) { value = some 0; events = [] }

silent_early : (t : Trace) → nanoseconds (silent t) < 2 ^ 63
silent_early t = omega arith

silent-Ticks : Ticks silent 6
silent-Ticks c t = omega arith

epoll_wait_ex-Returned_example :
    Returned system (some 3) 6 2 (epoll_wait_ex system 10 (some 3) two_places (pos 5) [])
epoll_wait_ex-Returned_example =
    epoll_wait_ex-Returned system 10 (some 3) two_places 5 [] system_contract early (omega arith)

epoll_wait_ex-ne-more_example : (epoll_wait_ex silent 7 (some 3) two_places (pos 5) []).0 ≢ more
epoll_wait_ex-ne-more_example =
    epoll_wait_ex-ne-more silent 7 (some 3) two_places 5 [] silent-Ticks silent_early (omega arith)
      (omega arith)
