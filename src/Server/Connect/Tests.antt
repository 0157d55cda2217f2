-- ===== src/Server/Connect/Tests.antt =====
-- `connect_all` on a concrete system.
use network_ping_test.Base.{◌≡◌, refl, true, Bool, Option, none, some, [], ◌∷◌, Bool, List, ℕ}
use network_ping_test.Base.Int.{pos}
use network_ping_test.Os.{Os, answer, Outcome, done, Trace, load_active}
use network_ping_test.Os.Sample.{system, value_of}
use network_ping_test.Selector.EPoll
use network_ping_test.Selector.EPoll.{
  EPollRSelector, construct, ok, destroy, add_fd_mask, wait_ns, ready_count, remove_current_ready,
}
use network_ping_test.Wait.{epoll_wait_ex, wait_loop, judge, get_fast_time}
use network_ping_test.Server.Connect.{
  Progress, connect_loop, connect_all, finish, open_some, open_one, max_connect, bound_client,
  opened, waited, check_ready,
}
use network_ping_test.Server.Connect.Ended.{Ended, connect_all-Ended}

abbrev selector : EPollRSelector
selector = record {
  efd = some 3;
  events = record { events = record { fd = 0; flags = 0 } ∷ []; num_ready = some 0; recv_time = 0 };
  current_ready = 0;
  end_of_ready = 0;
}

-- One socket is open and waits; room for one more.
abbrev one_waits : Progress
one_waits = record { sockets = 9 ∷ []; waiting = pos 1; curr_it = 0 }

connect_all-Ended_example : Ended 2 (connect_all system 0 20 (pos 2) 1 [])
connect_all-Ended_example = connect_all-Ended system 0 20 2 1 []

-- Two sockets are opened, one at a time, and both connect.
abbrev all_connected : Option Bool
all_connected = answer (connect_all system 0 20 (pos 2) 1 []).0

all_connected_test : all_connected ≡ some true
unfolding connect_all connect_loop construct ok finish destroy open_some open_one max_connect
    bound_client add_fd_mask opened waited wait_ns epoll_wait_ex wait_loop judge get_fast_time
    check_ready ready_count EPoll.next remove_current_ready
all_connected_test = refl

-- A system with two workers active.
abbrev pub two_active_value : Trace → Option ℕ
two_active_value [] = none
two_active_value (load_active ∷ t) = some 2
two_active_value (c ∷ t) = value_of (c ∷ t)

abbrev pub two_active : Os
two_active t = record (system t) { value = two_active_value t }

-- Two connections within a window of 32.
abbrev pub two_active_connections : Outcome (Bool × List ℕ) × Trace
two_active_connections = connect_all two_active 0 20 (pos 2) 32 []

pub two_active_connections_made : two_active_connections.0 ≡ done (true, 102 ∷ 106 ∷ [])
unfolding connect_all connect_loop construct ok finish destroy open_some open_one max_connect
    bound_client add_fd_mask opened waited wait_ns epoll_wait_ex wait_loop judge get_fast_time
    check_ready ready_count EPoll.next remove_current_ready
two_active_connections_made = refl
