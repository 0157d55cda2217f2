-- ===== src/Client/Tests.antt =====
-- The client's operations on a concrete system.
use network_ping_test.Base.{ℕ, Option, ◌≡◌, refl, [], ◌∷◌, true, false, some, none}
use network_ping_test.Os.{
  Trace, Outcome, done, more, fault, socket, accept, listen, bind, setsockopt, close,
  ready_for_connect,
}
use network_ping_test.Os.Sample.{system}
use network_ping_test.Os.Close.{close_all, close_one}
use network_ping_test.Selector.Poll.{PollRSelector, poll_selector, construct}
use network_ping_test.Client.{
  wait_for_conn, listen_and_accept, accept_loop, run_test, process_message,
}
use network_ping_test.Client.Accept.{Waited, bound, wait_for_conn_lem}
use network_ping_test.Client.Served.Outcomes.{Served, run_test-Served}
use network_ping_test.Selector.Poll
use network_ping_test.Client.{run_connected, add_all, main_loop, serve, close_sock}
use network_ping_test.Client.Finish.{EndsAfter, run_test_lem}

-- Two connections on port 80.
wait_for_conn_lem_example :
    ((u : Trace) × ((wait_for_conn system 2 [] 80 5 true none true []).1 ≡ close 100 ∷ u))
    × Waited [] 2 (bound (some 0)) (wait_for_conn system 2 [] 80 5 true none true []).0
wait_for_conn_lem_example = wait_for_conn_lem system 2 80 5 true none true [] [] 100 refl

abbrev accepted_calls : Trace
accepted_calls =
    close 100
    ∷ accept 100
    ∷ ready_for_connect
    ∷ listen 100 5
    ∷ bind 100 80
    ∷ setsockopt 100
    ∷ socket
    ∷ []

accepted_one :
    wait_for_conn system 1 [] 80 5 true none false [] ≡ (done (true, 105 ∷ []), accepted_calls)
unfolding wait_for_conn listen_and_accept accept_loop close_one
accepted_one = refl

abbrev result : Outcome (ℕ × PollRSelector) × Trace
result = run_test poll_selector system 8 50 80 1 5 true true true (construct 1) []

run_test_lem_example :
    (v : Trace) × (result.1 ≡ close_all (105 ∷ []) v)
    × EndsAfter true true (construct 1) accepted_calls (result.0, v)
run_test_lem_example =
    run_test_lem poll_selector system 8 50 80 1 5 true true true (construct 1) [] true (105 ∷ [])
      accepted_calls accepted_one

-- The connection is served up to a message that comes in pieces, and then removed.
abbrev code_of : Outcome (ℕ × PollRSelector) → Option ℕ
code_of (done (code, s)) = some code
code_of more = none
code_of fault = none

result_zero : code_of result.0 ≡ some 0
unfolding run_test wait_for_conn listen_and_accept accept_loop close_one run_connected add_all
    main_loop serve close_sock process_message construct Poll.add_fd Poll.wait Poll.next Poll.scan
    Poll.remove_current_ready close_all
result_zero = refl

run_test-Served_example : Served 1 (105 ∷ []) result.0
run_test-Served_example =
    run_test-Served system 8 50 80 1 5 true true true [] (105 ∷ []) accepted_calls accepted_one
