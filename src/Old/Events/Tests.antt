-- ===== src/Old/Events/Tests.antt =====
-- The event loop of the former client on a concrete system.
use network_ping_test.Base.{◌≡◌, refl, [], ◌∷◌, some, none, true}
use network_ping_test.Os.{Trace, Outcome, done}
use network_ping_test.Os.Close.{close_all}
use network_ping_test.Os.Sample.{system}
use network_ping_test.Selector.Poll
use network_ping_test.Selector.Poll.{PollRSelector, poll_selector}
use network_ping_test.Client.{set_nonblock}
use network_ping_test.Old.{connect_all, connect_loop, process_message}
use network_ping_test.Old.Events.{RunResult, run_test, main_loop, serve, handle, add_all}
use network_ping_test.Old.Events.Silence.{poll_selector-Silent}
use network_ping_test.Old.Events.Stored.{Stored, run_test-Stored}

-- One connection and messages of 8 bytes: they are echoed until one is read in part.
abbrev result : Outcome (RunResult × PollRSelector) × Trace
result = run_test poll_selector system 8 60 1 true true true (Poll.construct 1) []

run_test-Stored_example : Stored system 8 true [] result
run_test-Stored_example =
    run_test-Stored poll_selector poll_selector-Silent system 8 true 60 1 true true
      (Poll.construct 1) []

result_value :
    result.0
    ≡ done (
      (0, some 9),
      record {
        fds = record { fd = none; events = 1; revents = 1 } ∷ [];
        current_free = 1;
        current_ready = 1;
      },
    )
unfolding run_test main_loop serve handle add_all connect_all connect_loop process_message
    Poll.construct Poll.add_fd Poll.wait Poll.next Poll.remove_current_ready close_all Poll.scan
    set_nonblock
result_value = refl
