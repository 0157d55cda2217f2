-- ===== src/Selector/Tests.antt =====
-- Both selectors on a concrete system.
use network_ping_test.Base.{ℕ, zero, ◌+◌, ◌≡◌, refl, [], ◌∷◌, true, false, arith, some}
use network_ping_test.Base.Int.{pos}
use network_ping_test.Os.{Os, PollFd, Trace, done, answer, epoll_wait, poll, clock_gettime, failed}
use network_ping_test.Os.Sample.{system_contract, system, early}
use network_ping_test.Wait.{nanoseconds, epoll_wait_ex, wait_loop, judge, get_fast_time}
use network_ping_test.Selector.{collect}
use network_ping_test.Selector.EPoll
use network_ping_test.Selector.EPoll.{EPollRSelector, wait_ns, move, destroy, ok}
use network_ping_test.Selector.EPoll.Ready.{Delivers, wait_ns-Delivers}
use network_ping_test.Selector.EPoll.Moved.{NeedsRoom, move_breaks_wait}
use network_ping_test.Selector.Poll
use network_ping_test.Selector.Poll.{PollRSelector, poll_selector, wait}
use network_ping_test.Selector.Poll.Loop.{ready_events}
use network_ping_test.Selector.Poll.Valid.{IsValid, watched, construct-IsValid, wait_lem, polled}
use network_ping_test.Selector.Poll.Removed.{Without, next-remove_current_ready}

abbrev slot : ℕ → ℕ → PollFd
slot fd revents = record { fd = some fd; events = 1; revents = revents }

abbrev three : PollRSelector
three = record { fds = slot 7 1 ∷ slot 8 0 ∷ slot 9 16 ∷ []; current_free = 3; current_ready = 0 }

construct-IsValid_example : IsValid (Poll.construct 2) × (watched (Poll.construct 2) ≡ [])
construct-IsValid_example = construct-IsValid 2

three-IsValid : IsValid three
three-IsValid = record { free_in = omega arith; ready_in = omega arith; quiet = tt }

abbrev after_poll : PollRSelector
after_poll = polled three (1 ∷ [])

wait_lem_example :
    (wait system three [] ≡ (done (true, after_poll), poll three.fds ∷ []))
    × IsValid after_poll
    × (watched after_poll ≡ watched three)
    × ((u : Trace)
        → collect poll_selector 4 after_poll u
          ≡ (done (ready_events after_poll.fds, record after_poll { current_ready = 3 }), u))
wait_lem_example = wait_lem system three [] 1 three-IsValid refl

abbrev fresh : EPollRSelector
fresh = record {
  efd = some 3;
  events = record {
    events = record { fd = 0; flags = 0 } ∷ record { fd = 0; flags = 0 } ∷ [];
    num_ready = some 0;
    recv_time = 0;
  };
  current_ready = 0;
  end_of_ready = 0;
}

abbrev woken : EPollRSelector
woken = record {
  efd = some 3;
  events = record {
    events = record { fd = 5; flags = 1 } ∷ record { fd = 0; flags = 0 } ∷ [];
    num_ready = some 1;
    recv_time = 3;
  };
  current_ready = 0;
  end_of_ready = 1;
}

abbrev wait_calls : Trace
wait_calls = clock_gettime ∷ epoll_wait (some 3) 2 (pos 0) ∷ clock_gettime ∷ []

wait_ns_run : wait_ns system 4 (pos 9) fresh [] ≡ (done (true, woken), wait_calls)
unfolding wait_ns epoll_wait_ex wait_loop judge get_fast_time
wait_ns_run = refl

wait_ns-Delivers_example :
    (n : ℕ) × Delivers system
      (nanoseconds (system (clock_gettime ∷ [])) + 9)
      wait_calls
      fresh
      woken
      n
wait_ns-Delivers_example =
    wait_ns-Delivers system 4 9 fresh woken [] wait_calls system_contract early (omega arith)
      wait_ns_run

next_run :
    EPoll.next woken []
    ≡ (done (some (record { fd = 5; flags = 1 }), record woken { current_ready = 1 }), [])
unfolding EPoll.next
next_run = refl

-- Refuses a wait without room.
abbrev strict : Os
strict (epoll_wait efd zero x ∷ t) = failed 22
strict t = system t

strict-NeedsRoom : NeedsRoom strict
strict-NeedsRoom = record { refused = λ efd x t. (refl, refl) }

move_breaks_wait_example :
    (ok (move fresh).0 ≡ ok fresh)
    × (destroy (move fresh).1 [] ≡ [])
    × (answer (wait_ns strict 5 (pos 9) (move fresh).0 []).0 ≡ some false)
move_breaks_wait_example = move_breaks_wait strict 4 (pos 9) fresh [] strict-NeedsRoom

three_next :
    Poll.next three ≡ (some (record { fd = 7; flags = 1 }), record three { current_ready = 1 })
unfolding Poll.next Poll.scan
three_next = refl

next-remove_current_ready_example :
    (r : PollRSelector) × (Poll.remove_current_ready (record three { current_ready = 1 }) []
      ≡ (done r, []))
    × IsValid r
    × Without 7 (watched three) (watched r)
next-remove_current_ready_example =
    next-remove_current_ready three (record three { current_ready = 1 })
      (record { fd = 7; flags = 1 }) [] three-IsValid three_next
