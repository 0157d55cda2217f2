-- ===== src/Server/Worker/Tests.antt =====
-- A worker on a concrete system.
use network_ping_test.Base.{
  true, none, ◌⊎◌, Option, some, ℕ, ◌+◌, ◌-◌, ◌%◌, ◌^◌, ◌<◌, Option-cases, inl, inr, ◌≡◌, refl,
  List, [], ◌∷◌, some, arith, Bool,
}
use network_ping_test.Base.Int.{pos}
use network_ping_test.Os.{Outcome, done, more, fault, Trace, clock_gettime, load_done, Os}
use network_ping_test.Os.Sample.{value_of, system, early, system_contract, system-Ticks}
use network_ping_test.Os.Runs.{IsDone}
use network_ping_test.Wait.Deadline.{Ticks}
use network_ping_test.Server.Worker.Ends.{round-IsDone}
use network_ping_test.Selector.EPoll
use network_ping_test.Selector.EPoll.{EPollRSelector, wait_ns, ready_count}
use network_ping_test.Wait.{nanoseconds, epoll_wait_ex, wait_loop, judge, get_fast_time}
use network_ping_test.Server.Worker.{
  awake, sorted, wait_time, sort_ready, lookup, enqueue, put, worker_loop,
}
use network_ping_test.Server.Worker.{
  FdTimout, Tables, ping, drain, place, ping_all, round, queue_timeout,
}
use network_ping_test.Server.Worker.Queue.{IsOrdered}
use network_ping_test.Server.Worker.Pings.{pings_of}
use network_ping_test.Server.Worker.Written.Pinged.{RoundPinged, round-RoundPinged}
use network_ping_test.Server.Worker.Written.{written_to}
use network_ping_test.Server.Worker.Samples.{met, sort_ready-counted}
use network_ping_test.Server.Worker.{counted}
use network_ping_test.Server.Results.{add_at}
use network_ping_test.Server.Worker.Stop.{stops}
use network_ping_test.Server.Worker.Stop.Prompt.{worker_loop-stops}
use network_ping_test.Server.Worker.Stop.Return.{Returns, worker_loop-Returns}
use network_ping_test.Wait.Result.{EpollContract}
use network_ping_test.Server.Worker.Written.Whole.{worker_loop-written_to}
use network_ping_test.Server.Worker.Pings.{pings_of}
use network_ping_test.Server.Worker.{worker_loop}

-- A time that has passed gives a wait of 0, and one to come the time left.
queue_timeout_past : queue_timeout 5 9 ≡ pos 0
unfolding queue_timeout
queue_timeout_past = refl

queue_timeout_left : queue_timeout 9 5 ≡ pos 4
unfolding queue_timeout
queue_timeout_left = refl

abbrev delayed : ℕ → ℕ → FdTimout
delayed fd ready_time = record { fd = fd; ready_time = ready_time }

abbrev queue : List FdTimout
queue = delayed 7 4 ∷ delayed 8 6 ∷ delayed 9 6 ∷ []

abbrev tables : Tables
tables = record {
  last_time = (7, 1) ∷ [];
  wait_queue = queue;
  ready_fds = [];
  result = record { mcount = 0; lat_map = []; mess_count_for_sock = [] };
}

queue-IsOrdered : IsOrdered queue
queue-IsOrdered = ground arith

abbrev selector : EPollRSelector
selector = record {
  efd = some 3;
  events = record { events = record { fd = 0; flags = 0 } ∷ []; num_ready = some 0; recv_time = 0 };
  current_ready = 0;
  end_of_ready = 0;
}

round-RoundPinged_example :
    RoundPinged system 2 7 tables [] (round system (λ x. x) 2 10 20 9 tables selector [])
round-RoundPinged_example =
    round-RoundPinged system (λ x. x) 2 10 20 7 9 tables selector [] queue-IsOrdered (omega arith)

abbrev flag_of : Outcome (Bool × Tables × EPollRSelector) → Option Bool
flag_of (done (b, _, _)) = some b
flag_of more = none
flag_of fault = none

-- The round goes on to the next.
abbrev round_ended : Option Bool
round_ended = flag_of (round system (λ x. x) 2 10 20 9 tables selector []).0

round_ended_test : round_ended ≡ some true
unfolding round awake sorted wait_time queue_timeout wait_ns epoll_wait_ex wait_loop judge
    get_fast_time sort_ready place drain lookup enqueue ping_all ping put EPoll.next ready_count
round_ended_test = refl

-- The first delayed socket is due at 4, and it is 1.
wait_time_test :
    wait_time system (λ x. x) 2 10 20 tables.wait_queue [] ≡ (done (pos 3), clock_gettime ∷ [])
unfolding wait_time queue_timeout get_fast_time
wait_time_test = refl

early-Ticks : Ticks system 5
early-Ticks c t = omega (arith, system-Ticks c t)

round-IsDone_example : IsDone (round system (λ x. x) 2 10 20 9 tables selector []).0
round-IsDone_example =
    round-IsDone system (λ x. x) 2 10 20 9 3 tables selector [] (clock_gettime ∷ []) system_contract
      wait_time_test early-Ticks early (omega arith) (omega arith) (omega arith)

-- The worker pings its socket until a message comes in pieces.
abbrev run_out : Outcome (Tables × EPollRSelector) × Trace
run_out = worker_loop system (λ x. x) 2 0 0 30 tables selector []

abbrev tables_of : Outcome (Tables × EPollRSelector) → Tables
tables_of (done (s, sel)) = s
tables_of more = tables
tables_of fault = tables

abbrev selector_of : Outcome (Tables × EPollRSelector) → EPollRSelector
selector_of (done (s, sel)) = sel
selector_of more = selector
selector_of fault = selector

run_out-ends : run_out ≡ (done (tables_of run_out.0, selector_of run_out.0), run_out.1)
unfolding worker_loop round awake sorted wait_time queue_timeout wait_ns epoll_wait_ex wait_loop
    judge get_fast_time sort_ready place drain lookup enqueue ping_all ping put EPoll.next
    ready_count
run_out-ends = refl

worker_loop-written_to_example :
    pings_of 5 (tables_of run_out.0)
    ≡ (pings_of 5 tables + (written_to system 2 5 run_out.1 - written_to system 2 5 [])) % 2 ^ 64
worker_loop-written_to_example =
    worker_loop-written_to system (λ x. x) 2 0 0 5 30 tables (tables_of run_out.0) selector
      (selector_of run_out.0) [] run_out.1 (omega arith) run_out-ends

-- A system on which `done` is set.
abbrev halting_value : Trace → Option ℕ
halting_value [] = none
halting_value (load_done ∷ t) = some 1
halting_value (c ∷ t) = value_of (c ∷ t)

abbrev halting : Os
halting t = record (system t) { value = halting_value t }

abbrev halted : Outcome (Tables × EPollRSelector) × Trace
halted = worker_loop halting (λ x. x) 2 10 20 9 tables selector []

halted-ends : halted ≡ (done (tables_of halted.0, selector_of halted.0), halted.1)
unfolding worker_loop round awake sorted wait_time queue_timeout wait_ns epoll_wait_ex wait_loop
    judge get_fast_time sort_ready place drain lookup enqueue ping_all ping put EPoll.next
    ready_count
halted-ends = refl

worker_loop-stops_example :
    (stops halting halted.1 ≡ stops halting [])
    ⊎ ((v : Trace) × (halted.1 ≡ load_done ∷ v) × (stops halting v ≡ stops halting []))
worker_loop-stops_example =
    worker_loop-stops halting (λ x. x) 2 10 20 9 tables (tables_of halted.0) selector
      (selector_of halted.0) [] halted.1 halted-ends

halting_contract : EpollContract halting
halting_contract = record { fits = λ efd m x t n e. ground arith }

halting-Ticks : Ticks halting 5
halting-Ticks c t = omega (arith, system-Ticks c t)

halting-early : (t : Trace) → nanoseconds (halting t) < 2 ^ 63
halting-early t = elim (Option-cases (halting_value t)) [
  | inl e ↦ rw e (omega arith)
  | inr (n, e) ↦ rw e (omega arith)
]

halting_wait :
    wait_time halting (λ x. x) 2 10 20 tables.wait_queue [] ≡ (done (pos 3), clock_gettime ∷ [])
unfolding wait_time queue_timeout get_fast_time
halting_wait = refl

worker_loop-Returns_example :
    Returns halting
      (λ x. x)
      2
      10
      20
      5
      (clock_gettime ∷ [])
      (worker_loop halting (λ x. x) 2 10 20 9 tables selector [])
worker_loop-Returns_example =
    worker_loop-Returns halting (λ x. x) 2 10 20 5 8 3 tables selector [] (clock_gettime ∷ [])
      halting_contract (λ u h. refl) halting_wait halting-Ticks halting-early (omega arith)
      (omega arith)

-- A selector with an event for a socket that has been written to, and one for a new socket.
abbrev two_ready : EPollRSelector
two_ready = record {
  efd = some 3;
  events = record {
    events = record { fd = 7; flags = 1 } ∷ record { fd = 6; flags = 1 } ∷ [];
    num_ready = some 2;
    recv_time = 0;
  };
  current_ready = 0;
  end_of_ready = 2;
}

abbrev sorted_two : Outcome (Bool × Tables × EPollRSelector) × Trace
sorted_two =
    sort_ready system (λ x. x) 2 0 0 9 50 (counted system (λ x. x) 2 0 0 two_ready tables) two_ready
      []

abbrev after_two : Tables
after_two = record {
  last_time = (7, 1) ∷ (6, 0) ∷ [];
  wait_queue = queue;
  ready_fds = 7 ∷ 6 ∷ [];
  result = record { mcount = 2; lat_map = (49, 1) ∷ []; mess_count_for_sock = [] };
}

abbrev drained : EPollRSelector
drained = record two_ready { current_ready = 2 }

sorted_two-ends : sorted_two ≡ (done (true, after_two, drained), load_done ∷ load_done ∷ [])
unfolding sort_ready place lookup enqueue EPoll.next ready_count add_at
sorted_two-ends = refl

sort_ready-counted_example :
    (met after_two ≡ met tables + 2)
    × (after_two.result.mcount ≡ (tables.result.mcount + 2) % 2 ^ 64)
sort_ready-counted_example =
    sort_ready-counted system (λ x. x) 2 0 0 2 9 50 tables after_two two_ready drained []
      (load_done ∷ load_done ∷ []) refl (omega arith) (omega arith) sorted_two-ends
