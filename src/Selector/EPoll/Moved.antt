-- ===== src/Selector/EPoll/Moved.antt =====
-- The move constructor of `EPollRSelector`.
use network_ping_test.Base.{
  ℕ, suc, ◌≡◌, refl, [], ◌∷◌, Option, none, some, Bool, false, ◌+◌, ◌%◌, ◌^◌, ◌&&◌, arith,
}
use network_ping_test.Base.Int.{ℤ}
use network_ping_test.Os.{Os, Trace, epoll_wait, clock_gettime, answer, Reply}
use network_ping_test.Wait.{
  nanoseconds, to_unsigned, poll_timeout, time_left, expired, EventsList, finished, received,
  epoll_wait_ex, wait_loop, judge, get_fast_time,
}
use network_ping_test.Selector.EPoll.{EPollRSelector, move, destroy, wait_ns, ok}

-- What epoll_wait(2) documents of `maxevents`: it has to be greater than 0, or the call fails with
-- EINVAL.
pub record NeedsRoom (os : Os) : Type 0 where
  pub refused :
      (efd : Option ℕ) (x : ℤ) (t : Trace)
      → ((os (epoll_wait efd 0 x ∷ t)).value ≡ none) × ((os (epoll_wait efd 0 x ∷ t)).errno ≡ 22)

and_false : (b : Bool) → (b && false) ≡ false
and_false b = ground arith

judge-refused :
    (return_time now : ℕ) (r : Reply) (ready : EventsList)
    → r.value ≡ none
    → r.errno ≡ 22
    → judge return_time now r ready ≡ finished false (received ready r)
unfolding judge
judge-refused return_time now r ready v e = rw (v, e)

-- The move hands the descriptor over: the new object is `ok` just when the old one was, and the
-- destructor of the object that was moved from closes nothing.
-- But the array of events does not move with it, so every `wait` of the new object returns false.
pub move_breaks_wait :
    (os : Os) (fuel : ℕ) (timeout : ℤ) (s : EPollRSelector) (t : Trace)
    → NeedsRoom os
    → (ok (move s).0 ≡ ok s)
      × (destroy (move s).1 t ≡ t)
      × (answer (wait_ns os (suc fuel) timeout (move s).0 t).0 ≡ some false)
unfolding ok move destroy wait_ns epoll_wait_ex wait_loop get_fast_time
move_breaks_wait os fuel timeout s t need =
    let start : ℕ = nanoseconds (os (clock_gettime ∷ t)) in
    let return_time : ℕ = (start + to_unsigned timeout) % 2 ^ 64 in
    let x : ℤ = poll_timeout timeout (time_left timeout return_time start) in
    let before : Trace = epoll_wait s.efd 0 x ∷ clock_gettime ∷ t in
    let (lost, cause) = need.refused s.efd x (clock_gettime ∷ t) in
    (
      refl,
      refl,
      rw
          (
            and_false (expired timeout return_time start),
            judge-refused return_time (nanoseconds (os (clock_gettime ∷ before))) (os before)
                (record { events = []; num_ready = some 0; recv_time = 0 }) lost cause,
          )
          refl,
    )
