-- ===== src/Wait/Quiet.antt =====
-- common.cpp `epoll_wait_ex`: what it may add to a trace.
use network_ping_test.Base.{
  ◌∷◌, ℕ, zero, suc, Bool, true, false, ◌&&◌, Option, Bool-cases, inl, inr, length,
}
use network_ping_test.Base.Int.{ℤ}
use network_ping_test.Os.{Os, Run, Trace, clock_gettime, epoll_wait}
use network_ping_test.Wait.{
  EventsList, Verdict, finished, again, judge, resume, wait_loop, epoll_wait_ex, get_fast_time,
  expired, nanoseconds, poll_timeout, time_left,
}

module _ (P : Trace → Type 0) (clock : (t : Trace) → P t → P (clock_gettime ∷ t))
    (poll : (e : Option ℕ) (n : ℕ) (x : ℤ) (t : Trace) → P t → P (epoll_wait e n x ∷ t)) where
  resume-keeps :
      (loop : EventsList → Run (Bool × EventsList)) (v : Verdict) (u : Trace)
      → P u
      → ((ready : EventsList) → P (loop ready u).1)
      → P (resume loop v u).1
  resume-keeps loop (finished b ready) u p h = p
  resume-keeps loop (again ready) u p h = h ready

  wait_loop-keeps :
      (os : Os) (efd : Option ℕ) (timeout : ℤ) (return_time fuel : ℕ) (polled : Bool) (curr : ℕ)
      (ready : EventsList) (t : Trace)
      → P t
      → P (wait_loop os efd timeout return_time fuel polled curr ready t).1
  unfolding wait_loop get_fast_time
  wait_loop-keeps os efd timeout return_time zero polled curr ready t p = p
  wait_loop-keeps os efd timeout return_time (suc fuel) polled curr ready t p =
      elim (Bool-cases (expired timeout return_time curr && polled)) [
        | inl e ↦ rw e p
        | inr e ↦
            let x : ℤ = poll_timeout timeout (time_left timeout return_time curr) in
            let u : Trace = epoll_wait efd (length ready.events) x ∷ t in
            let p' : P (clock_gettime ∷ u) = clock u (poll efd (length ready.events) x t p) in
            rw e (
              resume-keeps _ (judge return_time (nanoseconds (os (clock_gettime ∷ u))) (os u) ready)
                (clock_gettime ∷ u) p'
                (λ ready'. wait_loop-keeps os efd timeout return_time fuel true _ ready' _ p'))
      ]

  pub epoll_wait_ex-keeps :
      (os : Os) (fuel : ℕ) (efd : Option ℕ) (ready : EventsList) (timeout : ℤ) (t : Trace)
      → P t
      → P (epoll_wait_ex os fuel efd ready timeout t).1
  unfolding epoll_wait_ex get_fast_time
  epoll_wait_ex-keeps os fuel efd ready timeout t p =
      wait_loop-keeps os efd timeout _ fuel false _ _ (clock_gettime ∷ t) (clock t p)
