-- ===== src/Wait/Deadline.antt =====
-- `epoll_wait_ex` returns.
use network_ping_test.Base.{
  ℕ, zero, suc, ◌+◌, ◌%◌, ◌^◌, ◌≤◌, ◌<◌, ◌≡◌, ◌≢◌, refl, ◌∷◌, Option, some, Bool, true, false, ◌&&◌,
  arith, inl, inr, Bool-cases, dec_le, length, min,
}
use network_ping_test.Base.Int.{ℤ, pos}
use network_ping_test.Os.{Os, Run, more, Trace, Call, clock_gettime, epoll_wait}
use network_ping_test.Wait.{
  EventsList, Verdict, finished, again, judge, resume, expired, nanoseconds, poll_timeout,
  time_left, wait_loop, epoll_wait_ex, get_fast_time,
}

-- A clock that, read again after another call, has moved on, at least until it shows `limit`; from
-- then on it never shows an earlier time than `limit`.
abbrev pub Ticks : Os → ℕ → Type 0
Ticks os limit =
    (c : Call) (t : Trace)
    → min (suc (nanoseconds (os (clock_gettime ∷ t)))) limit
      ≤ nanoseconds (os (clock_gettime ∷ c ∷ clock_gettime ∷ t))

-- Past its deadline a finite wait has expired.
expired_late :
    (timeout r c : ℕ) → r < 2 ^ 63 → c < 2 ^ 63 → r ≤ c → expired (pos timeout) r c ≡ true
expired_late timeout r c hr hc h = ground arith

resume-ne-more :
    (loop : EventsList → Run (Bool × EventsList)) (v : Verdict) (t : Trace)
    → ((ready : EventsList) → (loop ready t).0 ≢ more)
    → (resume loop v t).0 ≢ more
resume-ne-more loop (finished b ready) t h e = cc
resume-ne-more loop (again ready) t h e = h ready e

module _ (os : Os) (efd : Option ℕ) (timeout return_time : ℕ) (ticks : Ticks os return_time)
    (small : (t : Trace) → nanoseconds (os t) < 2 ^ 63) (soon : return_time < 2 ^ 63) where
  -- A round runs out of fuel only if the rounds after it do.
  round-ne-more :
      (fuel : ℕ) (polled : Bool) (curr : ℕ) (ready : EventsList) (t : Trace)
      → ((x : ℤ) (ready' : EventsList)
          → let before = epoll_wait efd (length ready.events) x ∷ t in
            (wait_loop os efd
              (pos timeout)
              return_time
              fuel
              true
              (nanoseconds (os (clock_gettime ∷ before)))
              ready'
              (clock_gettime ∷ before)).0
            ≢ more)
      → (wait_loop os efd (pos timeout) return_time (suc fuel) polled curr ready t).0 ≢ more
  unfolding wait_loop get_fast_time
  round-ne-more fuel polled curr ready t h =
      elim (Bool-cases (expired (pos timeout) return_time curr && polled)) [
        | inl e ↦ rw e (λ e'. cc)
        | inr e ↦
            let x : ℤ = poll_timeout (pos timeout) (time_left (pos timeout) return_time curr) in
            let before : Trace = epoll_wait efd (length ready.events) x ∷ t in
            let now : ℕ = nanoseconds (os (clock_gettime ∷ before)) in
            rw e (
              resume-ne-more (wait_loop os efd (pos timeout) return_time fuel true now)
                (judge return_time now (os before) ready) (clock_gettime ∷ before) (h x))
      ]

  -- After a poll each round sees a later time, and the round that sees the deadline is the last.
  polled_loop :
      (fuel : ℕ) (ready : EventsList) (before : Trace) (curr : ℕ)
      → nanoseconds (os (clock_gettime ∷ before)) ≡ curr
      → 0 < fuel
      → return_time < curr + fuel
      → (wait_loop os efd (pos timeout) return_time fuel true curr ready (clock_gettime ∷ before)).0
        ≢ more
  unfolding wait_loop
  polled_loop zero ready before curr c p h = absurd (omega arith)
  polled_loop (suc fuel) ready before curr c p h = elim (dec_le return_time curr) [
    | yes late ↦
        rw
          (expired_late timeout return_time curr soon (rw c at (small (clock_gettime ∷ before)))
            late)
          (λ e. cc)
    | no early ↦ round-ne-more fuel true curr ready (clock_gettime ∷ before) (λ x ready'.
        polled_loop fuel ready' (epoll_wait efd (length ready.events) x ∷ clock_gettime ∷ before)
          (nanoseconds
            (os (clock_gettime ∷ epoll_wait efd (length ready.events) x ∷ clock_gettime ∷ before)))
          refl (omega arith) (omega (arith, ticks (epoll_wait efd (length ready.events) x) before)))
  ]

-- If each reading of the clock, up to the deadline, is later than the one before, `epoll_wait_ex` with
-- a timeout of T ns returns, whatever `epoll_wait` answers: T + 2 rounds of its loop are enough. Times
-- stay below 2 ^ 63.
pub epoll_wait_ex-ne-more :
    (os : Os) (fuel : ℕ) (efd : Option ℕ) (ready : EventsList) (timeout : ℕ) (t : Trace)
    → Ticks os (nanoseconds (os (clock_gettime ∷ t)) + timeout)
    → ((u : Trace) → nanoseconds (os u) < 2 ^ 63)
    → nanoseconds (os (clock_gettime ∷ t)) + timeout < 2 ^ 63
    → timeout + 2 ≤ fuel
    → (epoll_wait_ex os fuel efd ready (pos timeout) t).0 ≢ more
unfolding epoll_wait_ex get_fast_time
epoll_wait_ex-ne-more os zero efd ready timeout t ticks small soon enough = absurd (omega arith)
epoll_wait_ex-ne-more os (suc fuel) efd ready timeout t ticks small soon enough = rw wrapped (
    round-ne-more os efd timeout _ ticks small soon fuel false
      (nanoseconds (os (clock_gettime ∷ t))) (record ready { num_ready = some 0 })
      (clock_gettime ∷ t)
      (λ x ready'.
        polled_loop os efd timeout _ ticks small soon fuel ready'
          (epoll_wait efd (length ready.events) x ∷ clock_gettime ∷ t)
          (nanoseconds
            (os (clock_gettime ∷ epoll_wait efd (length ready.events) x ∷ clock_gettime ∷ t)))
          refl (omega arith) (omega (arith, ticks (epoll_wait efd (length ready.events) x) t))))
  where
    wrapped :
        (nanoseconds (os (clock_gettime ∷ t)) + timeout % 2 ^ 64) % 2 ^ 64
        ≡ nanoseconds (os (clock_gettime ∷ t)) + timeout
    wrapped = omega arith
