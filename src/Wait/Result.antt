-- ===== src/Wait/Result.antt =====
-- What `epoll_wait_ex` guarantees when it returns.
use Prim.Native.Nat.{zero-le}
use network_ping_test.Base.{
  ℕ, zero, suc, ◌+◌, ◌%◌, ◌^◌, ◌≤◌, ◌<◌, ◌≡◌, ◌≢◌, refl, ap, List, [], ◌∷◌, Option, none, some,
  Bool, true, false, ◌&&◌, length, arith, leb, ◌==◌, inl, inr, Bool-cases, ◌∙◌, leb→le, ◌⊎◌,
}
use network_ping_test.Base.Int.{ℤ, pos, leb_ℤ, ◌-ℤ◌}
use network_ping_test.Os.{
  Os, Event, Run, Outcome, done, more, fault, Trace, clock_gettime, epoll_wait, einterrupted,
}
use network_ping_test.Wait.{
  EventsList, Verdict, finished, again, judge, resume, expired, nanoseconds, overlay, wait_loop,
  epoll_wait_ex, get_fast_time, to_long,
}

-- What epoll_wait(2) documents: it reports at most `maxevents` events.
pub record EpollContract (os : Os) : Type 0 where
  pub fits :
      (efd : Option ℕ) (m : ℕ) (x : ℤ) (t : Trace) (n : ℕ)
      → (os (epoll_wait efd m x ∷ t)).value ≡ some n
      → n ≤ m

-- The two newest calls: an `epoll_wait` on `size` places, and a reading of the clock.
pub record Polled (efd : Option ℕ) (size : ℕ) (t : Trace) : Type 0 where
  pub timeout : ℤ
  pub before : Trace
  pub newest : t ≡ clock_gettime ∷ epoll_wait efd size timeout ∷ before

-- At a trace whose newest call is an `epoll_wait`: it has reported `n` events, and they were written over
-- the array.
abbrev pub Reports : Os → ℕ → List Event → Trace → Type 0
Reports os n events t =
    ((os t).value ≡ some n) × (buffer : List Event) × (events ≡ overlay (os t).events buffer)

-- The calls before the newest.
abbrev pub earlier : Trace → Trace
earlier [] = []
earlier (_ ∷ t) = t

-- A return of true: the count is within the array; with no event the deadline has passed, and else the
-- events are those that `epoll_wait` has reported.
pub record Awake (os : Os) (return_time size : ℕ) (ready : EventsList) (t : Trace) : Type 0 where
  pub count : ℕ
  pub reported : ready.num_ready ≡ some count
  pub within : count ≤ size
  pub cause :
      ((count ≡ 0) × (return_time ≤ nanoseconds (os t)))
      ⊎ ((0 < count)
          × (ready.recv_time ≡ nanoseconds (os t))
          × Reports os count ready.events (earlier t))

-- A return of false: the last `epoll_wait` failed, and not by EINTR.
pub record Broken (os : Os) (t : Trace) : Type 0 where
  pub before : Trace
  pub newest : t ≡ clock_gettime ∷ before
  pub lost : (os before).value ≡ none
  pub cause : (os before).errno ≢ einterrupted

abbrev pub Returned : Os → Option ℕ → ℕ → ℕ → Outcome (Bool × EventsList) × Trace → Type 0
Returned os efd return_time size (more, t) = Unit
Returned os efd return_time size (fault, t) = ⊥
Returned os efd return_time size (done (true, ready), t) =
    (length ready.events ≡ size) × Polled efd size t × Awake os return_time size ready t
Returned os efd return_time size (done (false, ready), t) =
    (length ready.events ≡ size) × Polled efd size t × Broken os t

length-overlay : (es buffer : List Event) → length (overlay es buffer) ≡ length buffer
length-overlay [] buffer = refl
length-overlay (e ∷ es) [] = refl
length-overlay (e ∷ es) (b ∷ buffer) = ap suc (length-overlay es buffer)

and_true : (a b : Bool) → (a && b) ≡ true → (a ≡ true) × (b ≡ true)
and_true a b h = ground arith

-- A `long` difference that is not positive.
expired-le :
    (r c : ℕ) → r < 2 ^ 63 → c < 2 ^ 63 → leb_ℤ (to_long r -ℤ to_long c) (pos 0) ≡ true → r ≤ c
expired-le r c hr hc h = ground arith

-- What the verdict on the reply to the newest `epoll_wait` says.
abbrev Judged : Os → ℕ → ℕ → Trace → ℕ → Verdict → Type 0
Judged os return_time size before now (finished true ready) =
    (length ready.events ≡ size)
    × ((n : ℕ) × (ready.num_ready ≡ some n)
        × (n ≤ size)
        × (((n ≡ 0) × (return_time ≤ now))
            ⊎ ((0 < n) × (ready.recv_time ≡ now) × Reports os n ready.events before)))
Judged os return_time size before now (finished false ready) =
    (length ready.events ≡ size) × ((os before).value ≡ none) × ((os before).errno ≢ einterrupted)
Judged os return_time size before now (again ready) =
    (length ready.events ≡ size) × (ready.num_ready ≡ some 0)

judge-Judged :
    (os : Os) (return_time size : ℕ) (before : Trace) (now : ℕ) (ready : EventsList)
    → length ready.events ≡ size
    → ((n : ℕ) → (os before).value ≡ some n → n ≤ size)
    → Judged os return_time size before now (judge return_time now (os before) ready)
unfolding judge
judge-Judged os return_time size before now ready l fits = go (os before).value refl
  where
    kept : length (overlay (os before).events ready.events) ≡ size
    kept = length-overlay (os before).events ready.events ∙ l

    go :
        (v : Option ℕ)
        → (os before).value ≡ v
        → Judged os return_time size before now (judge return_time now (os before) ready)
    go none e = elim (Bool-cases ((os before).errno == einterrupted)) [
      | inl i ↦ rw (e, i) (kept, refl)
      | inr i ↦ rw (e, i) (kept, e, ground arith)
    ]
    go (some zero) e = elim (Bool-cases (leb return_time now)) [
      | inl i ↦ rw (e, i) (kept, (0, refl, omega arith, inl (refl, leb→le _ _ i)))
      | inr i ↦ rw (e, i) (kept, refl)
    ]
    go (some (suc n)) e =
        rw e (kept, (suc n, refl, fits (suc n) e, inr (omega arith, refl, (e, ready.events, refl))))

module _ (os : Os) (efd : Option ℕ) (timeout_ns : ℤ) (return_time size : ℕ)
    (contract : EpollContract os) (small : (t : Trace) → nanoseconds (os t) < 2 ^ 63)
    (soon : return_time < 2 ^ 63) where
  resume-Returned :
      (loop : EventsList → Run (Bool × EventsList)) (x : ℤ) (before : Trace) (v : Verdict)
      → Judged os return_time size
          (epoll_wait efd size x ∷ before)
          (nanoseconds (os (clock_gettime ∷ epoll_wait efd size x ∷ before)))
          v
      → ((ready : EventsList)
          → length ready.events ≡ size
          → ready.num_ready ≡ some 0
          → Returned os efd return_time size
              (loop ready (clock_gettime ∷ epoll_wait efd size x ∷ before)))
      → Returned os efd return_time size
          (resume loop v (clock_gettime ∷ epoll_wait efd size x ∷ before))
  resume-Returned loop x before (finished true ready) (l, (n, e, f, d)) h = (
    l,
    record { timeout = x; before = before; newest = refl },
    record { count = n; reported = e; within = f; cause = d },
  )
  resume-Returned loop x before (finished false ready) (l, e, d) h = (
    l,
    record { timeout = x; before = before; newest = refl },
    record { before = _; newest = refl; lost = e; cause = d },
  )
  resume-Returned loop x before (again ready) (l, z) h = h ready l z

  at_deadline :
      (curr : ℕ) (t : Trace)
      → nanoseconds (os t) ≡ curr
      → expired timeout_ns return_time curr ≡ true
      → return_time ≤ nanoseconds (os t)
  at_deadline curr t c e =
      rw c (expired-le return_time curr soon (rw c at (small t)) (and_true _ _ e).0)

  wait_loop-Returned :
      (fuel : ℕ) (polled : Bool) (curr : ℕ) (ready : EventsList) (t : Trace)
      → nanoseconds (os t) ≡ curr
      → length ready.events ≡ size
      → ready.num_ready ≡ some 0
      → (polled ≡ true → Polled efd size t)
      → Returned os efd return_time size
          (wait_loop os efd timeout_ns return_time fuel polled curr ready t)
  unfolding wait_loop
  wait_loop-Returned zero polled curr ready t c l z p = tt
  wait_loop-Returned (suc fuel) polled curr ready t c l z p =
      elim (Bool-cases (expired timeout_ns return_time curr && polled)) [
        | inl e ↦ rw e (
          l,
          p (and_true _ _ e).1,
          record {
            count = 0;
            reported = z;
            within = zero-le;
            cause = inl (refl, at_deadline curr t c (and_true _ _ e).0);
          },
        )
        | inr e ↦
            rw (e, l)
              (resume-Returned _ _ _ _
                (judge-Judged os return_time size _ _ ready l (λ n. contract.fits efd size _ t n))
                (λ ready' l' z'.
                  wait_loop-Returned fuel true _ ready' _ refl l' z'
                    (λ _. record { timeout = _; before = _; newest = refl })))
      ]

-- With a timeout of T ns a return of true reports a count within the array, and with the count 0 only
-- when the last reading of the clock has reached start + T; with events the count is the one that the
-- last `epoll_wait` has reported, its events are in the array, and they are stamped with that reading. A
-- return of false follows a failure of `epoll_wait` other than EINTR. Either way the newest calls are an
-- `epoll_wait` and a reading of the clock, so the descriptors have been polled at least once. Times stay
-- below 2 ^ 63, and `epoll_wait` keeps to its contract.
pub epoll_wait_ex-Returned :
    (os : Os) (fuel : ℕ) (efd : Option ℕ) (ready : EventsList) (timeout : ℕ) (t : Trace)
    → EpollContract os
    → ((u : Trace) → nanoseconds (os u) < 2 ^ 63)
    → nanoseconds (os (clock_gettime ∷ t)) + timeout < 2 ^ 63
    → Returned os efd
        (nanoseconds (os (clock_gettime ∷ t)) + timeout)
        (length ready.events)
        (epoll_wait_ex os fuel efd ready (pos timeout) t)
unfolding epoll_wait_ex get_fast_time
epoll_wait_ex-Returned os fuel efd ready timeout t contract small soon = rw wrapped (
    wait_loop-Returned os efd (pos timeout) _ _ contract small soon fuel false _ _ _ refl refl refl
      (λ e. cc))
  where
    wrapped :
        (nanoseconds (os (clock_gettime ∷ t)) + timeout % 2 ^ 64) % 2 ^ 64
        ≡ nanoseconds (os (clock_gettime ∷ t)) + timeout
    wrapped = omega arith
