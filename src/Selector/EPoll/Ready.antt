-- ===== src/Selector/EPoll/Ready.antt =====
-- What the loop over `next` sees after a `wait`.
use network_ping_test.Base.{
  ℕ, zero, suc, ◌+◌, ◌^◌, ◌≤◌, ◌<◌, ◌≡◌, refl, ap, subst, ◌∙◌, List, [], ◌∷◌, Option, none, some,
  Bool, true, false, ◌==◌, length, get_elem?, get_elem?-of_lt, take, drop, arith, Bool-cases, inl,
  inr, ◌⊎◌,
}
use network_ping_test.Base.Int.{pos}
use network_ping_test.Os.{
  Os, Event, Trace, clock_gettime, epoll_ctl_del, Outcome, done, more, fault, continue,
}
use network_ping_test.Wait.{EventsList, nanoseconds, epoll_wait_ex}
use network_ping_test.Wait.Result.{
  Awake, EpollContract, Reports, Returned, earlier, epoll_wait_ex-Returned,
}
use network_ping_test.Selector.{collect, collect-next, collect-end}
use native.Mathlib.Numerals.{add-one}
use mathlib.Core.Bool.{false≢true}
use network_ping_test.Selector.EPoll.{
  EPollRSelector, epoll_selector, next, wait_ns, rewind, remove_current_ready, ready_count,
  read_event,
}

pub drop-cons :
    (xs : List Event) (i : ℕ) (e : Event)
    → get_elem? xs i ≡ some e
    → drop i xs ≡ e ∷ drop (suc i) xs
drop-cons [] i e h = cc
drop-cons (x ∷ xs) zero e h = ground arith
drop-cons (x ∷ xs) (suc i) e h = drop-cons xs i e h

differ :
    (s : EPollRSelector)
    → s.current_ready < s.end_of_ready
    → (s.end_of_ready == s.current_ready) ≡ false
differ s h = ground arith

same :
    (s : EPollRSelector)
    → s.current_ready ≡ s.end_of_ready
    → (s.end_of_ready == s.current_ready) ≡ true
same s h = ground arith

pub next-read :
    (s : EPollRSelector) (t : Trace)
    → s.current_ready < s.end_of_ready
    → s.end_of_ready ≤ length s.events.events
    → (e : Event) × (get_elem? s.events.events s.current_ready ≡ some e)
      × (next s t ≡ (done (some e, record s { current_ready = s.current_ready + 1 }), t))
unfolding next
next-read s t lt le =
    let (e, found) = get_elem?-of_lt s.events.events s.current_ready (omega arith) in
    (e, found, rw (differ s lt, found) refl)

pub next-end :
    (s : EPollRSelector) (t : Trace)
    → s.current_ready ≡ s.end_of_ready
    → next s t ≡ (done (none, s), t)
unfolding next
next-end s t e = rw (same s e) refl

at_end :
    (s : EPollRSelector) (t : Trace)
    → s.current_ready ≡ s.end_of_ready
    → ◌≡◌ {A = Outcome (List Event × EPollRSelector) × Trace}
        (done ([], s), t)
        (done ([], record s { current_ready = s.end_of_ready }), t)
at_end s t e = λ i. (done ([], record s { current_ready = e i }), t)

collect-slice :
    (n : ℕ) (s : EPollRSelector) (t : Trace)
    → s.end_of_ready ≡ s.current_ready + n
    → s.end_of_ready ≤ length s.events.events
    → collect epoll_selector (suc n) s t ≡ (
      done (
        take n (drop s.current_ready s.events.events),
        record s { current_ready = s.end_of_ready },
      ),
      t,
    )
collect-slice zero s t e h =
    let here : s.current_ready ≡ s.end_of_ready = omega arith in
    collect-end epoll_selector 0 s s t t (next-end s t here) ∙ at_end s t here
collect-slice (suc n) s t e h =
    let (x, found, read) = next-read s t (omega arith) h in
    let rest : collect epoll_selector (suc n) (record s { current_ready = s.current_ready + 1 }) t
        ≡ (
          done (
            take n (drop (s.current_ready + 1) s.events.events),
            record s { current_ready = s.end_of_ready },
          ),
          t,
        ) =
      collect-slice n (record s { current_ready = s.current_ready + 1 }) t (omega arith) h in
    rw (drop-cons s.events.events s.current_ready x found)
      (rw add-one at (collect-next epoll_selector (suc n) s _ _ x _ t t t read rest))

-- A selector whose `next` loop delivers `n` events, the first `n` of its array, and then stops. There are
-- none if the deadline has passed, or else as many as `epoll_wait` has reported, in the array.
pub record Delivers (os : Os) (return_time : ℕ) (t : Trace) (before s : EPollRSelector) (n : ℕ)
    : Type 0 where
  pub cause :
      ((n ≡ 0) × (return_time ≤ nanoseconds (os t)))
      ⊎ ((0 < n) × Reports os n s.events.events (earlier t))
  pub count : ready_count s ≡ n
  pub within : n ≤ length before.events.events
  pub size : length s.events.events ≡ length before.events.events
  pub same_efd : s.efd ≡ before.efd
  pub loop :
      (u : Trace)
      → collect epoll_selector (suc n) s u
        ≡ (done (take n s.events.events, record s { current_ready = s.end_of_ready }), u)

abbrev filled : EPollRSelector → EventsList → ℕ → EPollRSelector
filled s ready n = record s { events = ready; current_ready = 0; end_of_ready = 0 + n }

filled-Delivers :
    (os : Os) (return_time : ℕ) (t : Trace) (s : EPollRSelector) (ready : EventsList)
    → length ready.events ≡ length s.events.events
    → (a : Awake os return_time (length s.events.events) ready t)
    → Delivers os return_time t s (filled s ready a.count) a.count
unfolding ready_count
filled-Delivers os return_time t s ready l a = record {
  cause = reported a.cause;
  count = omega arith;
  within = a.within;
  size = l;
  same_efd = refl;
  loop = λ u. collect-slice a.count (filled s ready a.count) u refl (omega (arith, a.within));
}
  where
    reported :
        ((a.count ≡ 0) × (return_time ≤ nanoseconds (os t)))
          ⊎ ((0 < a.count)
              × (ready.recv_time ≡ nanoseconds (os t))
              × Reports os a.count ready.events (earlier t))
        → ((a.count ≡ 0) × (return_time ≤ nanoseconds (os t)))
          ⊎ ((0 < a.count) × Reports os a.count ready.events (earlier t))
    reported (inl none_yet) = inl none_yet
    reported (inr (some_now, stamp, events)) = inr (some_now, events)

-- What a `wait` leaves when it returns true.
abbrev AllDelivered : Os → ℕ → EPollRSelector → Outcome (Bool × EPollRSelector) × Trace → Type 0
AllDelivered os return_time s (done (true, s'), t) = (n : ℕ) × Delivers os return_time t s s' n
AllDelivered os return_time s (done (false, s'), t) = Unit
AllDelivered os return_time s (more, t) = Unit
AllDelivered os return_time s (fault, t) = Unit

rewind-AllDelivered :
    (os : Os) (return_time : ℕ) (s : EPollRSelector) (r : Outcome (Bool × EventsList) × Trace)
    → Returned os s.efd return_time (length s.events.events) r
    → AllDelivered os return_time s (continue (λ result. rewind result s) r.0 r.1)
rewind-AllDelivered os return_time s (more, u) h = tt
rewind-AllDelivered os return_time s (fault, u) h = tt
rewind-AllDelivered os return_time s (done (false, ready), u) h = tt
rewind-AllDelivered os return_time s (done (true, ready), u) (l, p, awake) =
    rw awake.reported (awake.count, filled-Delivers os return_time u s ready l awake)

-- After a `wait` with a finite timeout that returns true, `ready_count()` is a number n within the
-- array, the `next` loop delivers exactly the first n entries of the array, in order, never reading
-- outside it, and then ends; the array keeps its size and the selector its descriptor. Either n is 0
-- and the clock has reached the deadline, or n is the positive number of events that the last
-- `epoll_wait` has reported, whose events are written over the array from its front.
pub wait_ns-Delivers :
    (os : Os) (fuel timeout : ℕ) (s s' : EPollRSelector) (t t' : Trace)
    → EpollContract os
    → ((u : Trace) → nanoseconds (os u) < 2 ^ 63)
    → nanoseconds (os (clock_gettime ∷ t)) + timeout < 2 ^ 63
    → wait_ns os fuel (pos timeout) s t ≡ (done (true, s'), t')
    → (n : ℕ) × Delivers os (nanoseconds (os (clock_gettime ∷ t)) + timeout) t' s s' n
unfolding wait_ns
wait_ns-Delivers os fuel timeout s s' t t' contract small soon e =
    subst (AllDelivered os (nanoseconds (os (clock_gettime ∷ t)) + timeout) s) e (
      rewind-AllDelivered os (nanoseconds (os (clock_gettime ∷ t)) + timeout) s
        (epoll_wait_ex os fuel s.efd s.events (pos timeout) t)
        (epoll_wait_ex-Returned os fuel s.efd s.events timeout t contract small soon))

abbrev event_or : Event → Outcome (Option Event × EPollRSelector) × Trace → Event
event_or d (done (some e, _), _) = e
event_or d _ = d

abbrev next_state_or :
    EPollRSelector → Outcome (Option Event × EPollRSelector) × Trace → EPollRSelector
next_state_or d (done (_, s), _) = s
next_state_or d _ = d

abbrev has_event : Outcome (Option Event × EPollRSelector) × Trace → Bool
has_event (done (some _, _), _) = true
has_event _ = false

abbrev is_done : Outcome (Option Event × EPollRSelector) × Trace → Bool
is_done (done _, _) = true
is_done _ = false

forgets :
    (os : Os) (s s' : EPollRSelector) (e : Event) (t u : Trace) (o : Option Event)
    → get_elem? s.events.events s.current_ready ≡ o
    → read_event o s t ≡ (done (some e, s'), t)
    → remove_current_ready os s' u ≡ (done s', epoll_ctl_del s.efd e.fd ∷ u)
unfolding remove_current_ready
forgets os s s' e t u none f h = absurd (false≢true (ap is_done h))
forgets os s s' e t u (some x) f h =
    subst (λ q. remove_current_ready os q u ≡ (done q, epoll_ctl_del s.efd e.fd ∷ u))
      (ap (next_state_or s) h)
      (rw (add-one, f)
        (λ i. (
          done (record s { current_ready = suc s.current_ready }),
          epoll_ctl_del s.efd (ap (event_or x) h i).fd ∷ u,
        )))

-- `remove_current_ready` right after a `next` that delivered an event takes the descriptor of that
-- event, and no other, out of the epoll set, and changes nothing in the selector.
pub remove_current_ready-next :
    (os : Os) (s s' : EPollRSelector) (e : Event) (t u : Trace)
    → next s t ≡ (done (some e, s'), t)
    → remove_current_ready os s' u ≡ (done s', epoll_ctl_del s.efd e.fd ∷ u)
unfolding next
remove_current_ready-next os s s' e t u h = elim (Bool-cases (s.end_of_ready == s.current_ready)) [
  | inl q ↦ absurd (false≢true (ap has_event (rw q at h)))
  | inr q ↦ forgets os s s' e t u (get_elem? s.events.events s.current_ready) refl (rw q at h)
]
