-- ===== src/Server/Worker/Ends.antt =====
-- A round of a worker ends.
use network_ping_test.Base.{
  ◌⊎◌, ℕ, zero, suc, ◌+◌, ◌^◌, ◌≤◌, ◌<◌, ◌≡◌, ◌≢◌, refl, List, [], ◌∷◌, some, Bool, true, false,
  ◌==◌, length, arith, Bool-cases, inl, inr, not, if◌then◌else◌,
}
use network_ping_test.Base.Int.{pos}
use network_ping_test.Os.{
  Call, call, rand_timeout, Os, Run, Outcome, done, more, fault, Trace, continue, ◌>>=◌, load_done,
  clock_gettime, pure, recv, Event,
}
use network_ping_test.Os.Runs.{IsDone, continue-done}
use network_ping_test.Wait.{EventsList, get_fast_time, nanoseconds, epoll_wait_ex}
use network_ping_test.Wait.Result.{EpollContract, Returned, epoll_wait_ex-Returned}
use network_ping_test.Wait.Deadline.{Ticks, epoll_wait_ex-ne-more}
use network_ping_test.Selector.EPoll.{EPollRSelector, wait_ns, rewind}
use network_ping_test.Selector.EPoll.Ready.{next-read, next-end}
use network_ping_test.Server.Worker.{
  Tables, place, placed, sort_ready, sort_event, choose_timeout, round, awake, sorted, counted,
  woken, has_waiting, wait_time, ping_all, ping, after_ping, time_or_zero, has_timeout,
}
use network_ping_test.Client.Ping.{Echoed, ReadWhole, process_message_lem}
use network_ping_test.Client.{process_message}
use network_ping_test.Server.Worker.Pings.{ping-process_message}

-- A `wait` that has returned: on true the selector stands at the start of its events, which are no more
-- than its places, `size` of them.
abbrev pub Rewound : ℕ → Outcome (Bool × EPollRSelector) → Type 0
Rewound size (done (true, s)) =
    (s.current_ready ≡ 0) × (s.end_of_ready ≤ size) × (length s.events.events ≡ size)
Rewound size (done (false, s)) = Unit
Rewound size more = ⊥
Rewound size fault = ⊥

rewind-Rewound :
    (os : Os) (s : EPollRSelector) (deadline : ℕ) (r : Outcome (Bool × EventsList) × Trace)
    → Returned os s.efd deadline (length s.events.events) r
    → r.0 ≢ more
    → Rewound (length s.events.events) (continue (λ result. rewind result s) r.0 r.1).0
rewind-Rewound os s deadline (more, u) h ne = absurd (ne refl)
rewind-Rewound os s deadline (fault, u) h ne = absurd h
rewind-Rewound os s deadline (done (false, ready), u) h ne = tt
rewind-Rewound os s deadline (done (true, ready), u) (l, p, awake) ne =
    rw awake.reported (refl, omega (arith, awake.within), l)

pub wait_ns-Rewound :
    (os : Os) (fuel timeout : ℕ) (s : EPollRSelector) (t : Trace)
    → EpollContract os
    → Ticks os (nanoseconds (os (clock_gettime ∷ t)) + timeout)
    → ((u : Trace) → nanoseconds (os u) < 2 ^ 63)
    → nanoseconds (os (clock_gettime ∷ t)) + timeout < 2 ^ 63
    → timeout + 2 ≤ fuel
    → Rewound (length s.events.events) (wait_ns os fuel (pos timeout) s t).0
unfolding wait_ns
wait_ns-Rewound os fuel timeout s t contract ticks small soon enough =
    rewind-Rewound os s (nanoseconds (os (clock_gettime ∷ t)) + timeout)
      (epoll_wait_ex os fuel s.efd s.events (pos timeout) t)
      (epoll_wait_ex-Returned os fuel s.efd s.events timeout t contract small soon)
      (epoll_wait_ex-ne-more os fuel s.efd s.events timeout t ticks small soon enough)

module _ (os : Os) (bucket : ℕ → ℕ) (message_len lo hi : ℕ) where
  by_test :
      {A : Type 0} (b : Bool) (m k : Run A) (t : Trace)
      → IsDone (m t).0
      → IsDone (k t).0
      → IsDone ((if b then m else k) t).0
  by_test true m k t hm hk = hm
  by_test false m k t hm hk = hk

  choose_timeout-IsDone : (t : Trace) → IsDone (choose_timeout os bucket message_len lo hi t).0
  choose_timeout-IsDone t =
      by_test (not (has_timeout os bucket message_len lo hi)) (pure 0)
        (if hi == lo then pure hi else drawn) t tt (by_test (hi == lo) (pure hi) drawn t tt tt)
    where
      drawn : Run ℕ
      drawn = call os (rand_timeout lo hi) >>= λ r. pure (time_or_zero r.value)

  placed-IsDone :
      {A : Type 0} (again halt : Tables → Run A) (go : Bool) (s : Tables) (t : Trace)
      → ((u : Trace) → IsDone (again s u).0)
      → ((u : Trace) → IsDone (halt s u).0)
      → IsDone (placed os bucket message_len lo hi again halt (go, s) t).0
  placed-IsDone again halt false s t ha hh = ha t
  placed-IsDone again halt true s t ha hh =
      by_test (time_or_zero (os (load_done ∷ t)).value == 1) (halt s) (again s) (load_done ∷ t)
        (hh _) (ha _)

  event-IsDone :
      (again : Tables → EPollRSelector → Run (Bool × Tables × EPollRSelector)) (now : ℕ)
      (s : Tables) (e : Event) (sel : EPollRSelector) (t : Trace)
      → ((s' : Tables) (u : Trace) → IsDone (again s' sel u).0)
      → IsDone (sort_event os bucket message_len lo hi now again s (some e, sel) t).0
  event-IsDone again now s e sel t h =
      continue-done (λ r. IsDone r.0) _ (choose_timeout os bucket message_len lo hi t).0
        (choose_timeout os bucket message_len lo hi t).1 (choose_timeout-IsDone t)
        (λ delay.
          let r : Bool × Tables = place os bucket message_len lo hi now e.fd delay s in
          placed-IsDone (λ s'. again s' sel) (λ s'. pure (false, s', sel)) r.0 r.1
            (choose_timeout os bucket message_len lo hi t).1 (λ u. h r.1 u) (λ u. tt))

  sort_ready-IsDone :
      (n fuel now : ℕ) (s : Tables) (sel : EPollRSelector) (t : Trace)
      → sel.end_of_ready ≡ sel.current_ready + n
      → sel.end_of_ready ≤ length sel.events.events
      → n < fuel
      → IsDone (sort_ready os bucket message_len lo hi fuel now s sel t).0
  unfolding sort_ready
  sort_ready-IsDone n zero now s sel t e h f = absurd (omega arith)
  sort_ready-IsDone zero (suc fuel) now s sel t e h f = rw (next-end sel t (omega arith)) tt
  sort_ready-IsDone (suc n) (suc fuel) now s sel t e h f =
      let (x, found, read) = next-read sel t (omega arith) h in
      rw read (
        event-IsDone (sort_ready os bucket message_len lo hi fuel now) now s x
          (record sel { current_ready = sel.current_ready + 1 }) t
          (λ s' u.
            sort_ready-IsDone n fuel now s' (record sel { current_ready = sel.current_ready + 1 }) u
              (omega arith) h (omega arith)))

  ping-IsDone : (fd : ℕ) (t : Trace) → IsDone (ping os fd message_len t).0
  ping-IsDone fd t =
      rw (ping-process_message os fd message_len t)
        (by_outcome (process_message_lem os fd message_len t))
    where
      o : Outcome Bool × Trace
      o = process_message os fd message_len t

      by_outcome :
          (Echoed os fd message_len t
              × (o ≡ (done true, Call.write fd message_len ∷ recv fd message_len ∷ t)))
            ⊎ ((ReadWhole os fd message_len t
                  × ¬ Echoed os fd message_len t
                  × (o ≡ (done false, Call.write fd message_len ∷ recv fd message_len ∷ t)))
                ⊎ ((¬ ReadWhole os fd message_len t) × (o ≡ (done false, recv fd message_len ∷ t))))
          → IsDone o.0
      by_outcome (inl (a, e)) = rw e tt
      by_outcome (inr (inl (a, b, e))) = rw e tt
      by_outcome (inr (inr (a, e))) = rw e tt

  after_ping-IsDone :
      (fds : List ℕ) (fd : ℕ) (s : Tables) (sent : Bool) (t : Trace)
      → ((s' : Tables) (u : Trace) → IsDone (ping_all os bucket message_len lo hi fds s' u).0)
      → IsDone
          (after_ping os bucket message_len lo hi
            (ping_all os bucket message_len lo hi fds)
            fd
            s
            sent
            t).0
  unfolding get_fast_time
  after_ping-IsDone fds fd s false t h = tt
  after_ping-IsDone fds fd s true t h = h _ _

  ping_all-IsDone :
      (fds : List ℕ) (s : Tables) (t : Trace)
      → IsDone (ping_all os bucket message_len lo hi fds s t).0
  unfolding ping_all
  ping_all-IsDone [] s t = tt
  ping_all-IsDone (fd ∷ fds) s t =
      elim (Bool-cases (time_or_zero (os (load_done ∷ t)).value == 1)) [
        | inl e ↦ rw e tt
        | inr e ↦ rw e (
            continue-done (λ r. IsDone r.0) _ (ping os fd message_len (load_done ∷ t)).0
              (ping os fd message_len (load_done ∷ t)).1 (ping-IsDone fd (load_done ∷ t))
              (λ sent. after_ping-IsDone fds fd s sent _ (ping_all-IsDone fds)))
      ]

  sorted-IsDone :
      (x : Bool × Tables × EPollRSelector) (t : Trace)
      → IsDone (sorted os bucket message_len lo hi x t).0
  unfolding sorted
  sorted-IsDone (false, s, sel) t = tt
  sorted-IsDone (true, s, sel) t =
      continue-done (λ r. IsDone r.0) _ (ping_all os bucket message_len lo hi s.ready_fds s t).0
        (ping_all os bucket message_len lo hi s.ready_fds s t).1 (ping_all-IsDone s.ready_fds s t)
        (λ r. tt)

  awake-IsDone :
      (fuel size : ℕ) (s : Tables) (w : Outcome (Bool × EPollRSelector)) (t : Trace)
      → Rewound size w
      → size < fuel
      → IsDone (continue (awake os bucket message_len lo hi fuel s) w t).0
  unfolding awake get_fast_time
  awake-IsDone fuel size s more t w f = absurd w
  awake-IsDone fuel size s fault t w f = absurd w
  awake-IsDone fuel size s (done (false, sel)) t w f = tt
  awake-IsDone fuel size s (done (true, sel)) t (z, h, l) f =
      let now : ℕ = nanoseconds (os (clock_gettime ∷ t)) in
      let s' : Tables = woken now (has_waiting os bucket message_len lo hi s.wait_queue) s in
      let c : Tables = counted os bucket message_len lo hi sel s' in
      let u : Trace = load_done ∷ clock_gettime ∷ t in
      elim (Bool-cases (time_or_zero (os (load_done ∷ clock_gettime ∷ t)).value == 1)) [
        | inl e ↦ rw e tt
        | inr e ↦ rw e (
            continue-done (λ r. IsDone r.0) (sorted os bucket message_len lo hi)
              (sort_ready os bucket message_len lo hi fuel now c sel u).0
              (sort_ready os bucket message_len lo hi fuel now c sel u).1
              (sort_ready-IsDone sel.end_of_ready fuel now c sel u (omega arith) (omega arith)
                (omega arith))
              (λ x. sorted-IsDone x _))
      ]

  -- A round of a worker ends by itself, without undefined behaviour, whatever the system answers, if the
  -- kernel reports no more events than it was given room for and the clock moves on up to the deadline of
  -- the wait: fuel for the timeout in ns and 2, and for each place of the selector and 1, is enough. `u`
  -- is the trace when the timeout of the round has been found.
  pub round-IsDone :
      (fuel timeout : ℕ) (s : Tables) (sel : EPollRSelector) (t u : Trace)
      → EpollContract os
      → wait_time os bucket message_len lo hi s.wait_queue t ≡ (done (pos timeout), u)
      → Ticks os (nanoseconds (os (clock_gettime ∷ u)) + timeout)
      → ((v : Trace) → nanoseconds (os v) < 2 ^ 63)
      → nanoseconds (os (clock_gettime ∷ u)) + timeout < 2 ^ 63
      → timeout + 2 ≤ fuel
      → length sel.events.events < fuel
      → IsDone (round os bucket message_len lo hi fuel s sel t).0
  unfolding round
  round-IsDone fuel timeout s sel t u contract e ticks small soon enough room = rw e (
      awake-IsDone fuel (length sel.events.events) (record s { ready_fds = [] })
        (wait_ns os fuel (pos timeout) sel u).0 (wait_ns os fuel (pos timeout) sel u).1
        (wait_ns-Rewound os fuel timeout sel u contract ticks small soon enough) room)
