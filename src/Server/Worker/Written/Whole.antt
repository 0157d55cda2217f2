-- ===== src/Server/Worker/Written/Whole.antt =====
-- The counts of a worker over whole rounds.
use network_ping_test.Base.{
  ℕ, zero, suc, ◌+◌, ◌-◌, ◌%◌, ◌^◌, ◌<◌, ◌≡◌, refl, List, [], ◌∷◌, some, Bool, true, false, ◌==◌,
  if◌then◌else◌, arith,
}
use network_ping_test.Os.{Os, Run, done, Trace, ◌>>=◌, pure, load_done, clock_gettime}
use network_ping_test.Os.Links.{Linked-then}
use network_ping_test.Wait.{get_fast_time, nanoseconds}
use network_ping_test.Selector.EPoll.{EPollRSelector, wait_ns}
use network_ping_test.Server.Worker.{
  FdTimout, Tables, sort_ready, ping_all, counted, pinged, sorted, wait_time, awake, round,
  again_or_stop, worker_loop, woken, has_waiting, time_or_zero,
}
use network_ping_test.Server.Worker.Pings.{pings_of}
use network_ping_test.Server.Worker.Written.{written_to, Counts, Counts-join, Counts-same}
use network_ping_test.Server.Worker.Written.Quiet.{
  left, left_with, Counted, bind, quiet, same, from, wait_ns-quiet,
}
use network_ping_test.Server.Worker.Written.Steps.{sort_ready-Counted, ping_all-Counted}

module _ (os : Os) (bucket : ℕ → ℕ) (n lo hi : ℕ) (key : ℕ) where
  sorted-Counted :
      (x : Bool × Tables × EPollRSelector) (t : Trace)
      → Counted os bucket n lo hi key
          (λ y. some (left_with y))
          (left_with x)
          t
          (sorted os bucket n lo hi x t)
  unfolding sorted
  sorted-Counted (false, s, sel) t = same os bucket n lo hi key s t
  sorted-Counted (true, s, sel) t =
      bind os bucket n lo hi key left (λ y. some (left_with y)) s t
        (ping_all os bucket n lo hi s.ready_fds s t) (pinged os bucket n lo hi sel)
        (ping_all-Counted os bucket n lo hi key s.ready_fds s t)
        (λ x u. same os bucket n lo hi key x.1 u)

  pings_of-woken :
      (now : ℕ) (b : Bool) (s : Tables)
      → pings_of key (woken now b (record s { ready_fds = [] })) ≡ pings_of key s
  pings_of-woken now false s = refl
  pings_of-woken now true s = refl

  by_stop :
      (stop : Bool) (fuel now : ℕ) (s : Tables) (sel : EPollRSelector) (u : Trace)
      → Counted os bucket n lo hi key
          (λ y. some (left_with y))
          s
          u
          ((if stop
              then pure (false, s, sel)
              else (sort_ready os bucket n lo hi fuel now (counted os bucket n lo hi sel s) sel
                  >>= sorted os bucket n lo hi))
            u)
  by_stop true fuel now s sel u = same os bucket n lo hi key s u
  by_stop false fuel now s sel u =
      from os bucket n lo hi key (λ y. some (left_with y)) s (counted os bucket n lo hi sel s) u _
        refl
        (bind os bucket n lo hi key left_with (λ y. some (left_with y))
          (counted os bucket n lo hi sel s) u
          (sort_ready os bucket n lo hi fuel now (counted os bucket n lo hi sel s) sel u) _
          (sort_ready-Counted os bucket n lo hi key fuel now (counted os bucket n lo hi sel s) sel
            u)
          (λ x v. sorted-Counted x v))

  awake-Counted :
      (fuel : ℕ) (s : Tables) (x : Bool × EPollRSelector) (t : Trace)
      → Counted os bucket n lo hi key
          (λ y. some (left_with y))
          s
          t
          (awake os bucket n lo hi fuel (record s { ready_fds = [] }) x t)
  unfolding awake get_fast_time written_to
  awake-Counted fuel s (false, sel) t =
      Counts-same os n key s (record s { ready_fds = [] }) t t refl refl
  awake-Counted fuel s (true, sel) t =
      let u : Trace = clock_gettime ∷ t in
      let now : ℕ = nanoseconds (os u) in
      let waiting : Bool = has_waiting os bucket n lo hi s.wait_queue in
      let s' : Tables = woken now waiting (record s { ready_fds = [] }) in
      Linked-then (Counts os n key) (Counts-join os n key) (λ y. some (left_with y)) s s' t
        (load_done ∷ u) _
        (Counts-same os n key s s' t (load_done ∷ u) (pings_of-woken now waiting s) refl)
        (by_stop (time_or_zero (os (load_done ∷ u)).value == 1) fuel now s' sel (load_done ∷ u))

  wait_time-quiet :
      (q : List FdTimout) (t : Trace)
      → written_to os n key (wait_time os bucket n lo hi q t).1 ≡ written_to os n key t
  unfolding wait_time get_fast_time written_to
  wait_time-quiet [] t = refl
  wait_time-quiet (i ∷ q) t = refl

  pub round-Counted :
      (fuel : ℕ) (s : Tables) (sel : EPollRSelector) (t : Trace)
      → Counted os bucket n lo hi key
          (λ y. some (left_with y))
          s
          t
          (round os bucket n lo hi fuel s sel t)
  unfolding round
  round-Counted fuel s sel t =
      bind os bucket n lo hi key (λ _. s) (λ y. some (left_with y)) s t
        (wait_time os bucket n lo hi s.wait_queue t) _
        (quiet os bucket n lo hi key s t (wait_time os bucket n lo hi s.wait_queue t)
          (wait_time-quiet s.wait_queue t))
        (λ x u.
          bind os bucket n lo hi key (λ _. s) (λ y. some (left_with y)) s u
            (wait_ns os fuel x sel u) (awake os bucket n lo hi fuel (record s { ready_fds = [] }))
            (quiet os bucket n lo hi key s u (wait_ns os fuel x sel u)
              (wait_ns-quiet os bucket n lo hi key fuel x sel u))
            (λ w v. awake-Counted fuel s w v))

  again-Counted :
      (again : Tables → EPollRSelector → Run (Tables × EPollRSelector))
      (x : Bool × Tables × EPollRSelector) (t : Trace)
      → ((s' : Tables) (sel : EPollRSelector) (u : Trace)
          → Counted os bucket n lo hi key (λ y. some y.0) s' u (again s' sel u))
      → Counted os bucket n lo hi key
          (λ y. some y.0)
          (left_with x)
          t
          (again_or_stop os bucket n lo hi again x t)
  again-Counted again (false, s, sel) t h = same os bucket n lo hi key s t
  again-Counted again (true, s, sel) t h = h s sel t

  worker_loop-Counted :
      (fuel : ℕ) (s : Tables) (sel : EPollRSelector) (t : Trace)
      → Counted os bucket n lo hi key
          (λ y. some y.0)
          s
          t
          (worker_loop os bucket n lo hi fuel s sel t)
  unfolding worker_loop
  worker_loop-Counted zero s sel t = tt
  worker_loop-Counted (suc fuel) s sel t =
      bind os bucket n lo hi key left_with (λ y. some y.0) s t
        (round os bucket n lo hi fuel s sel t)
        (again_or_stop os bucket n lo hi (worker_loop os bucket n lo hi fuel))
        (round-Counted fuel s sel t)
        (λ x u. again-Counted (worker_loop os bucket n lo hi fuel) x u (worker_loop-Counted fuel))

  -- However the rounds of a worker go: when its thread returns, the count that it has for a socket is what
  -- it was at the start and, modulo 2 ^ 64, one for each message of `message_len` bytes that it has
  -- written whole to that socket since, no more and no less.
  pub worker_loop-written_to :
      (fuel : ℕ) (s s' : Tables) (sel sel' : EPollRSelector) (t u : Trace)
      → pings_of key s < 2 ^ 64
      → worker_loop os bucket n lo hi fuel s sel t ≡ (done (s', sel'), u)
      → pings_of key s'
        ≡ (pings_of key s + (written_to os n key u - written_to os n key t)) % 2 ^ 64
  worker_loop-written_to fuel s s' sel sel' t u h e =
      let c : Counts os n key s t s' u = rw e at (worker_loop-Counted fuel s sel t) in
      omega (arith, c.grown, c.later, c.small)
