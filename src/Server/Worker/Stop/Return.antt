-- ===== src/Server/Worker/Stop/Return.antt =====
-- server.cpp `worker_thread` from the moment that `done` is set.
use network_ping_test.Base.{
  ℕ, suc, ◌+◌, ◌^◌, ◌≤◌, ◌<◌, ◌≡◌, refl, [], ◌∷◌, some, Bool, true, false, length, arith,
}
use network_ping_test.Base.Int.{pos}
use network_ping_test.Os.{
  Os, Run, Outcome, done, more, fault, Trace, continue, load_done, clock_gettime,
}
use network_ping_test.Wait.{get_fast_time, nanoseconds}
use network_ping_test.Wait.Result.{EpollContract}
use network_ping_test.Wait.Deadline.{Ticks}
use network_ping_test.Selector.EPoll.{EPollRSelector, wait_ns}
use network_ping_test.Selector.EPoll.Quiet.{wait_ns-keeps}
use network_ping_test.Server.Worker.{Tables, round, awake, wait_time, again_or_stop, worker_loop}
use network_ping_test.Server.Worker.Ends.{Rewound, wait_ns-Rewound}
use network_ping_test.Server.Worker.Written.{written_to}

-- `done` is set from the trace `t` on.
abbrev pub IsDoneFrom : Os → Trace → Type 0
IsDoneFrom os t = (u : Trace) → length t ≤ length u → (os (load_done ∷ u)).value ≡ some 1

-- No later than the trace, with nothing written whole between them to the socket `key`.
abbrev Silent : Os → ℕ → ℕ → Trace → Trace → Type 0
Silent os n key t u = (length t ≤ length u) × (written_to os n key u ≡ written_to os n key t)

module _ (os : Os) (bucket : ℕ → ℕ) (n lo hi : ℕ) (key : ℕ) where
  -- A run that returns, with nothing written.
  abbrev pub Returns : {A : Type 0} → Trace → Outcome A × Trace → Type 0
  Returns t (done a, u) = written_to os n key u ≡ written_to os n key t
  Returns t (more, u) = ⊥
  Returns t (fault, u) = ⊥

  abbrev Halts : Trace → Outcome (Bool × Tables × EPollRSelector) × Trace → Type 0
  Halts t (done (false, s, sel), u) = written_to os n key u ≡ written_to os n key t
  Halts t (done (true, s, sel), u) = ⊥
  Halts t (more, u) = ⊥
  Halts t (fault, u) = ⊥

  awake-Halts :
      (fuel size : ℕ) (s : Tables) (t : Trace) (w : Outcome (Bool × EPollRSelector)) (u : Trace)
      → IsDoneFrom os t
      → Rewound size w
      → Silent os n key t u
      → Halts t (continue (awake os bucket n lo hi fuel s) w u)
  unfolding awake get_fast_time written_to
  awake-Halts fuel size s t more u set w q = absurd w
  awake-Halts fuel size s t fault u set w q = absurd w
  awake-Halts fuel size s t (done (false, sel)) u set w q = q.1
  awake-Halts fuel size s t (done (true, sel)) u set w q =
      rw (set (clock_gettime ∷ u) (omega (arith, q.0))) (q.1)

  wait_ns-Silent :
      (fuel timeout : ℕ) (sel : EPollRSelector) (t : Trace)
      → Silent os n key t (wait_ns os fuel (pos timeout) sel t).1
  unfolding written_to
  wait_ns-Silent fuel timeout sel t =
      wait_ns-keeps (Silent os n key t) (λ u q. (omega (arith, q.0), q.1))
        (λ e m x u q. (omega (arith, q.0), q.1)) os fuel (pos timeout) sel t (omega arith, refl)

  stop-Returns :
      (again : Tables → EPollRSelector → Run (Tables × EPollRSelector)) (t : Trace)
      (r : Outcome (Bool × Tables × EPollRSelector) × Trace)
      → Halts t r
      → Returns t (continue (again_or_stop os bucket n lo hi again) r.0 r.1)
  stop-Returns again t (done (false, s, sel), u) h = h
  stop-Returns again t (done (true, s, sel), u) h = absurd h
  stop-Returns again t (more, u) h = absurd h
  stop-Returns again t (fault, u) h = absurd h

  -- Once `done` is set a worker returns at the end of the wait that it is in, and writes no message
  -- whole to any socket on the way, if the kernel reports no more events than it was given room
  -- for, the clock moves on up to the deadline of the wait, and times stay below 2 ^ 63: one round,
  -- with fuel for its timeout in ns and 2, is enough. `u` is the trace when the timeout of the
  -- round has been found.
  pub worker_loop-Returns :
      (fuel timeout : ℕ) (s : Tables) (sel : EPollRSelector) (t u : Trace)
      → EpollContract os
      → IsDoneFrom os u
      → wait_time os bucket n lo hi s.wait_queue t ≡ (done (pos timeout), u)
      → Ticks os (nanoseconds (os (clock_gettime ∷ u)) + timeout)
      → ((v : Trace) → nanoseconds (os v) < 2 ^ 63)
      → nanoseconds (os (clock_gettime ∷ u)) + timeout < 2 ^ 63
      → timeout + 2 ≤ fuel
      → Returns u (worker_loop os bucket n lo hi (suc fuel) s sel t)
  unfolding worker_loop round
  worker_loop-Returns fuel timeout s sel t u contract set e ticks small soon enough =
      stop-Returns (worker_loop os bucket n lo hi fuel) u (round os bucket n lo hi fuel s sel t) (
        rw e (
          awake-Halts fuel (length sel.events.events) (record s { ready_fds = [] }) u
            (wait_ns os fuel (pos timeout) sel u).0 (wait_ns os fuel (pos timeout) sel u).1 set
            (wait_ns-Rewound os fuel timeout sel u contract ticks small soon enough)
            (wait_ns-Silent fuel timeout sel u)))
