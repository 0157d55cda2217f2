-- ===== src/Server/Worker/Stop/Prompt.antt =====
-- server.cpp `worker_thread`: its calls and its tests of `done`.
use network_ping_test.Base.{
  ℕ, zero, suc, ◌≡◌, refl, ap, List, [], ◌∷◌, Option, none, some, Bool, true, false, inl, ◌⊎◌,
}
use network_ping_test.Os.{
  Os, Run, Outcome, done, Trace, continue, pure, load_done, clock_gettime, ◌>>=◌, Event,
}
use network_ping_test.Os.Links.{Linked, Linked-bind, Linked-then}
use network_ping_test.Wait.{get_fast_time, nanoseconds}
use network_ping_test.Selector.EPoll.{EPollRSelector, wait_ns, next}
use network_ping_test.Selector.EPoll.Quiet.{next-quiet}
use network_ping_test.Server.Worker.{
  Tables, ping, ping_all, after_ping, pinged, sorted, place, placed, sort_ready, sort_event,
  counted, woken, has_waiting, choose_timeout, wait_time, awake, round, again_or_stop, worker_loop,
  count_ping,
}
use network_ping_test.Server.Worker.Stop.{
  stops, Goes, Goes-join, Goes-refl, test-Goes, calm, wait_ns-calm, choose_timeout-calm,
  wait_time-calm, ping-calm,
}

module _ (os : Os) (bucket : ℕ → ℕ) (n lo hi : ℕ) where
  abbrev Prompt : {A : Type 0} → (A → Option Bool) → Bool → Trace → Outcome A × Trace → Type 0
  Prompt value = Linked (Goes os) value

  bind :
      {A B : Type 0} (va : A → Bool) (vb : B → Option Bool) (x : Bool) (t : Trace)
      (r : Outcome A × Trace) (f : A → Run B)
      → Prompt (λ a. some (va a)) x t r
      → ((a : A) (u : Trace) → Prompt vb (va a) u (f a u))
      → Prompt vb x t (continue f r.0 r.1)
  bind va vb x t r f g h = Linked-bind (Goes os) (Goes-join os) va vb x t r f g h

  -- A call of the clock first.
  after_clock :
      {B : Type 0} (value : B → Option Bool) (t : Trace) (r : Outcome B × Trace)
      → Prompt value true (clock_gettime ∷ t) r
      → Prompt value true t r
  unfolding stops
  after_clock value t r h =
      Linked-then (Goes os) (Goes-join os) value true true t (clock_gettime ∷ t) r refl h

  placed-Prompt :
      (again : Tables → EPollRSelector → Run (Bool × Tables × EPollRSelector))
      (sel : EPollRSelector) (go : Bool) (s : Tables) (t : Trace)
      → ((u : Trace) → Prompt (λ x. some x.0) true u (again s sel u))
      → Prompt
          (λ x. some x.0)
          true
          t
          (placed os bucket n lo hi (λ x. again x sel) (λ x. pure (false, x, sel)) (go, s) t)
  placed-Prompt again sel false s t h = h t
  placed-Prompt again sel true s t h =
      test-Goes os (λ x. some x.0) (false, s, sel) (again s sel) t refl h

  event-Prompt :
      (now : ℕ) (s : Tables) (e : Option Event) (sel : EPollRSelector)
      (again : Tables → EPollRSelector → Run (Bool × Tables × EPollRSelector)) (t : Trace)
      → ((s' : Tables) (u : Trace) → Prompt (λ x. some x.0) true u (again s' sel u))
      → Prompt (λ x. some x.0) true t (sort_event os bucket n lo hi now again s (e, sel) t)
  event-Prompt now s none sel again t h = refl
  event-Prompt now s (some e) sel again t h =
      bind (λ _. true) (λ x. some x.0) true t (choose_timeout os bucket n lo hi t)
        (λ delay.
          placed os bucket n lo hi (λ x. again x sel) (λ x. pure (false, x, sel))
            (place os bucket n lo hi now e.fd delay s))
        (calm os bucket n lo hi t (choose_timeout os bucket n lo hi t)
          (choose_timeout-calm os bucket n lo hi t))
        (λ delay u.
          let r : Bool × Tables = place os bucket n lo hi now e.fd delay s in
          placed-Prompt again sel r.0 r.1 u (h r.1))

  sort_ready-Prompt :
      (fuel now : ℕ) (s : Tables) (sel : EPollRSelector) (t : Trace)
      → Prompt (λ x. some x.0) true t (sort_ready os bucket n lo hi fuel now s sel t)
  unfolding sort_ready
  sort_ready-Prompt zero now s sel t = tt
  sort_ready-Prompt (suc fuel) now s sel t =
      bind (λ _. true) (λ x. some x.0) true t (next sel t)
        (sort_event os bucket n lo hi now (sort_ready os bucket n lo hi fuel now) s)
        (calm os bucket n lo hi t (next sel t) (ap (stops os) (next-quiet sel t)))
        (λ e u.
          event-Prompt now s e.0 e.1 (sort_ready os bucket n lo hi fuel now) u
            (λ s' v. sort_ready-Prompt fuel now s' e.1 v))

  after_ping-Prompt :
      (again : Tables → Run (Bool × Tables)) (fd : ℕ) (s : Tables) (b : Bool) (t : Trace)
      → ((s' : Tables) (u : Trace) → Prompt (λ x. some x.0) true u (again s' u))
      → Prompt (λ x. some x.0) true t (after_ping os bucket n lo hi again fd s b t)
  unfolding get_fast_time
  after_ping-Prompt again fd s false t h = inl refl
  after_ping-Prompt again fd s true t h =
      let now : ℕ = nanoseconds (os (clock_gettime ∷ t)) in
      after_clock (λ x. some x.0) t
        (again (count_ping os bucket n lo hi fd now s) (clock_gettime ∷ t))
        (h (count_ping os bucket n lo hi fd now s) (clock_gettime ∷ t))

  ping_all-Prompt :
      (fds : List ℕ) (s : Tables) (t : Trace)
      → Prompt (λ x. some x.0) true t (ping_all os bucket n lo hi fds s t)
  unfolding ping_all
  ping_all-Prompt [] s t = refl
  ping_all-Prompt (fd ∷ fds) s t =
      test-Goes os (λ x. some x.0) (false, s)
        (ping os fd n >>= λ sent.
          after_ping os bucket n lo hi (ping_all os bucket n lo hi fds) fd s sent)
        t refl
        (λ u.
          bind (λ _. true) (λ x. some x.0) true u (ping os fd n u)
            (λ sent. after_ping os bucket n lo hi (ping_all os bucket n lo hi fds) fd s sent)
            (calm os bucket n lo hi u (ping os fd n u) (ping-calm os bucket n lo hi fd u))
            (λ b v.
              after_ping-Prompt (ping_all os bucket n lo hi fds) fd s b v (ping_all-Prompt fds)))

  sorted-Prompt :
      (x : Bool × Tables × EPollRSelector) (t : Trace)
      → Prompt (λ y. some y.0) (x.0) t (sorted os bucket n lo hi x t)
  unfolding sorted
  sorted-Prompt (false, s, sel) t = refl
  sorted-Prompt (true, s, sel) t =
      bind (λ y. y.0) (λ y. some y.0) true t (ping_all os bucket n lo hi s.ready_fds s t)
        (pinged os bucket n lo hi sel) (ping_all-Prompt s.ready_fds s t) (λ x u. Goes-refl os x.0 u)

  awake-Prompt :
      (fuel : ℕ) (s : Tables) (x : Bool × EPollRSelector) (t : Trace)
      → Prompt (λ y. some y.0) true t (awake os bucket n lo hi fuel s x t)
  unfolding awake get_fast_time
  awake-Prompt fuel s (false, sel) t = inl refl
  awake-Prompt fuel s (true, sel) t =
      let now : ℕ = nanoseconds (os (clock_gettime ∷ t)) in
      let s' : Tables = woken now (has_waiting os bucket n lo hi s.wait_queue) s in
      after_clock {B = Bool × Tables × EPollRSelector} (λ y. some y.0) t _
        (test-Goes os (λ y. some y.0) (false, s', sel)
          (sort_ready os bucket n lo hi fuel now (counted os bucket n lo hi sel s') sel
            >>= sorted os bucket n lo hi)
          (clock_gettime ∷ t) refl
          (λ u.
            bind (λ y. y.0) (λ y. some y.0) true u
              (sort_ready os bucket n lo hi fuel now (counted os bucket n lo hi sel s') sel u)
              (sorted os bucket n lo hi)
              (sort_ready-Prompt fuel now (counted os bucket n lo hi sel s') sel u) sorted-Prompt))

  round-Prompt :
      (fuel : ℕ) (s : Tables) (sel : EPollRSelector) (t : Trace)
      → Prompt (λ y. some y.0) true t (round os bucket n lo hi fuel s sel t)
  unfolding round
  round-Prompt fuel s sel t =
      bind (λ _. true) (λ y. some y.0) true t (wait_time os bucket n lo hi s.wait_queue t) _
        (calm os bucket n lo hi t (wait_time os bucket n lo hi s.wait_queue t)
          (wait_time-calm os bucket n lo hi s.wait_queue t))
        (λ x u.
          bind (λ _. true) (λ y. some y.0) true u (wait_ns os fuel x sel u)
            (awake os bucket n lo hi fuel (record s { ready_fds = [] }))
            (calm os bucket n lo hi u (wait_ns os fuel x sel u)
              (wait_ns-calm os bucket n lo hi fuel x sel u))
            (awake-Prompt fuel (record s { ready_fds = [] })))

  again-Prompt :
      (again : Tables → EPollRSelector → Run (Tables × EPollRSelector))
      (x : Bool × Tables × EPollRSelector) (t : Trace)
      → ((s : Tables) (sel : EPollRSelector) (u : Trace)
          → Prompt (λ _. some false) true u (again s sel u))
      → Prompt (λ _. some false) (x.0) t (again_or_stop os bucket n lo hi again x t)
  again-Prompt again (false, s, sel) t h = refl
  again-Prompt again (true, s, sel) t h = h s sel t

  worker_loop-Prompt :
      (fuel : ℕ) (s : Tables) (sel : EPollRSelector) (t : Trace)
      → Prompt (λ _. some false) true t (worker_loop os bucket n lo hi fuel s sel t)
  unfolding worker_loop
  worker_loop-Prompt zero s sel t = tt
  worker_loop-Prompt (suc fuel) s sel t =
      bind (λ y. y.0) (λ _. some false) true t (round os bucket n lo hi fuel s sel t)
        (again_or_stop os bucket n lo hi (worker_loop os bucket n lo hi fuel))
        (round-Prompt fuel s sel t)
        (λ x u. again-Prompt (worker_loop os bucket n lo hi fuel) x u (worker_loop-Prompt fuel))

  -- A worker that returns has either never found `done` set since it entered its loop, or found it
  -- set once, with its last call: once it has seen `done` it reads, writes and waits for nothing
  -- more.
  pub worker_loop-stops :
      (fuel : ℕ) (s s' : Tables) (sel sel' : EPollRSelector) (t u : Trace)
      → worker_loop os bucket n lo hi fuel s sel t ≡ (done (s', sel'), u)
      → (stops os u ≡ stops os t) ⊎ ((v : Trace) × (u ≡ load_done ∷ v) × (stops os v ≡ stops os t))
  worker_loop-stops fuel s s' sel sel' t u e = rw e at (worker_loop-Prompt fuel s sel t)
