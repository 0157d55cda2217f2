-- ===== src/Server/Worker/Rounds.antt =====
-- A round of a worker.
use network_ping_test.Base.{
  ℕ, zero, suc, ◌+◌, ◌%◌, ◌^◌, ◌≤◌, ◌<◌, ◌≡◌, refl, ap, ◌∙◌, [], ◌∷◌, Option, none, some, Bool,
  true, false, ◌==◌, arith, Bool-cases, inl, inr,
}
use network_ping_test.Os.{
  Os, Run, Outcome, done, more, fault, Trace, continue, ◌>>=◌, load_done, clock_gettime, pure,
  Event,
}
use network_ping_test.Os.Runs.{continue-all}
use network_ping_test.Wait.{get_fast_time, nanoseconds}
use network_ping_test.Selector.EPoll.{EPollRSelector, wait_ns, next}
use network_ping_test.Server.Results.{WorkerResult}
use network_ping_test.Server.Worker.{
  Tables, place, placed, sort_ready, sort_event, choose_timeout, record_latency, lookup,
  time_or_zero, is_due, round, awake, sorted, pinged, counted, woken, has_waiting, wait_time,
  ping_all,
}
use network_ping_test.Server.Worker.Queue.{occurs, pending, held, IsOrdered, place_lem, drain_lem}
use network_ping_test.Server.Results.Merge.{count_at}
use network_ping_test.Server.Worker.Pings.{pings_of, AllPinged, ping_all-AllPinged}

-- What the loop over the events may do to the tables: the queue stays ordered, no socket that is held
-- gets lost, and nothing is counted as a ping.
abbrev pub Kept : ℕ → Tables → Outcome (Bool × Tables × EPollRSelector) × Trace → Type 0
Kept key s (done (go, s', sel), u) =
    IsOrdered s'.wait_queue × (held key s ≤ held key s') × (pings_of key s' ≡ pings_of key s)
Kept key s (more, u) = Unit
Kept key s (fault, u) = Unit

module _ (os : Os) (bucket : ℕ → ℕ) (message_len lo hi : ℕ) (key : ℕ) where
  pings_of-latency :
      (now : ℕ) (o : Option ℕ) (r : WorkerResult)
      → (record_latency os bucket message_len lo hi now o r).mess_count_for_sock
        ≡ r.mess_count_for_sock
  pings_of-latency now none r = refl
  pings_of-latency now (some ltime) r = refl

  pub pings_of-place :
      (now fd delay : ℕ) (s : Tables)
      → pings_of key (place os bucket message_len lo hi now fd delay s).1 ≡ pings_of key s
  unfolding place
  pings_of-place now fd delay s =
      elim (Bool-cases
        (is_due os bucket message_len lo hi now (time_or_zero (lookup fd s.last_time)) delay)) [
          | inl e ↦ rw e (ap (count_at key) (pings_of-latency now (lookup fd s.last_time) s.result))
          | inr e ↦ rw e (ap (count_at key) (pings_of-latency now (lookup fd s.last_time) s.result))
        ]

  Kept-trans :
      (s s' : Tables) (r : Outcome (Bool × Tables × EPollRSelector) × Trace)
      → held key s ≤ held key s'
      → pings_of key s' ≡ pings_of key s
      → Kept key s' r
      → Kept key s r
  Kept-trans s s' (done (go, s'', sel), u) h p (o, l, q) = (o, omega arith, q ∙ p)
  Kept-trans s s' (more, u) h p k = tt
  Kept-trans s s' (fault, u) h p k = tt

  placed-Kept :
      (s s' : Tables) (sel : EPollRSelector) (go : Bool)
      (again : Tables → EPollRSelector → Run (Bool × Tables × EPollRSelector)) (u : Trace)
      → IsOrdered s'.wait_queue
      → held key s ≤ held key s'
      → pings_of key s' ≡ pings_of key s
      → ((v : Trace) → Kept key s' (again s' sel v))
      → Kept key s (
          placed os bucket message_len lo hi
            (λ x. again x sel)
            (λ x. pure (false, x, sel))
            (go, s')
            u)
  placed-Kept s s' sel false again u o h p k = Kept-trans s s' _ h p (k u)
  placed-Kept s s' sel true again u o h p k =
      elim (Bool-cases (time_or_zero (os (load_done ∷ u)).value == 1)) [
        | inl e ↦ rw e (o, h, p)
        | inr e ↦ rw e (Kept-trans s s' _ h p (k (load_done ∷ u)))
      ]

  event-Kept :
      (now : ℕ) (s : Tables) (e : Option Event) (sel : EPollRSelector)
      (again : Tables → EPollRSelector → Run (Bool × Tables × EPollRSelector)) (u : Trace)
      → IsOrdered s.wait_queue
      → ((s' : Tables) (v : Trace) → IsOrdered s'.wait_queue → Kept key s' (again s' sel v))
      → Kept key s (sort_event os bucket message_len lo hi now again s (e, sel) u)
  event-Kept now s none sel again u o k = (o, omega arith, refl)
  event-Kept now s (some e) sel again u o k =
      continue-all (Kept key s)
        (λ delay.
          placed os bucket message_len lo hi (λ x. again x sel) (λ x. pure (false, x, sel))
            (place os bucket message_len lo hi now e.fd delay s))
        (choose_timeout os bucket message_len lo hi u).0
        (choose_timeout os bucket message_len lo hi u).1 (λ _. tt) (λ _. tt)
        (λ delay.
          let (o', h) = place_lem os bucket message_len lo hi now e.fd delay key s o in
          placed-Kept s _ sel _ again _ o' (omega (arith, h)) (pings_of-place now e.fd delay s)
            (λ v. k _ v o'))

  sort_ready-Kept :
      (fuel now : ℕ) (s : Tables) (sel : EPollRSelector) (t : Trace)
      → IsOrdered s.wait_queue
      → Kept key s (sort_ready os bucket message_len lo hi fuel now s sel t)
  unfolding sort_ready
  sort_ready-Kept zero now s sel t o = tt
  sort_ready-Kept (suc fuel) now s sel t o =
      continue-all (Kept key s)
        (sort_event os bucket message_len lo hi now
          (sort_ready os bucket message_len lo hi fuel now) s)
        (next sel t).0 (next sel t).1 (λ _. tt) (λ _. tt)
        (λ r. event-Kept now s r.0 r.1 _ _ o (λ s' v o'. sort_ready-Kept fuel now s' r.1 v o'))

-- A round that ends with true has counted every socket of `ready_fds`, and a socket that was
-- in the queue before is there still or is one of those; the queue is ordered however the round ends.
abbrev pub RoundKept : ℕ → Tables → Outcome (Bool × Tables × EPollRSelector) × Trace → Type 0
RoundKept key s (done (true, s', sel), u) =
    IsOrdered s'.wait_queue
    × (pending key s.wait_queue ≤ pending key s'.wait_queue + occurs key s'.ready_fds)
    × (pings_of key s' ≡ (pings_of key s + occurs key s'.ready_fds) % 2 ^ 64)
RoundKept key s (done (false, s', sel), u) = IsOrdered s'.wait_queue
RoundKept key s (more, u) = Unit
RoundKept key s (fault, u) = Unit

module _ (os : Os) (bucket : ℕ → ℕ) (message_len lo hi : ℕ) (key : ℕ) where
  pinged-RoundKept :
      (s s' : Tables) (sel : EPollRSelector) (r : Outcome (Bool × Tables) × Trace)
      → IsOrdered s'.wait_queue
      → pending key s.wait_queue ≤ held key s'
      → pings_of key s' ≡ pings_of key s
      → AllPinged key s'.ready_fds s' r
      → RoundKept key s (continue (pinged os bucket message_len lo hi sel) r.0 r.1)
  pinged-RoundKept s s' sel (done (true, x), u) o h p (c, q, f) =
      rw (q, f) (o, omega arith, omega (arith, c))
  pinged-RoundKept s s' sel (done (false, x), u) o h p q = rw q o
  pinged-RoundKept s s' sel (more, u) o h p a = tt
  pinged-RoundKept s s' sel (fault, u) o h p a = tt

  sorted-RoundKept :
      (s : Tables) (r : Outcome (Bool × Tables × EPollRSelector) × Trace) (s0 : Tables)
      → pending key s.wait_queue ≤ held key s0
      → pings_of key s0 ≡ pings_of key s
      → pings_of key s < 2 ^ 64
      → Kept key s0 r
      → RoundKept key s (continue (sorted os bucket message_len lo hi) r.0 r.1)
  unfolding sorted
  sorted-RoundKept s (done (true, s', sel), u) s0 h p b (o, l, q) =
      pinged-RoundKept s s' sel (ping_all os bucket message_len lo hi s'.ready_fds s' u) o
        (omega arith) (q ∙ p)
        (ping_all-AllPinged os bucket message_len lo hi key s'.ready_fds s' u (rw (q ∙ p) b))
  sorted-RoundKept s (done (false, s', sel), u) s0 h p b (o, l, q) = o
  sorted-RoundKept s (more, u) s0 h p b k = tt
  sorted-RoundKept s (fault, u) s0 h p b k = tt

  woken_lem :
      (now : ℕ) (b : Bool) (s : Tables)
      → IsOrdered s.wait_queue
      → IsOrdered (woken now b (record s { ready_fds = [] })).wait_queue
        × (held key (woken now b (record s { ready_fds = [] })) ≡ pending key s.wait_queue)
        × (pings_of key (woken now b (record s { ready_fds = [] })) ≡ pings_of key s)
  woken_lem now false s o = (o, omega arith, refl)
  woken_lem now true s o =
      let (ord, late, got, left) = drain_lem now key s.wait_queue [] o in
      (ord, omega (arith, got, left), refl)

  awake-RoundKept :
      (fuel : ℕ) (s : Tables) (go : Bool) (sel : EPollRSelector) (t : Trace)
      → IsOrdered s.wait_queue
      → pings_of key s < 2 ^ 64
      → RoundKept key s
          (awake os bucket message_len lo hi fuel (record s { ready_fds = [] }) (go, sel) t)
  unfolding awake get_fast_time
  awake-RoundKept fuel s false sel t o b = o
  awake-RoundKept fuel s true sel t o b =
      let now : ℕ = nanoseconds (os (clock_gettime ∷ t)) in
      let waiting : Bool = has_waiting os bucket message_len lo hi s.wait_queue in
      let s0 : Tables = woken now waiting (record s { ready_fds = [] }) in
      let (ord, h, p) = woken_lem now waiting s o in
      elim (Bool-cases (time_or_zero (os (load_done ∷ clock_gettime ∷ t)).value == 1)) [
        | inl e ↦ rw e ord
        | inr e ↦ rw e (
            sorted-RoundKept s
              (sort_ready os bucket message_len lo hi fuel now
                (counted os bucket message_len lo hi sel s0) sel (load_done ∷ clock_gettime ∷ t))
              (counted os bucket message_len lo hi sel s0) (omega (arith, h)) p b
              (sort_ready-Kept os bucket message_len lo hi key fuel now
                (counted os bucket message_len lo hi sel s0) sel _ ord))
      ]

  pub round-RoundKept :
      (fuel : ℕ) (s : Tables) (sel : EPollRSelector) (t : Trace)
      → IsOrdered s.wait_queue
      → pings_of key s < 2 ^ 64
      → RoundKept key s (round os bucket message_len lo hi fuel s sel t)
  unfolding round
  round-RoundKept fuel s sel t o b =
      continue-all (RoundKept key s)
        (λ timeout. wait_ns os fuel timeout sel >>= λ w.
          awake os bucket message_len lo hi fuel (record s { ready_fds = [] }) w)
        (wait_time os bucket message_len lo hi s.wait_queue t).0
        (wait_time os bucket message_len lo hi s.wait_queue t).1 (λ _. tt) (λ _. tt)
        (λ timeout.
          continue-all (RoundKept key s)
            (awake os bucket message_len lo hi fuel (record s { ready_fds = [] })) _ _ (λ _. tt)
            (λ _. tt) (λ w. awake-RoundKept fuel s w.0 w.1 _ o b))
