-- ===== src/Selector/EPoll/Quiet.antt =====
-- common.cpp `EPollRSelector`: what `wait` and `next` may add to a trace.
use network_ping_test.Base.{
  ℕ, ◌≡◌, refl, ◌∷◌, Option, none, some, Bool, true, false, ◌==◌, Bool-cases, inl, inr,
}
use network_ping_test.Base.Int.{ℤ}
use network_ping_test.Os.{
  Os, Outcome, done, more, fault, Trace, continue, Event, clock_gettime, epoll_wait,
}
use network_ping_test.Wait.{EventsList, epoll_wait_ex}
use network_ping_test.Wait.Quiet.{epoll_wait_ex-keeps}
use network_ping_test.Selector.EPoll.{EPollRSelector, wait_ns, rewind, next, read_event}

module _ (P : Trace → Type 0) (clock : (t : Trace) → P t → P (clock_gettime ∷ t))
    (poll : (e : Option ℕ) (n : ℕ) (x : ℤ) (t : Trace) → P t → P (epoll_wait e n x ∷ t)) where
  rewind-keeps :
      (sel : EPollRSelector) (events : EventsList) (c : Option ℕ) (u : Trace)
      → events.num_ready ≡ c
      → P u
      → P (rewind (true, events) sel u).1
  rewind-keeps sel events none u e p = rw e p
  rewind-keeps sel events (some m) u e p = rw e p

  pub wait_ns-keeps :
      (os : Os) (fuel : ℕ) (x : ℤ) (sel : EPollRSelector) (t : Trace)
      → P t
      → P (wait_ns os fuel x sel t).1
  unfolding wait_ns
  wait_ns-keeps os fuel x sel t p =
      rewound (epoll_wait_ex os fuel sel.efd sel.events x t)
        (epoll_wait_ex-keeps P clock poll os fuel sel.efd sel.events x t p)
    where
      rewound :
          (r : Outcome (Bool × EventsList) × Trace)
          → P r.1
          → P (continue (λ result. rewind result sel) r.0 r.1).1
      rewound (done (false, events), u) q = q
      rewound (done (true, events), u) q = rewind-keeps sel events events.num_ready u refl q
      rewound (more, u) q = q
      rewound (fault, u) q = q

read_event-quiet :
    (e : Option Event) (sel : EPollRSelector) (t : Trace) → (read_event e sel t).1 ≡ t
read_event-quiet none sel t = refl
read_event-quiet (some e) sel t = refl

pub next-quiet : (sel : EPollRSelector) (t : Trace) → (next sel t).1 ≡ t
unfolding next
next-quiet sel t = elim (Bool-cases (sel.end_of_ready == sel.current_ready)) [
  | inl e ↦ rw e refl
  | inr e ↦ rw e (read_event-quiet _ sel t)
]
