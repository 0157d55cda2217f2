-- ===== src/Old/Events/Silence.antt =====
-- Both selectors write to no socket.
use network_ping_test.Base.{
  ℕ, zero, suc, ◌≡◌, refl, ◌∷◌, Option, none, some, Option-cases, inl, inr, take, length,
  Bool-cases, ◌==◌, get_elem?, ◌+◌,
}
use network_ping_test.Base.Int.{negsuc}
use network_ping_test.Os.{Os, Trace, poll, epoll_wait, epoll_ctl_add, Event}
use network_ping_test.Selector.EPoll.{epollin, epollet}
use network_ping_test.Selector.Poll
use network_ping_test.Selector.Poll.{PollRSelector, poll_selector, remove_at}
use network_ping_test.Old.Echoes.{echoes, Silent}
use network_ping_test.Old.EPoll
use network_ping_test.Old.EPoll.{
  EPollRSelector, epoll_selector, read_event, next_from, forget, before,
}

remove_at-quiet :
    (os : Os) (n i : ℕ) (s : PollRSelector) (t : Trace)
    → echoes os n (remove_at i s t).1 ≡ echoes os n t
remove_at-quiet os n zero s t = refl
remove_at-quiet os n (suc i) s t = refl

poll_wait-quiet :
    (os : Os) (n : ℕ) (s : PollRSelector) (t : Trace)
    → echoes os n (Poll.wait os s t).1 ≡ echoes os n t
unfolding Poll.wait echoes
poll_wait-quiet os n s t = elim (Option-cases (os (poll (take s.current_free s.fds) ∷ t)).value) [
  | inl e ↦ rw e refl
  | inr (_, e) ↦ rw e refl
]

pub poll_selector-Silent : Silent poll_selector
unfolding Poll.remove_current_ready
poll_selector-Silent = record {
  adds = λ os n fd s t. refl;
  waits = λ os n fuel s t. poll_wait-quiet os n s t;
  nexts = λ os n s t. refl;
  removes = λ os n s t. remove_at-quiet os n s.current_ready s t;
}

epoll_add-quiet :
    (os : Os) (n fd : ℕ) (s : EPollRSelector) (t : Trace)
    → echoes os n (EPoll.add_fd os fd s t).1 ≡ echoes os n t
unfolding EPoll.add_fd echoes
epoll_add-quiet os n fd s t =
    elim (Option-cases (os (epoll_ctl_add s.efd fd (epollin + epollet) ∷ t)).value) [
      | inl e ↦ rw e refl
      | inr (_, e) ↦ rw e refl
    ]

epoll_wait-quiet :
    (os : Os) (n : ℕ) (s : EPollRSelector) (t : Trace)
    → echoes os n (EPoll.wait os s t).1 ≡ echoes os n t
unfolding EPoll.wait echoes
epoll_wait-quiet os n s t =
    elim (Option-cases (os (epoll_wait s.efd (length s.events) (negsuc 0) ∷ t)).value) [
      | inl e ↦ rw e refl
      | inr (_, e) ↦ rw e refl
    ]

read_event-quiet :
    (os : Os) (n : ℕ) (e : Option Event) (i : ℕ) (s : EPollRSelector) (t : Trace)
    → echoes os n (read_event e i s t).1 ≡ echoes os n t
read_event-quiet os n none i s t = refl
read_event-quiet os n (some e) i s t = refl

next_from-quiet :
    (os : Os) (n : ℕ) (i e : Option ℕ) (s : EPollRSelector) (t : Trace)
    → echoes os n (next_from i e s t).1 ≡ echoes os n t
next_from-quiet os n none e s t = refl
next_from-quiet os n (some i) none s t = refl
next_from-quiet os n (some i) (some e) s t = elim (Bool-cases (e == i)) [
  | inl h ↦ rw h refl
  | inr h ↦ rw h (read_event-quiet os n (get_elem? s.events i) i s t)
]

forget-quiet :
    (os : Os) (n : ℕ) (e : Option Event) (s : EPollRSelector) (t : Trace)
    → echoes os n (forget os e s t).1 ≡ echoes os n t
unfolding echoes
forget-quiet os n none s t = refl
forget-quiet os n (some e) s t = refl

pub epoll_selector-Silent : Silent epoll_selector
unfolding EPoll.next EPoll.remove_current_ready
epoll_selector-Silent = record {
  adds = epoll_add-quiet;
  waits = λ os n fuel s t. epoll_wait-quiet os n s t;
  nexts = λ os n s t. next_from-quiet os n s.current_ready s.end_of_ready s t;
  removes = λ os n s t. forget-quiet os n (before s.current_ready s.events) s t;
}
