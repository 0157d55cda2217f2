-- ===== src/Old/EPoll.antt =====
-- old/client.cpp `EPollRSelector`: without a timeout, and without a new try after EINTR. The iterators
-- have no value before the first `wait` that succeeds; they are indices into `events`.
use network_ping_test.Base.{
  ℕ, ◌+◌, List, ◌∷◌, Option, none, some, Bool, true, false, ◌==◌, if◌then◌else◌, get_elem?,
  replicate, length,
}
use network_ping_test.Base.Int.{negsuc}
use network_ping_test.Os.{
  Os, Event, Run, epoll_create, epoll_wait, epoll_ctl_add, epoll_ctl_del, close, Trace, ◌>>=◌, ◌>>◌,
  pure, undefined, call,
}
use network_ping_test.Wait.{overlay}
use network_ping_test.Selector.{RSelector}
use network_ping_test.Selector.EPoll.{epollin, epollet, no_event, previous}

pub record EPollRSelector : Type 0 where
  pub efd : Option ℕ
  pub events : List Event
  pub current_ready : Option ℕ
  pub end_of_ready : Option ℕ

pub construct : Os → ℕ → Run EPollRSelector
construct os th_count = do
  r ← call os epoll_create
  pure (record {
    efd = r.value;
    events = replicate th_count no_event;
    current_ready = none;
    end_of_ready = none;
  })

-- `~EPollRSelector` closes -1 too, which does nothing.
abbrev pub destroy : EPollRSelector → Trace → Trace
destroy s t = elim s.efd [ none ↦ t | some fd ↦ close fd ∷ t ]

abbrev pub ok : EPollRSelector → Bool
ok s = elim s.efd [ none ↦ false | some _ ↦ true ]

unfoldable pub add_fd : Os → ℕ → EPollRSelector → Run (Bool × EPollRSelector)
add_fd os sockfd s = do
  r ← call os (epoll_ctl_add s.efd sockfd (epollin + epollet))
  elim r.value [ none ↦ pure (false, s) | some _ ↦ pure (true, s) ]

unfoldable pub wait : Os → EPollRSelector → Run (Bool × EPollRSelector)
wait os s = do
  r ← call os (epoll_wait s.efd (length s.events) (negsuc 0))
  elim r.value [
    | none ↦ pure (false, record s { events = overlay r.events s.events })
    | some n ↦ pure (
      true,
      record s {
        events = overlay r.events s.events;
        current_ready = some 0;
        end_of_ready = some (0 + n);
      },
    )
  ]

abbrev pub read_event : Option Event → ℕ → EPollRSelector → Run (Option Event × EPollRSelector)
read_event none i s = undefined
read_event (some e) i s = pure (some e, record s { current_ready = some (i + 1) })

abbrev pub next_from : Option ℕ → Option ℕ → EPollRSelector → Run (Option Event × EPollRSelector)
next_from none e s = undefined
next_from (some i) none s = undefined
next_from (some i) (some e) s =
    if e == i then pure (none, s) else read_event (get_elem? s.events i) i s

unfoldable pub next : EPollRSelector → Run (Option Event × EPollRSelector)
next s = next_from s.current_ready s.end_of_ready s

abbrev pub forget : Os → Option Event → EPollRSelector → Run EPollRSelector
forget os none s = undefined
forget os (some e) s = call os (epoll_ctl_del s.efd e.fd) >> pure s

abbrev pub before : Option ℕ → List Event → Option Event
before none events = none
before (some i) events = previous i events

unfoldable pub remove_current_ready : Os → EPollRSelector → Run EPollRSelector
remove_current_ready os s = forget os (before s.current_ready s.events) s

abbrev pub epoll_selector : RSelector EPollRSelector
epoll_selector = record {
  add_fd = add_fd;
  wait = λ os fuel s. wait os s;
  next = next;
  remove_current_ready = remove_current_ready;
}
