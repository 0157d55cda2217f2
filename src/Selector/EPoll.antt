-- ===== src/Selector/EPoll.antt =====
-- common.h and common.cpp, `EPollRSelector`. The iterators `current_ready` and `end_of_ready` are
-- indices into `events.events`. The counters under EPOLL_CALL_STATS, which no build defines, are left
-- out. A read outside the array is `undefined`.
pub mod Ready
pub mod Moved
pub mod Quiet
use network_ping_test.Base.{
  ℕ, zero, suc, ◌+◌, ◌-◌, List, [], ◌∷◌, Option, none, some, Bool, true, false, ◌==◌, if◌then◌else◌,
  get_elem?, replicate,
}
use network_ping_test.Base.Int.{ℤ, pos, negsuc}
use network_ping_test.Os.{
  Os, Event, Run, Call, epoll_create, epoll_ctl_add, epoll_ctl_del, close, Trace, ◌>>=◌, ◌>>◌,
  continue, pure, undefined, call, Reply, Outcome, done, more, fault,
}
use network_ping_test.Wait.{EventsList, epoll_wait_ex}
use network_ping_test.Selector.{RSelector}

-- `efd` is `none` for -1.
pub record EPollRSelector : Type 0 where
  pub efd : Option ℕ
  pub events : EventsList
  pub current_ready : ℕ
  pub end_of_ready : ℕ

-- EPOLLIN, EPOLLOUT, EPOLLET
abbrev pub epollin : ℕ
epollin = 0x001

abbrev pub epollout : ℕ
epollout = 0x004

abbrev pub epollet : ℕ
epollet = 0x80000000

abbrev pub no_event : Event
no_event = record { fd = 0; flags = 0 }

-- `EPollRSelector(int sock_count)`: `events.events.resize(sock_count)` fills with zeros.
unfoldable pub construct : Os → ℕ → Run EPollRSelector
construct os sock_count = do
  r ← call os epoll_create
  pure (record {
    efd = r.value;
    events = record { events = replicate sock_count no_event; num_ready = some 0; recv_time = 0 };
    current_ready = 0;
    end_of_ready = 0;
  })

-- `EPollRSelector(EPollRSelector && rsel)`: the new object, and `rsel` as it is left. The member
-- `events` of the new object is default-constructed: the array is not moved.
unfoldable pub move : EPollRSelector → EPollRSelector × EPollRSelector
move rsel = (
  record {
    efd = rsel.efd;
    events = record { events = []; num_ready = some 0; recv_time = 0 };
    current_ready = 0;
    end_of_ready = 0;
  },
  record rsel { efd = none },
)

-- `~EPollRSelector`
unfoldable pub destroy : EPollRSelector → Trace → Trace
destroy s t = elim s.efd [ none ↦ t | some fd ↦ close fd ∷ t ]

unfoldable pub ok : EPollRSelector → Bool
ok s = elim s.efd [ none ↦ false | some _ ↦ true ]

-- `add_fd(int sockfd, int events)`
unfoldable pub add_fd_mask : Os → ℕ → ℕ → EPollRSelector → Run (Bool × EPollRSelector)
add_fd_mask os sockfd event_mask s = do
  r ← call os (epoll_ctl_add s.efd sockfd event_mask)
  elim r.value [ none ↦ pure (false, s) | some _ ↦ pure (true, s) ]

-- `add_fd(int sockfd)`: EPOLLIN | EPOLLET
unfoldable pub add_fd : Os → ℕ → EPollRSelector → Run (Bool × EPollRSelector)
unfolding add_fd_mask
add_fd os sockfd s = add_fd_mask os sockfd (epollin + epollet) s

-- `wait(long int timeout_ns)`. On success `num_ready` is a number.
abbrev pub rewind : Bool × EventsList → EPollRSelector → Run (Bool × EPollRSelector)
rewind (false, events) s = pure (false, record s { events = events })
rewind (true, events) s = elim events.num_ready [
  | none ↦ undefined
  | some n ↦ pure (true, record s { events = events; current_ready = 0; end_of_ready = 0 + n })
]

unfoldable pub wait_ns : Os → ℕ → ℤ → EPollRSelector → Run (Bool × EPollRSelector)
wait_ns os fuel timeout_ns s = do
  result ← epoll_wait_ex os fuel s.efd s.events timeout_ns
  rewind result s

-- `next(int & sockfd, uint32_t & flags)`; `next(int & sockfd)` differs only in that it does not copy
-- the flags.
abbrev pub read_event : Option Event → EPollRSelector → Run (Option Event × EPollRSelector)
read_event none s = undefined
read_event (some e) s = pure (some e, record s { current_ready = s.current_ready + 1 })

unfoldable pub next : EPollRSelector → Run (Option Event × EPollRSelector)
next s =
    if s.end_of_ready == s.current_ready
    then pure (none, s)
    else read_event (get_elem? s.events.events s.current_ready) s

abbrev pub forget : Os → Option Event → EPollRSelector → Run EPollRSelector
forget os none s = undefined
forget os (some e) s = call os (epoll_ctl_del s.efd e.fd) >> pure s

-- The place before `current_ready`; before the first place there is none.
abbrev pub previous : ℕ → List Event → Option Event
previous zero events = none
previous (suc i) events = get_elem? events i

unfoldable pub remove_current_ready : Os → EPollRSelector → Run EPollRSelector
remove_current_ready os s = forget os (previous s.current_ready s.events.events) s

unfoldable pub ready_count : EPollRSelector → ℕ
ready_count s = s.end_of_ready - s.current_ready

-- The implementation of the interface; `wait()` has the default timeout -1.
abbrev pub epoll_selector : RSelector EPollRSelector
epoll_selector = record {
  add_fd = add_fd;
  wait = λ os fuel s. wait_ns os fuel (negsuc 0) s;
  next = next;
  remove_current_ready = remove_current_ready;
}
