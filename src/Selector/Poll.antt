-- ===== src/Selector/Poll.antt =====
-- client.cpp `PollRSelector`. The iterators `current_free` and `current_ready` are indices into `fds`.
pub mod Valid
pub mod Loop
pub mod Removed
use network_ping_test.Base.{
  ℕ, zero, suc, ◌+◌, List, [], ◌∷◌, Option, none, some, Bool, true, false, ◌==◌, if◌then◌else◌,
  length, take, drop, replicate,
}
use network_ping_test.Os.{
  Os, Event, PollFd, Run, poll, ◌>>=◌, continue, pure, undefined, call, Reply, Outcome, done, more,
  fault,
}
use network_ping_test.Selector.{RSelector}

pub record PollRSelector : Type 0 where
  pub fds : List PollFd
  pub current_free : ℕ
  pub current_ready : ℕ

abbrev pub pollin : ℕ
pollin = 0x001

-- A slot after `memset` with 0.
abbrev pub cleared : PollFd
cleared = record { fd = some 0; events = 0; revents = 0 }

-- `PollRSelector(int fd_count)`
unfoldable pub construct : ℕ → PollRSelector
construct fd_count = record {
  fds = replicate fd_count cleared;
  current_free = 0;
  current_ready = 0;
}

-- A write through an iterator.
abbrev pub modify : List PollFd → ℕ → (PollFd → PollFd) → List PollFd
modify [] i f = []
modify (p ∷ ps) zero f = f p ∷ ps
modify (p ∷ ps) (suc i) f = p ∷ modify ps i f

abbrev pub watch : ℕ → PollFd → PollFd
watch sockfd p = record p { fd = some sockfd; events = pollin }

unfoldable pub add_fd : ℕ → PollRSelector → Bool × PollRSelector
add_fd sockfd s = if s.current_free == length s.fds then (false, s) else (
  true,
  record s { fds = modify s.fds s.current_free (watch sockfd); current_free = s.current_free + 1 },
)

-- `poll` writes the `revents` of the slots that it is given, here the first `n`.
abbrev pub report : ℕ → List ℕ → List PollFd → List PollFd
report zero rs ps = ps
report (suc n) rs [] = []
report (suc n) [] (p ∷ ps) = record p { revents = 0 } ∷ report n [] ps
report (suc n) (r ∷ rs) (p ∷ ps) = record p { revents = r } ∷ report n rs ps

-- `wait(long int=-1)`
unfoldable pub wait : Os → PollRSelector → Run (Bool × PollRSelector)
wait os s = do
  r ← call os (poll (take s.current_free s.fds))
  elim r.value [
    | none ↦ pure (false, s)
    | some _ ↦
        pure (true, record s { fds = report s.current_free r.revents s.fds; current_ready = 0 })
  ]

-- What a slot delivers: nothing if `0 == revents or fd == -1`.
abbrev pub delivered : PollFd → Option Event
delivered p =
    if p.revents == 0
    then none
    else elim p.fd [ none ↦ none | some fd ↦ some (record { fd = fd; flags = p.revents }) ]

-- The `for` of `next`, from the slot of index `i` on: the event and the index of its slot.
abbrev pub pick : Option Event → ℕ → Option (Event × ℕ) → Option (Event × ℕ)
pick none i rest = rest
pick (some e) i rest = some (e, i)

unfoldable pub scan : List PollFd → ℕ → Option (Event × ℕ)
scan [] i = none
scan (p ∷ ps) i = let rest = scan ps (i + 1) in pick (delivered p) i rest

abbrev pub deliver : PollRSelector → Option (Event × ℕ) → Option Event × PollRSelector
deliver s none = (none, record s { current_ready = length s.fds })
deliver s (some (e, i)) = (some e, record s { current_ready = i + 1 })

unfoldable pub next : PollRSelector → Option Event × PollRSelector
unfolding scan
next s = deliver s (scan (drop s.current_ready s.fds) s.current_ready)

abbrev pub drop_fd : PollFd → PollFd
drop_fd p = record p { fd = none }

abbrev pub remove_at : ℕ → PollRSelector → Run PollRSelector
remove_at zero s = undefined
remove_at (suc i) s = pure (record s { fds = modify s.fds i drop_fd })

unfoldable pub remove_current_ready : PollRSelector → Run PollRSelector
remove_current_ready s = remove_at s.current_ready s

-- The implementation of the interface.
abbrev pub poll_selector : RSelector PollRSelector
poll_selector = record {
  add_fd = λ os fd s. pure (add_fd fd s);
  wait = λ os fuel s. wait os s;
  next = λ s. pure (next s);
  remove_current_ready = λ os s. remove_current_ready s;
}
