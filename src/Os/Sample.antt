-- ===== src/Os/Sample.antt =====
-- Concrete systems, for the tests.
use network_ping_test.Base.{
  ℕ, ◌+◌, ◌^◌, ◌<◌, [], ◌∷◌, Option, none, some, length, min, arith, Option-cases, inl, inr, ◌-◌,
}
use network_ping_test.Os.{Os, Call, Trace, epoll_wait, accept, socket, recv}
use network_ping_test.Wait.{nanoseconds}
use network_ping_test.Wait.Result.{EpollContract}
use network_ping_test.Wait.Deadline.{Ticks}

-- The value of a call: one event for `epoll_wait` if there is room; a descriptor that was not given
-- out before for `socket` and `accept`; for `recv` the message, cut to 40 bytes less one for each call
-- made before; all that is to be written for `write`; 1 for `poll`; 0 for the rest.
abbrev pub value_of : Trace → Option ℕ
value_of [] = none
value_of (epoll_wait efd m x ∷ t) = some (min m 1)
value_of (socket ∷ t) = some (100 + length t)
value_of (accept fd ∷ t) = some (100 + length t)
value_of (recv fd n ∷ t) = some (min n (40 - length t))
value_of (Call.write fd n ∷ t) = some n
value_of (Call.poll ps ∷ t) = some 1
value_of (_ ∷ t) = some 0

-- Every call advances the clock by a nanosecond, up to 1000.
abbrev pub system : Os
system t = record {
  value = value_of t;
  errno = 0;
  sec = 0;
  nsec = min (length t) 1000;
  events = record { fd = 5; flags = 1 } ∷ [];
  revents = 1 ∷ [];
  error = 0;
  bytes = [];
}

pub early : (t : Trace) → nanoseconds (system t) < 2 ^ 63
early t = elim (Option-cases (value_of t)) [
  | inl e ↦ rw e (omega arith)
  | inr (n, e) ↦ rw e (omega arith)
]

pub system_contract : EpollContract system
system_contract = record { fits = λ efd m x t n e. ground arith }

pub system-Ticks : Ticks system 1000
system-Ticks c t = omega arith
