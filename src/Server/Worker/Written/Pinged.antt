-- ===== src/Server/Worker/Written/Pinged.antt =====
-- The messages that a round of a worker writes.
use network_ping_test.Base.{ℕ, ◌+◌, ◌%◌, ◌^◌, ◌≤◌, ◌<◌, ◌≡◌, some, Bool, true, false, arith}
use network_ping_test.Os.{Os, Outcome, done, more, fault, Trace}
use network_ping_test.Selector.EPoll.{EPollRSelector}
use network_ping_test.Server.Worker.{Tables, round}
use network_ping_test.Server.Worker.Queue.{occurs, pending, IsOrdered}
use network_ping_test.Server.Worker.Pings.{pings_of}
use network_ping_test.Server.Worker.Rounds.{RoundKept, round-RoundKept}
use network_ping_test.Server.Worker.Written.{written_to}
use network_ping_test.Server.Worker.Written.Quiet.{left_with, Counted}
use network_ping_test.Server.Worker.Written.Whole.{round-Counted}

-- How a round ends that began with the tables `s` at the trace `t`.
abbrev pub RoundPinged :
    Os → ℕ → ℕ → Tables → Trace → Outcome (Bool × Tables × EPollRSelector) × Trace → Type 0
RoundPinged os n key s t (done (true, s', sel), u) =
    IsOrdered s'.wait_queue
    × (pending key s.wait_queue ≤ pending key s'.wait_queue + occurs key s'.ready_fds)
    × (written_to os n key t ≤ written_to os n key u)
    × (written_to os n key u % 2 ^ 64 ≡ (written_to os n key t + occurs key s'.ready_fds) % 2 ^ 64)
    × (pings_of key s' ≡ (pings_of key s + occurs key s'.ready_fds) % 2 ^ 64)
RoundPinged os n key s t (done (false, s', sel), u) = IsOrdered s'.wait_queue
RoundPinged os n key s t (more, u) = Unit
RoundPinged os n key s t (fault, u) = Unit

module _ (os : Os) (bucket : ℕ → ℕ) (n lo hi : ℕ) (key : ℕ) where
  both :
      (s : Tables) (t : Trace) (r : Outcome (Bool × Tables × EPollRSelector) × Trace)
      → RoundKept key s r
      → Counted os bucket n lo hi key (λ y. some (left_with y)) s t r
      → RoundPinged os n key s t r
  both s t (done (true, s', sel), u) (o, w, p) c =
      (o, w, c.later, omega (arith, c.grown, c.later, p), p)
  both s t (done (false, s', sel), u) k c = k
  both s t (more, u) k c = tt
  both s t (fault, u) k c = tt

  -- In a round of a worker with an ordered queue, whose count of pings for a socket is below 2 ^ 64. If
  -- the round does not end the thread: the socket, if it was in the queue, is in the queue still or among
  -- the sockets `ready_fds`; the round has written as many whole messages of `message_len` bytes to it,
  -- modulo 2 ^ 64, as it stands in `ready_fds`; and its count is raised by as many. However the round
  -- ends, the queue stays ordered.
  pub round-RoundPinged :
      (fuel : ℕ) (s : Tables) (sel : EPollRSelector) (t : Trace)
      → IsOrdered s.wait_queue
      → pings_of key s < 2 ^ 64
      → RoundPinged os n key s t (round os bucket n lo hi fuel s sel t)
  round-RoundPinged fuel s sel t o b =
      both s t (round os bucket n lo hi fuel s sel t)
        (round-RoundKept os bucket n lo hi key fuel s sel t o b)
        (round-Counted os bucket n lo hi key fuel s sel t)
