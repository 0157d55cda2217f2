-- ===== src/Old.antt =====
-- old/client.cpp: the former client, which connects to the server by itself. This file has `connect_all`
-- and `process_message`. Its `PollRSelector` has the text of that of client.cpp (Selector/Poll). A null
-- pointer or callback is `false`. A number of sockets or bytes is at least 0: both are the lengths of
-- arrays on the stack. Output is left out, and so is the change of the priority of a thread.
pub mod Opened
pub mod EPoll
pub mod Events
pub mod Echoes
pub mod Threads
pub mod Program
mod Tests
use network_ping_test.Base.{
  ℕ, zero, suc, List, [], ◌∷◌, ◌++◌, Option, none, some, Bool, true, false, ◌==◌, if◌then◌else◌,
}
use network_ping_test.Os.{
  Os, Call, socket, connect, gethostbyname, recv, Reply, Outcome, done, more, fault, Trace, Run,
  continue, ◌>>=◌, ◌>>◌, pure, call,
}
use network_ping_test.Client.{prepare}

-- The `for` of `connect_all`, with the rounds that are left and the vector `sockets`. `prepare` of
-- client.cpp has the text of the part under `if(async)`.
module _ (os : Os) (async : Bool) where
  pub connect_loop : ℕ → List ℕ → Run (Bool × List ℕ)
  connect_loop zero sockets = pure (true, sockets)
  connect_loop (suc left) sockets = do
    s ← call os socket
    elim s.value [
      | none ↦ pure (false, sockets)
      | some sockfd ↦ (do
        c ← call os (connect sockfd)
        elim c.value [
          | none ↦ pure (false, sockets)
          | some _ ↦ (do
            ready ← prepare os async sockfd
            if ready then connect_loop left (sockets ++ sockfd ∷ []) else pure (false, sockets))
        ])
    ]

-- `connect_all`, with the vector `sockets` before and after.
pub connect_all : Os → ℕ → Bool → List ℕ → Run (Bool × List ℕ)
unfolding connect_loop
connect_all os sock_count async sockets = do
  host ← call os gethostbyname
  elim host.value [ none ↦ pure (false, sockets) | some _ ↦ connect_loop os async sock_count [] ]

-- `process_message`
abbrev pub answered : ℕ → Reply → Bool
answered message_len w = elim w.value [ none ↦ false | some n ↦ n == message_len ]

unfoldable pub process_message : Os → ℕ → ℕ → Run Bool
process_message os sockfd message_len = do
  r ← call os (recv sockfd message_len)
  elim r.value [
    | none ↦ pure false
    | some bc ↦
        if bc == 0
        then pure false
        else (if bc == message_len
            then (do w ← call os (Call.write sockfd message_len); pure (answered message_len w))
            else pure false)
  ]
