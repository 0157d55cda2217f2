-- ===== src/Server/Session.antt =====
-- server.cpp `process_client`, `main_loop_thread`, `main`: one request of the driver, and the loop that
-- takes them. Output to stdout and stderr is left out, but for the division that the output makes. Fuel
-- bounds the loop of accepts and those of the test.
pub mod Requests
pub mod Answers
pub mod Loop
pub mod Exit
mod Tests
use network_ping_test.Base.{
  ℕ, zero, suc, ◌+◌, ◌-◌, List, [], ◌∷◌, Bool, true, false, ◌==◌, ◌&&◌, if◌then◌else◌, length, take,
  Option, none, some,
}
use network_ping_test.Base.Int.{ℤ, pos, negsuc}
use network_ping_test.Os.{
  Os, Run, Outcome, done, more, fault, Call, ◌>>=◌, ◌>>◌, continue, pure, undefined, out_of_fuel,
  call, Reply, Trace, finally, usleep, recv_dontwait, ignore_sigpipe, socket, setsockopt, bind,
  listen, accept,
}
use network_ping_test.Os.Close.{close_one}
use network_ping_test.Text.{Bytes}
use network_ping_test.Server.Results.{WorkerResult}
use network_ping_test.Server.Protocol.{TestParams, TestResult, load_from_str, serialize_to_str}
use network_ping_test.Server.RunTest.{run_test}

-- EAGAIN, which is EWOULDBLOCK on Linux.
abbrev pub eagain : ℕ
eagain = 11

-- `sizeof(buff)`
abbrev pub buffer_size : ℕ
buffer_size = 1025

-- The text of a buffer with `data_len` bytes and a 0 behind them, as C reads it.
pub until_nul : Bytes → Bytes
until_nul [] = []
until_nul (c ∷ s) = let rest = until_nul s in if c == 0 then [] else c ∷ rest

abbrev pub c_string : ℕ → Bytes → Bytes
c_string data_len buff = until_nul (take data_len buff)

module _ (os : Os) (sock : ℕ) where
  -- The `for` of `recv`, with the rounds left: `data_len` if it is positive, and the bytes; `none` for an
  -- error and for the time-out.
  abbrev pub received : Run (Option (ℕ × Bytes)) → Reply → Option ℕ → Run (Option (ℕ × Bytes))
  received again r none = if r.errno == eagain then call os usleep >> again else pure none
  received again r (some zero) = call os usleep >> again
  received again r (some (suc n)) = pure (some (suc n, r.bytes))

  pub receive : ℕ → Run (Option (ℕ × Bytes))
  receive zero = pure none
  receive (suc left) = do
    r ← call os (recv_dontwait sock buffer_size)
    received (receive left) r r.value

  module _ (base : Bytes) (tresults : Trace → List WorkerResult) (fuel addrs : ℕ) where
    -- The result: `res.mcount / params.runtime` is printed, then the report is sent.
    abbrev pub no_runtime : ℤ → Bool
    no_runtime (pos n) = n == 0
    no_runtime (negsuc n) = false

    abbrev pub send_report : TestParams → Option TestResult → Run (Unit {0})
    send_report params none = pure tt
    send_report params (some res) =
        if no_runtime params.runtime
        then undefined
        else call os (Call.write sock (length (serialize_to_str base res))) >> pure tt

    abbrev pub obey : Option TestParams → Run (Unit {0})
    obey none = pure tt
    obey (some params) = do res ← run_test os tresults fuel params 3 addrs; send_report params res

    abbrev pub answer_message : Option (ℕ × Bytes) → Run (Unit {0})
    answer_message none = pure tt
    answer_message (some (data_len, buff)) =
        if data_len == buffer_size
        then pure tt
        else ((λ t. (load_from_str (c_string data_len buff), t)) >>= obey)

    -- `fdc` closes the socket on every return.
    pub process_client : Run (Unit {0})
    unfolding receive
    process_client =
        finally (do call os usleep; data_received ← receive 51; answer_message data_received)
          (close_one sock)

module _ (os : Os) (base : Bytes) (tresults : Trace → List WorkerResult) (fuel addrs : ℕ) where
  -- The `for(;;)` of `main_loop_thread`.
  pub accept_clients : ℕ → ℕ → Bool → Run ℕ
  unfolding process_client
  accept_clients zero control_sock single_shot = out_of_fuel
  accept_clients (suc left) control_sock single_shot = do
    r ← call os (accept control_sock)
    elim r.value [
      | none ↦ accept_clients left control_sock single_shot
      | some client_sock ↦ (do
        process_client os client_sock base tresults fuel addrs
        if single_shot then pure 0 else accept_clients left control_sock single_shot)
    ]

  -- From `bind` on.
  abbrev pub bind_and_accept : ℕ → Bool → ℕ → Run ℕ
  unfolding accept_clients
  bind_and_accept port single_shot control_sock = do
    call os (setsockopt control_sock)
    b ← call os (bind control_sock port)
    elim b.value [
      | none ↦ pure 1
      | some _ ↦ (do call os (listen control_sock 3); accept_clients fuel control_sock single_shot)
    ]

  pub main_loop_thread : ℕ → Bool → Run ℕ
  unfolding bind_and_accept
  main_loop_thread port single_shot = do
    s ← call os ignore_sigpipe
    elim s.value [
      | none ↦ pure 1
      | some _ ↦ (do
        c ← call os socket
        elim c.value [
          | none ↦ pure 1
          | some control_sock ↦ bind_and_accept port single_shot control_sock
        ])
    ]

-- `argv[1] == std::string("-s")`
abbrev pub is_text : Bytes → Bytes → Bool
is_text [] [] = true
is_text [] (d ∷ s) = false
is_text (c ∷ r) [] = false
is_text (c ∷ r) (d ∷ s) = (c == d) && is_text r s

abbrev pub default_port : ℕ
default_port = 33331

-- The arguments after the program's name: with a first "-s" the rest are addresses, else all are.
pub main : Os → Bytes → (Trace → List WorkerResult) → ℕ → List Bytes → Run ℕ
unfolding main_loop_thread
main os base tresults fuel [] = main_loop_thread os base tresults fuel 0 default_port false
main os base tresults fuel (first ∷ others) =
    if is_text first (b'-' ∷ b's' ∷ [])
    then main_loop_thread os base tresults fuel (length others) default_port true
    else main_loop_thread os base tresults fuel (suc (length others)) default_port false
