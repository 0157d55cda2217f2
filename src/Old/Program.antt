-- ===== src/Old/Program.antt =====
-- old/client.cpp `run_test_th`, a thread for each connection, as the main thread runs it, and `main`.
-- What the threads do in the meantime is in the replies of the calls that read what they share. Fuel
-- bounds the loop on `started`.
pub mod Order
use network_ping_test.Base.{
  ℕ, zero, suc, ◌+◌, ◌-◌, ◌*◌, ◌%◌, ◌^◌, List, [], ◌∷◌, Option, none, some, Bool, true, false, ◌==◌,
  ltb, if◌then◌else◌,
}
use network_ping_test.Base.Int.{ℤ, pos, negsuc}
use network_ping_test.Os.{
  Os, Call, start_thread, join_thread, preparation_done, test_done, load_started, store_run,
  load_counter, usleep, Reply, Outcome, done, more, fault, Trace, Run, continue, ◌>>=◌, ◌>>◌, pure,
  out_of_fuel, call, finally,
}
use network_ping_test.Os.Close.{close_all}
use network_ping_test.Text.{Bytes, Scanned, matched, mismatched, undefined, scan_int}
use network_ping_test.Client.{notify}
use network_ping_test.Old.{connect_all}

-- `*msg_processed = counter.load()`: an `unsigned long` put into an `int`.
abbrev pub to_int : ℕ → ℤ
to_int n = if ltb (n % 2 ^ 32) (2 ^ 31) then pos (n % 2 ^ 32) else negsuc (2 ^ 32 - 1 - n % 2 ^ 32)

-- `started.load() != (unsigned int)th_count`
abbrev pub is_count : ℕ → Option ℕ → Bool
is_count n none = false
is_count n (some m) = m == n

-- A load has always a value.
abbrev pub stored_count : Option ℕ → ℤ
stored_count none = pos 0
stored_count (some n) = to_int n

module _ (os : Os) where
  pub start_threads : List ℕ → Run (Unit {0})
  start_threads [] = pure tt
  start_threads (sock ∷ socks) = call os (start_thread sock) >> start_threads socks

  pub wait_started : ℕ → ℕ → Run (Unit {0})
  wait_started zero th_count = out_of_fuel
  wait_started (suc fuel) th_count = do
    r ← call os load_started
    if is_count th_count r.value then pure tt else call os usleep >> wait_started fuel th_count

  pub join_threads : List ℕ → Run (Unit {0})
  join_threads [] = pure tt
  join_threads (sock ∷ socks) = call os (join_thread sock) >> join_threads socks

  -- `if (nullptr != msg_processed)`
  abbrev pub store_counter : Bool → Run (ℕ × Option ℤ)
  store_counter false = pure (0, none)
  store_counter true = do r ← call os load_counter; pure (0, some (stored_count r.value))

  abbrev pub run_threads : ℕ → ℕ → Bool → Bool → Bool → List ℕ → Run (ℕ × Option ℤ)
  unfolding start_threads wait_started join_threads
  run_threads fuel th_count prepared finished counted fds = do
    start_threads fds
    wait_started fuel th_count
    notify os prepared preparation_done
    call os store_run
    join_threads fds
    notify os finished test_done
    store_counter counted

  abbrev pub with_sockets : ℕ → ℕ → Bool → Bool → Bool → Bool × List ℕ → Run (ℕ × Option ℤ)
  unfolding run_threads
  with_sockets fuel th_count prepared finished counted (false, fds) =
      finally (pure (1, none)) (close_all fds)
  with_sockets fuel th_count prepared finished counted (true, fds) =
      finally (run_threads fuel th_count prepared finished counted fds) (close_all fds)

  -- `run_test_th`: what it returns, and what it stores.
  pub run_test_th : ℕ → ℕ → Bool → Bool → Bool → Run (ℕ × Option ℤ)
  unfolding with_sockets
  run_test_th fuel th_count prepared finished counted = do
    r ← connect_all os th_count false []
    with_sockets fuel th_count prepared finished counted r

  -- `std::atoi`: 0 for a text that begins with no number.
  abbrev pub atoi : Scanned ℤ → Run ℤ
  atoi (matched n rest) = pure n
  atoi mismatched = pure (pos 0)
  atoi undefined = λ t. (fault, t)

  -- A number of threads below 0 is the length of no array.
  abbrev pub with_threads : ℕ → ℤ → Run ℕ
  unfolding run_test_th
  with_threads fuel (pos zero) = pure 1
  with_threads fuel (pos (suc n)) = do ret ← run_test_th fuel (suc n) false false true; pure ret.0
  with_threads fuel (negsuc n) = λ t. (fault, t)

  -- `main`, with the arguments after the program's name.
  pub main : ℕ → List Bytes → Run ℕ
  unfolding with_threads
  main fuel [] = pure 1
  main fuel (ip ∷ []) = pure 1
  main fuel (ip ∷ conn_count ∷ others) = do
    th_count ← atoi (scan_int conn_count)
    with_threads fuel th_count
