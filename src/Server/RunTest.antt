-- ===== src/Server/RunTest.antt =====
-- server.cpp `run_test`: the main thread of a test, from the connections to the result. What the workers
-- have left in `tresults` when they are joined is a parameter, a function of the calls made by then. The
-- average of the latencies, which is only printed, is left out. An `int` that overflows is `undefined`,
-- and so is a length below 0, for which `resize` and `string` throw what nothing catches.
pub mod Closing
pub mod Counts
pub mod Order
pub mod Walk
mod Tests
use network_ping_test.Base.{
  ℕ, zero, suc, ◌+◌, ◌*◌, ◌<◌, List, [], ◌∷◌, ◌++◌, Bool, true, false, not, ◌==◌, ltb,
  if◌then◌else◌, length, Option, none, some, ◌^◌,
}
use network_ping_test.Base.Int.{ℤ, pos, negsuc}
use network_ping_test.Os.{
  Os, Run, Outcome, done, more, fault, Call, ◌>>=◌, ◌>>◌, continue, pure, undefined, out_of_fuel,
  call, Reply, Trace, finally, start_thread, join_thread, lock_start, unlock_start, load_active,
  store_done, usleep,
}
use network_ping_test.Os.Close.{close_all}
use network_ping_test.Selector.EPoll.{EPollRSelector, destroy}
use network_ping_test.Server.Connect.{connect_all}
use network_ping_test.Server.Spread.{worker_count, max_sock_count, make_selectors, spread}
use network_ping_test.Server.Results.{WorkerResult, merge, collect_mps, sort, percentiles}
use network_ping_test.Server.Protocol.{TestParams, TestResult}

-- `~vector<EPollRSelector>`
pub destroy_all : List EPollRSelector → Trace → Trace
destroy_all [] t = t
destroy_all (sel ∷ sels) t = destroy_all sels (destroy sel t)

-- The result of a test with the counts of `tresults`; an index outside `mps` is undefined.
abbrev pub with_percentiles : ℕ × List (ℕ × ℕ) → Option (List ℕ) → Run TestResult
with_percentiles (mcount, lat_map) none = undefined
with_percentiles (mcount, lat_map) (some ps) =
    pure (record { mcount = mcount; percentiles = ps; lat_map = lat_map })

pub gather_results : ℕ → List WorkerResult → Run TestResult
gather_results num_conn tresults =
    with_percentiles (merge tresults 0 []) (percentiles num_conn (sort (collect_mps tresults)))

module _ (os : Os) where
  -- The loop that fills `workers`, and the one that joins them, from the thread of index `i` on.
  pub start_all : ℕ → ℕ → Run (Unit {0})
  start_all zero i = pure tt
  start_all (suc left) i = call os (start_thread i) >> start_all left (i + 1)

  pub join_workers : ℕ → ℕ → Run (Unit {0})
  join_workers zero i = pure tt
  join_workers (suc left) i = call os (join_thread i) >> join_workers left (i + 1)

  -- The first messages: true if a `write` has failed.
  abbrev pub is_all : ℕ → Option ℕ → Bool
  is_all message_len none = false
  is_all message_len (some n) = n == message_len

  pub write_first : ℕ → List ℕ → Run Bool
  write_first message_len [] = pure false
  write_first message_len (sock ∷ socks) = do
    r ← call os (Call.write sock message_len)
    if is_all message_len r.value then write_first message_len socks else pure true

  -- `active_count.load()`, as a number of threads.
  abbrev pub is_count : ℕ → Option ℕ → Bool
  is_count n none = false
  is_count n (some m) = m == n

  pub wait_active : ℕ → ℕ → Run (Unit {0})
  wait_active zero workers = out_of_fuel
  wait_active (suc fuel) workers = do
    r ← call os load_active
    if is_count workers r.value then pure tt else call os usleep >> wait_active fuel workers

  pub sleep_while_active : ℕ → Run (Unit {0})
  sleep_while_active zero = pure tt
  sleep_while_active (suc sleeps) = do
    call os usleep
    r ← call os load_active
    if is_count 0 r.value then pure tt else sleep_while_active sleeps

  -- `int sleeps = params.runtime * 10`
  abbrev pub sleep_for : ℤ → Run (Unit {0})
  unfolding sleep_while_active
  sleep_for (pos n) = if ltb (n * 10) (2 ^ 31) then sleep_while_active (n * 10) else undefined
  sleep_for (negsuc n) = if ltb (n * 10 + 9) (2 ^ 31) then pure tt else undefined

  -- `if (not failed)`
  abbrev pub run_workers : ℕ → ℕ → ℤ → Bool → Run (Unit {0})
  unfolding wait_active sleep_for
  run_workers fuel workers runtime true = pure tt
  run_workers fuel workers runtime false = do
    wait_active fuel workers
    call os unlock_start
    sleep_for runtime

  -- `none` is a return of false.
  abbrev pub unless : Bool → TestResult → Option TestResult
  unless true res = none
  unless false res = some res

  module _ (tresults : Trace → List WorkerResult) (fuel : ℕ) (params : TestParams) where
    -- What `worker_thread`s have left.
    abbrev pub left_by_workers : Run (List WorkerResult)
    left_by_workers t = (done (tresults t), t)

    -- From the locking of the mutex to the return.
    abbrev pub conduct : ℕ → ℕ → List ℕ → ℕ → Run (Option TestResult)
    unfolding start_all join_workers write_first run_workers gather_results
    conduct num_conn workers fds message_len = do
      failed ← write_first message_len fds
      run_workers fuel workers params.runtime failed
      call os store_done
      join_workers workers 0
      rs ← left_by_workers
      res ← gather_results num_conn rs
      pure (unless failed res)

    abbrev pub with_message : ℕ → ℕ → List ℕ → ℤ → Run (Option TestResult)
    unfolding conduct
    with_message num_conn workers fds (pos message_len) = conduct num_conn workers fds message_len
    with_message num_conn workers fds (negsuc n) = undefined

    abbrev pub start_test : ℕ → ℕ → List ℕ → Run (Option TestResult)
    unfolding with_message start_all
    start_test num_conn workers fds = do
      call os lock_start
      start_all workers 0
      with_message num_conn workers fds params.message_len

    abbrev pub with_spread : ℕ → ℕ → List ℕ → Bool → Run (Option TestResult)
    unfolding start_test
    with_spread num_conn workers fds false = pure none
    with_spread num_conn workers fds true = start_test num_conn workers fds

    abbrev pub with_selectors :
        ℕ → ℕ → List ℕ → Bool × List EPollRSelector → Run (Option TestResult)
    unfolding with_spread
    with_selectors num_conn workers fds (false, sels) = finally (pure none) (destroy_all sels)
    with_selectors num_conn workers fds (true, sels) =
        finally (do go ← spread os sels workers 0 fds; with_spread num_conn workers fds go)
          (destroy_all sels)

    -- The selectors; a division by 0 workers is undefined.
    abbrev pub with_room : ℕ → ℕ → List ℕ → Option ℕ → Run (Option TestResult)
    unfolding with_selectors
    with_room num_conn workers fds none = undefined
    with_room num_conn workers fds (some room) = do
      made ← make_selectors os workers room []
      with_selectors num_conn workers fds made

    -- After `connect_all`. Below 0 `tresults.resize` throws; `connect_all` does not return true then.
    abbrev pub with_count : ℕ → List ℕ → ℤ → Run (Option TestResult)
    unfolding with_room
    with_count worker_threads fds (negsuc n) = undefined
    with_count worker_threads fds (pos num_conn) =
        with_room num_conn (worker_count num_conn worker_threads) fds
          (max_sock_count num_conn (worker_count num_conn worker_threads))

    abbrev pub connected : ℕ → Bool × List ℕ → Run (Option TestResult)
    unfolding with_count
    connected worker_threads (false, fds) = finally (pure none) (close_all fds)
    connected worker_threads (true, fds) =
        finally (with_count worker_threads fds params.num_conn) (close_all fds)

    -- `addrs` is the number of client addresses, `last_ip - first_ip`.
    pub run_test : ℕ → ℕ → Run (Option TestResult)
    unfolding connected
    run_test worker_threads addrs = do
      r ← connect_all os addrs fuel params.num_conn 32
      connected worker_threads r
