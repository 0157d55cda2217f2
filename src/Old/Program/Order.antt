-- ===== src/Old/Program/Order.antt =====
-- The order of the calls of `run_test_th`.
use network_ping_test.Base.{
  ℕ, zero, suc, ◌<◌, ◌≡◌, ◌≢◌, refl, List, [], ◌∷◌, Option, none, some, Bool, true, false, arith,
  sym, ap, test_eq, test_ne, test_ne, test_eq, ap, sym,
}
use network_ping_test.Base.Int.{ℤ}
use network_ping_test.Os.{
  Os, Call, start_thread, join_thread, preparation_done, test_done, load_started, store_run,
  load_counter, usleep, done, Trace,
}
use network_ping_test.Os.Close.{close_all}
use network_ping_test.Client.{notify}
use network_ping_test.Old.{connect_all}
use network_ping_test.Old.Program.{
  stored_count, is_count, start_threads, wait_started, join_threads, store_counter, run_threads,
  with_sockets, run_test_th, notify,
}

-- A call for each of a list of descriptors, the last one newest.
abbrev pub each : (ℕ → Call) → List ℕ → Trace → Trace
each c [] t = t
each c (fd ∷ fds) t = each c fds (c fd ∷ t)

-- A callback, if it is given.
abbrev pub called : Bool → Call → Trace → Trace
called true c t = c ∷ t
called false c t = t

-- `k` rounds in which `started` was not `n` yet, from the trace `t` to `u`, and one in which it is.
abbrev pub Starts : Os → ℕ → ℕ → Trace → Trace → Type 0
Starts os n zero t u = ((os (load_started ∷ t)).value ≡ some n) × (u ≡ load_started ∷ t)
Starts os n (suc k) t u =
    ((os (load_started ∷ t)).value ≢ some n) × Starts os n k (usleep ∷ load_started ∷ t) u

start_threads-each :
    (os : Os) (fds : List ℕ) (t : Trace)
    → start_threads os fds t ≡ (done tt, each start_thread fds t)
unfolding start_threads
start_threads-each os [] t = refl
start_threads-each os (fd ∷ fds) t = start_threads-each os fds (start_thread fd ∷ t)

join_threads-each :
    (os : Os) (fds : List ℕ) (t : Trace) → join_threads os fds t ≡ (done tt, each join_thread fds t)
unfolding join_threads
join_threads-each os [] t = refl
join_threads-each os (fd ∷ fds) t = join_threads-each os fds (join_thread fd ∷ t)

not_count : (n : ℕ) (v : Option ℕ) → v ≢ some n → is_count n v ≡ false
not_count n none ne = refl
not_count n (some m) ne = test_ne m n (λ e. ne (ap some e))

wait_started-Starts :
    (os : Os) (n k fuel : ℕ) (t u : Trace)
    → Starts os n k t u
    → k < fuel
    → wait_started os fuel n t ≡ (done tt, u)
unfolding wait_started
wait_started-Starts os n zero zero t u s h = absurd (omega arith)
wait_started-Starts os n (suc k) zero t u s h = absurd (omega arith)
wait_started-Starts os n zero (suc fuel) t u (e, f) h =
    rw (e, test_eq n n refl) (λ i. (done tt, sym f i))
wait_started-Starts os n (suc k) (suc fuel) t u (ne, s) h =
    rw (not_count n (os (load_started ∷ t)).value ne)
      (wait_started-Starts os n k fuel (usleep ∷ load_started ∷ t) u s (omega arith))

-- What `run_test_th` returns and stores, and its last read.
abbrev pub Ending : Os → Bool → Trace → (ℕ × Option ℤ) × Trace
Ending os false t = ((0, none), t)
Ending os true t = ((0, some (stored_count (os (load_counter ∷ t)).value)), load_counter ∷ t)

notify-called :
    (os : Os) (b : Bool) (c : Call) (t : Trace) → notify os b c t ≡ (done tt, called b c t)
notify-called os true c t = refl
notify-called os false c t = refl

store_counter-Ending :
    (os : Os) (counted : Bool) (t : Trace)
    → store_counter os counted t ≡ (done (Ending os counted t).0, (Ending os counted t).1)
store_counter-Ending os true t = refl
store_counter-Ending os false t = refl

module _ (os : Os) (fuel n k : ℕ) (prepared finished counted : Bool) (fds : List ℕ)
    (u w : Trace) where
  -- The calls up to the last join, and the callback after it.
  abbrev pub worked : Trace
  worked =
      called finished test_done
        (each join_thread fds (store_run ∷ called prepared preparation_done w))

  run_threads-Ending :
      Starts os n k (each start_thread fds u) w
      → k < fuel
      → run_threads os fuel n prepared finished counted fds u
        ≡ (done (Ending os counted worked).0, (Ending os counted worked).1)
  unfolding run_threads
  run_threads-Ending s h =
      rw
        (
          start_threads-each os fds u,
          wait_started-Starts os n k fuel (each start_thread fds u) w s h,
          notify-called os prepared preparation_done w,
          join_threads-each os fds (store_run ∷ called prepared preparation_done w),
          notify-called os finished test_done
              (each join_thread fds (store_run ∷ called prepared preparation_done w)),
        )
        (store_counter-Ending os counted worked)

  -- Once `connect_all` has made the sockets `fds`, and k loads of `started` have not shown all threads
  -- and the next one has, more than k rounds are enough: `run_test_th` makes its calls in this order: a
  -- start for each socket, the loads with a sleep after each but the last, `preparation_done` if given,
  -- the store to `run_lola_run`, a join for each thread, `test_done` if given, the load of the counter if
  -- it is wanted, and a close of each socket. It returns 0 and stores that counter.
  pub run_test_th-Ending :
      (t : Trace)
      → connect_all os n false [] t ≡ (done (true, fds), u)
      → Starts os n k (each start_thread fds u) w
      → k < fuel
      → run_test_th os fuel n prepared finished counted t
        ≡ (done (Ending os counted worked).0, close_all fds (Ending os counted worked).1)
  unfolding run_test_th with_sockets
  run_test_th-Ending t e s h = rw (e, run_threads-Ending s h) refl
