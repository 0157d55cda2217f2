-- ===== src/Server/RunTest/Walk.antt =====
-- The main thread of a test, from its first write on, as a walk of the machine of Server/Barrier.
use network_ping_test.Base.{
  ℕ, zero, suc, ◌+◌, ◌≡◌, ◌≢◌, refl, ap, List, [], ◌∷◌, Option, none, some, Bool, true, false,
  is_some, test_eq, test_ne, ltb, ◌*◌, ◌^◌,
}
use network_ping_test.Base.Int.{ℤ, pos, negsuc}
use network_ping_test.Os.{
  Os, Call, Run, Outcome, done, more, fault, Trace, continue, pure, load_active, usleep,
  unlock_start, store_done, join_thread, ◌>>=◌, call,
}
use network_ping_test.Os.Runs.{if-both}
use network_ping_test.Os.Links.{Linked, Linked-bind, Linked-then}
use network_ping_test.Server.Barrier.{
  Main, sending, polling, unlocking, sleeping, stopping, joining, finished,
}
use network_ping_test.Server.Results.{WorkerResult}
use network_ping_test.Server.Protocol.{TestParams, TestResult}
use network_ping_test.Server.RunTest.{
  write_first, is_all, wait_active, is_count, sleep_while_active, sleep_for, run_workers,
  join_workers, conduct, unless, left_by_workers, gather_results, with_percentiles,
}
use network_ping_test.Server.Results.{percentiles, sort, collect_mps, merge}

-- The calls that join `n` threads, from the one of index `i` on.
abbrev pub joins : ℕ → ℕ → Trace → Trace
joins zero i t = t
joins (suc n) i t = joins n (i + 1) (join_thread i ∷ t)

with_percentiles-same :
    (m : ℕ × List (ℕ × ℕ)) (o : Option (List ℕ)) (t : Trace) → (with_percentiles m o t).1 ≡ t
with_percentiles-same (c, m) none t = refl
with_percentiles-same (c, m) (some ps) t = refl

-- `gather_results` makes no calls.
pub gather_results-same :
    (num_conn : ℕ) (rs : List WorkerResult) (t : Trace) → (gather_results num_conn rs t).1 ≡ t
unfolding gather_results
gather_results-same num_conn rs t =
    with_percentiles-same (merge rs 0 []) (percentiles num_conn (sort (collect_mps rs))) t

-- Where a test that returns ends.
abbrev pub ended : Option TestResult → Main
ended none = finished true
ended (some res) = finished false

module _ (os : Os) (n len : ℕ) where
  -- What main does next with `n` workers and messages of `len` bytes, where it stands, and the calls.
  pub data Move : Main → Trace → Main → Trace → Type 0 where
    wrote :
        {t : Trace} (sock : ℕ)
        → (os (Call.write sock len ∷ t)).value ≡ some len
        → Move sending t sending (Call.write sock len ∷ t)
    write_failed :
        {t : Trace} (sock : ℕ)
        → (os (Call.write sock len ∷ t)).value ≢ some len
        → Move sending t (stopping true) (Call.write sock len ∷ t)
    sent : {t : Trace} → Move sending t polling t
    not_yet :
        {t : Trace}
        → (os (load_active ∷ t)).value ≢ some n
        → Move polling t polling (usleep ∷ load_active ∷ t)
    all_active :
        {t : Trace}
        → (os (load_active ∷ t)).value ≡ some n
        → Move polling t unlocking (load_active ∷ t)
    release : {t : Trace} → Move unlocking t sleeping (unlock_start ∷ t)
    slept : {t : Trace} → Move sleeping t sleeping (load_active ∷ usleep ∷ t)
    woken : {t : Trace} → Move sleeping t (stopping false) t
    stop : {failed : Bool} {t : Trace} → Move (stopping failed) t (joining failed) (store_done ∷ t)
    joined : {failed : Bool} {t : Trace} → Move (joining failed) t (finished failed) (joins n 0 t)

  pub data Walk : Main → Trace → Main → Trace → Type 0 where
    stay : {p : Main} {t : Trace} → Walk p t p t
    step : {p q r : Main} {t u v : Trace} → Walk p t q u → Move q u r v → Walk p t r v

  Walk-join : (p q r : Main) (t u v : Trace) → Walk p t q u → Walk q u r v → Walk p t r v
  Walk-join p q r t u v w stay = w
  Walk-join p q r t u v w (step x m) = step (Walk-join p _ _ t _ _ w x) m

  one : (p q : Main) (t u : Trace) → Move p t q u → Walk p t q u
  one p q t u m = step stay m

  is_whole-no : (v : Option ℕ) → v ≢ some len → is_all os len v ≡ false
  is_whole-no none ne = refl
  is_whole-no (some m) ne = test_ne m len (λ e. ne (ap some e))

  -- Where main stands after the first writes.
  abbrev written : Bool → Main
  written true = stopping true
  written false = sending

  write_first-Walk :
      (fds : List ℕ) (t : Trace)
      → Linked Walk (λ failed. some (written failed)) sending t (write_first os len fds t)
  unfolding write_first
  write_first-Walk [] t = stay
  write_first-Walk (sock ∷ fds) t = elim (is_some (os (Call.write sock len ∷ t)).value len) [
    | yes e ↦
        rw (e, test_eq len len refl)
          (Linked-then Walk Walk-join (λ failed. some (written failed)) sending sending t
            (Call.write sock len ∷ t) _
            (one sending sending t (Call.write sock len ∷ t) (wrote sock e))
            (write_first-Walk fds (Call.write sock len ∷ t)))
    | no ne ↦
        rw (is_whole-no (os (Call.write sock len ∷ t)).value ne)
          (one sending (stopping true) t (Call.write sock len ∷ t) (write_failed sock ne))
  ]

  count-no : (v : Option ℕ) → v ≢ some n → is_count os n v ≡ false
  count-no none ne = refl
  count-no (some m) ne = test_ne m n (λ e. ne (ap some e))

  wait_active-Walk :
      (fuel : ℕ) (t : Trace) → Linked Walk (λ _. some unlocking) polling t (wait_active os fuel n t)
  unfolding wait_active
  wait_active-Walk zero t = tt
  wait_active-Walk (suc fuel) t = elim (is_some (os (load_active ∷ t)).value n) [
    | yes e ↦ rw (e, test_eq n n refl) (one polling unlocking t (load_active ∷ t) (all_active e))
    | no ne ↦ rw (count-no (os (load_active ∷ t)).value ne) (
        Linked-then Walk Walk-join (λ _. some unlocking) polling polling t
          (usleep ∷ load_active ∷ t) _
          (one polling polling t (usleep ∷ load_active ∷ t) (not_yet ne))
          (wait_active-Walk fuel (usleep ∷ load_active ∷ t)))
  ]

  -- The sleeps, from where main stands after `unlock`.
  abbrev Sleeps : Trace → Run (Unit {0}) → Type 0
  Sleeps t m = Linked Walk (λ _. some (stopping false)) sleeping t (m t)

  sleep_while_active-Walk :
      (k : ℕ) (t : Trace)
      → Linked Walk (λ _. some (stopping false)) sleeping t (sleep_while_active os k t)
  unfolding sleep_while_active
  sleep_while_active-Walk zero t = one sleeping (stopping false) t t woken
  sleep_while_active-Walk (suc k) t =
      Linked-then Walk Walk-join (λ _. some (stopping false)) sleeping sleeping t
        (load_active ∷ usleep ∷ t) _ (one sleeping sleeping t (load_active ∷ usleep ∷ t) slept)
        (if-both (Sleeps (load_active ∷ usleep ∷ t))
          (is_count os 0 (os (load_active ∷ usleep ∷ t)).value)
          (one sleeping (stopping false) (load_active ∷ usleep ∷ t) (load_active ∷ usleep ∷ t)
            woken)
          (sleep_while_active-Walk k (load_active ∷ usleep ∷ t)))

  sleep_for-Walk :
      (runtime : ℤ) (t : Trace)
      → Linked Walk (λ _. some (stopping false)) sleeping t (sleep_for os runtime t)
  unfolding sleep_for
  sleep_for-Walk (pos k) t =
      if-both (Sleeps t) (ltb (k * 10) (2 ^ 31)) (sleep_while_active-Walk (k * 10) t) tt
  sleep_for-Walk (negsuc k) t =
      if-both (Sleeps t) (ltb (k * 10 + 9) (2 ^ 31)) (one sleeping (stopping false) t t woken) tt

  run_workers-Walk :
      (fuel : ℕ) (runtime : ℤ) (failed : Bool) (t : Trace)
      → Linked Walk
          (λ _. some (stopping failed))
          (written failed)
          t
          (run_workers os fuel n runtime failed t)
  unfolding run_workers
  run_workers-Walk fuel runtime true t = stay
  run_workers-Walk fuel runtime false t =
      Linked-then Walk Walk-join (λ _. some (stopping false)) sending polling t t _
        (one sending polling t t sent)
        (Linked-bind Walk Walk-join (λ _. unlocking) (λ _. some (stopping false)) polling t
          (wait_active os fuel n t) _ (wait_active-Walk fuel t)
          (λ x u.
            Linked-then Walk Walk-join (λ _. some (stopping false)) unlocking sleeping u
              (unlock_start ∷ u) _ (one unlocking sleeping u (unlock_start ∷ u) release)
              (sleep_for-Walk runtime (unlock_start ∷ u))))

  pub join_workers-joins : (k i : ℕ) (t : Trace) → join_workers os k i t ≡ (done tt, joins k i t)
  unfolding join_workers
  join_workers-joins zero i t = refl
  join_workers-joins (suc k) i t = join_workers-joins k (i + 1) (join_thread i ∷ t)

  module _ (tresults : Trace → List WorkerResult) (fuel : ℕ) (params : TestParams) where
    gathered-Walk :
        (failed : Bool) (t : Trace) (r : Outcome TestResult)
        → Linked Walk
            (λ o. some (ended o))
            (finished failed)
            t
            (continue (λ res. pure (unless os failed res)) r t)
    gathered-Walk true t (done res) = stay
    gathered-Walk false t (done res) = stay
    gathered-Walk failed t more = tt
    gathered-Walk failed t fault = tt

    result-Walk :
        (num_conn : ℕ) (failed : Bool) (t : Trace)
        → Linked Walk
            (λ o. some (ended o))
            (finished failed)
            t
            ((left_by_workers os tresults fuel params >>= λ rs.
                gather_results num_conn rs >>= λ res. pure (unless os failed res))
              t)
    unfolding gather_results
    result-Walk num_conn failed t =
        let o : Option (List ℕ) = percentiles num_conn (sort (collect_mps (tresults t))) in
        rw (with_percentiles-same (merge (tresults t) 0 []) o t)
          (gathered-Walk failed t (with_percentiles (merge (tresults t) 0 []) o t).0)

    joined-Walk :
        (num_conn : ℕ) (failed : Bool) (t : Trace)
        → Linked Walk
            (λ o. some (ended o))
            (stopping failed)
            t
            ((call os store_done >>= λ _. join_workers os n 0 >>= λ _.
                left_by_workers os tresults fuel params >>= λ rs.
                gather_results num_conn rs >>= λ res. pure (unless os failed res))
              t)
    joined-Walk num_conn failed t = rw (join_workers-joins n 0 (store_done ∷ t)) (
        Linked-then Walk Walk-join (λ o. some (ended o)) (stopping failed) (finished failed) t
          (joins n 0 (store_done ∷ t)) _
          (step (one (stopping failed) (joining failed) t (store_done ∷ t) stop) joined)
          (result-Walk num_conn failed (joins n 0 (store_done ∷ t))))

    -- However the calls go: a test that returns has gone through its states in the order of the
    -- machine of the barrier, from its first write to the joins, and ends as a failure exactly if
    -- it has no result.
    pub conduct-Walk :
        (num_conn : ℕ) (fds : List ℕ) (t : Trace)
        → Linked Walk
            (λ o. some (ended o))
            sending
            t
            (conduct os tresults fuel params num_conn n fds len t)
    unfolding conduct
    conduct-Walk num_conn fds t =
        Linked-bind Walk Walk-join written (λ o. some (ended o)) sending t
          (write_first os len fds t) _ (write_first-Walk fds t)
          (λ failed u.
            Linked-bind Walk Walk-join (λ _. stopping failed) (λ o. some (ended o)) (written failed)
              u (run_workers os fuel n params.runtime failed u) _
              (run_workers-Walk fuel params.runtime failed u)
              (λ x v. joined-Walk num_conn failed v))
