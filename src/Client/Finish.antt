-- ===== src/Client/Finish.antt =====
-- How `run_test` ends.
use network_ping_test.Base.{ℕ, zero, suc, ◌≡◌, refl, List, [], ◌∷◌, Bool, true, false, none}
use network_ping_test.Os.{Os, Outcome, done, more, fault, Trace, test_done, preparation_done}
use network_ping_test.Os.Close.{close_all}
use network_ping_test.Os.Runs.{continue-all}
use network_ping_test.Selector.{RSelector}
use network_ping_test.Client.{
  wait_for_conn, run_test, run_connected, start, conclude, add_all, main_loop, continue,
}

-- What a run over the accepted sockets may return: 0, with `test_done` as its last call, or 1.
abbrev pub Ends : {S : Type 0} → Bool → Outcome (ℕ × S) × Trace → Type 0
Ends true (done (zero, s), t) = (u : Trace) × (t ≡ test_done ∷ u)
Ends false (done (zero, s), t) = Unit
Ends finished (done (suc code, s), t) = code ≡ 0
Ends finished (more, t) = Unit
Ends finished (fault, t) = Unit

module _ {S : Type 0} (sel : RSelector S) (os : Os) (msize fuel th_count : ℕ)
    (prepared : Bool) where
  conclude-Ends :
      (finished : Bool) (u : Trace) (x : Bool × S)
      → Ends finished (conclude sel os msize finished x u)
  conclude-Ends true u (true, s) = (u, refl)
  conclude-Ends false u (true, s) = tt
  conclude-Ends true u (false, s) = refl
  conclude-Ends false u (false, s) = refl

  served-Ends :
      (finished : Bool) (s : S) (u : Trace)
      → Ends finished (
          continue
            (conclude sel os msize finished)
            (main_loop sel os msize fuel th_count s u).0
            (main_loop sel os msize fuel th_count s u).1)
  served-Ends finished s u =
      continue-all (Ends finished) (conclude sel os msize finished)
        (main_loop sel os msize fuel th_count s u).0 (main_loop sel os msize fuel th_count s u).1
        (λ _. tt) (λ _. tt) (conclude-Ends finished (main_loop sel os msize fuel th_count s u).1)

  start-Ends :
      (begin finished : Bool) (x : Bool × S) (u : Trace)
      → Ends finished (start sel os msize fuel th_count begin finished x u)
  start-Ends true finished (true, s) u = served-Ends finished s (preparation_done ∷ u)
  start-Ends false finished (true, s) u = served-Ends finished s u
  start-Ends begin finished (false, s) u = refl

  run_connected-Ends :
      (finished : Bool) (fds : List ℕ) (s : S) (t : Trace)
      → Ends finished (run_connected sel os msize fuel th_count prepared finished fds s t)
  unfolding run_connected
  run_connected-Ends finished fds s t =
      continue-all (Ends finished) (start sel os msize fuel th_count prepared finished)
        (add_all sel os msize fds s t).0 (add_all sel os msize fds s t).1 (λ _. tt) (λ _. tt)
        (λ x. start-Ends prepared finished x (add_all sel os msize fds s t).1)

-- The same after `wait_for_conn`: if that failed, at the trace `u`, the run returns 1 at once.
abbrev pub EndsAfter : {S : Type 0} → Bool → Bool → S → Trace → Outcome (ℕ × S) × Trace → Type 0
EndsAfter true finished s u r = Ends finished r
EndsAfter false finished s u r = r ≡ (done (1, s), u)

-- Whatever the selector and the system do, once `wait_for_conn` has returned with the sockets `fds`,
-- `run_test` ends with a close of each of them, in order. If it returns, it returns 0 or 1; 0 only if
-- `wait_for_conn` returned true, and with `test_done`, if given, as the last call before the closes.
-- If `wait_for_conn` returned false it returns 1 and makes no other call.
pub run_test_lem :
    {S : Type 0} (sel : RSelector S) (os : Os) (msize fuel port n queue : ℕ)
    (announce prepared finished : Bool) (s : S) (t : Trace) (accepted : Bool) (fds : List ℕ)
    (u : Trace)
    → wait_for_conn os n [] port queue announce none false t ≡ (done (accepted, fds), u)
    → (v : Trace) × ((run_test sel os msize fuel port n queue announce prepared finished s t).1
        ≡ close_all fds v)
      × EndsAfter accepted finished s u
          ((run_test sel os msize fuel port n queue announce prepared finished s t).0, v)
unfolding run_test
run_test_lem sel os msize fuel port n queue announce prepared finished s t true fds u e = rw e (
  (run_connected sel os msize fuel n prepared finished fds s u).1,
  refl,
  run_connected-Ends sel os msize fuel n prepared finished fds s u,
)
run_test_lem sel os msize fuel port n queue announce prepared finished s t false fds u e =
    rw e (u, refl, refl)
