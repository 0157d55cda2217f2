-- ===== src/Old/Events/Stored.antt =====
-- What `run_test` stores in `*msg_processed`, and both selectors as clients of it.
use network_ping_test.Base.{
  ℕ, zero, suc, ◌+◌, ◌≡◌, refl, List, [], ◌∷◌, Option, none, some, Bool, true, false, arith,
}
use network_ping_test.Os.{
  Os, Outcome, done, more, fault, Trace, Run, continue, preparation_done, test_done,
}
use network_ping_test.Os.Links.{Related-then}
use network_ping_test.Os.Close.{close_all}
use network_ping_test.Selector.{RSelector}
use network_ping_test.Old.{connect_all}
use network_ping_test.Old.Echoes.{
  echoes, Silent, Grown, Grows, Grows-join, Tally, connect_all-Tally, echoes-close_all,
}
use network_ping_test.Old.Events.{
  RunResult, store, conclude, start, run_connected, after_connect, run_test, main_loop, add_all,
}
use network_ping_test.Old.Events.Counted.{main_loop-Tally, add_all-Tally}

-- How a run ends that began at the trace `t`: with 0 and, if the pointer was given, the number of messages
-- echoed since; or with 1 and nothing stored.
abbrev pub Stored : {S : Type 0} → Os → ℕ → Bool → Trace → Outcome (RunResult × S) × Trace → Type 0
Stored os msize counted t (done ((zero, some v), s), u) =
    (counted ≡ true) × (v + echoes os msize t ≡ echoes os msize u)
Stored os msize counted t (done ((zero, none), s), u) = counted ≡ false
Stored os msize counted t (done ((suc k, some v), s), u) = ⊥
Stored os msize counted t (done ((suc k, none), s), u) = k ≡ 0
Stored os msize counted t (more, u) = Unit
Stored os msize counted t (fault, u) = Unit

module _ {S : Type 0} (sel : RSelector S) (os : Os) (msize c : ℕ) (s : S) (t : Trace) where
  store-Stored :
      (counted : Bool) (u : Trace)
      → Grown os msize (some c) 0 t u
      → Stored os msize counted t (done ((0, store sel os msize counted c), s), u)
  store-Stored true u g = (refl, omega arith)
  store-Stored false u g = refl

  concluded-Stored :
      (finished counted : Bool) (u : Trace)
      → Grown os msize (some c) 0 t u
      → Stored os msize counted t (conclude sel os msize finished counted (some c, s) u)
  unfolding echoes
  concluded-Stored true counted u g = store-Stored counted (test_done ∷ u) g
  concluded-Stored false counted u g = store-Stored counted u g

module _ {S : Type 0} (sel : RSelector S) (silent : Silent sel) (os : Os) (msize : ℕ)
    (counted : Bool) where
  -- A run that does not end with a result, or leads to one.
  Stored-bind :
      {A : Type 0} (va : A → Option ℕ) (c : ℕ) (t u : Trace) (r : Outcome A × Trace)
      (f : A → Run (RunResult × S))
      → Tally os msize va c u r
      → ((a : A) (v : Trace) → Grown os msize (va a) c u v → Stored os msize counted t (f a v))
      → Stored os msize counted t (continue f r.0 r.1)
  Stored-bind va c t u (done a, v) f g h = h a v g
  Stored-bind va c t u (more, v) f g h = tt
  Stored-bind va c t u (fault, v) f g h = tt

  conclude-Stored :
      (finished : Bool) (o : Option ℕ) (s : S) (t u : Trace)
      → Grown os msize o 0 t u
      → Stored os msize counted t (conclude sel os msize finished counted (o, s) u)
  conclude-Stored finished none s t u g = refl
  conclude-Stored finished (some c) s t u g =
      concluded-Stored sel os msize c s t finished counted u g

  start-Stored :
      (fuel n : ℕ) (finished : Bool) (x : Bool × S) (t u : Trace)
      → echoes os msize u ≡ echoes os msize t
      → Stored os msize counted t (start sel os msize fuel n finished counted x u)
  unfolding start
  start-Stored fuel n finished (false, s) t u e = refl
  start-Stored fuel n finished (true, s) t u e =
      Stored-bind (λ q. q.0) 0 t u (main_loop sel os msize fuel _ s u) _
        (main_loop-Tally sel silent os msize fuel _ s u)
        (λ q v g.
          conclude-Stored finished q.0 q.1 t v
            (Related-then (Grows os msize) (Grows-join os msize) q.0 0 0 t u v (omega arith) g))

  run_connected-Stored :
      (fuel n : ℕ) (prepared finished : Bool) (fds : List ℕ) (s : S) (t u : Trace)
      → echoes os msize u ≡ echoes os msize t
      → Stored os msize counted t
          (run_connected sel os msize fuel n prepared finished counted fds s u)
  unfolding run_connected echoes
  run_connected-Stored fuel n true finished fds s t u e =
      let v : Trace = preparation_done ∷ u in
      Stored-bind (λ _. some 0) 0 t v (add_all sel os msize fds s v) _
        (add_all-Tally sel silent os msize fds 0 s v)
        (λ x w g. start-Stored fuel n finished x t w (omega arith))
  run_connected-Stored fuel n false finished fds s t u e =
      Stored-bind (λ _. some 0) 0 t u (add_all sel os msize fds s u) _
        (add_all-Tally sel silent os msize fds 0 s u)
        (λ x w g. start-Stored fuel n finished x t w (omega arith))

  -- The closes at the end write nothing.
  finally-Stored :
      (fds : List ℕ) (t : Trace) (r : Outcome (RunResult × S) × Trace)
      → Stored os msize counted t r
      → Stored os msize counted t (r.0, close_all fds r.1)
  finally-Stored fds t (done ((zero, some v), s), u) (e, h) =
      (e, omega (arith, echoes-close_all os msize fds u))
  finally-Stored fds t (done ((zero, none), s), u) h = h
  finally-Stored fds t (done ((suc k, some v), s), u) h = h
  finally-Stored fds t (done ((suc k, none), s), u) h = h
  finally-Stored fds t (more, u) h = h
  finally-Stored fds t (fault, u) h = h

  after_connect-Stored :
      (fuel n : ℕ) (prepared finished : Bool) (s : S) (x : Bool × List ℕ) (t u : Trace)
      → echoes os msize u ≡ echoes os msize t
      → Stored os msize counted t
          (after_connect sel os msize fuel n prepared finished counted s x u)
  after_connect-Stored fuel n prepared finished s (false, fds) t u e = refl
  after_connect-Stored fuel n prepared finished s (true, fds) t u e =
      finally-Stored fds t (run_connected sel os msize fuel n prepared finished counted fds s u)
        (run_connected-Stored fuel n prepared finished fds s t u e)

  -- With a selector that writes to no socket, `run_test` ends in one of two ways, if it ends: it returns
  -- 0 and stores, if the pointer was given, exactly the number of messages of `msize` bytes that were
  -- written whole since it began; or it returns 1 and stores nothing.
  pub run_test-Stored :
      (fuel n : ℕ) (prepared finished : Bool) (s : S) (t : Trace)
      → Stored os msize counted t (run_test sel os msize fuel n prepared finished counted s t)
  unfolding run_test
  run_test-Stored fuel n prepared finished s t =
      Stored-bind (λ _. some 0) 0 t t (connect_all os n true [] t) _
        (connect_all-Tally os msize true n 0 [] t)
        (λ x u g. after_connect-Stored fuel n prepared finished s x t u (omega arith))
