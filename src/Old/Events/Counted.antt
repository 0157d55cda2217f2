-- ===== src/Old/Events/Counted.antt =====
-- The count of messages of the event loop.
use network_ping_test.Base.{
  ℕ, zero, suc, ◌+◌, refl, List, [], ◌∷◌, Option, none, some, Bool, true, false, arith,
  if◌then◌else◌, ◌==◌, ltb, ◌^◌, not, ◌||◌, ◌-◌,
}
use network_ping_test.Os.{Os, Trace, Run, continue, pure, ◌>>=◌, Event, undefined}
use network_ping_test.Selector.{RSelector}
use network_ping_test.Client.{has, pollin, pollerr, pollhup, pollnval}
use network_ping_test.Old.{process_message}
use network_ping_test.Old.Events.{
  Progress, echo, handle, release, dispatch, serve, waited, main_loop, add_all,
}
use network_ping_test.Os.Runs.{if-both}
use network_ping_test.Old.Echoes.{
  unit_of, Silent, Tally, Tally-bind, Tally-same, process_message-Tally,
}

abbrev count : Bool × ℕ → ℕ
count (close_sock, counter) = counter

abbrev count_of : Bool × ℕ → Option ℕ
count_of h = some (count h)

module _ (os : Os) (msize : ℕ) where
  echo-Tally :
      (b : Bool) (c : ℕ) (t : Trace)
      → Tally os msize count_of (unit_of b + c) t (echo os msize b c t)
  echo-Tally false c t = omega arith
  echo-Tally true c t =
      if-both
        (λ m. Tally os msize count_of (1 + c) t (continue (λ k. pure (false, k)) (m t).0 (m t).1))
        (ltb (c + 1) (2 ^ 31)) {x = pure (c + 1)} {y = undefined} (omega arith) tt

  by_test :
      (c : ℕ) (t : Trace) (b : Bool) (m k : Run (Bool × ℕ))
      → Tally os msize count_of c t (m t)
      → Tally os msize count_of c t (k t)
      → Tally os msize count_of c t ((if b then m else k) t)
  by_test c t true m k hm hk = hm
  by_test c t false m k hm hk = hk

  ping-Tally :
      (c : ℕ) (e : Event) (t : Trace)
      → Tally os msize count_of c t
          ((process_message os e.fd msize >>= λ kept. echo os msize kept c) t)
  ping-Tally c e t =
      Tally-bind os msize (λ b. unit_of b + c) count_of c t (process_message os e.fd msize t)
        (λ kept. echo os msize kept c) (process_message-Tally os msize e.fd c t)
        (λ b u. echo-Tally b c u)

  handle-Tally :
      (c : ℕ) (e : Event) (t : Trace) → Tally os msize count_of c t (handle os msize c e t)
  unfolding handle
  handle-Tally c e t =
      by_test c t (has e.flags pollhup || has e.flags pollerr) (pure (true, c)) _ refl (
        by_test c t (has e.flags pollnval) (pure (true, c)) _ refl (
          by_test c t (has e.flags pollin) _ (pure (not (e.flags == 0), c)) (ping-Tally c e t)
            refl))

module _ {S : Type 0} (sel : RSelector S) (silent : Silent sel) (os : Os) (msize : ℕ) where
  release-Tally :
      (h : Bool × ℕ) (left : ℕ) (s : S) (t : Trace)
      → Tally os msize (λ r. some r.0.counter) (count h) t (release sel os msize h left s t)
  release-Tally (false, c) left s t = refl
  release-Tally (true, c) left s t =
      Tally-bind os msize (λ _. c) (λ r. some r.0.counter) c t (sel.remove_current_ready os s t)
        (λ s'. pure (record { counter = c; fd_left = left - 1 }, s'))
        (Tally-same os msize c t _ (silent.removes os msize s t)) (λ s' u. refl)

  dispatch-Tally :
      (again : Progress → S → Run (Progress × S)) (p : Progress) (r : Option Event × S) (u : Trace)
      → ((q : Progress) (s : S) (v : Trace)
          → Tally os msize (λ w. some w.0.counter) q.counter v (again q s v))
      → Tally os msize (λ w. some w.0.counter) p.counter u (dispatch sel os msize again p r u)
  dispatch-Tally again p (none, s) u ih = refl
  dispatch-Tally again p (some e, s) u ih =
      Tally-bind os msize count (λ q. some q.0.counter) p.counter u (handle os msize p.counter e u)
        _ (handle-Tally os msize p.counter e u)
        (λ h v.
          Tally-bind os msize (λ q. q.0.counter) (λ q. some q.0.counter) (count h) v
            (release sel os msize h p.fd_left s v) _ (release-Tally h p.fd_left s v)
            (λ q w. ih q.0 q.1 w))

  serve-Tally :
      (fuel : ℕ) (p : Progress) (s : S) (t : Trace)
      → Tally os msize (λ r. some r.0.counter) p.counter t (serve sel os msize fuel p s t)
  unfolding serve
  serve-Tally zero p s t = tt
  serve-Tally (suc fuel) p s t =
      Tally-bind os msize (λ _. p.counter) (λ r. some r.0.counter) p.counter t (sel.next s t)
        (dispatch sel os msize (serve sel os msize fuel) p)
        (Tally-same os msize p.counter t (sel.next s t) (silent.nexts os msize s t))
        (λ r u. dispatch-Tally (serve sel os msize fuel) p r u (serve-Tally fuel))

  waited-Tally :
      (again : Progress → S → Run (Option ℕ × S)) (fuel : ℕ) (p : Progress) (r : Bool × S)
      (u : Trace)
      → ((q : Progress) (s : S) (v : Trace) → Tally os msize (λ w. w.0) q.counter v (again q s v))
      → Tally os msize (λ w. w.0) p.counter u (waited sel os msize again fuel p r u)
  unfolding waited
  waited-Tally again fuel p (false, s) u ih = tt
  waited-Tally again fuel p (true, s) u ih =
      Tally-bind os msize (λ q. q.0.counter) (λ q. q.0) p.counter u (serve sel os msize fuel p s u)
        _ (serve-Tally fuel p s u) (λ q w. ih q.0 q.1 w)

  pub main_loop-Tally :
      (fuel : ℕ) (p : Progress) (s : S) (t : Trace)
      → Tally os msize (λ r. r.0) p.counter t (main_loop sel os msize fuel p s t)
  unfolding main_loop
  main_loop-Tally zero p s t = tt
  main_loop-Tally (suc fuel) p s t =
      if-both (λ m. Tally os msize (λ r. r.0) p.counter t (m t)) (p.fd_left == 0)
        {x = pure (some p.counter, s)}
        {y = sel.wait os fuel s >>= waited sel os msize (main_loop sel os msize fuel) fuel p} refl
        (Tally-bind os msize (λ _. p.counter) (λ r. r.0) p.counter t (sel.wait os fuel s t)
          (waited sel os msize (main_loop sel os msize fuel) fuel p)
          (Tally-same os msize p.counter t (sel.wait os fuel s t) (silent.waits os msize fuel s t))
          (λ r u. waited-Tally (main_loop sel os msize fuel) fuel p r u (main_loop-Tally fuel)))

  pub add_all-Tally :
      (fds : List ℕ) (c : ℕ) (s : S) (t : Trace)
      → Tally os msize (λ _. some c) c t (add_all sel os msize fds s t)
  unfolding add_all
  add_all-Tally [] c s t = refl
  add_all-Tally (fd ∷ fds) c s t =
      Tally-bind os msize (λ _. c) (λ _. some c) c t (sel.add_fd os fd s t) _
        (Tally-same os msize c t (sel.add_fd os fd s t) (silent.adds os msize fd s t))
        (λ x u.
          if-both {A = Run (Bool × S)} (λ m. Tally os msize (λ _. some c) c u (m u)) x.0
            (add_all-Tally fds c x.1 u) refl)
