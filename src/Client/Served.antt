-- ===== src/Client/Served.antt =====
-- The event loop of `run_test` over `PollRSelector`: what it watches and what it counts.
pub mod Outcomes
use network_ping_test.Base.{
  inl, inr, ℕ, zero, suc, ◌+◌, ◌-◌, ◌≡◌, refl, ap, List, [], ◌∷◌, ◌++◌, Option, none, some, length,
  take, arith, Bool, true, false, ◌||◌, not,
}
use network_ping_test.Os.{Os, Event, poll, Trace, Outcome, done, more, fault, Run, continue, pure}
use network_ping_test.Os.Runs.{IsDone, continue-done, if-both}
use network_ping_test.Selector.Poll.{PollRSelector, poll_selector, next, wait}
use network_ping_test.Selector.Poll.Valid.{IsValid, watched, polled, wait_lem}
use network_ping_test.Selector.Poll.Removed.{Found, next-Found, next-remove_current_ready, Without}
use network_ping_test.Client.{
  close_sock, process_message, release, dispatch, serve, main_loop, has, pollhup, pollerr, pollnval,
  pollin,
}
use network_ping_test.Client.Ping.{process_message_lem}

-- A valid selector that watches `missing` descriptors less than the loop still counts.
abbrev pub Balanced : ℕ → ℕ → PollRSelector → Type 0
Balanced missing fd_left s = IsValid s × (length (watched s) + missing ≡ fd_left)

abbrev pub Serves : ℕ → Outcome (ℕ × PollRSelector) × Trace → Type 0
Serves missing (done (fd_left, s), t) = Balanced missing fd_left s
Serves missing (more, t) = Unit
Serves missing (fault, t) = ⊥

length-Without : (d : ℕ) (xs ys : List ℕ) → Without d xs ys → length xs ≡ suc (length ys)
length-Without d xs ys (l, r, p, q) = rw (p, q) (length-middle l)
  where
    length-middle : (zs : List ℕ) → length (zs ++ d ∷ r) ≡ suc (length (zs ++ r))
    length-middle [] = refl
    length-middle (z ∷ zs) = ap suc (length-middle zs)

process_message-IsDone : (os : Os) (fd n : ℕ) (t : Trace) → IsDone (process_message os fd n t).0
process_message-IsDone os fd n t = elim (process_message_lem os fd n t) [
  | inl (_, e) ↦ rw e tt
  | inr (inl (_, _, e)) ↦ rw e tt
  | inr (inr (_, e)) ↦ rw e tt
]

close_sock-IsDone :
    (os : Os) (msize : ℕ) (e : Event) (t : Trace) → IsDone (close_sock os msize e t).0
unfolding close_sock
close_sock-IsDone os msize e t = if-both Ends (has e.flags pollhup || has e.flags pollerr) tt (
    if-both Ends (has e.flags pollnval) tt (
      if-both Ends (has e.flags pollin)
        (continue-done (λ r. IsDone r.0) (λ kept. pure (not kept))
          (process_message os e.fd msize t).0 (process_message os e.fd msize t).1
          (process_message-IsDone os e.fd msize t) (λ _. tt))
        tt))
  where
    Ends : Run Bool → Type 0
    Ends m = IsDone (m t).0

module _ (os : Os) (msize missing : ℕ) where
  release-Serves :
      (again : ℕ → PollRSelector → Run (ℕ × PollRSelector)) (close : Bool) (left : ℕ)
      (s s' : PollRSelector) (e : Event) (t : Trace)
      → Balanced missing left s
      → next s ≡ (some e, s')
      → ((left' : ℕ) (r : PollRSelector) (u : Trace)
          → Balanced missing left' r
          → Serves missing (again left' r u))
      → Serves missing (
          continue
            (λ p. again p.0 p.1)
            (release poll_selector os msize close left s' t).0
            (release poll_selector os msize close left s' t).1)
  release-Serves again false left s s' e t (v, b) q h =
      let f : Found s (some e, s') = rw q at (next-Found s v) in h left s' t (f.0, rw (f.1) b)
  release-Serves again true left s s' e t (v, b) q h =
      let (r, eq, ok, w) = next-remove_current_ready s s' e t v q in
      rw eq (h (left - 1) r t (ok, omega (arith, length-Without e.fd (watched s) (watched r) w, b)))

  serve-Serves :
      (fuel left : ℕ) (s : PollRSelector) (t : Trace)
      → Balanced missing left s
      → Serves missing (serve poll_selector os msize fuel left s t)
  unfolding serve
  serve-Serves zero left s t b = tt
  serve-Serves (suc fuel) left s t b = by_next (next s) refl (serve-Serves fuel)
    where
      by_next :
          (r : Option Event × PollRSelector)
          → next s ≡ r
          → ((left' : ℕ) (s' : PollRSelector) (u : Trace)
              → Balanced missing left' s'
              → Serves missing (serve poll_selector os msize fuel left' s' u))
          → Serves missing
              (dispatch poll_selector os msize (serve poll_selector os msize fuel) left r t)
      by_next (none, s') q h =
          let f : Found s (none, s') = rw q at (next-Found s (b.0)) in (f.0, rw (f.1) (b.1))
      by_next (some e, s') q h =
          continue-done (Serves missing) _ (close_sock os msize e t).0 (close_sock os msize e t).1
            (close_sock-IsDone os msize e t)
            (λ close.
              release-Serves (serve poll_selector os msize fuel) close left s s' e
                (close_sock os msize e t).1 b q h)

  abbrev pub LoopEnds : Outcome (Bool × PollRSelector) × Trace → Type 0
  LoopEnds (done (true, s), t) = (missing ≡ 0) × (watched s ≡ [])
  LoopEnds (done (false, s), t) = Unit
  LoopEnds (more, t) = Unit
  LoopEnds (fault, t) = ⊥

  then_loop :
      (fuel : ℕ) (o : Outcome (ℕ × PollRSelector)) (t : Trace)
      → Serves missing (o, t)
      → ((left : ℕ) (s : PollRSelector) (u : Trace)
          → Balanced missing left s
          → LoopEnds (main_loop poll_selector os msize fuel left s u))
      → LoopEnds (continue (λ p. main_loop poll_selector os msize fuel p.0 p.1) o t)
  then_loop fuel (done (left, s)) t b h = h left s t b
  then_loop fuel more t b h = tt
  then_loop fuel fault t b h = b

  none_left :
      (s : PollRSelector) → length (watched s) + missing ≡ 0 → (missing ≡ 0) × (watched s ≡ [])
  none_left s b = (omega (arith, b), by_length (watched s) (omega (arith, b)))
    where
      by_length : (xs : List ℕ) → length xs ≡ 0 → xs ≡ []
      by_length [] e = refl
      by_length (x ∷ xs) e = absurd (omega (arith, e))

  pub main_loop-LoopEnds :
      (fuel left : ℕ) (s : PollRSelector) (t : Trace)
      → Balanced missing left s
      → LoopEnds (main_loop poll_selector os msize fuel left s t)
  unfolding main_loop wait
  main_loop-LoopEnds zero left s t b = tt
  main_loop-LoopEnds (suc fuel) zero s t b = none_left s b.1
  main_loop-LoopEnds (suc fuel) (suc left) s t b =
      by_poll (os (poll (take s.current_free s.fds) ∷ t)).value refl (main_loop-LoopEnds fuel)
    where
      by_poll :
          (v : Option ℕ)
          → (os (poll (take s.current_free s.fds) ∷ t)).value ≡ v
          → ((left' : ℕ) (s' : PollRSelector) (u : Trace)
              → Balanced missing left' s'
              → LoopEnds (main_loop poll_selector os msize fuel left' s' u))
          → LoopEnds (main_loop poll_selector os msize (suc fuel) (suc left) s t)
      by_poll none e h = rw e tt
      by_poll (some n) e h =
          let (w, ok, same, loop) = wait_lem os s t n (b.0) e in
          let s' : PollRSelector = polled s (os (poll (take s.current_free s.fds) ∷ t)).revents in
          let u : Trace = poll (take s.current_free s.fds) ∷ t in
          rw e (
            then_loop fuel (serve poll_selector os msize fuel (suc left) s' u).0
              (serve poll_selector os msize fuel (suc left) s' u).1
              (serve-Serves fuel (suc left) s' u (ok, rw same (b.1))) h)
