-- ===== src/Client/Served/Outcomes.antt =====
-- How `run_test` over `PollRSelector` ends.
use mathlib.Core.List.{append-nil, append_assoc}
use network_ping_test.Base.{
  inl, inr, ℕ, zero, suc, ◌+◌, ◌-◌, ◌≤◌, ◌≡◌, refl, ap, sym, ◌∙◌, List, [], ◌∷◌, ◌++◌, Option, none,
  some, length, take, arith, ◌==◌, Bool-cases, Bool, true, false,
}
use network_ping_test.Os.{Os, PollFd, preparation_done, Trace, Outcome, done, more, fault, continue}
use network_ping_test.Selector.Poll.{
  PollRSelector, poll_selector, construct, add_fd, watch, cleared,
}
use network_ping_test.Selector.Poll.Valid.{
  IsValid, watched, fds_of, fd_list, construct-IsValid, add_fd-watched, length-modify,
}
use network_ping_test.Client.{
  main_loop, add_all, run_connected, start, conclude, run_test, wait_for_conn,
}
use network_ping_test.Client.Served.{LoopEnds, main_loop-LoopEnds}
use network_ping_test.Base.{length-replicate}

-- After `add_all` of `fds` the selector watches them too.
abbrev pub Added : List ℕ → PollRSelector → Outcome (Bool × PollRSelector) × Trace → Type 0
Added fds s (done (true, s'), t) =
    IsValid s' × (watched s' ≡ watched s ++ fds) × (length s'.fds ≡ length s.fds)
Added fds s (done (false, s'), t) = Unit
Added fds s (more, t) = ⊥
Added fds s (fault, t) = ⊥

length-add_fd : (d : ℕ) (s : PollRSelector) → length (add_fd d s).1.fds ≡ length s.fds
unfolding add_fd
length-add_fd d s = elim (Bool-cases (s.current_free == length s.fds)) [
  | inl e ↦ rw e refl
  | inr e ↦ rw e (length-modify s.fds s.current_free (watch d))
]

module _ (os : Os) (msize : ℕ) where
  Added-cons :
      (fd : ℕ) (fds : List ℕ) (s s' : PollRSelector) (r : Outcome (Bool × PollRSelector) × Trace)
      → watched s' ≡ watched s ++ fd ∷ []
      → length s'.fds ≡ length s.fds
      → Added fds s' r
      → Added (fd ∷ fds) s r
  Added-cons fd fds s s' (done (true, s''), t) w l (v, x, k) =
      (v, rw (x, w) (append_assoc (watched s) (fd ∷ []) fds), k ∙ l)
  Added-cons fd fds s s' (done (false, s''), t) w l a = tt
  Added-cons fd fds s s' (more, t) w l a = a
  Added-cons fd fds s s' (fault, t) w l a = a

  add_all-Added :
      (fds : List ℕ) (s : PollRSelector) (t : Trace)
      → IsValid s
      → Added fds s (add_all poll_selector os msize fds s t)
  unfolding add_all
  add_all-Added [] s t v = (v, sym (append-nil (watched s)), refl)
  add_all-Added (fd ∷ fds) s t v = elim ((add_fd-watched fd s v).1) [
    | inl (full, e) ↦ rw e tt
    | inr (room, e, w) ↦ rw e (
        Added-cons fd fds s (add_fd fd s).1 _ w (length-add_fd fd s)
          (add_all-Added fds (add_fd fd s).1 t (add_fd-watched fd s v).0))
  ]

-- What `run_test` for `n` connections may end with, after `fds` were accepted.
abbrev pub Served : ℕ → List ℕ → Outcome (ℕ × PollRSelector) → Type 0
Served n fds (done (zero, s)) = (length fds ≡ n) × (watched s ≡ [])
Served n fds (done (suc code, s)) = Unit
Served n fds more = Unit
Served n fds fault = ⊥

length-fds_of : (k : ℕ) (ps : List PollFd) → length (fds_of (take k ps)) ≤ k
length-fds_of zero ps = omega arith
length-fds_of (suc k) [] = omega arith
length-fds_of (suc k) (p ∷ ps) = by_fd p.fd (length-fds_of k ps)
  where
    by_fd :
        (o : Option ℕ)
        → length (fds_of (take k ps)) ≤ k
        → length (fd_list o (fds_of (take k ps))) ≤ suc k
    by_fd none h = omega arith
    by_fd (some d) h = omega arith

length-construct : (n : ℕ) → length (construct n).fds ≡ n
unfolding construct
length-construct n = length-replicate n cleared

module _ (os : Os) (msize n : ℕ) (fds : List ℕ) where
  conclude-Served :
      (finished : Bool) (missing : ℕ) (r : Outcome (Bool × PollRSelector) × Trace)
      → length fds + missing ≡ n
      → LoopEnds os msize missing r
      → Served n fds (continue (conclude poll_selector os msize finished) r.0 r.1).0
  conclude-Served true missing (done (true, s), t) e (z, w) = (omega (arith, e, z), w)
  conclude-Served false missing (done (true, s), t) e (z, w) = (omega (arith, e, z), w)
  conclude-Served finished missing (done (false, s), t) e h = tt
  conclude-Served finished missing (more, t) e h = tt
  conclude-Served finished missing (fault, t) e h = h

  looped-Served :
      (fuel : ℕ) (finished : Bool) (s : PollRSelector) (t : Trace)
      → IsValid s
      → watched s ≡ fds
      → length s.fds ≡ n
      → Served n fds
          (continue
            (conclude poll_selector os msize finished)
            (main_loop poll_selector os msize fuel n s t).0
            (main_loop poll_selector os msize fuel n s t).1).0
  looped-Served fuel finished s t v w l =
      let h : length fds ≤ s.current_free = rw w at (length-fds_of s.current_free s.fds) in
      let room : length fds ≤ n = omega (arith, h, v.free_in, l) in
      conclude-Served finished (n - length fds) (main_loop poll_selector os msize fuel n s t)
        (omega (arith, room))
        (main_loop-LoopEnds os msize (n - length fds) fuel n s t (v, rw w (omega (arith, room))))

  start-Served :
      (fuel : ℕ) (prepared finished : Bool) (x : Outcome (Bool × PollRSelector) × Trace)
      → Added fds (construct n) x
      → Served n fds (continue (start poll_selector os msize fuel n prepared finished) x.0 x.1).0
  start-Served fuel prepared finished (done (false, s), t) a = tt
  start-Served fuel true finished (done (true, s), t) (v, w, l) =
      looped-Served fuel finished s (preparation_done ∷ t) v
        (w ∙ ap (λ x. x ++ fds) (construct-IsValid n).1) (l ∙ length-construct n)
  start-Served fuel false finished (done (true, s), t) (v, w, l) =
      looped-Served fuel finished s t v (w ∙ ap (λ x. x ++ fds) (construct-IsValid n).1)
        (l ∙ length-construct n)
  start-Served fuel prepared finished (more, t) a = absurd a
  start-Served fuel prepared finished (fault, t) a = a

-- With a `PollRSelector`, once `wait_for_conn` has returned true with the sockets `fds`: `run_test`
-- has no undefined behaviour, and if it returns 0 there were as many sockets as were asked for, and
-- each has been removed from the selector. So after a `bind` that failed, which leaves no socket,
-- `run_test` never returns 0 unless 0 were asked for.
pub run_test-Served :
    (os : Os) (msize fuel port n queue : ℕ) (announce prepared finished : Bool) (t : Trace)
    (fds : List ℕ) (u : Trace)
    → wait_for_conn os n [] port queue announce none false t ≡ (done (true, fds), u)
    → Served n fds
        (run_test poll_selector os msize fuel port n queue announce prepared finished
          (construct n)
          t).0
unfolding run_test run_connected
run_test-Served os msize fuel port n queue announce prepared finished t fds u e = rw e (
    start-Served os msize n fds fuel prepared finished
      (add_all poll_selector os msize fds (construct n) u)
      (add_all-Added os msize fds (construct n) u (construct-IsValid n).0))
