-- ===== src/Server/Connect/Window.antt =====
-- The window of connections.
use network_ping_test.Base.{
  ℕ, zero, suc, ◌+◌, ◌≤◌, [], ◌∷◌, ◌++◌, Option, none, some, Bool, true, false, not, ◌==◌,
  if◌then◌else◌, length, arith, Bool-cases, inl, inr, Option-cases, length-append,
}
use network_ping_test.Base.Int.{ℤ, pos, negsuc, pos_part, neg_part, ◌+ℤ◌, ◌-ℤ◌}
use network_ping_test.Os.{
  Os, Run, Outcome, done, more, fault, Trace, continue, pure, Event, socket, setsockopt, ◌>>=◌,
}
use network_ping_test.Os.Runs.{continue-all}
use network_ping_test.Selector.EPoll.{
  EPollRSelector, construct, ok, next, wait_ns, ready_count, add_fd_mask, remove_current_ready,
  destroy, epollout, epollet,
}
use network_ping_test.Selector.EPoll
use network_ping_test.Server.Connect.{
  after_check, Progress, max_connect, min_ℤ, open_one, open_some, bind_client, bound_client,
  connect_client, added, then_go, checked, check_ready, check_socket_ready, waited, opened,
}

-- `w` and `k` more are at most `q`.
abbrev pub Below : ℤ → ℕ → ℕ → Type 0
Below w k q = pos_part w + k ≤ q + neg_part w

-- At most `n` sockets, and at most `q` connections that wait, when `k` more of each may come.
abbrev pub Room : ℕ → ℕ → ℕ → Progress → Type 0
Room n q k p = (length p.sockets + k ≤ n) × Below p.waiting k q

-- The same of what a part of the loop leaves; `k` more may come if it goes on.
abbrev pub Within : ℕ → ℕ → ℕ → Outcome (Bool × Progress × EPollRSelector) × Trace → Type 0
Within n q k (done (true, p, sel), t) = Room n q k p
Within n q k (done (false, p, sel), t) = Room n q 0 p
Within n q k (more, t) = Unit
Within n q k (fault, t) = Unit

pub Below-up : (w : ℤ) (k q : ℕ) → Below w (suc k) q → Below (w +ℤ pos 1) k q
Below-up (pos n) k q h = ground arith
Below-up (negsuc n) k q h = ground arith

Below-down : (w : ℤ) (q : ℕ) → Below w 0 q → Below (w -ℤ pos 1) 0 q
Below-down (pos n) q h = ground arith
Below-down (negsuc n) q h = ground arith

pub max_connect-Room :
    (n q : ℕ) (p : Progress) → Room n q 0 p → Room n q (max_connect (pos n) q p) p
unfolding max_connect
max_connect-Room n q p (l, w) = go p.waiting w
  where
    go :
        (z : ℤ)
        → Below z 0 q
        → (length p.sockets + pos_part (min_ℤ (pos n -ℤ pos (length p.sockets)) (pos q -ℤ z)) ≤ n)
          × Below z (pos_part (min_ℤ (pos n -ℤ pos (length p.sockets)) (pos q -ℤ z))) q
    go (pos m) h = ground arith
    go (negsuc m) h = ground arith

Room-none : (n q k : ℕ) (p : Progress) → Room n q k p → Room n q 0 p
Room-none n q k p (l, w) = (omega arith, omega arith)

module _ (os : Os) (addrs n q : ℕ) where
  added-Within :
      (k c : ℕ) (p : Progress) (r : Bool × EPollRSelector) (t : Trace)
      → length p.sockets + k ≤ n
      → Below p.waiting (suc k) q
      → Within n q k (added os addrs p c r t)
  added-Within k c p (false, sel) t l w = (omega arith, omega arith)
  added-Within k c p (true, sel) t l w = (l, Below-up p.waiting k q w)

  bound-Within :
      (k : ℕ) (p : Progress) (sel : EPollRSelector) (fd : ℕ) (b : Bool × ℕ) (t : Trace)
      → length p.sockets + k ≤ n
      → Below p.waiting (suc k) q
      → Within n q k (bound_client os addrs p sel fd b t)
  unfolding bound_client
  bound-Within k p sel fd (false, c) t l w = (omega arith, omega arith)
  bound-Within k p sel fd (true, c) t l w =
      continue-all (Within n q k)
        (λ reached.
          if not reached
          then pure (false, record p { curr_it = c }, sel)
          else (add_fd_mask os fd (epollout + epollet) sel >>= added os addrs p c))
        (connect_client os addrs fd t).0 (connect_client os addrs fd t).1 (λ _. tt) (λ _. tt)
        (by_reached (connect_client os addrs fd t).1)
    where
      by_reached :
          (u : Trace) (reached : Bool)
          → Within n q k (
              (if not reached
                  then pure (false, record p { curr_it = c }, sel)
                  else (add_fd_mask os fd (epollout + epollet) sel >>= added os addrs p c))
                u)
      by_reached u false = (omega arith, omega arith)
      by_reached u true =
          continue-all (Within n q k) (added os addrs p c)
            (add_fd_mask os fd (epollout + epollet) sel u).0
            (add_fd_mask os fd (epollout + epollet) sel u).1 (λ _. tt) (λ _. tt)
            (λ r. added-Within k c p r _ l w)

  open_one-Within :
      (k : ℕ) (p : Progress) (sel : EPollRSelector) (t : Trace)
      → Room n q (suc k) p
      → Within n q k (open_one os addrs p sel t)
  unfolding open_one
  open_one-Within k p sel t (l, w) = elim (Option-cases (os (socket ∷ t)).value) [
    | inl e ↦ rw e (omega arith, omega arith)
    | inr (fd, e) ↦ rw e (
        continue-all (Within n q k)
          (bound_client os addrs (record p { sockets = p.sockets ++ fd ∷ [] }) sel fd)
          (bind_client os addrs fd p.curr_it (setsockopt fd ∷ socket ∷ t)).0
          (bind_client os addrs fd p.curr_it (setsockopt fd ∷ socket ∷ t)).1 (λ _. tt) (λ _. tt)
          (λ b.
            bound-Within k (record p { sockets = p.sockets ++ fd ∷ [] }) sel fd b _
              (omega (arith, length-append p.sockets (fd ∷ []))) w))
  ]

  -- A step that goes on to a loop.
  then_go-Within :
      (k : ℕ) (again : Progress → EPollRSelector → Run (Bool × Progress × EPollRSelector))
      (r : Outcome (Bool × Progress × EPollRSelector) × Trace)
      → Within n q k r
      → ((p : Progress) (sel : EPollRSelector) (t : Trace)
          → Room n q k p
          → Within n q 0 (again p sel t))
      → Within n q 0 (continue (then_go os addrs again) r.0 r.1)
  then_go-Within k again (done (true, p, sel), t) h next = next p sel t h
  then_go-Within k again (done (false, p, sel), t) h next = h
  then_go-Within k again (more, t) h next = tt
  then_go-Within k again (fault, t) h next = tt

  pub open_some-Within :
      (k : ℕ) (p : Progress) (sel : EPollRSelector) (t : Trace)
      → Room n q k p
      → Within n q 0 (open_some os addrs k p sel t)
  unfolding open_some
  open_some-Within zero p sel t r = r
  open_some-Within (suc k) p sel t r =
      then_go-Within k (open_some os addrs k) (open_one os addrs p sel t)
        (open_one-Within k p sel t r) (λ p' sel' t' r'. open_some-Within k p' sel' t' r')

  checked-Within :
      (again : Progress → EPollRSelector → Run (Bool × Progress × EPollRSelector)) (p : Progress)
      (e : Option Event × EPollRSelector) (t : Trace)
      → Room n q 0 p
      → ((p' : Progress) (sel : EPollRSelector) (u : Trace)
          → Room n q 0 p'
          → Within n q 0 (again p' sel u))
      → Within n q 0 (checked os addrs again p e t)
  checked-Within again p (none, sel) t r next = r
  checked-Within again p (some e, sel) t r next =
      continue-all (Within n q 0) (after_check os addrs again p sel)
        (check_socket_ready os e.fd t).0 (check_socket_ready os e.fd t).1 (λ _. tt) (λ _. tt)
        (by_ready (check_socket_ready os e.fd t).1)
    where
      by_ready :
          (u : Trace) (ready : Bool) → Within n q 0 (after_check os addrs again p sel ready u)
      by_ready u false = r
      by_ready u true =
          continue-all (Within n q 0) (again (record p { waiting = p.waiting -ℤ pos 1 }))
            (remove_current_ready os sel u).0 (remove_current_ready os sel u).1 (λ _. tt) (λ _. tt)
            (λ sel'. next _ sel' _ (r.0, Below-down p.waiting q r.1))

  check_ready-Within :
      (fuel : ℕ) (p : Progress) (sel : EPollRSelector) (t : Trace)
      → Room n q 0 p
      → Within n q 0 (check_ready os addrs fuel p sel t)
  unfolding check_ready
  check_ready-Within zero p sel t r = tt
  check_ready-Within (suc fuel) p sel t r =
      continue-all (Within n q 0) (checked os addrs (check_ready os addrs fuel) p)
        (EPoll.next sel t).0 (EPoll.next sel t).1 (λ _. tt) (λ _. tt)
        (λ e.
          checked-Within (check_ready os addrs fuel) p e _ r
            (λ p' sel' u r'. check_ready-Within fuel p' sel' u r'))

  waited-Within :
      (fuel : ℕ) (p : Progress) (w : Bool × EPollRSelector) (t : Trace)
      → Room n q 0 p
      → Within n q 0 (waited os addrs fuel p w t)
  unfolding waited
  waited-Within fuel p (false, sel) t r = r
  waited-Within fuel p (true, sel) t r = elim (Bool-cases (ready_count sel == 0)) [
    | inl e ↦ rw e r
    | inr e ↦ rw e (check_ready-Within fuel p sel t r)
  ]

  pub opened-Within :
      (fuel : ℕ) (r : Outcome (Bool × Progress × EPollRSelector) × Trace)
      → Within n q 0 r
      → Within n q 0 (continue (opened os addrs fuel) r.0 r.1)
  unfolding opened
  opened-Within fuel (done (true, p, sel), t) h =
      continue-all (Within n q 0) (waited os addrs fuel p) (wait_ns os fuel (pos 1000) sel t).0
        (wait_ns os fuel (pos 1000) sel t).1 (λ _. tt) (λ _. tt) (λ w. waited-Within fuel p w _ h)
  opened-Within fuel (done (false, p, sel), t) h = h
  opened-Within fuel (more, t) h = tt
  opened-Within fuel (fault, t) h = tt
