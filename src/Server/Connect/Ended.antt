-- ===== src/Server/Connect/Ended.antt =====
-- How `connect_all` ends.
use network_ping_test.Base.{
  ℕ, zero, suc, ◌≤◌, ◌≡◌, List, [], ◌∷◌, some, Bool, true, false, length, arith, Bool-cases, inl,
  inr, Option-cases, replicate,
}
use network_ping_test.Base.Int.{ℤ, pos, negsuc}
use network_ping_test.Os.{
  close, Os, Run, Outcome, done, more, fault, Trace, continue, epoll_create, gethostbyname, ◌>>=◌,
}
use network_ping_test.Selector.EPoll.{destroy, EPollRSelector, construct, no_event, ok}
use network_ping_test.Server.Connect.{
  Progress, max_connect, is_zero, unfinished, open_some, then_go, opened, connect_loop, connect_all,
  connect_found, finish,
}
use network_ping_test.Server.Connect.Window.{
  Room, Within, open_some-Within, opened-Within, max_connect-Room,
}

-- All connections made, or some of them when a call has failed.
abbrev pub Connected : ℕ → ℕ → Outcome (Bool × Progress × EPollRSelector) × Trace → Type 0
Connected n q (done (true, p, sel), t) = (length p.sockets ≡ n) × (p.waiting ≡ pos 0)
Connected n q (done (false, p, sel), t) = Room n q 0 p
Connected n q (more, t) = Unit
Connected n q (fault, t) = Unit

then_go-Connected :
    (os : Os) (addrs n q : ℕ)
    (again : Progress → EPollRSelector → Run (Bool × Progress × EPollRSelector))
    (r : Outcome (Bool × Progress × EPollRSelector) × Trace)
    → Within n q 0 r
    → ((p : Progress) (sel : EPollRSelector) (t : Trace)
        → Room n q 0 p
        → Connected n q (again p sel t))
    → Connected n q (continue (then_go os addrs again) r.0 r.1)
then_go-Connected os addrs n q again (done (true, p, sel), t) h next = next p sel t h
then_go-Connected os addrs n q again (done (false, p, sel), t) h next = h
then_go-Connected os addrs n q again (more, t) h next = tt
then_go-Connected os addrs n q again (fault, t) h next = tt

opened-Connected :
    (os : Os) (addrs n q fuel : ℕ)
    (again : Progress → EPollRSelector → Run (Bool × Progress × EPollRSelector))
    (r : Outcome (Bool × Progress × EPollRSelector) × Trace)
    → Within n q 0 r
    → ((p : Progress) (sel : EPollRSelector) (t : Trace)
        → Room n q 0 p
        → Connected n q (again p sel t))
    → Connected n q (continue (λ o. opened os addrs fuel o >>= then_go os addrs again) r.0 r.1)
opened-Connected os addrs n q fuel again (done x, t) h next =
    then_go-Connected os addrs n q again (opened os addrs fuel x t)
      (opened-Within os addrs n q fuel (done x, t) h) next
opened-Connected os addrs n q fuel again (more, t) h next = tt
opened-Connected os addrs n q fuel again (fault, t) h next = tt

is_zero_lem : (w : ℤ) → is_zero w ≡ true → w ≡ pos 0
is_zero_lem (pos n) h = ground arith
is_zero_lem (negsuc n) h = cc

all_made :
    (n : ℕ) (p : Progress)
    → unfinished (pos n) p ≡ false
    → (length p.sockets ≡ n) × (p.waiting ≡ pos 0)
all_made n p h = (ground arith, is_zero_lem p.waiting (ground arith))

-- From a window with room, on every system and for every fuel: if the loop of `connect_all` ends with
-- true, `sockets` holds exactly `sock_count` descriptors and no connection waits. If it ends with false,
-- there are at most `sock_count` of them, and at most `conn_q_size` connections wait.
pub connect_loop-Connected :
    (os : Os) (addrs n q fuel : ℕ) (p : Progress) (sel : EPollRSelector) (t : Trace)
    → Room n q 0 p
    → Connected n q (connect_loop os addrs fuel (pos n) q p sel t)
unfolding connect_loop
connect_loop-Connected os addrs n q zero p sel t r = tt
connect_loop-Connected os addrs n q (suc fuel) p sel t r =
    elim (Bool-cases (unfinished (pos n) p)) [
      | inl e ↦ rw e (
          opened-Connected os addrs n q fuel (connect_loop os addrs fuel (pos n) q)
            (open_some os addrs (max_connect (pos n) q p) p sel t)
            (open_some-Within os addrs n q (max_connect (pos n) q p) p sel t
              (max_connect-Room n q p r))
            (λ p' sel' u r'. connect_loop-Connected os addrs n q fuel p' sel' u r'))
      | inr e ↦ rw e (all_made n p e)
    ]

-- Whatever the system does, a `connect_all` that ends has at most `sock_count` descriptors in
-- `sockets`; if it returns true, exactly `sock_count`.
abbrev pub Ended : ℕ → Outcome (Bool × List ℕ) × Trace → Type 0
Ended n (done (true, sockets), t) = length sockets ≡ n
Ended n (done (false, sockets), t) = length sockets ≤ n
Ended n (more, t) = Unit
Ended n (fault, t) = Unit

finish-Ended :
    (n q : ℕ) (r : Outcome (Bool × Progress × EPollRSelector) × Trace)
    → Connected n q r
    → Ended n (continue finish r.0 r.1)
unfolding finish
finish-Ended n q (done (true, p, sel), t) c = c.0
finish-Ended n q (done (false, p, sel), t) c = omega (arith, c.0)
finish-Ended n q (more, t) c = tt
finish-Ended n q (fault, t) c = tt

connect_found-Ended :
    (os : Os) (addrs fuel n q : ℕ) (t : Trace) → Ended n (connect_found os addrs fuel (pos n) q t)
unfolding connect_found construct ok
connect_found-Ended os addrs fuel n q t = elim (Option-cases (os (epoll_create ∷ t)).value) [
  | inl e ↦ rw e (omega arith)
  | inr (efd, e) ↦ rw e (
      finish-Ended n q _ (
        connect_loop-Connected os addrs n q fuel
          (record { sockets = []; waiting = pos 0; curr_it = 0 })
          (record {
            efd = some efd;
            events = record { events = replicate q no_event; num_ready = some 0; recv_time = 0 };
            current_ready = 0;
            end_of_ready = 0;
          })
          (epoll_create ∷ t) (omega arith, omega arith)))
]

-- Whatever the system does, and for every fuel: if `connect_all` ends with true, `sockets` holds exactly
-- `sock_count` descriptors; if it ends with false, at most that many.
pub connect_all-Ended :
    (os : Os) (addrs fuel n q : ℕ) (t : Trace) → Ended n (connect_all os addrs fuel (pos n) q t)
unfolding connect_all
connect_all-Ended os addrs fuel n q t = elim (Option-cases (os (gethostbyname ∷ t)).value) [
  | inl e ↦ rw e (omega arith)
  | inr (host, e) ↦ rw e (connect_found-Ended os addrs fuel n q (gethostbyname ∷ t))
]

-- No connections are made at once, if the host is found.
pub connect_all-zero :
    (os : Os) (addrs fuel q host efd : ℕ) (t : Trace)
    → (os (gethostbyname ∷ t)).value ≡ some host
    → (os (epoll_create ∷ gethostbyname ∷ t)).value ≡ some efd
    → connect_all os addrs (suc fuel) (pos 0) q t
      ≡ (done (true, []), close efd ∷ epoll_create ∷ gethostbyname ∷ t)
unfolding connect_all connect_loop construct ok finish destroy
connect_all-zero os addrs fuel q host efd t h e =
    rw (h, e) (λ i. (done (true, []), close efd ∷ epoll_create ∷ gethostbyname ∷ t))
