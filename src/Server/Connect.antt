-- ===== src/Server/Connect.antt =====
-- server.cpp `check_socket_ready`, `connect_all`: the connections are opened in a window of at most
-- `conn_q_size` that wait, to a host that is looked up first. A `bind` to a client
-- address is a call with the address's place in `client_ip_addrs`. `waiting_to_connect` is an `int` that
-- the events of the system may bring below 0. The `while` runs on fuel.
pub mod Window
pub mod Ended
pub mod Tests
use network_ping_test.Base.{
  ℕ, zero, suc, ◌+◌, ◌-◌, ◌%◌, List, [], ◌∷◌, ◌++◌, Option, none, some, Bool, true, false, ◌==◌,
  not, ◌||◌, if◌then◌else◌, length,
}
use network_ping_test.Base.Int.{ℤ, pos, negsuc, ◌-ℤ◌, ◌+ℤ◌, leb_ℤ, pos_part}
use network_ping_test.Os.{
  Os, Run, Outcome, done, more, fault, Call, gethostbyname, socket, setsockopt, getsockopt, bind,
  connect, ◌>>=◌, ◌>>◌, continue, pure, out_of_fuel, call, Reply, Trace, Event, finally,
}
use network_ping_test.Selector.EPoll.{
  EPollRSelector, construct, ok, destroy, wait_ns, next, ready_count, add_fd_mask,
  remove_current_ready, epollout, epollet,
}

abbrev pub einprogress : ℕ
einprogress = 115

abbrev pub check_socket_ready : Os → ℕ → Run Bool
check_socket_ready os fd = do
  r ← call os (getsockopt fd)
  elim r.value [ none ↦ pure false | some _ ↦ pure (r.error == 0) ]

-- What the loops change: `sockets`, `waiting_to_connect`, and the place that `curr_it` has in
-- `client_ip_addrs`.
pub record Progress : Type 0 where
  pub sockets : List ℕ
  pub waiting : ℤ
  pub curr_it : ℕ

abbrev pub min_ℤ : ℤ → ℤ → ℤ
min_ℤ a b = if leb_ℤ a b then a else b

-- `max_connect`, as the number of rounds that the `for` makes.
pub max_connect : ℤ → ℕ → Progress → ℕ
max_connect sock_count conn_q_size p =
    pos_part (min_ℤ (sock_count -ℤ pos (length p.sockets)) (pos conn_q_size -ℤ p.waiting))

abbrev pub is_zero : ℤ → Bool
is_zero (pos n) = n == 0
is_zero (negsuc n) = false

-- The condition of the `while`.
abbrev pub unfinished : ℤ → Progress → Bool
unfinished sock_count p =
    not (is_zero (sock_count -ℤ pos (length p.sockets))) || not (is_zero p.waiting)

module _ (os : Os) (addrs : ℕ) where
  -- `if (need_bind)`, over `addrs` client addresses: whether to go on, and the new place of `curr_it`.
  abbrev pub wrapped : ℕ → ℕ
  wrapped curr_it = if curr_it == addrs then 0 else curr_it

  abbrev pub bind_client : ℕ → ℕ → Run (Bool × ℕ)
  bind_client sockfd curr_it = if addrs == 0 then pure (true, curr_it) else (do
    r ← call os (bind sockfd (wrapped curr_it))
    elim r.value [
      | none ↦ pure (false, wrapped curr_it)
      | some _ ↦ pure (true, wrapped curr_it + 1)
    ])

  -- `connect`: true if it has succeeded or is in progress.
  abbrev pub connect_client : ℕ → Run Bool
  connect_client sockfd = do
    r ← call os (connect sockfd)
    elim r.value [ none ↦ pure (r.errno == einprogress) | some _ ↦ pure true ]

  -- The body of the `for`.
  abbrev pub added : Progress → ℕ → Bool × EPollRSelector → Run (Bool × Progress × EPollRSelector)
  added p curr_it (false, sel) = pure (false, record p { curr_it = curr_it }, sel)
  added p curr_it (true, sel) =
      pure (true, record p { curr_it = curr_it; waiting = p.waiting +ℤ pos 1 }, sel)

  abbrev pub bound_client :
      Progress → EPollRSelector → ℕ → Bool × ℕ → Run (Bool × Progress × EPollRSelector)
  unfolding add_fd_mask
  bound_client p sel sockfd (false, curr_it) = pure (false, record p { curr_it = curr_it }, sel)
  bound_client p sel sockfd (true, curr_it) = do
    reached ← connect_client sockfd
    if not reached
        then pure (false, record p { curr_it = curr_it }, sel)
        else do r ← add_fd_mask os sockfd (epollout + epollet) sel; added p curr_it r

  pub open_one : Progress → EPollRSelector → Run (Bool × Progress × EPollRSelector)
  unfolding bound_client
  open_one p sel = do
    s ← call os socket
    elim s.value [
      | none ↦ pure (false, p, sel)
      | some sockfd ↦ (do
        call os (setsockopt sockfd)
        b ← bind_client sockfd p.curr_it
        bound_client (record p { sockets = p.sockets ++ sockfd ∷ [] }) sel sockfd b)
    ]

  -- A loop goes on after a step that returned true.
  abbrev pub then_go :
      (Progress → EPollRSelector → Run (Bool × Progress × EPollRSelector))
      → Bool × Progress × EPollRSelector
      → Run (Bool × Progress × EPollRSelector)
  then_go again (false, p, sel) = pure (false, p, sel)
  then_go again (true, p, sel) = again p sel

  pub open_some : ℕ → Progress → EPollRSelector → Run (Bool × Progress × EPollRSelector)
  unfolding open_one
  open_some zero p sel = pure (true, p, sel)
  open_some (suc left) p sel = do r ← open_one p sel; then_go (open_some left) r

  -- The body of `while(sel.next(fd, flags))` after `check_socket_ready`.
  abbrev pub after_check :
      (Progress → EPollRSelector → Run (Bool × Progress × EPollRSelector))
      → Progress
      → EPollRSelector
      → Bool
      → Run (Bool × Progress × EPollRSelector)
  after_check again p sel false = pure (false, p, sel)
  after_check again p sel true = do
    sel' ← remove_current_ready os sel
    again (record p { waiting = p.waiting -ℤ pos 1 }) sel'

  abbrev pub checked :
      (Progress → EPollRSelector → Run (Bool × Progress × EPollRSelector))
      → Progress
      → Option Event × EPollRSelector
      → Run (Bool × Progress × EPollRSelector)
  checked again p (none, sel) = pure (true, p, sel)
  checked again p (some e, sel) = do
    ready ← check_socket_ready os e.fd
    after_check again p sel ready

  pub check_ready : ℕ → Progress → EPollRSelector → Run (Bool × Progress × EPollRSelector)
  check_ready zero p sel = out_of_fuel
  check_ready (suc fuel) p sel = do r ← next sel; checked (check_ready fuel) p r

  -- From the `wait` on; its timeout of 1000 is in nanoseconds.
  abbrev pub waited : ℕ → Progress → Bool × EPollRSelector → Run (Bool × Progress × EPollRSelector)
  unfolding check_ready ready_count
  waited fuel p (false, sel) = pure (false, p, sel)
  waited fuel p (true, sel) =
      if ready_count sel == 0 then pure (false, p, sel) else check_ready fuel p sel

  abbrev pub opened : ℕ → Bool × Progress × EPollRSelector → Run (Bool × Progress × EPollRSelector)
  unfolding waited wait_ns
  opened fuel (false, p, sel) = pure (false, p, sel)
  opened fuel (true, p, sel) = do w ← wait_ns os fuel (pos 1000) sel; waited fuel p w

  pub connect_loop : ℕ → ℤ → ℕ → Progress → EPollRSelector → Run (Bool × Progress × EPollRSelector)
  unfolding max_connect open_some opened
  connect_loop zero sock_count conn_q_size p sel = out_of_fuel
  connect_loop (suc fuel) sock_count conn_q_size p sel =
      if unfinished sock_count p
      then (do
        o ← open_some (max_connect sock_count conn_q_size p) p sel
        r ← opened fuel o
        then_go (connect_loop fuel sock_count conn_q_size) r)
      else pure (true, p, sel)

-- The return of `connect_all`, with `sockets` as they are left.
abbrev pub finish : Bool × Progress × EPollRSelector → Run (Bool × List ℕ)
unfolding destroy
finish (connected, p, sel) = finally (pure (connected, p.sockets)) (destroy sel)

-- From `sockets.clear()` on.
abbrev pub connect_found : Os → ℕ → ℕ → ℤ → ℕ → Run (Bool × List ℕ)
unfolding connect_loop construct ok finish
connect_found os addrs fuel sock_count conn_q_size = do
  sel ← construct os conn_q_size
  r ←
      (if ok sel
        then connect_loop os addrs fuel sock_count conn_q_size
            (record { sockets = []; waiting = pos 0; curr_it = 0 }) sel
        else pure (false, record { sockets = []; waiting = pos 0; curr_it = 0 }, sel))
  finish r

-- `connect_all`, for the empty vector `sockets` that `run_test` hands it.
pub connect_all : Os → ℕ → ℕ → ℤ → ℕ → Run (Bool × List ℕ)
unfolding connect_found
connect_all os addrs fuel sock_count conn_q_size = do
  host ← call os gethostbyname
  elim host.value [
    | none ↦ pure (false, [])
    | some _ ↦ connect_found os addrs fuel sock_count conn_q_size
  ]
