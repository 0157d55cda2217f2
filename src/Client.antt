-- ===== src/Client.antt =====
-- client.cpp: the client side that is driven from Python, the accepting of the server's connections, one
-- ping on a socket, and the event loop over a selector. Output to stderr is left out. A null callback is
-- `false`. The fuel bounds the rounds of each `while`.
pub mod Accept
pub mod Ping
pub mod Finish
pub mod Served
mod Tests
use Prim.Native.Nat.{bit_and}
use network_ping_test.Base.{
  ℕ, zero, suc, ◌+◌, ◌-◌, List, [], ◌∷◌, ◌++◌, Option, none, some, Bool, true, false, not, ◌||◌,
  ◌==◌, if◌then◌else◌,
}
use network_ping_test.Os.{
  Os, Event, Call, socket, setsockopt, bind, listen, accept, fcntl_getfl, fcntl_setfl, recv, write,
  ready_for_connect, preparation_done, test_done, start_thread, join_thread, undefined, Reply,
  Outcome, done, more, fault, Trace, Run, continue, ◌>>=◌, ◌>>◌, pure, out_of_fuel, call, finally,
}
use network_ping_test.Os.Close.{close_all, close_one}
use network_ping_test.Selector.{RSelector}
use network_ping_test.Selector.EPoll
use network_ping_test.Selector.EPoll.{epoll_selector}
use network_ping_test.Selector.Poll
use network_ping_test.Selector.Poll.{poll_selector}

abbrev pub o_nonblock : ℕ
o_nonblock = 0x800

-- A callback, if it is not null.
abbrev pub notify : Os → Bool → Call → Run (Unit {0})
notify os true c = call os c >> pure tt
notify os false c = pure tt

-- `flags | O_NONBLOCK`
abbrev pub with_nonblock : ℕ → ℕ
with_nonblock flags = Prim.Native.Nat.bit_or flags o_nonblock

-- The part under `if(async)`: whether both calls of `fcntl` succeed.
unfoldable pub set_nonblock : Os → ℕ → Run Bool
set_nonblock os sock = do
  r ← call os (fcntl_getfl sock)
  elim r.value [
    | none ↦ pure false
    | some flags ↦ (do
      w ← call os (fcntl_setfl sock (with_nonblock flags))
      elim w.value [ none ↦ pure false | some _ ↦ pure true ])
  ]

abbrev pub prepare : Os → Bool → ℕ → Run Bool
prepare os true sock = set_nonblock os sock
prepare os false sock = pure true

-- `on_sock_cb`, as the call that it makes for a socket.
abbrev pub on_sock : Os → Option (ℕ → Call) → ℕ → Run (Unit {0})
on_sock os none sock = pure tt
on_sock os (some cb) sock = call os (cb sock) >> pure tt

-- The `for` of `wait_for_conn`, with the rounds that are left and the vector `sockets`.
module _ (os : Os) (master : ℕ) (on_sock_cb : Option (ℕ → Call)) (async : Bool) where
  pub accept_loop : ℕ → List ℕ → Run (Bool × List ℕ)
  accept_loop zero sockets = pure (true, sockets)
  accept_loop (suc left) sockets = do
    r ← call os (accept master)
    elim r.value [
      | none ↦ pure (false, sockets)
      | some client ↦ (do
        ready ← prepare os async client
        if ready
            then on_sock os on_sock_cb client >> accept_loop left (sockets ++ client ∷ [])
            else pure (false, sockets))
    ]

-- From `bind` on: a failure of `bind` returns 1, which is `true`.
pub listen_and_accept :
    Os → ℕ → ℕ → ℕ → ℕ → Bool → Option (ℕ → Call) → Bool → List ℕ → Run (Bool × List ℕ)
unfolding accept_loop
listen_and_accept os master sock_count port queue announce on_sock_cb async sockets = do
  call os (setsockopt master)
  b ← call os (bind master port)
  elim b.value [
    | none ↦ pure (true, sockets)
    | some _ ↦ (do
      call os (listen master queue)
      notify os announce ready_for_connect
      accept_loop os master on_sock_cb async sock_count sockets)
  ]

-- `wait_for_conn`, with the vector `sockets` before and after. `_master_sock` closes on every return.
pub wait_for_conn : Os → ℕ → List ℕ → ℕ → ℕ → Bool → Option (ℕ → Call) → Bool → Run (Bool × List ℕ)
unfolding listen_and_accept close_one
wait_for_conn os sock_count sockets port queue announce on_sock_cb async = do
  m ← call os socket
  elim m.value [
    | none ↦ pure (false, sockets)
    | some master ↦
        finally
          (listen_and_accept os master sock_count port queue announce on_sock_cb async sockets)
          (close_one master)
  ]

-- `process_message`
abbrev pub written : ℕ → Reply → Bool
written message_len w = elim w.value [ none ↦ false | some n ↦ n == message_len ]

unfoldable pub process_message : Os → ℕ → ℕ → Run Bool
process_message os sockfd message_len = do
  r ← call os (recv sockfd message_len)
  elim r.value [
    | none ↦ pure false
    | some bc ↦
        if bc == 0
        then pure false
        else (if bc == message_len
            then (do w ← call os (write sockfd message_len); pure (written message_len w))
            else pure false)
  ]

-- `th_func`
pub th_func : Os → ℕ → ℕ → ℕ → Run (Unit {0})
th_func os zero sockfd msize = out_of_fuel
th_func os (suc fuel) sockfd msize = do
  go ← process_message os sockfd msize
  if go then th_func os fuel sockfd msize else pure tt

abbrev pub pollin : ℕ
pollin = 0x001

abbrev pub pollerr : ℕ
pollerr = 0x008

abbrev pub pollhup : ℕ
pollhup = 0x010

abbrev pub pollnval : ℕ
pollnval = 0x020

abbrev pub has : ℕ → ℕ → Bool
has events mask = not (bit_and events mask == 0)

-- The body of the inner loop of `run_test` up to `if (close_sock)`.
pub close_sock : Os → ℕ → Event → Run Bool
unfolding process_message
close_sock os msize e =
    if has e.flags pollhup || has e.flags pollerr
    then pure true
    else (if has e.flags pollnval
        then pure true
        else (if has e.flags pollin
            then (do kept ← process_message os e.fd msize; pure (not kept))
            else pure (not (e.flags == 0))))

module _ {S : Type 0} (sel : RSelector S) (os : Os) (msize : ℕ) where
  -- `remove_current_ready` and `--fd_left`, if the socket is to be closed. The `int` `fd_left` is only
  -- compared with 0 by `>` and only falls, so it may stop at 0.
  abbrev pub release : Bool → ℕ → S → Run (ℕ × S)
  release false fd_left s = pure (fd_left, s)
  release true fd_left s = do s' ← sel.remove_current_ready os s; pure (fd_left - 1, s')

  -- The inner loop, `while(selector.next(sockfd, events))`, after a `next`.
  abbrev pub dispatch : (ℕ → S → Run (ℕ × S)) → ℕ → Option Event × S → Run (ℕ × S)
  dispatch again fd_left (none, s) = pure (fd_left, s)
  dispatch again fd_left (some e, s) = do
    close ← close_sock os msize e
    (fd_left', s') ← release close fd_left s
    again fd_left' s'

  pub serve : ℕ → ℕ → S → Run (ℕ × S)
  serve zero fd_left s = out_of_fuel
  serve (suc fuel) fd_left s = do r ← sel.next s; dispatch (serve fuel) fd_left r

  -- The outer loop, `while(fd_left > 0)`: false if a `wait` failed.
  pub main_loop : ℕ → ℕ → S → Run (Bool × S)
  main_loop zero fd_left s = out_of_fuel
  main_loop (suc fuel) zero s = pure (true, s)
  main_loop (suc fuel) (suc left) s = do
    (ready, s') ← sel.wait os fuel s
    if ready
        then (do (fd_left', s'') ← serve fuel (suc left) s'; main_loop fuel fd_left' s'')
        else pure (false, s')

  -- `for(int sockfd: sockets.fds) if (not selector.add_fd(sockfd)) return 1;`
  pub add_all : List ℕ → S → Run (Bool × S)
  add_all [] s = pure (true, s)
  add_all (fd ∷ fds) s = do
    (added, s') ← sel.add_fd os fd s
    if added then add_all fds s' else pure (false, s')

  -- After the outer loop: `test_done` and `return 0`, or `return 1`.
  abbrev pub conclude : Bool → Bool × S → Run (ℕ × S)
  conclude finished (true, s) = notify os finished test_done >> pure (0, s)
  conclude finished (false, s) = pure (1, s)

  -- After the descriptors have been added.
  abbrev pub start : ℕ → ℕ → Bool → Bool → Bool × S → Run (ℕ × S)
  start fuel th_count prepared finished (false, s) = pure (1, s)
  start fuel th_count prepared finished (true, s) = do
    notify os prepared preparation_done
    served ← main_loop fuel th_count s
    conclude finished served

  -- `run_test` once `wait_for_conn` has returned: the value that it returns, and the selector.
  pub run_connected : ℕ → ℕ → Bool → Bool → List ℕ → S → Run (ℕ × S)
  unfolding main_loop add_all
  run_connected fuel th_count prepared finished fds s = do
    added ← add_all fds s
    start fuel th_count prepared finished added

  abbrev pub after_accept : ℕ → ℕ → Bool → Bool → S → Bool × List ℕ → Run (ℕ × S)
  after_accept fuel th_count prepared finished s (false, fds) =
      finally (pure (1, s)) (close_all fds)
  after_accept fuel th_count prepared finished s (true, fds) =
      finally (run_connected fuel th_count prepared finished fds s) (close_all fds)

  -- `run_test`. `sockets` closes its descriptors on every return.
  pub run_test : ℕ → ℕ → ℕ → ℕ → Bool → Bool → Bool → S → Run (ℕ × S)
  unfolding wait_for_conn close_all run_connected
  run_test fuel port th_count queue announce prepared finished s = do
    r ← wait_for_conn os th_count [] port queue announce none false
    after_accept fuel th_count prepared finished s r

-- `run_test_epoll`, `run_test_poll`
pub run_test_epoll : Os → ℕ → ℕ → ℕ → ℕ → ℕ → Bool → Bool → Bool → Run ℕ
unfolding run_test EPoll.construct EPoll.ok EPoll.destroy
run_test_epoll os fuel port th_count msize queue announce prepared finished = do
  eps ← EPoll.construct os th_count
  if EPoll.ok eps
      then (do
        (code, eps') ←
            run_test epoll_selector os msize fuel port th_count queue announce prepared finished eps
        finally (pure code) (EPoll.destroy eps'))
      else finally (pure 1) (EPoll.destroy eps)

pub run_test_poll : Os → ℕ → ℕ → ℕ → ℕ → ℕ → Bool → Bool → Bool → Run ℕ
unfolding run_test Poll.construct
run_test_poll os fuel port th_count msize queue announce prepared finished = do
  (code, _) ←
      run_test poll_selector os msize fuel port th_count queue announce prepared finished
        (Poll.construct th_count)
  pure code

-- `run_test_th`: a thread for each accepted socket, joined in the order of `threads`.
pub join_all : Os → List ℕ → Run (Unit {0})
join_all os [] = pure tt
join_all os (sock ∷ socks) = call os (join_thread sock) >> join_all os socks

-- On a failure after a thread has been started, the destructor of `threads` meets one that is not joined,
-- which ends the program: `std::terminate`.
abbrev pub run_threads : Os → Bool → Bool → Bool × List ℕ → Run ℕ
run_threads os prepared finished (false, []) = pure 1
run_threads os prepared finished (false, fd ∷ fds) = undefined
run_threads os prepared finished (true, fds) =
    finally
      (do
        notify os prepared preparation_done
        join_all os fds
        notify os finished test_done
        pure 0)
      (close_all fds)

pub run_test_th : Os → ℕ → ℕ → ℕ → Bool → Bool → Bool → Run ℕ
unfolding wait_for_conn join_all close_all
run_test_th os port th_count queue announce prepared finished = do
  r ← wait_for_conn os th_count [] port queue announce (some start_thread) false
  run_threads os prepared finished r
