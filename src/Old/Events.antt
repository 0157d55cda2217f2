-- ===== src/Old/Events.antt =====
-- old/client.cpp `run_test`, `run_test_epoll`, `run_test_poll`: the event loop over a selector, with its
-- count of messages. `counter` is an `int`; past its range the outcome is `undefined`. The fuel bounds the
-- rounds of each `while`.
pub mod Counted
pub mod Stored
pub mod Silence
mod Tests
use network_ping_test.Base.{
  ℕ, zero, suc, ◌+◌, ◌-◌, ◌^◌, List, [], ◌∷◌, Option, none, some, Bool, true, false, not, ◌||◌,
  ◌==◌, ltb, if◌then◌else◌,
}
use network_ping_test.Os.{
  Os, Event, Call, preparation_done, test_done, Reply, Outcome, done, more, fault, Trace, Run,
  continue, ◌>>=◌, ◌>>◌, pure, undefined, out_of_fuel, call, finally,
}
use network_ping_test.Os.Close.{close_all}
use network_ping_test.Client.{notify, pollin, pollerr, pollhup, pollnval, has}
use network_ping_test.Selector.{RSelector}
use network_ping_test.Selector.Poll
use network_ping_test.Selector.Poll.{poll_selector}
use network_ping_test.Old.{connect_all, process_message}
use network_ping_test.Old.EPoll
use network_ping_test.Old.EPoll.{epoll_selector}

-- What a run returns: its code, and the value stored in `*msg_processed`, if one is.
abbrev pub RunResult : Type 0
RunResult = ℕ × Option ℕ

-- What the loop keeps beside the selector.
pub record Progress : Type 0 where
  pub counter : ℕ
  pub fd_left : ℕ

-- `counter += 1`
abbrev pub count_message : ℕ → Run ℕ
count_message counter = if ltb (counter + 1) (2 ^ 31) then pure (counter + 1) else undefined

module _ (os : Os) (msize : ℕ) where
  -- The branch of POLLIN: `close_sock`, and the counter.
  abbrev pub echo : Bool → ℕ → Run (Bool × ℕ)
  echo false counter = pure (true, counter)
  echo true counter = do counter' ← count_message counter; pure (false, counter')

  -- The body of the inner loop up to `if (close_sock)`.
  pub handle : ℕ → Event → Run (Bool × ℕ)
  unfolding process_message
  handle counter e =
      if has e.flags pollhup || has e.flags pollerr
      then pure (true, counter)
      else (if has e.flags pollnval
          then pure (true, counter)
          else (if has e.flags pollin
              then (do kept ← process_message os e.fd msize; echo kept counter)
              else pure (not (e.flags == 0), counter)))

module _ {S : Type 0} (sel : RSelector S) (os : Os) (msize : ℕ) where
  -- `if (close_sock)`. The `int` `fd_left` is only compared with 0 by `>` and only falls.
  abbrev pub release : Bool × ℕ → ℕ → S → Run (Progress × S)
  release (false, counter) fd_left s = pure (record { counter = counter; fd_left = fd_left }, s)
  release (true, counter) fd_left s = do
    s' ← sel.remove_current_ready os s
    pure (record { counter = counter; fd_left = fd_left - 1 }, s')

  abbrev pub dispatch :
      (Progress → S → Run (Progress × S)) → Progress → Option Event × S → Run (Progress × S)
  dispatch again p (none, s) = pure (p, s)
  dispatch again p (some e, s) = do
    handled ← handle os msize p.counter e
    (p', s') ← release handled p.fd_left s
    again p' s'

  -- The inner loop.
  pub serve : ℕ → Progress → S → Run (Progress × S)
  serve zero p s = out_of_fuel
  serve (suc fuel) p s = do r ← sel.next s; dispatch (serve fuel) p r

  -- The outer loop, `while(fd_left > 0)`: `none` if a `wait` failed, else the counter.
  abbrev pub waited :
      (Progress → S → Run (Option ℕ × S)) → ℕ → Progress → Bool × S → Run (Option ℕ × S)
  unfolding serve
  waited again fuel p (false, s) = pure (none, s)
  waited again fuel p (true, s) = do (p', s') ← serve fuel p s; again p' s'

  pub main_loop : ℕ → Progress → S → Run (Option ℕ × S)
  main_loop zero p s = out_of_fuel
  main_loop (suc fuel) p s =
      if p.fd_left == 0
      then pure (some p.counter, s)
      else (sel.wait os fuel s >>= waited (main_loop fuel) fuel p)

  pub add_all : List ℕ → S → Run (Bool × S)
  add_all [] s = pure (true, s)
  add_all (fd ∷ fds) s = do
    (added, s') ← sel.add_fd os fd s
    if added then add_all fds s' else pure (false, s')

  abbrev pub store : Bool → ℕ → Option ℕ
  store false counter = none
  store true counter = some counter

  abbrev pub conclude : Bool → Bool → Option ℕ × S → Run (RunResult × S)
  conclude finished counted (none, s) = pure ((1, none), s)
  conclude finished counted (some counter, s) =
      notify os finished test_done >> pure ((0, store counted counter), s)

  abbrev pub start : ℕ → ℕ → Bool → Bool → Bool × S → Run (RunResult × S)
  unfolding main_loop
  start fuel th_count finished counted (false, s) = pure ((1, none), s)
  start fuel th_count finished counted (true, s) = do
    served ← main_loop fuel (record { counter = 0; fd_left = th_count }) s
    conclude finished counted served

  -- `run_test` once `connect_all` has returned.
  abbrev pub run_connected : ℕ → ℕ → Bool → Bool → Bool → List ℕ → S → Run (RunResult × S)
  unfolding add_all
  run_connected fuel th_count prepared finished counted fds s = do
    notify os prepared preparation_done
    added ← add_all fds s
    start fuel th_count finished counted added

  abbrev pub after_connect : ℕ → ℕ → Bool → Bool → Bool → S → Bool × List ℕ → Run (RunResult × S)
  after_connect fuel th_count prepared finished counted s (false, fds) =
      finally (pure ((1, none), s)) (close_all fds)
  after_connect fuel th_count prepared finished counted s (true, fds) =
      finally (run_connected fuel th_count prepared finished counted fds s) (close_all fds)

  -- `run_test`. `sockets` closes its descriptors on every return.
  pub run_test : ℕ → ℕ → Bool → Bool → Bool → S → Run (RunResult × S)
  unfolding connect_all
  run_test fuel th_count prepared finished counted s = do
    r ← connect_all os th_count true []
    after_connect fuel th_count prepared finished counted s r

pub run_test_epoll : Os → ℕ → ℕ → ℕ → Bool → Bool → Bool → Run RunResult
unfolding run_test
run_test_epoll os fuel th_count msize prepared finished counted = do
  eps ← EPoll.construct os th_count
  if EPoll.ok eps
      then (do
        (ret, eps') ← run_test epoll_selector os msize fuel th_count prepared finished counted eps
        finally (pure ret) (EPoll.destroy eps'))
      else finally (pure (1, none)) (EPoll.destroy eps)

pub run_test_poll : Os → ℕ → ℕ → ℕ → Bool → Bool → Bool → Run RunResult
unfolding run_test Poll.construct
run_test_poll os fuel th_count msize prepared finished counted = do
  (ret, _) ←
      run_test poll_selector os msize fuel th_count prepared finished counted
        (Poll.construct th_count)
  pure ret
