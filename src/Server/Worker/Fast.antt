-- ===== src/Server/Worker/Fast.antt =====
-- server.cpp `worker_thread_fast`: the worker of tests without timeouts, past the barrier. With a timeout
-- it returns at once, before it has registered: `none`. The fuel bounds the rounds of each loop.
pub mod Order
use network_ping_test.Base.{
  ℕ, zero, suc, ◌+◌, ◌*◌, List, [], ◌∷◌, Bool, true, false, not, ◌||◌, ◌==◌, if◌then◌else◌, Option,
  none, some,
}
use network_ping_test.Base.Int.{pos}
use network_ping_test.Os.{
  Os, Run, Outcome, done, more, fault, ◌>>=◌, ◌>>◌, continue, pure, out_of_fuel, call, load_done,
  Event,
}
use network_ping_test.Selector.EPoll.{EPollRSelector, wait_ns, next, ready_count}
use network_ping_test.Server.Results.{add64}
use network_ping_test.Server.Worker.{ping, time_or_zero}

module _ (os : Os) (message_len : ℕ) where
  -- `while(sel->next(fd))`
  abbrev pub after_ping :
      (EPollRSelector → Run (Bool × EPollRSelector))
      → EPollRSelector
      → Bool
      → Run (Bool × EPollRSelector)
  after_ping again sel false = pure (false, sel)
  after_ping again sel true = again sel

  abbrev pub ping_event :
      (EPollRSelector → Run (Bool × EPollRSelector))
      → Option Event × EPollRSelector
      → Run (Bool × EPollRSelector)
  ping_event again (none, sel) = pure (true, sel)
  ping_event again (some e, sel) = do sent ← ping os e.fd message_len; after_ping again sel sent

  pub ping_ready : ℕ → EPollRSelector → Run (Bool × EPollRSelector)
  ping_ready zero sel = out_of_fuel
  ping_ready (suc fuel) sel = do e ← next sel; ping_event (ping_ready fuel) e

  -- A round after the `wait`, with `result->mcount`.
  abbrev pub counted_round : ℕ → Bool × EPollRSelector → Run (Bool × ℕ × EPollRSelector)
  counted_round mcount (go, sel) = pure (go, mcount, sel)

  abbrev pub fast_awake : ℕ → ℕ → Bool × EPollRSelector → Run (Bool × ℕ × EPollRSelector)
  unfolding ping_ready
  fast_awake fuel mcount (false, sel) = pure (false, mcount, sel)
  fast_awake fuel mcount (true, sel) = do
    d ← call os load_done
    if time_or_zero d.value == 1
        then pure (false, mcount, sel)
        else do r ← ping_ready fuel sel; counted_round (add64 mcount (ready_count sel)) r

  abbrev pub fast_again :
      (ℕ → EPollRSelector → Run (ℕ × EPollRSelector))
      → Bool × ℕ × EPollRSelector
      → Run (ℕ × EPollRSelector)
  fast_again again (false, mcount, sel) = pure (mcount, sel)
  fast_again again (true, mcount, sel) = again mcount sel

  pub fast_loop : ℕ → ℕ → EPollRSelector → Run (ℕ × EPollRSelector)
  unfolding fast_awake
  fast_loop zero mcount sel = out_of_fuel
  fast_loop (suc fuel) mcount sel = do
    w ← wait_ns os fuel (pos (100 * 1000 * 1000)) sel
    r ← fast_awake fuel mcount w
    fast_again (fast_loop fuel) r

  pub worker_thread_fast : ℕ → ℕ → ℕ → EPollRSelector → Run (Option ℕ)
  unfolding fast_loop
  worker_thread_fast timeout_ns_min timeout_ns_max fuel sel =
      if not (timeout_ns_min == 0) || not (timeout_ns_max == 0)
      then pure none
      else (do (mcount, _) ← fast_loop fuel 0 sel; pure (some mcount))
