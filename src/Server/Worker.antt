-- ===== src/Server/Worker.antt =====
-- server.cpp: `ping`, and what a `worker_thread` does past the barrier. `priority_queue<FdTimout>` is a
-- list with the smallest `ready_time` first; the maps are lists of entries, a key at most once. The
-- latency's bucket, `log2_64` or the rounding of a `float` logarithm by the build, is a parameter. The
-- fuel bounds the rounds of each loop; a return of false ends the thread.
pub mod Queue
pub mod Fast
pub mod Pings
pub mod Rounds
pub mod Ends
pub mod Written
pub mod Stop
pub mod Samples
mod Tests
use network_ping_test.Base.{
  ℕ, zero, suc, ◌+◌, ◌-◌, ◌%◌, ◌^◌, List, [], ◌∷◌, ◌++◌, Option, none, some, Bool, true, false,
  ◌==◌, not, leb, ltb, if◌then◌else◌, ◌||◌, ◌&&◌, ◌*◌,
}
use network_ping_test.Base.Int.{ℤ, pos, negsuc}
use network_ping_test.Os.{
  Os, Run, Outcome, done, more, fault, Call, recv, load_done, rand_timeout, ◌>>=◌, ◌>>◌, continue,
  pure, out_of_fuel, call, Reply, Trace, Event,
}
use network_ping_test.Wait.{get_fast_time, to_long}
use network_ping_test.Selector.EPoll.{EPollRSelector, wait_ns, next, ready_count}
use network_ping_test.Server.Results.{WorkerResult, add64, add_at}

-- `ping`: every failure is reported by false; ECONNRESET only without a message on stderr.
pub ping : Os → ℕ → ℕ → Run Bool
ping os fd buff_sz = do
  r ← call os (recv fd buff_sz)
  elim r.value [
    | none ↦ pure false
    | some bc ↦
        if bc == 0
        then pure false
        else (if buff_sz == bc
            then (do
              w ← call os (Call.write fd buff_sz)
              elim w.value [ none ↦ pure false | some n ↦ pure (n == buff_sz) ])
            else pure false)
  ]

pub record FdTimout : Type 0 where
  pub fd : ℕ
  pub ready_time : ℕ

-- The variables of `worker_thread` that its rounds change.
pub record Tables : Type 0 where
  pub last_time : List (ℕ × ℕ)
  pub wait_queue : List FdTimout
  pub ready_fds : List ℕ
  pub result : WorkerResult

-- `wait_queue.emplace(fd, ready_time)`
pub enqueue : ℕ → ℕ → List FdTimout → List FdTimout
enqueue fd time [] = record { fd = fd; ready_time = time } ∷ []
enqueue fd time (i ∷ q) =
    if leb time i.ready_time
    then record { fd = fd; ready_time = time } ∷ i ∷ q
    else i ∷ enqueue fd time q

-- The `while` that moves the sockets whose time has come from the queue to `ready_fds`.
pub drain : ℕ → List FdTimout → List ℕ → List ℕ × List FdTimout
drain curr_time [] ready = (ready, [])
drain curr_time (i ∷ q) ready =
    let rest = drain curr_time q (ready ++ i.fd ∷ []) in
    if leb i.ready_time curr_time then rest else (ready, i ∷ q)

-- `poll_timeout`, a `long`, not below 0.
abbrev pub not_below_zero : ℤ → ℤ
not_below_zero (pos n) = pos n
not_below_zero (negsuc n) = pos 0

pub queue_timeout : ℕ → ℕ → ℤ
queue_timeout ready_time curr_time =
    not_below_zero (to_long ((ready_time + 2 ^ 64 - curr_time) % 2 ^ 64))

-- `map.emplace(key, 0)`: the value before, if there was one, and the map.
pub lookup : ℕ → List (ℕ × ℕ) → Option ℕ
lookup key [] = none
lookup key ((k, v) ∷ m) = if k == key then some v else lookup key m

abbrev pub emplace_zero : ℕ → Option ℕ → List (ℕ × ℕ) → List (ℕ × ℕ)
emplace_zero key none m = m ++ (key, 0) ∷ []
emplace_zero key (some v) m = m

abbrev pub time_or_zero : Option ℕ → ℕ
time_or_zero none = 0
time_or_zero (some v) = v

-- `map[key] = value`
pub put : ℕ → ℕ → List (ℕ × ℕ) → List (ℕ × ℕ)
put key value [] = (key, value) ∷ []
put key value ((k, v) ∷ m) = if k == key then (k, value) ∷ m else (k, v) ∷ put key value m

-- The `wait` at the start of a round: `drain` follows it only if the queue was not empty before.
abbrev pub woken : ℕ → Bool → Tables → Tables
woken curr_time false s = s
woken curr_time true s = record s {
  ready_fds = (drain curr_time s.wait_queue s.ready_fds).0;
  wait_queue = (drain curr_time s.wait_queue s.ready_fds).1;
}

module _ (os : Os) (bucket : ℕ → ℕ) (message_len timeout_ns_min timeout_ns_max : ℕ) where
  abbrev pub has_timeout : Bool
  has_timeout = not (timeout_ns_min == 0) || not (timeout_ns_max == 0)

  -- The latency of a socket with a previous write time.
  abbrev pub record_latency : ℕ → Option ℕ → WorkerResult → WorkerResult
  record_latency curr_time none r = r
  record_latency curr_time (some ltime) r = record r {
    lat_map = add_at (bucket ((curr_time + 2 ^ 64 - ltime) % 2 ^ 64)) 1 r.lat_map;
  }

  abbrev pub seen : ℕ → ℕ → Tables → Tables
  seen curr_time fd s = record s {
    last_time = emplace_zero fd (lookup fd s.last_time) s.last_time;
    result = record_latency curr_time (lookup fd s.last_time) s.result;
  }

  -- Where a socket that has become ready goes, with the timeout `delay` (0 if there is none): true if
  -- to `ready_fds`, false if to the queue.
  abbrev pub is_due : ℕ → ℕ → ℕ → Bool
  is_due curr_time ltime delay = not (has_timeout && ltb curr_time (add64 ltime delay))

  pub place : ℕ → ℕ → ℕ → Tables → Bool × Tables
  unfolding lookup
  place curr_time fd delay s =
      let ltime = time_or_zero (lookup fd s.last_time) in
      let s' = seen curr_time fd s in
      if is_due curr_time ltime delay
      then (true, record s' { ready_fds = s.ready_fds ++ fd ∷ [] })
      else (false, record s' { wait_queue = enqueue fd (add64 ltime delay) s.wait_queue })

  -- `timeout_ns`: the source draws it only if `has_timeout`; a draw always has a value.
  abbrev pub choose_timeout : Run ℕ
  choose_timeout =
      if not has_timeout
      then pure 0
      else (if timeout_ns_max == timeout_ns_min then pure timeout_ns_max else (do
        r ← call os (rand_timeout timeout_ns_min timeout_ns_max)
        pure (time_or_zero r.value)))

  -- `sync->done.load()`: 1 for true.
  abbrev pub is_done : Run Bool
  is_done = do r ← call os load_done; pure (time_or_zero r.value == 1)

  -- After `place`: `continue` for a socket in the queue, else the test of `done`, which may `halt`.
  abbrev pub placed : {A : Type 0} → (Tables → Run A) → (Tables → Run A) → Bool × Tables → Run A
  placed again halt (false, s) = again s
  placed again halt (true, s) = do stop ← is_done; if stop then halt s else again s

  -- `while(sel->next(fd))`
  abbrev pub sort_event :
      ℕ
      → (Tables → EPollRSelector → Run (Bool × Tables × EPollRSelector))
      → Tables
      → Option Event × EPollRSelector
      → Run (Bool × Tables × EPollRSelector)
  sort_event curr_time again s (none, sel) = pure (true, s, sel)
  sort_event curr_time again s (some e, sel) = do
    delay ← choose_timeout
    placed (λ s'. again s' sel) (λ s'. pure (false, s', sel)) (place curr_time e.fd delay s)

  pub sort_ready : ℕ → ℕ → Tables → EPollRSelector → Run (Bool × Tables × EPollRSelector)
  unfolding place
  sort_ready zero curr_time s sel = out_of_fuel
  sort_ready (suc fuel) curr_time s sel = do
    e ← next sel
    sort_event curr_time (sort_ready fuel curr_time) s e

  -- After a ping that was sent: its time and its count.
  abbrev pub count_ping : ℕ → ℕ → Tables → Tables
  count_ping fd now s = record s {
    last_time = put fd now s.last_time;
    result = record (s.result) { mess_count_for_sock = add_at fd 1 s.result.mess_count_for_sock };
  }

  abbrev pub after_ping : (Tables → Run (Bool × Tables)) → ℕ → Tables → Bool → Run (Bool × Tables)
  after_ping again fd s false = pure (false, s)
  after_ping again fd s true = do now ← get_fast_time os; again (count_ping fd now s)

  -- `for(auto fd: ready_fds)`
  pub ping_all : List ℕ → Tables → Run (Bool × Tables)
  unfolding ping put
  ping_all [] s = pure (true, s)
  ping_all (fd ∷ fds) s = do
    stop ← is_done
    if stop
        then pure (false, s)
        else do sent ← ping os fd message_len; after_ping (ping_all fds) fd s sent

  -- From the test of `done` after the `wait` to the end of the round.
  abbrev pub counted : EPollRSelector → Tables → Tables
  counted sel s = record s {
    result = record (s.result) { mcount = add64 s.result.mcount (ready_count sel) };
  }

  abbrev pub pinged : EPollRSelector → Bool × Tables → Run (Bool × Tables × EPollRSelector)
  pinged sel (go, s) = pure (go, s, sel)

  abbrev pub sorted : Bool × Tables × EPollRSelector → Run (Bool × Tables × EPollRSelector)
  unfolding ping_all
  sorted (false, s, sel) = pure (false, s, sel)
  sorted (true, s, sel) = do r ← ping_all s.ready_fds s; pinged sel r

  -- The time to wait: up to the first `ready_time`, or 100 ms.
  abbrev pub wait_time : List FdTimout → Run ℤ
  unfolding queue_timeout
  wait_time [] = pure (pos (100 * 1000 * 1000))
  wait_time (i ∷ q) = do curr_time ← get_fast_time os; pure (queue_timeout i.ready_time curr_time)

  abbrev pub has_waiting : List FdTimout → Bool
  has_waiting [] = false
  has_waiting (i ∷ q) = true

  abbrev pub awake : ℕ → Tables → Bool × EPollRSelector → Run (Bool × Tables × EPollRSelector)
  unfolding drain sort_ready
  awake fuel s (false, sel) = pure (false, s, sel)
  awake fuel s (true, sel) = do
    curr_time ← get_fast_time os
    let s' = woken curr_time (has_waiting s.wait_queue) s
    stop ← is_done
    if stop
        then pure (false, s', sel)
        else do r ← sort_ready fuel curr_time (counted sel s') sel; sorted r

  -- One round of the `for(;;)`.
  pub round : ℕ → Tables → EPollRSelector → Run (Bool × Tables × EPollRSelector)
  round fuel s sel = do
    timeout ← wait_time s.wait_queue
    w ← wait_ns os fuel timeout sel
    awake fuel (record s { ready_fds = [] }) w

  -- The rounds, up to a return.
  abbrev pub again_or_stop :
      (Tables → EPollRSelector → Run (Tables × EPollRSelector))
      → Bool × Tables × EPollRSelector
      → Run (Tables × EPollRSelector)
  again_or_stop again (false, s, sel) = pure (s, sel)
  again_or_stop again (true, s, sel) = again s sel

  pub worker_loop : ℕ → Tables → EPollRSelector → Run (Tables × EPollRSelector)
  unfolding round
  worker_loop zero s sel = out_of_fuel
  worker_loop (suc fuel) s sel = do r ← round fuel s sel; again_or_stop (worker_loop fuel) r
