-- ===== src/Wait.antt =====
-- common.h `EventsList`, `get_fast_time`; common.cpp `epoll_wait_ex`: a wait with a timeout in
-- nanoseconds over `epoll_wait`, which takes milliseconds. The `for(;;)` runs on fuel, a round of the
-- loop for each unit. `unsigned long` wraps at 2 ^ 64; `long` differences are exact, which they are in
-- C++ before the year 2262. The conversion of the milliseconds to `int` is exact up to 24 days.
pub mod Result
pub mod Deadline
pub mod Quiet
mod Tests
use network_ping_test.Base.{
  ℕ, zero, suc, ◌+◌, ◌-◌, ◌*◌, ◌/◌, ◌%◌, ◌^◌, List, [], ◌∷◌, Option, none, some, Bool, true, false,
  not, ◌&&◌, leb, ltb, ◌==◌, if◌then◌else◌, length,
}
use network_ping_test.Base.Int.{ℤ, pos, negsuc, pos_part, neg_part, sub_ℕ, ◌+ℤ◌, ◌-ℤ◌, leb_ℤ}
use network_ping_test.Os.{
  Os, Event, Reply, Run, Outcome, done, more, fault, Call, clock_gettime, epoll_wait, ◌>>=◌,
  continue, pure, out_of_fuel, call, einterrupted,
}

-- `num_ready` is `none` for -1.
pub record EventsList : Type 0 where
  pub events : List Event
  pub num_ready : Option ℕ
  pub recv_time : ℕ

abbrev pub billion : ℕ
billion = 1000 * 1000 * 1000

-- The value of `get_fast_time` when the kernel's reply is `r`.
abbrev pub nanoseconds : Reply → ℕ
nanoseconds r = elim r.value [ none ↦ 0 | some _ ↦ (r.nsec + r.sec * billion % 2 ^ 64) % 2 ^ 64 ]

unfoldable pub get_fast_time : Os → Run ℕ
get_fast_time os = do r ← call os clock_gettime; pure (nanoseconds r)

-- `(long int)u`
abbrev pub to_long : ℕ → ℤ
to_long u = if ltb u (2 ^ 63) then pos u else negsuc (2 ^ 64 - 1 - u)

-- `(unsigned long)z` for a `long` z
abbrev pub to_unsigned : ℤ → ℕ
to_unsigned (pos n) = n % 2 ^ 64
to_unsigned (negsuc n) = (2 ^ 64 - 1 - n) % 2 ^ 64

-- `timeout_ns == -1`
abbrev pub is_infinite : ℤ → Bool
is_infinite (negsuc zero) = true
is_infinite _ = false

-- `z / 1000000`, rounded towards 0
abbrev pub to_millis : ℤ → ℤ
to_millis (pos n) = pos (n / 1000000)
to_millis (negsuc n) = sub_ℕ 0 (suc n / 1000000)

abbrev pub poll_timeout : ℤ → ℤ → ℤ
poll_timeout timeout_ns time_left = if is_infinite timeout_ns then negsuc 0 else to_millis time_left

-- `epoll_wait` writes the events that it reports over the first places of the array.
abbrev pub overlay : List Event → List Event → List Event
overlay [] buffer = buffer
overlay (e ∷ es) [] = []
overlay (e ∷ es) (_ ∷ buffer) = e ∷ overlay es buffer

abbrev pub received : EventsList → Reply → EventsList
received ready r = record ready { events = overlay r.events ready.events; num_ready = r.value }

-- What the tests after `epoll_wait` decide: `return`, or `continue` with the list as it is then.
pub data Verdict : Type 0 where
  finished : Bool → EventsList → Verdict
  again : EventsList → Verdict

-- The tests, on the count, on `errno` and on the time `now` that is read after the call.
unfoldable pub judge : ℕ → ℕ → Reply → EventsList → Verdict
judge return_time now r ready = elim r.value [
  | none ↦
      if r.errno == einterrupted
      then again (record (received ready r) { num_ready = some 0 })
      else finished false (received ready r)
  | some zero ↦
      if leb return_time now then finished true (received ready r) else again (received ready r)
  | some (suc n) ↦ finished true (record (received ready r) { recv_time = now })
]

abbrev pub resume : (EventsList → Run (Bool × EventsList)) → Verdict → Run (Bool × EventsList)
resume loop (finished b ready) = pure (b, ready)
resume loop (again ready) = loop ready

-- `time_left <= 0 && timeout_ns != -1`
abbrev pub expired : ℤ → ℕ → ℕ → Bool
expired timeout_ns return_time curr_time =
    leb_ℤ (to_long return_time -ℤ to_long curr_time) (pos 0) && not (is_infinite timeout_ns)

-- `time_left` when `epoll_wait` is called
abbrev pub time_left : ℤ → ℕ → ℕ → ℤ
time_left timeout_ns return_time curr_time =
    if expired timeout_ns return_time curr_time
    then pos 0
    else to_long return_time -ℤ to_long curr_time

module _ (os : Os) (efd : Option ℕ) (timeout_ns : ℤ) (return_time : ℕ) where
  -- The loop, at the values of its variables when a round begins.
  unfoldable pub wait_loop : ℕ → Bool → ℕ → EventsList → Run (Bool × EventsList)
  unfolding get_fast_time judge
  wait_loop zero already_polled curr_time ready = out_of_fuel
  wait_loop (suc fuel) already_polled curr_time ready =
      if expired timeout_ns return_time curr_time && already_polled then pure (true, ready) else do
        r ← call os (
            epoll_wait efd (length ready.events)
              (poll_timeout timeout_ns (time_left timeout_ns return_time curr_time)))
        now ← get_fast_time os
        resume (wait_loop fuel true now) (judge return_time now r ready)

unfoldable pub epoll_wait_ex : Os → ℕ → Option ℕ → EventsList → ℤ → Run (Bool × EventsList)
unfolding get_fast_time
epoll_wait_ex os fuel efd ready timeout_ns = do
  curr_time ← get_fast_time os
  let return_time = (curr_time + to_unsigned timeout_ns) % 2 ^ 64
  wait_loop os efd timeout_ns return_time fuel false curr_time (record ready { num_ready = some 0 })
