-- ===== src/Old/Threads.antt =====
-- old/client.cpp `th_func` and `run_test_th` from the start of the threads on, as steps on what they
-- share: the counters `msg_processed_a`, `started` and `finished`, and the flag `run_lola_run`. A step is
-- one access to them, or one message of a thread; which thread moves is open, and so is how many messages
-- it has. `unsigned long` wraps at 2 ^ 64; the numbers of threads are far below that.
pub mod Invariant
pub mod Outcomes
use network_ping_test.Base.{
  ℕ, suc, ◌+◌, ◌%◌, ◌^◌, ◌≡◌, List, Bool, true, false, length, replicate, All,
}
use network_ping_test.Base.Moves.{Swap}

-- Where `th_func` stands, with its `counter`: before `(*started) += 1`; in the loop on `run_lola_run`; in
-- the loop of messages; after it has added to `msg_processed_a`; after `(*finished) += 1`. A thread that
-- has not been made yet is one that has not moved.
pub data Thread : Type 0 where
  starting waiting : Thread
  pinging counted exited : (counter : ℕ) → Thread

-- Where `run_test_th` stands: in the loop on `started`; before `run_lola_run.store(true)`, when
-- `preparation_done` has been called; in the joins; after them.
pub data Main : Type 0 where
  polling opening joining ended : Main

pub record System : Type 0 where
  pub main : Main
  pub threads : List Thread
  pub msg_processed : ℕ
  pub started : ℕ
  pub finished : ℕ
  pub run_lola_run : Bool

pub data IsExited : Thread → Type 0 where
  left : (counter : ℕ) → IsExited (exited counter)

pub data Step (s : System) : System → Type 0 where
  enter :
      {ts : List Thread}
      → Swap starting waiting s.threads ts
      → Step s (record s { threads = ts; started = suc s.started })
  go :
      {ts : List Thread}
      → s.run_lola_run ≡ true
      → Swap waiting (pinging 0) s.threads ts
      → Step s (record s { threads = ts })
  ping :
      {ts : List Thread} {counter : ℕ}
      → Swap (pinging counter) (pinging ((counter + 1) % 2 ^ 64)) s.threads ts
      → Step s (record s { threads = ts })
  add :
      {ts : List Thread} {counter : ℕ}
      → Swap (pinging counter) (counted counter) s.threads ts
      → Step s (record s { threads = ts; msg_processed = (s.msg_processed + counter) % 2 ^ 64 })
  finish :
      {ts : List Thread} {counter : ℕ}
      → Swap (counted counter) (exited counter) s.threads ts
      → Step s (record s { threads = ts; finished = suc s.finished })
  all_started :
      s.main ≡ polling → s.started ≡ length s.threads → Step s (record s { main = opening })
  release : s.main ≡ opening → Step s (record s { main = joining; run_lola_run = true })
  joined : s.main ≡ joining → All IsExited s.threads → Step s (record s { main = ended })

abbrev pub init : ℕ → System
init n = record {
  main = polling;
  threads = replicate n starting;
  msg_processed = 0;
  started = 0;
  finished = 0;
  run_lola_run = false;
}

pub data Reach (n : ℕ) : System → Type 0 where
  begin : Reach n (init n)
  next : {s t : System} → Reach n s → Step s t → Reach n t
