-- ===== src/Server/Barrier.antt =====
-- server.cpp: how the main thread of `run_test` and its worker threads meet. `Sync` holds the flag
-- `done`, the mutex `run_lola_run`, which serves as a barrier, and the counter `active_count`; a step is
-- one access to them. What a worker does in its loop, and the time that main sleeps, are left open: a
-- worker may leave the loop at any point, as it does when `done` is set or a call fails, and main may
-- stop sleeping at any point. A thread that has not been spawned yet is one that has not moved.
pub mod Workers
pub mod Invariant
pub mod Outcomes
pub mod Progress
mod Tests
use network_ping_test.Base.Moves.{Swap}
use network_ping_test.Base.{
  ℕ, suc, ◌+◌, ◌-◌, ◌≡◌, List, [], ◌∷◌, Bool, true, false, length, replicate, All,
}

-- Where `worker_thread` stands: before `active_count++`; before `run_lola_run.lock()`; between `lock`
-- and `unlock`; in its loop; after `~DecOnExit`.
pub data Worker : Type 0 where
  starting waiting holding looping exited : Worker

-- Where `run_test` stands from the first `write` on: in the loop of writes; in `while
-- (active_count != worker_threads)`; before `run_lola_run.unlock()`; in the sleeps; before
-- `done.store(true)`; in the joins; after them. From `stopping` on the state keeps `failed`.
pub data Main : Type 0 where
  sending polling unlocking sleeping : Main
  stopping joining finished : (failed : Bool) → Main

pub record System : Type 0 where
  pub main : Main
  pub workers : List Worker
  pub active_count : ℕ
  pub locked : Bool
  pub done : Bool

abbrev pub IsExited : Worker → Type 0
IsExited w = w ≡ exited

pub data Step (s : System) : System → Type 0 where
  enter :
      {ws : List Worker}
      → Swap starting waiting s.workers ws
      → Step s (record s { workers = ws; active_count = suc s.active_count })
  lock :
      {ws : List Worker}
      → s.locked ≡ false
      → Swap waiting holding s.workers ws
      → Step s (record s { workers = ws; locked = true })
  unlock :
      {ws : List Worker}
      → Swap holding looping s.workers ws
      → Step s (record s { workers = ws; locked = false })
  leave :
      {ws : List Worker}
      → Swap looping exited s.workers ws
      → Step s (record s { workers = ws; active_count = s.active_count - 1 })
  sent : s.main ≡ sending → Step s (record s { main = polling })
  write_failed : s.main ≡ sending → Step s (record s { main = stopping true })
  all_active :
      s.main ≡ polling → s.active_count ≡ length s.workers → Step s (record s { main = unlocking })
  release : s.main ≡ unlocking → Step s (record s { main = sleeping; locked = false })
  woken : s.main ≡ sleeping → Step s (record s { main = stopping false })
  stop :
      {failed : Bool}
      → s.main ≡ stopping failed
      → Step s (record s { main = joining failed; done = true })
  joined :
      {failed : Bool}
      → s.main ≡ joining failed
      → All IsExited s.workers
      → Step s (record s { main = finished failed })

-- The state when main begins to write: it has locked `run_lola_run`.
abbrev pub init : ℕ → System
init n = record {
  main = sending;
  workers = replicate n starting;
  active_count = 0;
  locked = true;
  done = false;
}

pub data Reach (n : ℕ) : System → Type 0 where
  begin : Reach n (init n)
  next : {s t : System} → Reach n s → Step s t → Reach n t
