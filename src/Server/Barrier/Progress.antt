-- ===== src/Server/Barrier/Progress.antt =====
-- The threads do not get stuck unless a `write` has failed.
use network_ping_test.Base.{
  ℕ, ◌≡◌, refl, ◌∙◌, List, [], ◌∷◌, Bool, true, false, All, arith, inl, inr, ◌⊎◌, ap,
}
use network_ping_test.Server.Barrier.{
  Worker, starting, waiting, holding, looping, exited, Main, sending, polling, unlocking, sleeping,
  stopping, joining, finished, System, Step, enter, lock, unlock, leave, sent, all_active, release,
  woken, stop, joined, Reach, IsExited,
}
use network_ping_test.Base.Moves.{pick, Movable}
use network_ping_test.Server.Barrier.Workers.{
  registered, IsRegistered, find_holder, total_of_registered,
}
use network_ping_test.Server.Barrier.Invariant.{Inv, Reach-Inv, opened, has_failed, has_joined}

-- Some step is possible.
abbrev pub CanStep : System → Type 0
CanStep s = (t : System) × Step s t

abbrev is_exited : Worker → Bool
is_exited exited = true
is_exited _ = false

IsExited-of_test : (ws : List Worker) → All (λ w. is_exited w ≡ true) ws → All IsExited ws
IsExited-of_test [] a = tt
IsExited-of_test (w ∷ ws) a = (ground arith, IsExited-of_test ws a.1)

unregistered_lem : (w : Worker) → registered w ≡ false → w ≡ starting
unregistered_lem w h = ground arith

module _ {n : ℕ} {s : System} (v : Inv n s) where
  -- In the loop on `active_count`, a worker still has to register or the test passes.
  polling_step : s.main ≡ polling → CanStep s
  polling_step m = by_pick (pick registered s.workers)
    where
      by_pick :
          All IsRegistered s.workers ⊎ ((p : Worker) × (registered p ≡ false) × Movable p s.workers)
          → CanStep s
      by_pick (inl a) =
          (_, all_active m (v.counted ∙ total_of_registered s.workers a (v.shut (rw m refl)).1))
      by_pick (inr (p, np, move)) =
          let (ws, st) = (rw (unregistered_lem p np) at move) waiting in (_, enter st)

  -- With the barrier open, each worker that has not left can go on, or waits for one that can.
  worker_step :
      opened s.main ≡ true → (p : Worker) → is_exited p ≡ false → Movable p s.workers → CanStep s
  worker_step o starting e move = (_, enter (move waiting).1)
  worker_step o waiting e move = by_lock s.locked refl
    where
      by_lock : (l : Bool) → s.locked ≡ l → CanStep s
      by_lock true q =
          let (ws, st) = find_holder s.workers (rw (v.owned o, q) (omega arith)) looping in
          (_, unlock st)
      by_lock false q = (_, lock q (move holding).1)
  worker_step o holding e move = (_, unlock (move looping).1)
  worker_step o looping e move = (_, leave (move exited).1)
  worker_step o exited e move = cc

  joining_step : s.main ≡ joining false → CanStep s
  joining_step m = by_pick (pick is_exited s.workers)
    where
      by_pick :
          All (λ w. is_exited w ≡ true) s.workers
            ⊎ ((p : Worker) × (is_exited p ≡ false) × Movable p s.workers)
          → CanStep s
      by_pick (inl a) = (_, joined m (IsExited-of_test s.workers a))
      by_pick (inr (p, np, move)) = worker_step (rw m refl) p np move

  main_step : (m : Main) → s.main ≡ m → has_failed m ≡ false → has_joined m ≡ false → CanStep s
  main_step sending e f j = (_, sent e)
  main_step polling e f j = polling_step e
  main_step unlocking e f j = (_, release e)
  main_step sleeping e f j = (_, woken e)
  main_step (stopping failed) e f j = (_, stop e)
  main_step (joining failed) e f j = joining_step (e ∙ ap joining f)
  main_step (finished failed) e f j = cc

-- In every reachable state in which no `write` has failed and main has not finished, some thread can
-- take a step: the start, the barrier and the joins do not deadlock.
pub no_deadlock :
    {n : ℕ} {s : System}
    → Reach n s
    → has_failed s.main ≡ false
    → has_joined s.main ≡ false
    → CanStep s
no_deadlock {s} r f j = main_step (Reach-Inv r) s.main refl f j
