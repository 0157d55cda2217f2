-- ===== src/Server/Barrier/Tests.antt =====
-- Runs of one worker and main.
use network_ping_test.Base.{ℕ, ◌≡◌, refl, [], ◌∷◌, Bool, true, false, All, arith}
use network_ping_test.Base.Moves.{here}
use network_ping_test.Server.Barrier.{
  Worker, waiting, looping, exited, Main, sleeping, stopping, finished, System, enter, lock, unlock,
  leave, sent, write_failed, all_active, release, woken, stop, joined, Reach, begin, next,
}
use network_ping_test.Server.Barrier.Workers.{IsRegistered, IsBefore}
use network_ping_test.Server.Barrier.Invariant.{opened, has_failed, has_joined}
use network_ping_test.Server.Barrier.Outcomes.{barrier_holds, failed_write_hangs}
use network_ping_test.Server.Barrier.Progress.{CanStep, no_deadlock}

abbrev at : Main → Worker → ℕ → Bool → Bool → System
at m w n l d = record { main = m; workers = w ∷ []; active_count = n; locked = l; done = d }

past_barrier : Reach 1 (at sleeping looping 1 false false)
past_barrier =
    next
      (next
        (next (next (next (next begin (enter (here []))) (sent refl)) (all_active refl refl))
          (release refl))
        (lock refl (here [])))
      (unlock (here []))

all_joined : Reach 1 (at (finished false) exited 0 false true)
all_joined =
    next (next (next (next past_barrier (woken refl)) (stop refl)) (leave (here [])))
      (joined refl (refl, tt))

write_lost : Reach 1 (at (stopping true) waiting 1 true false)
write_lost = next (next begin (enter (here []))) (write_failed refl)

failed_write_hangs_example : All IsBefore (waiting ∷ []) × (has_joined (stopping true) ≡ false)
failed_write_hangs_example = failed_write_hangs (omega arith) write_lost refl

no_deadlock_example : CanStep (at sleeping looping 1 false false)
no_deadlock_example = no_deadlock past_barrier refl refl

barrier_holds_example :
    (opened sleeping ≡ true) × (has_failed sleeping ≡ false) × All IsRegistered (looping ∷ [])
barrier_holds_example = barrier_holds 0 past_barrier refl refl
