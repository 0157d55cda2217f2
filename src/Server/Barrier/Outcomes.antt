-- ===== src/Server/Barrier/Outcomes.antt =====
-- What holds of the threads in every reachable state.
use mathlib.Core.Bool.{false≢true}
use network_ping_test.Base.{
  ℕ, ◌<◌, ◌≡◌, refl, List, [], ◌∷◌, true, false, length, All, arith, get_elem?, some, Bool-cases,
  inl, inr, sym, ◌∙◌,
}
use network_ping_test.Server.Barrier.{Worker, Main, System, Reach, IsExited}
use network_ping_test.Base.Moves.{total, All-get}
use network_ping_test.Server.Barrier.Workers.{alive, past, IsRegistered, IsBefore}
use network_ping_test.Server.Barrier.Invariant.{
  Inv, Reach-Inv, opened, all_seen, has_failed, has_joined,
}

opened_lem : (m : Main) → opened m ≡ true → (has_failed m ≡ false) × (all_seen m ≡ true)
opened_lem m h = ground arith

failed_lem : (m : Main) → has_failed m ≡ true → opened m ≡ false
failed_lem m h = ground arith

total_exited : (ws : List Worker) → All IsExited ws → total alive ws ≡ 0
total_exited [] a = refl
total_exited (w ∷ ws) a = ground (arith, total_exited ws a.1)

before_exited : (ws : List Worker) → All IsBefore ws → All IsExited ws → length ws ≡ 0
before_exited [] b a = refl
before_exited (w ∷ ws) b a = cc (b.0, a.0)

-- The barrier: in every reachable state in which some worker has got past `run_lola_run.lock()`, main
-- has released the mutex, so no `write` has failed, and every worker has registered in `active_count`.
pub barrier_holds :
    {n : ℕ} {s : System} (i : ℕ) {w : Worker}
    → Reach n s
    → get_elem? s.workers i ≡ some w
    → past w ≡ true
    → (opened s.main ≡ true) × (has_failed s.main ≡ false) × All IsRegistered s.workers
barrier_holds {s} i r at p = elim (Bool-cases (opened s.main)) [
  | inl o ↦ (o, (opened_lem s.main o).0, (Reach-Inv r).seen (opened_lem s.main o).1)
  | inr c ↦ absurd (false≢true (sym (All-get IsBefore s.workers i at ((Reach-Inv r).shut c).1) ∙ p))
]

-- In every reachable state `active_count` is the number of workers that have registered and have not
-- left.
pub active_count_lem : {n : ℕ} {s : System} → Reach n s → s.active_count ≡ total alive s.workers
active_count_lem r = (Reach-Inv r).counted

-- When `main` has joined its workers, in any order of the steps that led there, all of them have left
-- and `active_count` is 0.
pub joined_count_lem :
    {n : ℕ} {s : System}
    → Reach n s
    → has_joined s.main ≡ true
    → All IsExited s.workers × (s.active_count ≡ 0)
joined_count_lem {s} r j =
    let left : All IsExited s.workers = (Reach-Inv r).ended j in
    (left, (Reach-Inv r).counted ∙ total_exited s.workers left)

-- Once a `write` of the first messages has failed, main never unlocks the mutex: in every reachable
-- state after that no worker is past the barrier, none has left, and main has not finished its joins.
pub failed_write_hangs :
    {n : ℕ} {s : System}
    → 0 < n
    → Reach n s
    → has_failed s.main ≡ true
    → All IsBefore s.workers × (has_joined s.main ≡ false)
failed_write_hangs {n} {s} pos r f = elim (Bool-cases (has_joined s.main)) [
  | inl j ↦ absurd (omega (arith, v.size, before_exited s.workers before (v.ended j)))
  | inr j ↦ (before, j)
]
  where
    v : Inv n s
    v = Reach-Inv r

    before : All IsBefore s.workers
    before = (v.shut (failed_lem s.main f)).1
