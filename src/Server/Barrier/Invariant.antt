-- ===== src/Server/Barrier/Invariant.antt =====
-- The invariant of the barrier, kept by every step.
use network_ping_test.Base.{
  ℕ, zero, suc, ◌+◌, ◌-◌, ◌≤◌, ◌≡◌, refl, List, Bool, true, false, not, length, replicate, All,
  arith, if◌then◌else◌, length-replicate, sym, ◌∙◌, ◌≢◌,
}
use network_ping_test.Base.Moves.{Swap}
use network_ping_test.Server.Barrier.{
  Worker, starting, waiting, holding, looping, exited, Main, polling, unlocking, sleeping, stopping,
  joining, finished, System, Step, enter, lock, unlock, leave, sent, write_failed, all_active,
  release, woken, stop, joined, init, Reach, begin, next, IsExited,
}
use network_ping_test.Base.Moves.{total, total-Swap, length-Swap, All-Swap, All-moved}
use network_ping_test.Server.Barrier.Workers.{
  alive, holds, IsRegistered, IsBefore, IsRegistered-of_total, past, registered, total_before,
}

-- Whether main has released the mutex.
abbrev pub opened : Main → Bool
opened sleeping = true
opened (stopping failed) = not failed
opened (joining failed) = not failed
opened (finished failed) = not failed
opened _ = false

-- Whether the loop of writes failed.
abbrev pub has_failed : Main → Bool
has_failed (stopping failed) = failed
has_failed (joining failed) = failed
has_failed (finished failed) = failed
has_failed _ = false

-- Whether main has seen all workers active.
abbrev pub all_seen : Main → Bool
all_seen unlocking = true
all_seen m = opened m

abbrev pub has_joined : Main → Bool
has_joined (finished _) = true
has_joined _ = false

pub record Inv (n : ℕ) (s : System) : Type 0 where
  pub size : length s.workers ≡ n
  pub counted : s.active_count ≡ total alive s.workers
  pub shut : opened s.main ≡ false → (s.locked ≡ true) × All IsBefore s.workers
  pub seen : all_seen s.main ≡ true → All IsRegistered s.workers
  pub owned : opened s.main ≡ true → total holds s.workers ≡ (if s.locked then 1 else 0)
  pub ended : has_joined s.main ≡ true → All IsExited s.workers

abbrev held : Bool → ℕ
held l = if l then 1 else 0

held-le : (l : Bool) → held l ≤ 1
held-le true = omega arith
held-le false = omega arith

module _ {n : ℕ} {s : System} (v : Inv n s) where
  -- A step of one worker, with the counter and the mutex as it leaves them.
  worker-Inv :
      {p q : Worker} {ws : List Worker} (a : ℕ) (l : Bool)
      → Swap p q s.workers ws
      → a + alive p ≡ s.active_count + alive q
      → registered q ≡ true
      → p ≢ exited
      → (s.locked ≡ true → past p ≡ false → (past q ≡ false) × (l ≡ true))
      → (opened s.main ≡ true
          → total holds s.workers ≡ held s.locked
          → held l + holds p ≡ held s.locked + holds q)
      → Inv n (record s { workers = ws; active_count = a; locked = l })
  worker-Inv {p} {q} a l st count reg live before mutex = record {
    size = omega (arith, length-Swap st, v.size);
    counted = omega (arith, total-Swap alive st, v.counted, count);
    shut = λ e.
        let (lk, all) = v.shut e in
        let (bq, lk') = before lk (All-moved IsBefore st all) in (lk', All-Swap IsBefore st bq all);
    seen = λ e. All-Swap IsRegistered st reg (v.seen e);
    owned = λ e. omega (arith, total-Swap holds st, v.owned e, mutex e (v.owned e));
    ended = λ e. absurd (live (All-moved IsExited st (v.ended e)));
  }

  enter-Inv :
      {ws : List Worker}
      → Swap starting waiting s.workers ws
      → Inv n (record s { workers = ws; active_count = suc s.active_count })
  enter-Inv st =
      worker-Inv (suc s.active_count) s.locked st (omega arith) refl (λ e. cc) (λ l b. (refl, l))
        (λ e h. refl)

  lock-Inv :
      {ws : List Worker}
      → s.locked ≡ false
      → Swap waiting holding s.workers ws
      → Inv n (record s { workers = ws; locked = true })
  lock-Inv free st =
      worker-Inv s.active_count true st refl refl (λ e. cc) (λ l b. cc) (λ e h. rw free refl)

  unlock-Inv :
      {ws : List Worker}
      → Swap holding looping s.workers ws
      → Inv n (record s { workers = ws; locked = false })
  unlock-Inv st =
      worker-Inv s.active_count false st refl refl (λ e. cc) (λ l b. cc)
        (λ e h. omega (arith, h, total-Swap holds st, held-le s.locked))

  leave-Inv :
      {ws : List Worker}
      → Swap looping exited s.workers ws
      → Inv n (record s { workers = ws; active_count = s.active_count - 1 })
  leave-Inv st =
      worker-Inv (s.active_count - 1) s.locked st (omega (arith, total-Swap alive st, v.counted))
        refl (λ e. cc) (λ l b. cc) (λ e h. refl)

init-total : (f : Worker → ℕ) (n : ℕ) → f starting ≡ 0 → total f (replicate n starting) ≡ 0
init-total f zero h = refl
init-total f (suc n) h = omega (arith, init-total f n h)

init-IsBefore : (n : ℕ) → All IsBefore (replicate n starting)
init-IsBefore zero = tt
init-IsBefore (suc n) = (refl, init-IsBefore n)

init-Inv : (n : ℕ) → Inv n (init n)
init-Inv n = record {
  size = length-replicate n starting;
  counted = sym (init-total alive n refl);
  shut = λ _. (refl, init-IsBefore n);
  seen = λ e. cc;
  owned = λ e. cc;
  ended = λ e. cc;
}

-- The steps of main.
module _ {n : ℕ} {s : System} (v : Inv n s) where
  main_stays :
      (m : Main) (d : Bool)
      → opened m ≡ opened s.main
      → (all_seen m ≡ true → All IsRegistered s.workers)
      → (has_joined m ≡ true → All IsExited s.workers)
      → Inv n (record s { main = m; done = d })
  main_stays m d o a j = record {
    size = v.size;
    counted = v.counted;
    shut = λ e. v.shut (sym o ∙ e);
    seen = a;
    owned = λ e. v.owned (sym o ∙ e);
    ended = j;
  }

  -- While main holds the mutex no worker does.
  release-Inv : s.main ≡ unlocking → Inv n (record s { main = sleeping; locked = false })
  release-Inv m = record {
    size = v.size;
    counted = v.counted;
    shut = λ e. cc;
    seen = λ _. v.seen (rw m refl);
    owned = λ _. total_before s.workers (v.shut (rw m refl)).1;
    ended = λ e. cc;
  }

-- Every step keeps the invariant.
pub Step-Inv : {n : ℕ} {s t : System} → Step s t → Inv n s → Inv n t
Step-Inv (enter st) v = enter-Inv v st
Step-Inv (lock e st) v = lock-Inv v e st
Step-Inv (unlock st) v = unlock-Inv v st
Step-Inv (leave st) v = leave-Inv v st
Step-Inv {s} (sent m) v = main_stays v polling s.done (rw m refl) (λ e. cc) (λ e. cc)
Step-Inv {s} (write_failed m) v =
    main_stays v (stopping true) s.done (rw m refl) (λ e. cc) (λ e. cc)
Step-Inv {s} (all_active m e) v =
    main_stays v unlocking s.done (rw m refl)
      (λ _. IsRegistered-of_total s.workers (sym v.counted ∙ e)) (λ e. cc)
Step-Inv {s} (release m) v = release-Inv v m
Step-Inv {s} (woken m) v =
    main_stays v (stopping false) s.done (rw m refl) (λ _. v.seen (rw m refl)) (λ e. cc)
Step-Inv {s} (stop {failed} m) v =
    main_stays v (joining failed) true (rw m refl) (λ e. v.seen (rw m e)) (λ e. cc)
Step-Inv {s} (joined {failed} m a) v =
    main_stays v (finished failed) s.done (rw m refl) (λ e. v.seen (rw m e)) (λ _. a)

pub Reach-Inv : {n : ℕ} {s : System} → Reach n s → Inv n s
Reach-Inv {n} begin = init-Inv n
Reach-Inv (next r st) = Step-Inv st (Reach-Inv r)
