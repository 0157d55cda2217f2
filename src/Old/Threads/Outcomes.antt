-- ===== src/Old/Threads/Outcomes.antt =====
-- What holds of the threads of the former client in every reachable state.
use mathlib.Core.Bool.{false≢true}
use network_ping_test.Base.{
  ℕ, ◌%◌, ◌^◌, ◌≡◌, refl, sym, ◌∙◌, ap, List, [], ◌∷◌, Bool, true, false, length, All, arith,
  get_elem?, some, Bool-cases, inl, inr, ◌⊎◌,
}
use network_ping_test.Base.Moves.{total, All-get, pick, Movable}
use network_ping_test.Old.Threads.{
  Thread, starting, waiting, pinging, counted, exited, Main, polling, opening, joining, ended,
  System, Step, enter, go, add, finish, all_started, release, joined, left, Reach, IsExited,
}
use network_ping_test.Old.Threads.Invariant.{
  Inv, Reach-Inv, registered, gone, given, before, IsBefore, IsRegistered, released, has_ended,
  all_seen,
}

-- The messages that a thread has counted.
abbrev pub messages : Thread → ℕ
messages (pinging k) = k
messages (counted k) = k
messages (exited k) = k
messages _ = 0

given_all : (ts : List Thread) → All IsExited ts → total given ts ≡ total messages ts
given_all [] a = refl
given_all (_ ∷ ts) (left k, a) = omega (arith, given_all ts a)

gone_all : (ts : List Thread) → All IsExited ts → total gone ts ≡ length ts
gone_all [] a = refl
gone_all (_ ∷ ts) (left k, a) = omega (arith, gone_all ts a)

registered_all : (ts : List Thread) → All IsRegistered ts → total registered ts ≡ length ts
registered_all [] a = refl
registered_all (t ∷ ts) a = omega (arith, a.0, registered_all ts a.1)

-- When `run_test_th` has joined its threads, whatever the order of the steps was, `msg_processed_a` is the
-- sum of the messages that the threads have counted, modulo 2 ^ 64, and all have started and finished.
pub joined_sum :
    {n : ℕ} {s : System}
    → Reach n s
    → has_ended s.main ≡ true
    → All IsExited s.threads
      × (s.msg_processed ≡ total messages s.threads % 2 ^ 64)
      × (s.started ≡ n)
      × (s.finished ≡ n)
joined_sum {n} {s} r e = (
  exits,
  v.sum ∙ ap (λ k. k % 2 ^ 64) (given_all s.threads exits),
  omega (arith, v.starts, v.size, registered_all s.threads (v.seen (seen_of s.main e))),
  omega (arith, v.finishes, v.size, gone_all s.threads exits),
)
  where
    v : Inv n s
    v = Reach-Inv r

    exits : All IsExited s.threads
    exits = v.gone_all e

    seen_of : (m : Main) → has_ended m ≡ true → all_seen m ≡ true
    seen_of m h = ground arith

-- In every reachable state in which some thread is past its loop on `run_lola_run`, the main thread has
-- set that flag, which it does after `preparation_done`, and every thread has started.
pub no_early_ping :
    {n : ℕ} {s : System} (i : ℕ) {t : Thread}
    → Reach n s
    → get_elem? s.threads i ≡ some t
    → before t ≡ false
    → (s.run_lola_run ≡ true) × (released s.main ≡ true) × All IsRegistered s.threads
no_early_ping {n} {s} i r at p = elim (Bool-cases (released s.main)) [
  | inl o ↦ (v.flag ∙ o, o, v.seen (seen_of s.main o))
  | inr c ↦ absurd (false≢true (sym p ∙ All-get IsBefore s.threads i at (v.shut c)))
]
  where
    v : Inv n s
    v = Reach-Inv r

    seen_of : (m : Main) → released m ≡ true → all_seen m ≡ true
    seen_of m h = ground arith

-- Some step is possible.
abbrev pub CanStep : System → Type 0
CanStep s = (t : System) × Step s t

abbrev is_registered : Thread → Bool
is_registered starting = false
is_registered _ = true

abbrev is_exited : Thread → Bool
is_exited (exited k) = true
is_exited _ = false

IsExited-of_test : (ts : List Thread) → All (λ t. is_exited t ≡ true) ts → All IsExited ts
IsExited-of_test [] a = tt
IsExited-of_test (exited k ∷ ts) a = (left k, IsExited-of_test ts a.1)
IsExited-of_test (starting ∷ ts) a = cc a.0
IsExited-of_test (waiting ∷ ts) a = cc a.0
IsExited-of_test (pinging k ∷ ts) a = cc a.0
IsExited-of_test (counted k ∷ ts) a = cc a.0

total_of_test :
    (ts : List Thread) → All (λ t. is_registered t ≡ true) ts → total registered ts ≡ length ts
total_of_test [] a = refl
total_of_test (t ∷ ts) a = ground (arith, total_of_test ts a.1)

module _ {n : ℕ} {s : System} (v : Inv n s) where
  -- With the flag set, each thread that has not left can go on.
  thread_step :
      s.run_lola_run ≡ true → (t : Thread) → is_exited t ≡ false → Movable t s.threads → CanStep s
  thread_step o starting e move = (_, enter (move waiting).1)
  thread_step o waiting e move = (_, go o (move (pinging 0)).1)
  thread_step o (pinging k) e move = (_, add (move (counted k)).1)
  thread_step o (counted k) e move = (_, finish (move (exited k)).1)
  thread_step o (exited k) e move = cc

  joining_step : s.main ≡ joining → CanStep s
  joining_step m = by_pick (pick is_exited s.threads)
    where
      by_pick :
          All (λ t. is_exited t ≡ true) s.threads
            ⊎ ((p : Thread) × (is_exited p ≡ false) × Movable p s.threads)
          → CanStep s
      by_pick (inl a) = (_, joined m (IsExited-of_test s.threads a))
      by_pick (inr (p, np, move)) = thread_step (v.flag ∙ rw m refl) p np move

  polling_step : s.main ≡ polling → CanStep s
  polling_step m = by_pick (pick is_registered s.threads)
    where
      only_starting : (t : Thread) → is_registered t ≡ false → t ≡ starting
      only_starting t h = ground arith

      by_pick :
          All (λ t. is_registered t ≡ true) s.threads
            ⊎ ((p : Thread) × (is_registered p ≡ false) × Movable p s.threads)
          → CanStep s
      by_pick (inl a) = (_, all_started m (v.starts ∙ total_of_test s.threads a))
      by_pick (inr (p, np, move)) =
          let (ws, st) = (rw (only_starting p np) at move) waiting in (_, enter st)

  main_step : (m : Main) → s.main ≡ m → has_ended m ≡ false → CanStep s
  main_step polling e h = polling_step e
  main_step opening e h = (_, release e)
  main_step joining e h = joining_step e
  main_step ended e h = cc

-- In every reachable state before the end of the joins some thread can take a step: the start and the
-- joins do not deadlock.
pub threads_progress : {n : ℕ} {s : System} → Reach n s → has_ended s.main ≡ false → CanStep s
threads_progress {s} r e = main_step (Reach-Inv r) s.main refl e
