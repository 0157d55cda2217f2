-- ===== src/Old/Threads/Invariant.antt =====
-- The invariant of the threads, kept by every step.
use network_ping_test.Base.{
  ℕ, zero, suc, ◌+◌, ◌%◌, ◌^◌, ◌≡◌, refl, sym, ◌∙◌, List, [], ◌∷◌, Bool, true, false, length,
  replicate, All, arith, length-replicate, ◌≤◌,
}
use network_ping_test.Base.Moves.{Swap, total, total-Swap, length-Swap, All-Swap, All-moved}
use network_ping_test.Old.Threads.{
  Thread, starting, waiting, counted, exited, Main, polling, opening, joining, ended, System, Step,
  enter, go, ping, add, finish, all_started, release, joined, left, init, Reach, begin, next,
  IsExited,
}
use mathlib.Core.Bool.{false≢true}

abbrev pub registered : Thread → ℕ
registered starting = 0
registered _ = 1

abbrev pub gone : Thread → ℕ
gone (exited k) = 1
gone _ = 0

-- What a thread has added to `msg_processed_a`.
abbrev pub given : Thread → ℕ
given (counted k) = k
given (exited k) = k
given _ = 0

-- A thread that has not got past the loop on `run_lola_run`.
abbrev pub before : Thread → Bool
before starting = true
before waiting = true
before _ = false

abbrev pub IsBefore : Thread → Type 0
IsBefore t = before t ≡ true

abbrev pub IsRegistered : Thread → Type 0
IsRegistered t = registered t ≡ 1

abbrev pub released : Main → Bool
released joining = true
released ended = true
released _ = false

abbrev pub has_ended : Main → Bool
has_ended ended = true
has_ended _ = false

abbrev pub all_seen : Main → Bool
all_seen polling = false
all_seen _ = true

pub record Inv (n : ℕ) (s : System) : Type 0 where
  pub size : length s.threads ≡ n
  pub starts : s.started ≡ total registered s.threads
  pub finishes : s.finished ≡ total gone s.threads
  pub sum : s.msg_processed ≡ total given s.threads % 2 ^ 64
  pub flag : s.run_lola_run ≡ released s.main
  pub shut : released s.main ≡ false → All IsBefore s.threads
  pub seen : all_seen s.main ≡ true → All IsRegistered s.threads
  pub gone_all : has_ended s.main ≡ true → All IsExited s.threads

not_left : {t : Thread} → gone t ≡ 0 → ¬ IsExited t
not_left e (left k) = cc

registered-le : (ts : List Thread) → total registered ts ≤ length ts
registered-le [] = omega arith
registered-le (t ∷ ts) = ground (arith, registered-le ts)

-- If as many have registered as there are, each has.
IsRegistered-of_total : (ts : List Thread) → total registered ts ≡ length ts → All IsRegistered ts
IsRegistered-of_total [] e = tt
IsRegistered-of_total (t ∷ ts) e = ground (arith, registered-le ts, IsRegistered-of_total ts)

module _ {n : ℕ} {s : System} (v : Inv n s) where
  -- A step of one thread that adds `d` to `msg_processed_a`.
  thread-Inv :
      {p q : Thread} {ts : List Thread} (a m f d : ℕ)
      → Swap p q s.threads ts
      → a + registered p ≡ s.started + registered q
      → f + gone p ≡ s.finished + gone q
      → given q ≡ given p + d
      → m ≡ (s.msg_processed + d) % 2 ^ 64
      → registered q ≡ 1
      → gone p ≡ 0
      → (released s.main ≡ false → before p ≡ true → before q ≡ true)
      → Inv n (record s { threads = ts; started = a; msg_processed = m; finished = f })
  thread-Inv {p} {q} a m f d st ea ef eg em reg live bar = record {
    size = omega (arith, length-Swap st, v.size);
    starts = omega (arith, total-Swap registered st, v.starts);
    finishes = omega (arith, total-Swap gone st, v.finishes);
    sum = omega (arith, total-Swap given st, v.sum);
    flag = v.flag;
    shut = λ e. All-Swap IsBefore st (bar e (All-moved IsBefore st (v.shut e))) (v.shut e);
    seen = λ e. All-Swap IsRegistered st reg (v.seen e);
    gone_all = λ e. absurd (not_left live (All-moved IsExited st (v.gone_all e)));
  }

  same_sum : s.msg_processed ≡ (s.msg_processed + 0) % 2 ^ 64
  same_sum = omega (arith, v.sum)

  main-Inv :
      (m : Main) (b : Bool)
      → b ≡ released m
      → (released m ≡ false → All IsBefore s.threads)
      → (all_seen m ≡ true → All IsRegistered s.threads)
      → (has_ended m ≡ true → All IsExited s.threads)
      → Inv n (record s { main = m; run_lola_run = b })
  main-Inv m b f h a j = record {
    size = v.size;
    starts = v.starts;
    finishes = v.finishes;
    sum = v.sum;
    flag = f;
    shut = h;
    seen = a;
    gone_all = j;
  }

total-init : (f : Thread → ℕ) (n : ℕ) → f starting ≡ 0 → total f (replicate n starting) ≡ 0
total-init f zero h = refl
total-init f (suc n) h = omega (arith, total-init f n h)

IsBefore-init : (n : ℕ) → All IsBefore (replicate n starting)
IsBefore-init zero = tt
IsBefore-init (suc n) = (refl, IsBefore-init n)

init-Inv : (n : ℕ) → Inv n (init n)
init-Inv n = record {
  size = length-replicate n starting;
  starts = sym (total-init registered n refl);
  finishes = sym (total-init gone n refl);
  sum = omega (arith, total-init given n refl);
  flag = refl;
  shut = λ e. IsBefore-init n;
  seen = λ e. cc;
  gone_all = λ e. cc;
}

pub Step-Inv : {n : ℕ} {s t : System} → Step s t → Inv n s → Inv n t
Step-Inv {s} (enter st) v =
    thread-Inv v (suc s.started) s.msg_processed s.finished 0 st (omega arith) refl refl
      (same_sum v) refl refl (λ e b. refl)
Step-Inv {s} (go r st) v =
    thread-Inv v s.started s.msg_processed s.finished 0 st refl refl refl (same_sum v) refl refl
      (λ e b. absurd (false≢true (sym e ∙ sym v.flag ∙ r)))
Step-Inv {s} (ping st) v =
    thread-Inv v s.started s.msg_processed s.finished 0 st refl refl refl (same_sum v) refl refl
      (λ e b. cc)
Step-Inv {s} (add {counter} st) v =
    thread-Inv v s.started ((s.msg_processed + counter) % 2 ^ 64) s.finished counter st refl refl
      (omega arith) refl refl refl (λ e b. cc)
Step-Inv {s} (finish {counter} st) v =
    thread-Inv v s.started s.msg_processed (suc s.finished) 0 st refl (omega arith) (omega arith)
      (same_sum v) refl refl (λ e b. cc)
Step-Inv {s} (all_started m e) v =
    main-Inv v opening s.run_lola_run (v.flag ∙ rw m refl) (λ _. v.shut (rw m refl))
      (λ _. IsRegistered-of_total s.threads (sym v.starts ∙ e)) (λ e. cc)
Step-Inv {s} (release m) v =
    main-Inv v joining true refl (λ e. cc) (λ _. v.seen (rw m refl)) (λ e. cc)
Step-Inv {s} (joined m a) v =
    main-Inv v ended s.run_lola_run (v.flag ∙ rw m refl) (λ e. cc) (λ _. v.seen (rw m refl))
      (λ _. a)

pub Reach-Inv : {n : ℕ} {s : System} → Reach n s → Inv n s
Reach-Inv {n} begin = init-Inv n
Reach-Inv (next r st) = Step-Inv st (Reach-Inv r)
