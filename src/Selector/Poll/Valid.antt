-- ===== src/Selector/Poll/Valid.antt =====
-- The slots of `PollRSelector`: those from `current_free` on are not in use. `next` runs to
-- `fds.end()`, so it relies on their `revents` being 0.
use network_ping_test.Base.{
  ℕ, zero, suc, ◌≤◌, ◌<◌, ◌≡◌, refl, ap, List, [], ◌∷◌, ◌++◌, Option, none, some, true, false,
  length, take, drop, replicate, All, arith, ℕ_discrete, test_eq, test_ne, ◌⊎◌, inl, inr,
}
use network_ping_test.Os.{Os, PollFd, poll, Trace, done}
use network_ping_test.Selector.Poll.{
  PollRSelector, poll_selector, construct, add_fd, wait, modify, watch, report, delivered, cleared,
}
use network_ping_test.Selector.Poll.Loop.{ready_events, put_event, collect-ready_events}
use network_ping_test.Selector.{collect}
use native.Mathlib.Numerals.{add-one}

abbrev pub IsQuiet : PollFd → Type 0
IsQuiet p = p.revents ≡ 0

pub record IsValid (s : PollRSelector) : Type 0 where
  pub free_in : s.current_free ≤ length s.fds
  pub ready_in : s.current_ready ≤ length s.fds
  pub quiet : All IsQuiet (drop s.current_free s.fds)

-- The descriptors that the slots in use hold.
abbrev pub fd_list : Option ℕ → List ℕ → List ℕ
fd_list none ds = ds
fd_list (some d) ds = d ∷ ds

abbrev pub fds_of : List PollFd → List ℕ
fds_of [] = []
fds_of (p ∷ ps) = fd_list p.fd (fds_of ps)

abbrev pub watched : PollRSelector → List ℕ
watched s = fds_of (take s.current_free s.fds)

pub length-modify :
    (ps : List PollFd) (i : ℕ) (f : PollFd → PollFd) → length (modify ps i f) ≡ length ps
length-modify [] i f = refl
length-modify (p ∷ ps) zero f = refl
length-modify (p ∷ ps) (suc i) f = ap suc (length-modify ps i f)

length-report : (n : ℕ) (rs : List ℕ) (ps : List PollFd) → length (report n rs ps) ≡ length ps
length-report zero rs ps = refl
length-report (suc n) rs [] = refl
length-report (suc n) [] (p ∷ ps) = ap suc (length-report n [] ps)
length-report (suc n) (r ∷ rs) (p ∷ ps) = ap suc (length-report n rs ps)

drop-report : (n : ℕ) (rs : List ℕ) (ps : List PollFd) → drop n (report n rs ps) ≡ drop n ps
drop-report zero rs ps = refl
drop-report (suc n) rs [] = refl
drop-report (suc n) [] (p ∷ ps) = drop-report n [] ps
drop-report (suc n) (r ∷ rs) (p ∷ ps) = drop-report n rs ps

fds_of-report :
    (n : ℕ) (rs : List ℕ) (ps : List PollFd) → fds_of (take n (report n rs ps)) ≡ fds_of (take n ps)
fds_of-report zero rs ps = refl
fds_of-report (suc n) rs [] = refl
fds_of-report (suc n) [] (p ∷ ps) = ap (fd_list p.fd) (fds_of-report n [] ps)
fds_of-report (suc n) (r ∷ rs) (p ∷ ps) = ap (fd_list p.fd) (fds_of-report n rs ps)

pub quiet-modify :
    (ps : List PollFd) (n i : ℕ) (f : PollFd → PollFd) → i < n → drop n (modify ps i f) ≡ drop n ps
quiet-modify [] n i f h = refl
quiet-modify (p ∷ ps) zero i f h = absurd (omega arith)
quiet-modify (p ∷ ps) (suc n) zero f h = refl
quiet-modify (p ∷ ps) (suc n) (suc i) f h = quiet-modify ps n i f (omega arith)

IsQuiet-tail : (ps : List PollFd) (n : ℕ) → All IsQuiet (drop n ps) → All IsQuiet (drop (suc n) ps)
IsQuiet-tail [] zero q = q
IsQuiet-tail [] (suc n) q = q
IsQuiet-tail (p ∷ ps) zero q = q.1
IsQuiet-tail (p ∷ ps) (suc n) q = IsQuiet-tail ps n q

fds_of-watch :
    (ps : List PollFd) (n d : ℕ)
    → n < length ps
    → fds_of (take (suc n) (modify ps n (watch d))) ≡ fds_of (take n ps) ++ d ∷ []
fds_of-watch [] n d h = absurd (omega arith)
fds_of-watch (p ∷ ps) zero d h = refl
fds_of-watch (p ∷ ps) (suc n) d h = fd_list_append p.fd _ _ _ (fds_of-watch ps n d (omega arith))
  where
    fd_list_append :
        (o : Option ℕ) (xs ys zs : List ℕ) → xs ≡ ys ++ zs → fd_list o xs ≡ fd_list o ys ++ zs
    fd_list_append none xs ys zs e = e
    fd_list_append (some x) xs ys zs e = ap (◌∷◌ x) e

-- A new selector with `n` slots watches nothing and is valid.
pub construct-IsValid : (n : ℕ) → IsValid (construct n) × (watched (construct n) ≡ [])
unfolding construct
construct-IsValid n =
    (record { free_in = omega arith; ready_in = omega arith; quiet = all_quiet n }, refl)
  where
    all_quiet : (k : ℕ) → All IsQuiet (replicate k cleared)
    all_quiet zero = tt
    all_quiet (suc k) = (refl, all_quiet k)

-- `add_fd` refuses exactly when every slot is in use, and then changes nothing; otherwise the
-- descriptor is watched after those that were. The selector stays valid either way.
pub add_fd-watched :
    (d : ℕ) (s : PollRSelector)
    → IsValid s
    → IsValid (add_fd d s).1
      × (((s.current_free ≡ length s.fds) × (add_fd d s ≡ (false, s)))
          ⊎ ((s.current_free < length s.fds)
              × ((add_fd d s).0 ≡ true)
              × (watched (add_fd d s).1 ≡ watched s ++ d ∷ [])))
unfolding add_fd
add_fd-watched d s v = elim (ℕ_discrete s.current_free (length s.fds)) [
  | yes e ↦ rw (test_eq s.current_free (length s.fds) e) (v, inl (e, refl))
  | no ne ↦ rw (test_ne s.current_free (length s.fds) ne) (
    record {
      free_in = omega (arith, length-modify s.fds s.current_free (watch d), v.free_in);
      ready_in = omega (arith, length-modify s.fds s.current_free (watch d), v.ready_in);
      quiet =
          rw
            (
              add-one,
              quiet-modify s.fds (suc s.current_free) s.current_free (watch d) (omega arith),
            )
            (IsQuiet-tail s.fds s.current_free v.quiet);
    },
    inr (
      omega (arith, v.free_in),
      refl,
      rw add-one (fds_of-watch s.fds s.current_free d (omega (arith, v.free_in))),
    ),
  )
]

-- The state after a `poll` that succeeds.
abbrev pub polled : PollRSelector → List ℕ → PollRSelector
polled s rs = record s { fds = report s.current_free rs s.fds; current_ready = 0 }

polled-IsValid : (s : PollRSelector) (rs : List ℕ) → IsValid s → IsValid (polled s rs)
polled-IsValid s rs v = record {
  free_in = omega (arith, length-report s.current_free rs s.fds, v.free_in);
  ready_in = omega arith;
  quiet = rw (drop-report s.current_free rs s.fds) v.quiet;
}

quiet-events : (ps : List PollFd) → All IsQuiet ps → ready_events ps ≡ []
quiet-events [] q = refl
quiet-events (p ∷ ps) q = rw (q.0) (quiet-events ps q.1)

used-events :
    (n : ℕ) (ps : List PollFd)
    → All IsQuiet (drop n ps)
    → ready_events ps ≡ ready_events (take n ps)
used-events zero ps q = quiet-events ps q
used-events (suc n) [] q = refl
used-events (suc n) (p ∷ ps) q = ap (put_event (delivered p)) (used-events n ps q)

length-ready_events : (ps : List PollFd) → length (ready_events ps) ≤ length ps
length-ready_events [] = omega arith
length-ready_events (p ∷ ps) = ground (arith, length-ready_events ps)

-- A `wait` whose `poll`, over the slots in use, succeeds returns true; the selector is then valid and
-- watches the same descriptors, and the loop over `next` delivers the events of the slots in use that
-- `poll` has marked, each once and in order, and no others, and ends.
pub wait_lem :
    (os : Os) (s : PollRSelector) (t : Trace) (n : ℕ)
    → IsValid s
    → (os (poll (take s.current_free s.fds) ∷ t)).value ≡ some n
    → let s' = polled s (os (poll (take s.current_free s.fds) ∷ t)).revents in
      (wait os s t ≡ (done (true, s'), poll (take s.current_free s.fds) ∷ t))
      × IsValid s'
      × (watched s' ≡ watched s)
      × ((u : Trace)
          → collect poll_selector (suc (length s.fds)) s' u ≡ (
            done (
              ready_events (take s.current_free s'.fds),
              record s' { current_ready = length s'.fds },
            ),
            u,
          ))
unfolding wait
wait_lem os s t n v e = (rw e refl, ok, fds_of-report s.current_free rs s.fds, loop)
  where
    rs : List ℕ
    rs = (os (poll (take s.current_free s.fds) ∷ t)).revents

    ok : IsValid (polled s rs)
    ok = polled-IsValid s rs v

    loop :
        (u : Trace)
        → collect poll_selector (suc (length s.fds)) (polled s rs) u ≡ (
          done (
            ready_events (take s.current_free (polled s rs).fds),
            record s {
              fds = report s.current_free rs s.fds;
              current_ready = length (polled s rs).fds;
            },
          ),
          u,
        )
    loop u = rw (← used-events s.current_free (polled s rs).fds ok.quiet) (
        collect-ready_events (polled s rs) (suc (length s.fds)) u (
          omega
            (arith, length-ready_events (polled s rs).fds, length-report s.current_free rs s.fds)))
