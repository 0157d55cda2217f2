-- ===== src/Selector/Poll/Loop.antt =====
-- What the loop over `next` sees.
use native.Mathlib.Numerals.{add-one}
use native.Mathlib.Nat.{suc-le-suc_iff}
use network_ping_test.Base.{
  Option-cases, inl, inr, ℕ, zero, suc, ◌≤◌, ◌<◌, ◌≡◌, refl, List, [], ◌∷◌, Option, none, some,
  length, drop, arith,
}
use network_ping_test.Os.{Event, PollFd, Trace, done}
use network_ping_test.Selector.{collect, gather}
use network_ping_test.Selector.Poll.{PollRSelector, poll_selector, next, scan, deliver, delivered}

abbrev pub put_event : Option Event → List Event → List Event
put_event none es = es
put_event (some e) es = e ∷ es

-- The events of the slots that deliver one, in the order of the slots.
abbrev pub ready_events : List PollFd → List Event
ready_events [] = []
ready_events (p ∷ ps) = put_event (delivered p) (ready_events ps)

drop-suc :
    (xs : List PollFd) (i : ℕ) (p : PollFd) (ps : List PollFd)
    → drop i xs ≡ p ∷ ps
    → drop (suc i) xs ≡ ps
drop-suc [] zero p ps h = cc
drop-suc [] (suc i) p ps h = cc
drop-suc (x ∷ xs) zero p ps h = ground arith
drop-suc (x ∷ xs) (suc i) p ps h = drop-suc xs i p ps h

-- What the loop does once the `for` of `next` stands at slot `i` of `s`.
abbrev Sweeps : List PollFd → ℕ → PollRSelector → Type 0
Sweeps ps i s =
    (fuel : ℕ) (t : Trace)
    → length (ready_events ps) ≤ fuel
    → gather poll_selector (collect poll_selector fuel) (deliver s (scan ps i)) t
      ≡ (done (ready_events ps, record s { current_ready = length s.fds }), t)

collect-Sweeps :
    (s : PollRSelector) (ps : List PollFd) (t : Trace) (fuel : ℕ)
    → drop s.current_ready s.fds ≡ ps
    → length (ready_events ps) ≤ fuel
    → Sweeps ps s.current_ready s
    → collect poll_selector (suc fuel) s t
      ≡ (done (ready_events ps, record s { current_ready = length s.fds }), t)
unfolding collect next
collect-Sweeps s ps t fuel d f h = rw d (h fuel t f)

module _ (p : PollFd) (ps : List PollFd) (i : ℕ) (s : PollRSelector) where
  skip-Sweeps : delivered p ≡ none → Sweeps ps (suc i) s → Sweeps (p ∷ ps) i s
  unfolding scan
  skip-Sweeps e h fuel t f = rw (e, add-one) (h fuel t (rw e at f))

  hit-Sweeps :
      (e : Event)
      → delivered p ≡ some e
      → drop (suc i) s.fds ≡ ps
      → Sweeps ps (suc i) (record s { current_ready = suc i })
      → Sweeps (p ∷ ps) i s
  unfolding scan
  hit-Sweeps e d rest h zero t f = absurd (omega (arith, rw d at f))
  hit-Sweeps e d rest h (suc fuel) t f =
      rw
        (
          d,
          add-one,
          collect-Sweeps (record s { current_ready = suc i }) ps t fuel rest (le_of_hit d f) h,
        )
        refl
    where
      le_of_hit :
          delivered p ≡ some e
          → length (put_event (delivered p) (ready_events ps)) ≤ suc fuel
          → length (ready_events ps) ≤ fuel
      le_of_hit q g = suc-le-suc_iff.0 (rw q at g)

sweeps : (ps : List PollFd) (i : ℕ) (s : PollRSelector) → drop i s.fds ≡ ps → Sweeps ps i s
unfolding scan
sweeps [] i s d = λ fuel t f. refl
sweeps (p ∷ ps) i s d = elim (Option-cases (delivered p)) [
  | inl e ↦ skip-Sweeps p ps i s e (sweeps ps (suc i) s (drop-suc s.fds i p ps d))
  | inr (x, e) ↦
      hit-Sweeps p ps i s x e (drop-suc s.fds i p ps d)
        (sweeps ps (suc i) (record s { current_ready = suc i }) (drop-suc s.fds i p ps d))
]

-- From slot `current_ready` on, the loop over `next` delivers exactly the slots with `revents` other
-- than 0 and a descriptor other than -1, each once and in order, and then ends. It needs no more rounds
-- than there are such slots, and one.
pub collect-ready_events :
    (s : PollRSelector) (fuel : ℕ) (t : Trace)
    → length (ready_events (drop s.current_ready s.fds)) < fuel
    → collect poll_selector fuel s t ≡ (
      done (ready_events (drop s.current_ready s.fds), record s { current_ready = length s.fds }),
      t,
    )
collect-ready_events s zero t f = absurd (omega arith)
collect-ready_events s (suc fuel) t f =
    collect-Sweeps s (drop s.current_ready s.fds) t fuel refl (omega arith)
      (sweeps (drop s.current_ready s.fds) s.current_ready s refl)
