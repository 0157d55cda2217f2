-- ===== src/Selector/Poll/Removed.antt =====
-- What `remove_current_ready` does after a `next` that has delivered an event.
use network_ping_test.Base.{
  Option-cases, inl, inr, ℕ, zero, suc, ◌+◌, ◌<◌, ◌≡◌, refl, ap, List, [], ◌∷◌, ◌++◌, Option, none,
  some, length, drop, take, arith, All, ◌==◌, Bool-cases,
}
use network_ping_test.Os.{Event, PollFd, Trace, done}
use network_ping_test.Selector.Poll.{
  PollRSelector, next, scan, deliver, delivered, modify, drop_fd, remove_current_ready,
}
use network_ping_test.Selector.Poll.Valid.{
  length-modify, quiet-modify, IsQuiet, IsValid, fds_of, fd_list, watched,
}

-- The slot of index `i` delivers `e`.
abbrev pub Holds : ℕ → Event → List PollFd → Type 0
Holds i e [] = ⊥
Holds zero e (p ∷ ps) = delivered p ≡ some e
Holds (suc i) e (p ∷ ps) = Holds i e ps

abbrev event_of : Option (Event × ℕ) → Option Event
event_of none = none
event_of (some (e, i)) = some e

abbrev place_of : Option (Event × ℕ) → ℕ
place_of none = 0
place_of (some (e, i)) = i

place-eq :
    (i j : ℕ) (x e : Event) → ◌≡◌ {A = Option (Event × ℕ)} (some (x, i)) (some (e, j)) → j ≡ i + 0
place-eq i j x e h = let q : i ≡ j = ap place_of h in omega (arith, q)

scan-Holds :
    (ps : List PollFd) (i j : ℕ) (e : Event)
    → scan ps i ≡ some (e, j)
    → (k : ℕ) × (j ≡ i + k) × Holds k e ps
unfolding scan
scan-Holds [] i j e h = cc
scan-Holds (p ∷ ps) i j e h = elim (Option-cases (delivered p)) [
  | inl d ↦ let (k, q, r) = scan-Holds ps (i + 1) j e (rw d at h) in (suc k, omega (arith, q), r)
  | inr (x, d) ↦ (zero, place-eq i j x e (rw d at h), rw d (ap event_of (rw d at h)))
]

Holds-drop :
    (c k : ℕ) (e : Event) (ps : List PollFd)
    → Holds k e (drop c ps)
    → (i : ℕ) × (i ≡ c + k) × Holds i e ps
Holds-drop zero k e ps h = (k, omega arith, h)
Holds-drop (suc c) k e [] h = absurd h
Holds-drop (suc c) k e (p ∷ ps) h =
    let (i, q, g) = Holds-drop c k e ps h in (suc i, omega (arith, q), g)

delivered-marked : (p : PollFd) (e : Event) → IsQuiet p → delivered p ≡ some e → ⊥
delivered-marked p e q d = let c : none ≡ some e = rw q at d in cc

Holds-used :
    (n k : ℕ) (e : Event) (ps : List PollFd) → All IsQuiet (drop n ps) → Holds k e ps → k < n
Holds-used n k e [] q h = absurd h
Holds-used zero zero e (p ∷ ps) q h = absurd (delivered-marked p e q.0 h)
Holds-used zero (suc k) e (p ∷ ps) q h = absurd (omega (arith, Holds-used zero k e ps q.1 h))
Holds-used (suc n) zero e (p ∷ ps) q h = omega arith
Holds-used (suc n) (suc k) e (p ∷ ps) q h = omega (arith, Holds-used n k e ps q h)

abbrev fd_of : Option Event → Option ℕ
fd_of none = none
fd_of (some e) = some e.fd

delivered-fd : (p : PollFd) (e : Event) → delivered p ≡ some e → p.fd ≡ some e.fd
delivered-fd p e d = elim (Bool-cases (p.revents == 0)) [
  | inl z ↦ let c : none ≡ some e = rw z at d in cc
  | inr z ↦ by_fd p.fd (rw z at d)
]
  where
    by_fd :
        (o : Option ℕ)
        → elim o [ none ↦ none | some fd ↦ some (record { fd = fd; flags = p.revents }) ] ≡ some e
        → o ≡ some e.fd
    by_fd none c = cc
    by_fd (some fd) c = ap fd_of c

-- The descriptors `xs` are `ys` and, at one place, `d`.
abbrev pub Without : ℕ → List ℕ → List ℕ → Type 0
Without d xs ys = (l : List ℕ) × (r : List ℕ) × (xs ≡ l ++ d ∷ r) × (ys ≡ l ++ r)

Without-tail :
    (o : Option ℕ) (d : ℕ) (xs ys : List ℕ)
    → Without d xs ys
    → Without d (fd_list o xs) (fd_list o ys)
Without-tail none d xs ys w = w
Without-tail (some x) d xs ys (l, r, p, q) = (x ∷ l, r, ap (◌∷◌ x) p, ap (◌∷◌ x) q)

fds_of-drop_fd :
    (n k : ℕ) (e : Event) (ps : List PollFd)
    → k < n
    → Holds k e ps
    → Without e.fd (fds_of (take n ps)) (fds_of (take n (modify ps k drop_fd)))
fds_of-drop_fd n k e [] l h = absurd h
fds_of-drop_fd zero k e (p ∷ ps) l h = absurd (omega arith)
fds_of-drop_fd (suc n) zero e (p ∷ ps) l h =
    rw (delivered-fd p e h) ([], fds_of (take n ps), refl, refl)
fds_of-drop_fd (suc n) (suc k) e (p ∷ ps) l h =
    Without-tail p.fd e.fd (fds_of (take n ps)) (fds_of (take n (modify ps k drop_fd)))
      (fds_of-drop_fd n k e ps (omega arith) h)

-- After a `next`: the selector is valid and watches what it watched, and the slot before
-- `current_ready`, if there is an event, is one in use that delivers it.
abbrev pub Found : PollRSelector → Option Event × PollRSelector → Type 0
Found s (none, s') = IsValid s' × (watched s' ≡ watched s)
Found s (some e, s') =
    IsValid s'
    × (watched s' ≡ watched s)
    × ((k : ℕ) × (s'.current_ready ≡ suc k) × (k < s'.current_free) × Holds k e s'.fds)

length-Holds : (k : ℕ) (e : Event) (ps : List PollFd) → Holds k e ps → k < length ps
length-Holds k e [] h = absurd h
length-Holds zero e (p ∷ ps) h = omega arith
length-Holds (suc k) e (p ∷ ps) h = omega (arith, length-Holds k e ps h)

-- What the slots in use have to do with the result of `next`.
pub next-Found : (s : PollRSelector) → IsValid s → Found s (next s)
unfolding next
next-Found s v = by_scan (scan (drop s.current_ready s.fds) s.current_ready) refl
  where
    by_scan :
        (r : Option (Event × ℕ))
        → scan (drop s.current_ready s.fds) s.current_ready ≡ r
        → Found s (deliver s r)
    by_scan none q = (record { free_in = v.free_in; ready_in = omega arith; quiet = v.quiet }, refl)
    by_scan (some (e, j)) q =
        let (k, jk, h) = scan-Holds (drop s.current_ready s.fds) s.current_ready j e q in
        let (i, ik, g) = Holds-drop s.current_ready k e s.fds h in
        (
          record {
            free_in = v.free_in;
            ready_in = omega (arith, jk, ik, length-Holds i e s.fds g);
            quiet = v.quiet;
          },
          refl,
          (i, omega (arith, jk, ik), Holds-used s.current_free i e s.fds v.quiet g, g),
        )

-- The selector without the descriptor of the slot `k`.
abbrev pub removed : ℕ → PollRSelector → PollRSelector
removed k s = record s { fds = modify s.fds k drop_fd }

removed-IsValid :
    (k : ℕ) (s : PollRSelector) → IsValid s → k < s.current_free → IsValid (removed k s)
removed-IsValid k s v l = record {
  free_in = rw (length-modify s.fds k drop_fd) v.free_in;
  ready_in = rw (length-modify s.fds k drop_fd) v.ready_in;
  quiet = rw (quiet-modify s.fds s.current_free k drop_fd l) v.quiet;
}

-- What a `next` on a valid selector finds, it can remove: if it delivers an event,
-- `remove_current_ready` after it has no undefined behaviour, makes no call, leaves the selector
-- valid, and takes the event's descriptor, once, off the descriptors that were watched, and no
-- other.
pub next-remove_current_ready :
    (s s' : PollRSelector) (e : Event) (t : Trace)
    → IsValid s
    → next s ≡ (some e, s')
    → (r : PollRSelector) × (remove_current_ready s' t ≡ (done r, t))
      × IsValid r
      × Without e.fd (watched s) (watched r)
unfolding remove_current_ready
next-remove_current_ready s s' e t v q =
    let f : Found s (some e, s') = rw q at (next-Found s v) in
    let (v', w, (k, at_k, used, h)) = f in
    (
      removed k s',
      rw at_k refl,
      removed-IsValid k s' v' used,
      rw (← w) (fds_of-drop_fd s'.current_free k e s'.fds used h),
    )
