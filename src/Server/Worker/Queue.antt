-- ===== src/Server/Worker/Queue.antt =====
-- The queue of delayed sockets: what leaves it, what enters it, and that no socket gets lost.
use network_ping_test.Base.{
  ◌||◌, ℕ, suc, ◌+◌, ◌≤◌, ◌<◌, ◌≡◌, refl, List, [], ◌∷◌, ◌++◌, Bool, true, false, not, ◌&&◌, ◌==◌,
  leb, leb→le, ltb, if◌then◌else◌, All, arith, Bool-cases, inl, inr, ◌⊎◌,
}
use network_ping_test.Server.Results.{add64}
use network_ping_test.Server.Worker.{
  FdTimout, Tables, enqueue, drain, place, lookup, time_or_zero, Os,
}

-- How often a descriptor stands in `ready_fds`, and in the queue.
abbrev pub occurs : ℕ → List ℕ → ℕ
occurs key [] = 0
occurs key (fd ∷ fds) = (if fd == key then 1 else 0) + occurs key fds

abbrev pub pending : ℕ → List FdTimout → ℕ
pending key [] = 0
pending key (i ∷ q) = (if i.fd == key then 1 else 0) + pending key q

-- Only the entries whose time has come.
abbrev pub due : ℕ → ℕ → List FdTimout → ℕ
due now key [] = 0
due now key (i ∷ q) = (if leb i.ready_time now && i.fd == key then 1 else 0) + due now key q

abbrev pub held : ℕ → Tables → ℕ
held key s = occurs key s.ready_fds + pending key s.wait_queue

abbrev pub IsLater : ℕ → FdTimout → Type 0
IsLater time i = time ≤ i.ready_time

-- The top of the queue is the smallest.
abbrev pub IsOrdered : List FdTimout → Type 0
IsOrdered [] = Unit
IsOrdered (i ∷ q) = All (IsLater i.ready_time) q × IsOrdered q

occurs-append : (key : ℕ) (xs ys : List ℕ) → occurs key (xs ++ ys) ≡ occurs key xs + occurs key ys
occurs-append key [] ys = omega arith
occurs-append key (x ∷ xs) ys = omega (arith, occurs-append key xs ys)

All-IsLater : (a b : ℕ) (q : List FdTimout) → a ≤ b → All (IsLater b) q → All (IsLater a) q
All-IsLater a b [] h l = tt
All-IsLater a b (i ∷ q) h l = (omega arith, All-IsLater a b q h l.1)

enqueue-IsLater :
    (a fd time : ℕ) (q : List FdTimout)
    → a ≤ time
    → All (IsLater a) q
    → All (IsLater a) (enqueue fd time q)
unfolding enqueue
enqueue-IsLater a fd time [] h l = (h, tt)
enqueue-IsLater a fd time (i ∷ q) h l = elim (Bool-cases (leb time i.ready_time)) [
  | inl e ↦ rw e (h, l)
  | inr e ↦ rw e (l.0, enqueue-IsLater a fd time q h l.1)
]

pub enqueue-IsOrdered :
    (fd time : ℕ) (q : List FdTimout) → IsOrdered q → IsOrdered (enqueue fd time q)
unfolding enqueue
enqueue-IsOrdered fd time [] o = (tt, tt)
enqueue-IsOrdered fd time (i ∷ q) o = elim (Bool-cases (leb time i.ready_time)) [
  | inl e ↦ rw e ((leb→le _ _ e, All-IsLater time i.ready_time q (leb→le _ _ e) o.0), o)
  | inr e ↦
      rw e
        (enqueue-IsLater i.ready_time fd time q (ground arith) o.0, enqueue-IsOrdered fd time q o.1)
]

pending-enqueue :
    (key fd time : ℕ) (q : List FdTimout)
    → pending key (enqueue fd time q) ≡ (if fd == key then 1 else 0) + pending key q
unfolding enqueue
pending-enqueue key fd time [] = refl
pending-enqueue key fd time (i ∷ q) = ground (arith, pending-enqueue key fd time q)

due_none : (now key : ℕ) (q : List FdTimout) → All (IsLater (suc now)) q → due now key q ≡ 0
due_none now key [] l = refl
due_none now key (i ∷ q) l = ground (arith, due_none now key q l.1)

-- After `drain` at the time `now`, the queue is ordered and holds only sockets whose time has not
-- come; the sockets whose time has come are in `ready_fds`, as often as they were in the queue, beside
-- those that were there, and none is lost.
pub drain_lem :
    (now key : ℕ) (q : List FdTimout) (ready : List ℕ)
    → IsOrdered q
    → IsOrdered (drain now q ready).1
      × All (IsLater (suc now)) (drain now q ready).1
      × (occurs key (drain now q ready).0 ≡ occurs key ready + due now key q)
      × (pending key (drain now q ready).1 + due now key q ≡ pending key q)
unfolding drain
drain_lem now key [] ready o = (tt, tt, omega arith, omega arith)
drain_lem now key (i ∷ q) ready o = elim (Bool-cases (leb i.ready_time now)) [
  | inl e ↦
      let (ord, late, got, left) = drain_lem now key q (ready ++ i.fd ∷ []) o.1 in
      rw e (ord, late, ground (arith, occurs-append key ready (i.fd ∷ [])), ground arith)
  | inr e ↦
      let later : suc now ≤ i.ready_time = ground arith in
      let all = All-IsLater (suc now) i.ready_time q later o.0 in
      let nothing = due_none now key q all in
      rw e (o, (later, all), omega (arith, nothing), omega (arith, nothing))
]

-- Pinged in this round: there are no timeouts, or the time has come.
abbrev pub Due : ℕ → ℕ → ℕ → ℕ → Type 0
Due lo hi now time = ((lo ≡ 0) × (hi ≡ 0)) ⊎ (time ≤ now)

module _ (os : Os) (bucket : ℕ → ℕ) (message_len lo hi now fd delay : ℕ) where
  abbrev pub Put : Tables → Bool × Tables → Type 0
  Put s r =
      ((r.0 ≡ true)
        × Due lo hi now (add64 (time_or_zero (lookup fd s.last_time)) delay)
        × (r.1.ready_fds ≡ s.ready_fds ++ fd ∷ [])
        × (r.1.wait_queue ≡ s.wait_queue))
      ⊎ ((r.0 ≡ false)
          × (now < add64 (time_or_zero (lookup fd s.last_time)) delay)
          × (r.1.ready_fds ≡ s.ready_fds)
          × (r.1.wait_queue
              ≡ enqueue fd (add64 (time_or_zero (lookup fd s.last_time)) delay) s.wait_queue))

  Due-of_test :
      (time : ℕ)
      → (lo : ℕ) → (hi : ℕ) → not ((not (lo == 0) || not (hi == 0)) && ltb now time) ≡ true
      → Due lo hi now time
  Due-of_test time lo hi h = ground arith

  late_of_test :
      (time : ℕ)
      → (lo : ℕ) → (hi : ℕ) → not ((not (lo == 0) || not (hi == 0)) && ltb now time) ≡ false
      → now < time
  late_of_test time lo hi h = ground arith

  -- A socket that has become ready is put at the end of `ready_fds`, to be pinged in this round, only
  -- if there are no timeouts or its timeout after the last write has passed; else into the queue, under
  -- the later time when that is so. The rest of `ready_fds` and of the queue stays.
  pub place-Put : (s : Tables) → Put s (place os bucket message_len lo hi now fd delay s)
  unfolding place
  place-Put s =
      let time : ℕ = add64 (time_or_zero (lookup fd s.last_time)) delay in
      elim (Bool-cases (not ((not (lo == 0) || not (hi == 0)) && ltb now time))) [
        | inl e ↦ rw e (inl (refl, Due-of_test time lo hi e, refl, refl))
        | inr e ↦ rw e (inr (refl, late_of_test time lo hi e, refl, refl))
      ]

  -- One socket more is held, the one that was placed, and the queue stays ordered.
  pub place_lem :
      (key : ℕ) (s : Tables)
      → IsOrdered s.wait_queue
      → IsOrdered (place os bucket message_len lo hi now fd delay s).1.wait_queue
        × (held key (place os bucket message_len lo hi now fd delay s).1
            ≡ held key s + (if fd == key then 1 else 0))
  place_lem key s o = elim (place-Put s) [
    | inl (_, _, r, q) ↦ rw (r, q) (o, omega (arith, occurs-append key s.ready_fds (fd ∷ [])))
    | inr (_, _, r, q) ↦
        rw (r, q)
          (
            enqueue-IsOrdered fd _ s.wait_queue o,
            omega (
              arith,
              pending-enqueue key fd (add64 (time_or_zero (lookup fd s.last_time)) delay)
                  s.wait_queue,
            ),
          )
  ]
