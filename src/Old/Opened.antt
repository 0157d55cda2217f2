-- ===== src/Old/Opened.antt =====
-- How many descriptors `connect_all` opens, and which of them it hands to its caller.
use network_ping_test.Base.{
  ℕ, zero, suc, ◌+◌, ◌<◌, ◌≡◌, refl, List, [], ◌∷◌, ◌++◌, Option, none, some, Bool, true, false,
  length, length-append, ◌∙◌, arith, Option-cases, inl, inr, if◌then◌else◌,
}
use network_ping_test.Os.{
  Os, close, socket, connect, gethostbyname, fcntl_getfl, Outcome, done, more, fault, Trace,
  continue, pure,
}
use network_ping_test.Client.{prepare, set_nonblock}
use network_ping_test.Old.{connect_loop, connect_all}

abbrev pub got : Option ℕ → ℕ
got none = 0
got (some fd) = 1

-- The descriptors that the calls of a trace have opened by `socket`.
abbrev pub opens : Os → Trace → ℕ
opens os [] = 0
opens os (socket ∷ t) = got (os (socket ∷ t)).value + opens os t
opens os (_ ∷ t) = opens os t

-- The descriptors that they close.
abbrev pub closes : Trace → ℕ
closes [] = 0
closes (close fd ∷ t) = suc (closes t)
closes (_ ∷ t) = closes t

-- A failure leaves one descriptor behind, unless the last call was `socket`.
abbrev pub left_behind : Trace → ℕ
left_behind (socket ∷ t) = 0
left_behind _ = 1

-- How `connect_all` ends, from the trace `t` on, with `n` sockets to open.
abbrev pub Connected : Os → ℕ → Trace → Outcome (Bool × List ℕ) × Trace → Type 0
Connected os n t (done (true, ys), u) =
    (length ys ≡ n) × (opens os u ≡ opens os t + n) × (closes u ≡ closes t)
Connected os n t (done (false, ys), u) =
    (length ys < n) × (opens os u ≡ opens os t + length ys + left_behind u) × (closes u ≡ closes t)
Connected os n t (more, u) = ⊥
Connected os n t (fault, u) = ⊥

-- `prepare` opens and closes nothing, and if it fails its last call is not `socket`.
abbrev Prepared : Os → Trace → Outcome Bool × Trace → Type 0
Prepared os t (done true, u) = (opens os u ≡ opens os t) × (closes u ≡ closes t)
Prepared os t (done false, u) =
    (opens os u ≡ opens os t) × (left_behind u ≡ 1) × (closes u ≡ closes t)
Prepared os t (more, u) = ⊥
Prepared os t (fault, u) = ⊥

prepare-Prepared :
    (os : Os) (async : Bool) (c : ℕ) (t : Trace) → Prepared os t (prepare os async c t)
unfolding set_nonblock
prepare-Prepared os false c t = (refl, refl)
prepare-Prepared os true c t = elim (Option-cases (os (fcntl_getfl c ∷ t)).value) [
  | inl e ↦ rw e (refl, refl, refl)
  | inr (flags, e) ↦ rw e (ground arith)
]

module _ (os : Os) (async : Bool) where
  -- The loop, begun at the trace `t` with `xs` in the vector.
  abbrev Looped : List ℕ → ℕ → Trace → Outcome (Bool × List ℕ) × Trace → Type 0
  Looped xs n t (done (true, ys), u) =
      (length ys ≡ length xs + n) × (opens os u ≡ opens os t + n) × (closes u ≡ closes t)
  Looped xs n t (done (false, ys), u) =
      (length ys < length xs + n)
      × (opens os u + length xs ≡ opens os t + length ys + left_behind u)
      × (closes u ≡ closes t)
  Looped xs n t (more, u) = ⊥
  Looped xs n t (fault, u) = ⊥

  grow :
      (xs : List ℕ) (c n : ℕ) (t v : Trace) (r : Outcome (Bool × List ℕ) × Trace)
      → opens os v ≡ suc (opens os t)
      → closes v ≡ closes t
      → Looped (xs ++ c ∷ []) n v r
      → Looped xs (suc n) t r
  grow xs c n t v (done (true, ys), u) e f (l, o, d) =
      (omega (arith, length-append xs (c ∷ [])), omega arith, d ∙ f)
  grow xs c n t v (done (false, ys), u) e f (l, o, d) =
      (omega (arith, length-append xs (c ∷ [])), omega (arith, length-append xs (c ∷ [])), d ∙ f)
  grow xs c n t v (more, u) e f h = h
  grow xs c n t v (fault, u) e f h = h

  -- The round of a socket `c` that is connected, from `prepare` on.
  prepared :
      (left c : ℕ) (xs : List ℕ) (t v : Trace) (r : Outcome Bool × Trace)
      → opens os v ≡ suc (opens os t)
      → closes v ≡ closes t
      → ((ys : List ℕ) (u : Trace) → Looped ys left u (connect_loop os async left ys u))
      → Prepared os v r
      → Looped xs (suc left) t (
          continue
            (λ ready. if ready then connect_loop os async left (xs ++ c ∷ []) else pure (false, xs))
            r.0
            r.1)
  prepared left c xs t v (done true, u) e f h (p, d) =
      grow xs c left t u (connect_loop os async left (xs ++ c ∷ []) u) (omega arith) (d ∙ f)
        (h (xs ++ c ∷ []) u)
  prepared left c xs t v (done false, u) e f h (p, l, d) = (omega arith, omega arith, d ∙ f)
  prepared left c xs t v (more, u) e f h p = p
  prepared left c xs t v (fault, u) e f h p = p

  opens-socket :
      (t : Trace) (c : ℕ)
      → (os (socket ∷ t)).value ≡ some c
      → opens os (socket ∷ t) ≡ suc (opens os t)
  opens-socket t c e = rw e (omega arith)

  connect_round :
      (left : ℕ) (xs : List ℕ) (t : Trace)
      → ((ys : List ℕ) (u : Trace) → Looped ys left u (connect_loop os async left ys u))
      → Looped xs (suc left) t (connect_loop os async (suc left) xs t)
  unfolding connect_loop
  connect_round left xs t h = elim (Option-cases (os (socket ∷ t)).value) [
    | inl e ↦ rw e (omega arith, rw e (omega arith), refl)
    | inr (c, e) ↦ elim (Option-cases (os (connect c ∷ socket ∷ t)).value) [
      | inl f ↦ rw (e, f) (omega arith, rw e (omega arith), refl)
      | inr (_, f) ↦
          rw (e, f)
            (prepared left c xs t (connect c ∷ socket ∷ t)
              (prepare os async c (connect c ∷ socket ∷ t)) (opens-socket t c e) refl h
              (prepare-Prepared os async c (connect c ∷ socket ∷ t)))
    ]
  ]

  connect_loop-Looped :
      (n : ℕ) (xs : List ℕ) (t : Trace) → Looped xs n t (connect_loop os async n xs t)
  unfolding connect_loop
  connect_loop-Looped zero xs t = (omega arith, omega arith, refl)
  connect_loop-Looped (suc left) xs t = connect_round left xs t (connect_loop-Looped left)

  Connected-of_Looped :
      (n : ℕ) (t : Trace) (r : Outcome (Bool × List ℕ) × Trace)
      → Looped [] n (gethostbyname ∷ t) r
      → Connected os n t r
  Connected-of_Looped n t (done (true, ys), u) (l, o, d) = (omega arith, o, d)
  Connected-of_Looped n t (done (false, ys), u) (l, o, d) = (omega arith, omega arith, d)
  Connected-of_Looped n t (more, u) h = h
  Connected-of_Looped n t (fault, u) h = h

  -- When the host is found, `connect_all` returns: true with exactly `sock_count` sockets in the vector,
  -- which are as many as it opened, or false with fewer. Either way it closes nothing. On false one
  -- descriptor that it opened is then neither closed nor in the vector, whose descriptors the caller
  -- closes, unless the call that failed was `socket`.
  pub connect_all-Connected :
      (n host : ℕ) (xs : List ℕ) (t : Trace)
      → (os (gethostbyname ∷ t)).value ≡ some host
      → Connected os n t (connect_all os n async xs t)
  unfolding connect_all
  connect_all-Connected n host xs t e = rw e (
      Connected-of_Looped n t (connect_loop os async n [] (gethostbyname ∷ t))
        (connect_loop-Looped n [] (gethostbyname ∷ t)))
