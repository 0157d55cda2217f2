-- ===== src/Old/Echoes.antt =====
-- The messages that a run echoes, and runs that count them.
use network_ping_test.Os.Runs.{if-both}
use network_ping_test.Base.{
  ◌++◌, ℕ, zero, suc, ◌+◌, ◌≡◌, refl, List, [], ◌∷◌, Option, none, some, Bool, true, false, arith,
  Option-cases, inl, inr, ◌==◌, ◌≢◌, ℕ_discrete, ap, test_ne, ◌⊎◌, test_eq,
}
use network_ping_test.Os.{
  Os, Call, recv, socket, connect, gethostbyname, Outcome, done, Trace, Run, continue, pure, close,
  fcntl_getfl,
}
use network_ping_test.Os.Links.{Related, Linked, Linked-bind, Linked-same}
use network_ping_test.Os.Close.{close_all}
use network_ping_test.Selector.{RSelector}
use network_ping_test.Client.{prepare, set_nonblock, notify}
use network_ping_test.Client
use network_ping_test.Client.Ping.{Echoed, ReadWhole, process_message_lem}
use network_ping_test.Old.{connect_loop, connect_all, answered, process_message}

abbrev pub unit_of : Bool → ℕ
unit_of true = 1
unit_of false = 0

-- The messages of `msize` bytes that the calls of a trace have written whole.
unfoldable pub echoes : Os → ℕ → Trace → ℕ
echoes os msize [] = 0
echoes os msize (Call.write fd n ∷ t) =
    unit_of (answered msize (os (Call.write fd n ∷ t))) + echoes os msize t
echoes os msize (_ ∷ t) = echoes os msize t

-- A selector that writes to no socket.
pub record Silent {S : Type 0} (sel : RSelector S) : Type 0 where
  pub adds :
      (os : Os) (n fd : ℕ) (s : S) (t : Trace)
      → echoes os n (sel.add_fd os fd s t).1 ≡ echoes os n t
  pub waits :
      (os : Os) (n fuel : ℕ) (s : S) (t : Trace)
      → echoes os n (sel.wait os fuel s t).1 ≡ echoes os n t
  pub nexts : (os : Os) (n : ℕ) (s : S) (t : Trace) → echoes os n (sel.next s t).1 ≡ echoes os n t
  pub removes :
      (os : Os) (n : ℕ) (s : S) (t : Trace)
      → echoes os n (sel.remove_current_ready os s t).1 ≡ echoes os n t

module _ (os : Os) (msize : ℕ) where
  -- A count `v` that has grown from `c` by the messages between two traces.
  abbrev pub Grows : ℕ → Trace → ℕ → Trace → Type 0
  Grows c t v u = v + echoes os msize t ≡ c + echoes os msize u

  abbrev pub Grown : Option ℕ → ℕ → Trace → Trace → Type 0
  Grown = Related Grows

  abbrev pub Tally : {B : Type 0} → (B → Option ℕ) → ℕ → Trace → Outcome B × Trace → Type 0
  Tally value = Linked Grows value

  pub Grows-join : (c d e : ℕ) (t u v : Trace) → Grows c t d u → Grows d u e v → Grows c t e v
  Grows-join c d e t u v g h = omega arith

  -- A run and its continuation.
  pub Tally-bind :
      {A B : Type 0} (va : A → ℕ) (vb : B → Option ℕ) (c : ℕ) (t : Trace) (r : Outcome A × Trace)
      (f : A → Run B)
      → Tally (λ a. some (va a)) c t r
      → ((a : A) (u : Trace) → Tally vb (va a) u (f a u))
      → Tally vb c t (continue f r.0 r.1)
  Tally-bind va vb c t r f g h = Linked-bind Grows Grows-join va vb c t r f g h

  -- A run that writes nothing keeps the count.
  pub Tally-same :
      {A : Type 0} (c : ℕ) (t : Trace) (r : Outcome A × Trace)
      → echoes os msize r.1 ≡ echoes os msize t
      → Tally (λ _. some c) c t r
  Tally-same c t r e = Linked-same Grows c t r (omega arith)

  -- The former `process_message` does what that of client.cpp does.
  pub process_message-same :
      (fd : ℕ) (t : Trace) → process_message os fd msize t ≡ Client.process_message os fd msize t
  unfolding process_message Client.process_message
  process_message-same fd t = refl

  pub process_message-Tally :
      (fd c : ℕ) (t : Trace) → Tally (λ b. some (unit_of b + c)) c t (process_message os fd msize t)
  unfolding echoes
  process_message-Tally fd c t =
      rw (process_message-same fd t) (by_outcome (process_message_lem os fd msize t))
    where
      wrote :
          (v : Option ℕ) → v ≢ some msize → elim v [ none ↦ false | some n ↦ n == msize ] ≡ false
      wrote none h = refl
      wrote (some n) h = elim (ℕ_discrete n msize) [
        | yes e ↦ absurd (h (ap some e))
        | no ne ↦ test_ne n msize ne
      ]

      by_outcome :
          (Echoed os fd msize t
              × (Client.process_message os fd msize t
                  ≡ (done true, Call.write fd msize ∷ recv fd msize ∷ t)))
            ⊎ ((ReadWhole os fd msize t
                  × ¬ Echoed os fd msize t
                  × (Client.process_message os fd msize t
                      ≡ (done false, Call.write fd msize ∷ recv fd msize ∷ t)))
                ⊎ ((¬ ReadWhole os fd msize t)
                    × (Client.process_message os fd msize t ≡ (done false, recv fd msize ∷ t))))
          → Tally (λ b. some (unit_of b + c)) c t (Client.process_message os fd msize t)
      by_outcome (inl ((r, pos, w), e)) = rw (e, w, test_eq msize msize refl) (omega arith)
      by_outcome (inr (inl (r, short, e))) =
          rw
            (
              e,
              wrote (os (Call.write fd msize ∷ recv fd msize ∷ t)).value (λ w. short (r.0, r.1, w)),
            )
            (omega arith)
      by_outcome (inr (inr (no_read, e))) = rw e (omega arith)

  -- Runs that connect write nothing.
  Tally-keep :
      {A B : Type 0} (c : ℕ) (t : Trace) (r : Outcome A × Trace) (f : A → Run B)
      → Tally (λ _. some c) c t r
      → ((a : A) (u : Trace) → Tally (λ _. some c) c u (f a u))
      → Tally (λ _. some c) c t (continue f r.0 r.1)
  Tally-keep c t r f g h = Tally-bind (λ _. c) (λ _. some c) c t r f g h

  prepare-Tally :
      (async : Bool) (fd c : ℕ) (t : Trace) → Tally (λ _. some c) c t (prepare os async fd t)
  unfolding set_nonblock echoes
  prepare-Tally false fd c t = refl
  prepare-Tally true fd c t = elim (Option-cases (os (fcntl_getfl fd ∷ t)).value) [
    | inl e ↦ rw e refl
    | inr (flags, e) ↦ rw e (ground arith)
  ]

  connect_loop-Tally :
      (async : Bool) (n c : ℕ) (xs : List ℕ) (t : Trace)
      → Tally (λ _. some c) c t (connect_loop os async n xs t)
  unfolding connect_loop echoes
  connect_loop-Tally async zero c xs t = refl
  connect_loop-Tally async (suc left) c xs t = elim (Option-cases (os (socket ∷ t)).value) [
    | inl e ↦ rw e refl
    | inr (fd, e) ↦ elim (Option-cases (os (connect fd ∷ socket ∷ t)).value) [
      | inl f ↦ rw (e, f) refl
      | inr (_, f) ↦
          rw (e, f)
            (Tally-keep c (connect fd ∷ socket ∷ t) (prepare os async fd (connect fd ∷ socket ∷ t))
              _ (prepare-Tally async fd c (connect fd ∷ socket ∷ t))
              (λ ready u.
                if-both (λ m. Tally (λ _. some c) c u (m u)) ready
                  {x = connect_loop os async left (xs ++ fd ∷ [])} {y = pure (false, xs)}
                  (connect_loop-Tally async left c (xs ++ fd ∷ []) u) refl))
    ]
  ]

  pub connect_all-Tally :
      (async : Bool) (n c : ℕ) (xs : List ℕ) (t : Trace)
      → Tally (λ _. some c) c t (connect_all os n async xs t)
  unfolding connect_all echoes
  connect_all-Tally async n c xs t = elim (Option-cases (os (gethostbyname ∷ t)).value) [
    | inl e ↦ rw e refl
    | inr (_, e) ↦ rw e (connect_loop-Tally async n c [] (gethostbyname ∷ t))
  ]

  pub echoes-close_all :
      (fds : List ℕ) (t : Trace) → echoes os msize (close_all fds t) ≡ echoes os msize t
  unfolding close_all echoes
  echoes-close_all [] t = refl
  echoes-close_all (fd ∷ fds) t = echoes-close_all fds (close fd ∷ t)
