-- ===== src/Server/Worker/Stop.antt =====
-- How a worker ends once `done` is set.
pub mod Prompt
pub mod Return
use network_ping_test.Base.{
  ℕ, ◌+◌, ◌≡◌, refl, List, [], ◌∷◌, Option, some, Bool, true, false, ◌==◌, if◌then◌else◌, arith,
  Bool-cases, inl, inr, ◌⊎◌, ◌∙◌, not, ap,
}
use network_ping_test.Base.Int.{ℤ}
use network_ping_test.Os.{Os, Call, Run, Outcome, done, Trace, pure, recv, load_done}
use network_ping_test.Os.Links.{Linked, Linked-same, Linked-then}
use network_ping_test.Wait.{get_fast_time}
use network_ping_test.Client.{process_message}
use network_ping_test.Client.Ping.{Echoed, ReadWhole, process_message_lem}
use network_ping_test.Selector.EPoll.{EPollRSelector, wait_ns}
use network_ping_test.Selector.EPoll.Quiet.{wait_ns-keeps}
use network_ping_test.Server.Worker.{
  FdTimout, ping, choose_timeout, has_timeout, time_or_zero, wait_time,
}
use network_ping_test.Server.Worker.Pings.{ping-process_message}
use network_ping_test.Server.Worker.Written.{one_if}

-- How often the calls of a trace have found `done` set.
pub stops : Os → Trace → ℕ
stops os [] = 0
stops os (load_done ∷ t) = one_if (time_or_zero (os (load_done ∷ t)).value == 1) + stops os t
stops os (_ ∷ t) = stops os t

module _ (os : Os) where
  -- From a flag at one trace to a flag at a later one, true while the thread goes on. A thread that stops
  -- has not found `done` set, or it has with its last call.
  abbrev pub Goes : Bool → Trace → Bool → Trace → Type 0
  Goes true t true u = stops os u ≡ stops os t
  Goes true t false u =
      (stops os u ≡ stops os t) ⊎ ((v : Trace) × (u ≡ load_done ∷ v) × (stops os v ≡ stops os t))
  Goes false t true u = ⊥
  Goes false t false u = u ≡ t

  pub Goes-join : (x y z : Bool) (t u v : Trace) → Goes x t y u → Goes y u z v → Goes x t z v
  Goes-join true true true t u v g h = h ∙ g
  Goes-join true true false t u v g (inl h) = inl (h ∙ g)
  Goes-join true true false t u v g (inr (w, e, h)) = inr (w, e, h ∙ g)
  Goes-join true false true t u v g h = absurd h
  Goes-join true false false t u v (inl g) h = inl (ap (stops os) h ∙ g)
  Goes-join true false false t u v (inr (w, e, g)) h = inr (w, h ∙ e, g)
  Goes-join false true z t u v g h = absurd g
  Goes-join false false true t u v g h = absurd h
  Goes-join false false false t u v g h = h ∙ g

  pub Goes-refl : (b : Bool) (t : Trace) → Goes b t b t
  Goes-refl true t = refl
  Goes-refl false t = refl

  unset :
      (t : Trace)
      → (time_or_zero (os (load_done ∷ t)).value == 1) ≡ false
      → stops os (load_done ∷ t) ≡ stops os t
  unfolding stops
  unset t e = rw e (omega arith)

  -- The test of `done`, after which the thread goes on as `k` or stops.
  pub test-Goes :
      {B : Type 0} (value : B → Option Bool) (b : B) (k : Run B) (t : Trace)
      → value b ≡ some false
      → ((u : Trace) → Linked Goes value true u (k u))
      → Linked Goes value true t
          ((if time_or_zero (os (load_done ∷ t)).value == 1 then pure b else k) (load_done ∷ t))
  test-Goes value b k t h g = elim (Bool-cases (time_or_zero (os (load_done ∷ t)).value == 1)) [
    | inl e ↦ rw (e, h) (inr (t, refl, refl))
    | inr e ↦ rw e (
        Linked-then Goes Goes-join value true true t (load_done ∷ t) (k (load_done ∷ t)) (unset t e)
          (g (load_done ∷ t)))
  ]

module _ (os : Os) (bucket : ℕ → ℕ) (n lo hi : ℕ) where
  -- A part of a round without the test.
  pub calm :
      {A : Type 0} (t : Trace) (r : Outcome A × Trace)
      → stops os r.1 ≡ stops os t
      → Linked (Goes os) (λ _. some true) true t r
  calm t r e = Linked-same (Goes os) true t r e

  pub wait_ns-calm :
      (fuel : ℕ) (x : ℤ) (sel : EPollRSelector) (t : Trace)
      → stops os (wait_ns os fuel x sel t).1 ≡ stops os t
  unfolding stops
  wait_ns-calm fuel x sel t =
      wait_ns-keeps (λ u. stops os u ≡ stops os t) (λ u p. p) (λ e m y u p. p) os fuel x sel t refl

  pub choose_timeout-calm :
      (t : Trace) → stops os (choose_timeout os bucket n lo hi t).1 ≡ stops os t
  unfolding stops
  choose_timeout-calm t = elim (Bool-cases (not (has_timeout os bucket n lo hi))) [
    | inl e ↦ rw e refl
    | inr e ↦ elim (Bool-cases (hi == lo)) [ inl f ↦ rw (e, f) refl | inr f ↦ rw (e, f) refl ]
  ]

  pub wait_time-calm :
      (q : List FdTimout) (t : Trace) → stops os (wait_time os bucket n lo hi q t).1 ≡ stops os t
  unfolding wait_time get_fast_time stops
  wait_time-calm [] t = refl
  wait_time-calm (i ∷ q) t = refl

  pub ping-calm : (fd : ℕ) (t : Trace) → stops os (ping os fd n t).1 ≡ stops os t
  unfolding stops
  ping-calm fd t = rw (ping-process_message os fd n t) (by_outcome (process_message_lem os fd n t))
    where
      o : Outcome Bool × Trace
      o = process_message os fd n t

      by_outcome :
          (Echoed os fd n t × (o ≡ (done true, Call.write fd n ∷ recv fd n ∷ t)))
            ⊎ ((ReadWhole os fd n t
                  × ¬ Echoed os fd n t
                  × (o ≡ (done false, Call.write fd n ∷ recv fd n ∷ t)))
                ⊎ ((¬ ReadWhole os fd n t) × (o ≡ (done false, recv fd n ∷ t))))
          → stops os o.1 ≡ stops os t
      by_outcome (inl (a, e)) = rw e refl
      by_outcome (inr (inl (a, b, e))) = rw e refl
      by_outcome (inr (inr (a, e))) = rw e refl
