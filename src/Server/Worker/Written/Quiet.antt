-- ===== src/Server/Worker/Written/Quiet.antt =====
-- Runs that count what they write, and the parts of a round that write nothing.
use network_ping_test.Base.{ℕ, ◌≡◌, refl, Option, some, Bool, ◌==◌, not, Bool-cases, inl, inr}
use network_ping_test.Base.Int.{ℤ}
use network_ping_test.Os.{Os, Run, Outcome, Trace, continue}
use network_ping_test.Os.Links.{Linked, Linked-bind, Linked-same, Linked-then}
use network_ping_test.Selector.EPoll.{EPollRSelector, wait_ns}
use network_ping_test.Selector.EPoll.Quiet.{wait_ns-keeps}
use network_ping_test.Server.Worker.{Tables, choose_timeout, has_timeout}
use network_ping_test.Server.Worker.Pings.{pings_of}
use network_ping_test.Server.Worker.Written.{written_to, Counts, Counts-join, Counts-same}

abbrev pub left : Bool × Tables → Tables
left (go, s) = s

abbrev pub left_with : Bool × Tables × EPollRSelector → Tables
left_with (go, s, sel) = s

module _ (os : Os) (bucket : ℕ → ℕ) (n lo hi : ℕ) (key : ℕ) where
  -- The tables that a run leaves, if it leaves any, have counted what was written.
  abbrev pub Counted :
      {A : Type 0} → (A → Option Tables) → Tables → Trace → Outcome A × Trace → Type 0
  Counted value = Linked (Counts os n key) value

  pub bind :
      {A B : Type 0} (va : A → Tables) (vb : B → Option Tables) (s : Tables) (t : Trace)
      (r : Outcome A × Trace) (f : A → Run B)
      → Counted (λ a. some (va a)) s t r
      → ((a : A) (u : Trace) → Counted vb (va a) u (f a u))
      → Counted vb s t (continue f r.0 r.1)
  bind va vb s t r f g h = Linked-bind (Counts os n key) (Counts-join os n key) va vb s t r f g h

  -- A run that writes nothing.
  pub quiet :
      {A : Type 0} (s : Tables) (t : Trace) (r : Outcome A × Trace)
      → written_to os n key r.1 ≡ written_to os n key t
      → Counted (λ _. some s) s t r
  quiet s t r e = Linked-same (Counts os n key) s t r (Counts-same os n key s s t r.1 refl e)

  pub same : (s : Tables) (t : Trace) → Counts os n key s t s t
  same s t = Counts-same os n key s s t t refl refl

  -- The first tables, other in what is not counted.
  pub from :
      {B : Type 0} (value : B → Option Tables) (s s' : Tables) (t : Trace) (r : Outcome B × Trace)
      → pings_of key s' ≡ pings_of key s
      → Counted value s' t r
      → Counted value s t r
  from value s s' t r e h =
      Linked-then (Counts os n key) (Counts-join os n key) value s s' t t r
        (Counts-same os n key s s' t t e refl) h

  pub wait_ns-quiet :
      (fuel : ℕ) (x : ℤ) (sel : EPollRSelector) (t : Trace)
      → written_to os n key (wait_ns os fuel x sel t).1 ≡ written_to os n key t
  unfolding written_to
  wait_ns-quiet fuel x sel t =
      wait_ns-keeps (λ u. written_to os n key u ≡ written_to os n key t) (λ u p. p) (λ e m y u p. p)
        os fuel x sel t refl

  pub choose_timeout-quiet :
      (t : Trace)
      → written_to os n key (choose_timeout os bucket n lo hi t).1 ≡ written_to os n key t
  unfolding written_to
  choose_timeout-quiet t = elim (Bool-cases (not (has_timeout os bucket n lo hi))) [
    | inl e ↦ rw e refl
    | inr e ↦ elim (Bool-cases (hi == lo)) [ inl f ↦ rw (e, f) refl | inr f ↦ rw (e, f) refl ]
  ]
