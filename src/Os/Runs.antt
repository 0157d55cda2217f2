-- ===== src/Os/Runs.antt =====
-- How a property of the outcome of a run follows from its parts.
use network_ping_test.Base.{Bool, true, false, if◌then◌else◌}
use network_ping_test.Os.{Outcome, done, more, fault, Trace, Run, continue}

-- A run that ends by itself, without undefined behaviour.
abbrev pub IsDone : {A : Type 0} → Outcome A → Type 0
IsDone (done a) = Unit
IsDone more = ⊥
IsDone fault = ⊥

module _ {A B : Type 0} (P : Outcome B × Trace → Type 0) (f : A → Run B) where
  pub continue-done :
      (o : Outcome A) (t : Trace) → IsDone o → ((a : A) → P (f a t)) → P (continue f o t)
  continue-done (done a) t h k = k a
  continue-done more t h k = absurd h
  continue-done fault t h k = absurd h

-- Partial correctness: what holds of every outcome of the rest holds of the whole.
module _ {A B : Type 0} (P : Outcome B × Trace → Type 0) (f : A → Run B) where
  pub continue-all :
      (o : Outcome A) (t : Trace)
      → ((u : Trace) → P (more, u))
      → ((u : Trace) → P (fault, u))
      → ((a : A) → P (f a t))
      → P (continue f o t)
  continue-all (done a) t m u k = k a
  continue-all more t m u k = m t
  continue-all fault t m u k = u t

pub if-both :
    {A : Type 0} (P : A → Type 0) (b : Bool) {x y : A} → P x → P y → P (if b then x else y)
if-both P true hx hy = hx
if-both P false hx hy = hy
