-- ===== src/Os/Links.antt =====
-- How a relation between a value at one trace and a value at a later trace follows for a run from its
-- parts. A result without a value, and a run without a result, promise nothing.
use network_ping_test.Base.{Option, none, some}
use network_ping_test.Os.{Outcome, done, more, fault, Trace, Run, continue}

module _ {X : Type 0} (G : X → Trace → X → Trace → Type 0) where
  abbrev pub Related : Option X → X → Trace → Trace → Type 0
  Related none x t u = Unit
  Related (some y) x t u = G x t y u

  abbrev pub Linked : {B : Type 0} → (B → Option X) → X → Trace → Outcome B × Trace → Type 0
  Linked value x t (done b, u) = Related (value b) x t u
  Linked value x t (more, u) = Unit
  Linked value x t (fault, u) = Unit

  -- A run that keeps the value, if it leaves the trace related.
  pub Linked-same :
      {A : Type 0} (x : X) (t : Trace) (r : Outcome A × Trace)
      → G x t x r.1
      → Linked (λ _. some x) x t r
  Linked-same x t (done a, u) g = g
  Linked-same x t (more, u) g = tt
  Linked-same x t (fault, u) g = tt

module _ {X : Type 0} (G : X → Trace → X → Trace → Type 0)
    (join : (x y z : X) (t u v : Trace) → G x t y u → G y u z v → G x t z v) where
  pub Related-then :
      (o : Option X) (x y : X) (t u v : Trace) → G x t y u → Related G o y u v → Related G o x t v
  Related-then none x y t u v g h = tt
  Related-then (some z) x y t u v g h = join x y z t u v g h

  pub Linked-then :
      {B : Type 0} (value : B → Option X) (x y : X) (t u : Trace) (r : Outcome B × Trace)
      → G x t y u
      → Linked G value y u r
      → Linked G value x t r
  Linked-then value x y t u (done b, v) g h = Related-then (value b) x y t u v g h
  Linked-then value x y t u (more, v) g h = tt
  Linked-then value x y t u (fault, v) g h = tt

  -- A run and its continuation.
  pub Linked-bind :
      {A B : Type 0} (va : A → X) (vb : B → Option X) (x : X) (t : Trace) (r : Outcome A × Trace)
      (f : A → Run B)
      → Linked G (λ a. some (va a)) x t r
      → ((a : A) (u : Trace) → Linked G vb (va a) u (f a u))
      → Linked G vb x t (continue f r.0 r.1)
  Linked-bind va vb x t (done a, u) f g h = Linked-then vb x (va a) t u (f a u) g (h a u)
  Linked-bind va vb x t (more, u) f g h = tt
  Linked-bind va vb x t (fault, u) f g h = tt
