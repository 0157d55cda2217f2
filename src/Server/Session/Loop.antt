-- ===== src/Server/Session/Loop.antt =====
-- The loop that accepts the driver's connections, and how the program ends.
use network_ping_test.Base.{
  ℕ, zero, suc, ◌+◌, ◌≡◌, ◌<◌, refl, ap, ◌∙◌, ◌∷◌, List, Option, none, some, Bool, true, false,
  arith, if◌then◌else◌,
}
use network_ping_test.Os.{Os, Outcome, done, more, fault, Trace, accept, continue, Run, ◌>>◌, pure}
use network_ping_test.Os.Runs.{continue-all}
use network_ping_test.Text.{Bytes}
use network_ping_test.Server.Results.{WorkerResult}
use network_ping_test.Server.Session.{process_client, accept_clients}

then-done :
    {A B : Type 0} (m : Run A) (f : Run B) (t u : Trace) {a : A}
    → m t ≡ (done a, u)
    → (m >> f) t ≡ f u
then-done m f t u e = ap (λ r. continue (λ _. f) r.0 r.1) e

-- What the loop may return: nothing without -s, 0 with it.
abbrev pub LoopEnds : Bool → Outcome ℕ × Trace → Type 0
LoopEnds single_shot (done code, u) = (code ≡ 0) × (single_shot ≡ true)
LoopEnds single_shot (more, u) = Unit
LoopEnds single_shot (fault, u) = Unit

module _ (os : Os) (base : Bytes) (tresults : Trace → List WorkerResult) (fuel addrs : ℕ)
    (control_sock : ℕ) where
  -- What happens on the listening socket from one trace to a later one: a number of calls of
  -- `accept` that fail, and of clients that are served.
  pub data Sessions : ℕ → Trace → Trace → Type 0 where
    idle : {t : Trace} → Sessions 0 t t
    refused :
        {n : ℕ} {t u : Trace}
        → (os (accept control_sock ∷ t)).value ≡ none
        → Sessions n (accept control_sock ∷ t) u
        → Sessions (suc n) t u
    served :
        {n : ℕ} {t u v : Trace} (sock : ℕ)
        → (os (accept control_sock ∷ t)).value ≡ some sock
        → process_client os sock base tresults fuel addrs (accept control_sock ∷ t) ≡ (done tt, u)
        → Sessions n u v
        → Sessions (suc n) t v

  after_Sessions :
      (m n left : ℕ) (t u : Trace)
      → Sessions n t u
      → m ≡ left + n
      → accept_clients os base tresults fuel addrs m control_sock false t
        ≡ accept_clients os base tresults fuel addrs left control_sock false u
  unfolding accept_clients
  after_Sessions m n left t u idle h =
      ap (λ k. accept_clients os base tresults fuel addrs k control_sock false t) (omega arith)
  after_Sessions zero n left t u (refused e s) h = absurd (omega arith)
  after_Sessions (suc m) n left t u (refused e s) h =
      rw e (after_Sessions m _ left _ u s (omega arith))
  after_Sessions zero n left t u (served sock e p s) h = absurd (omega arith)
  after_Sessions (suc m) n left t u (served sock e p s) h = rw e (
      then-done (process_client os sock base tresults fuel addrs)
        (accept_clients os base tresults fuel addrs m control_sock false) _ _ p
      ∙ after_Sessions m _ left _ u s (omega arith))

  -- Without -s the loop outlasts the clients that it serves and the calls of `accept` that fail,
  -- one round for each, and then stands where it stood.
  pub accept_clients-Sessions :
      (n left : ℕ) (t u : Trace)
      → Sessions n t u
      → accept_clients os base tresults fuel addrs (left + n) control_sock false t
        ≡ accept_clients os base tresults fuel addrs left control_sock false u
  accept_clients-Sessions n left t u s = after_Sessions (left + n) n left t u s refl

  -- `n` calls of `accept` in a row that fail.
  abbrev pub Refused : ℕ → Trace → Trace → Type 0
  Refused zero t u = t ≡ u
  Refused (suc n) t u =
      ((os (accept control_sock ∷ t)).value ≡ none) × Refused n (accept control_sock ∷ t) u

  -- With -s the first client is the last, however many calls of `accept` fail before: the loop
  -- returns 0.
  pub accept_clients-single :
      (n left sock : ℕ) (t u v : Trace)
      → n < left
      → Refused n t u
      → (os (accept control_sock ∷ u)).value ≡ some sock
      → process_client os sock base tresults fuel addrs (accept control_sock ∷ u) ≡ (done tt, v)
      → accept_clients os base tresults fuel addrs left control_sock true t ≡ (done 0, v)
  unfolding accept_clients
  accept_clients-single n zero sock t u v h r e p = absurd (omega arith)
  accept_clients-single zero (suc left) sock t u v h r e p =
      rw (r, e) (then-done (process_client os sock base tresults fuel addrs) (pure 0) _ _ p)
  accept_clients-single (suc n) (suc left) sock t u v h (f, r) e p =
      rw f (accept_clients-single n left sock (accept control_sock ∷ t) u v (omega arith) r e p)

  pub accept_clients-LoopEnds :
      (single_shot : Bool) (left : ℕ) (t : Trace)
      → LoopEnds single_shot
          (accept_clients os base tresults fuel addrs left control_sock single_shot t)
  unfolding accept_clients
  accept_clients-LoopEnds single_shot zero t = tt
  accept_clients-LoopEnds single_shot (suc left) t =
      by_accept (os (accept control_sock ∷ t)).value refl (accept_clients-LoopEnds single_shot left)
    where
      by_client :
          (b : Bool) (u : Trace)
          → ((v : Trace)
              → LoopEnds b (accept_clients os base tresults fuel addrs left control_sock b v))
          → LoopEnds b (
              (if b then pure 0 else accept_clients os base tresults fuel addrs left control_sock b)
                u)
      by_client true u h = (refl, refl)
      by_client false u h = h u

      by_accept :
          (v : Option ℕ)
          → (os (accept control_sock ∷ t)).value ≡ v
          → ((u : Trace)
              → LoopEnds single_shot
                  (accept_clients os base tresults fuel addrs left control_sock single_shot u))
          → LoopEnds single_shot
              (accept_clients os base tresults fuel addrs (suc left) control_sock single_shot t)
      by_accept none e h = rw e (h (accept control_sock ∷ t))
      by_accept (some sock) e h = rw e (
          continue-all (LoopEnds single_shot)
            (λ _.
              if single_shot
              then pure 0
              else accept_clients os base tresults fuel addrs left control_sock single_shot)
            (process_client os sock base tresults fuel addrs (accept control_sock ∷ t)).0
            (process_client os sock base tresults fuel addrs (accept control_sock ∷ t)).1 (λ _. tt)
            (λ _. tt)
            (λ _.
              by_client single_shot
                (process_client os sock base tresults fuel addrs (accept control_sock ∷ t)).1 h))
