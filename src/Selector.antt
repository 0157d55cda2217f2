-- ===== src/Selector.antt =====
-- common.h `RSelector`: the interface of the two selectors, over the state `S` of an object. `wait`
-- takes the fuel of the loop that an implementation runs.
pub mod EPoll
pub mod Poll
mod Tests
use network_ping_test.Base.{ℕ, zero, suc, Option, none, some, Bool, List, [], ◌∷◌, ◌≡◌, refl}
use network_ping_test.Os.{
  Os, Run, Event, Trace, Outcome, done, more, fault, ◌>>=◌, continue, pure, out_of_fuel,
}

pub record RSelector (S : Type 0) : Type 0 where
  pub add_fd : Os → ℕ → S → Run (Bool × S)
  pub wait : Os → ℕ → S → Run (Bool × S)
  pub next : S → Run (Option Event × S)
  pub remove_current_ready : Os → S → Run S

-- All that `while(selector.next(sockfd, events))` delivers when its body leaves the selector alone.
module _ {S : Type 0} (sel : RSelector S) where
  abbrev pub gather : (S → Run (List Event × S)) → Option Event × S → Run (List Event × S)
  gather rest (none, s) = pure ([], s)
  gather rest (some e, s) = do (es, s') ← rest s; pure (e ∷ es, s')

  pub collect : ℕ → S → Run (List Event × S)
  collect zero s = out_of_fuel
  collect (suc fuel) s = do r ← sel.next s; gather (collect fuel) r

  pub collect-next :
      (fuel : ℕ) (s s' s'' : S) (e : Event) (es : List Event) (t t' t'' : Trace)
      → sel.next s t ≡ (done (some e, s'), t')
      → collect fuel s' t' ≡ (done (es, s''), t'')
      → collect (suc fuel) s t ≡ (done (e ∷ es, s''), t'')
  unfolding collect
  collect-next fuel s s' s'' e es t t' t'' h k = rw (h, k) refl

  pub collect-end :
      (fuel : ℕ) (s s' : S) (t t' : Trace)
      → sel.next s t ≡ (done (none, s'), t')
      → collect (suc fuel) s t ≡ (done ([], s'), t')
  unfolding collect
  collect-end fuel s s' t t' h = rw h refl
