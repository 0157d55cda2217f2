-- ===== src/Server/Worker/Fast/Order.antt =====
-- A round of the fast worker pings the sockets that are ready, in order.
use native.Mathlib.Numerals.{add-one}
use network_ping_test.Base.{
  ℕ, zero, suc, ◌+◌, ◌≤◌, ◌≡◌, refl, ap, ◌∙◌, List, [], ◌∷◌, Bool, true, false, length, take, drop,
  arith,
}
use network_ping_test.Os.{Os, Run, Outcome, done, more, fault, Trace, continue, pure, ◌>>=◌, Event}
use network_ping_test.Selector.EPoll.{EPollRSelector}
use network_ping_test.Selector.EPoll.Ready.{drop-cons, next-read, next-end}
use network_ping_test.Server.Worker.{ping}
use network_ping_test.Server.Worker.Fast.{ping_ready, after_ping}

module _ (os : Os) (message_len : ℕ) where
  -- The pings of `es`, one after the other, up to the first that fails.
  abbrev pub go_on : Run Bool → Bool → Run Bool
  go_on rest false = pure false
  go_on rest true = rest

  pub ping_each : List Event → Run Bool
  ping_each [] = pure true
  ping_each (e ∷ es) = do sent ← ping os e.fd message_len; go_on (ping_each es) sent

  -- Only whether the loop went to its end.
  abbrev pub flag : Bool × EPollRSelector → Run Bool
  flag (b, sel) = pure b

  after-flag :
      (again : EPollRSelector → Run (Bool × EPollRSelector)) (sel : EPollRSelector)
      (rest : Run Bool) (o : Outcome Bool) (t : Trace)
      → ((u : Trace) → continue flag (again sel u).0 (again sel u).1 ≡ rest u)
      → continue flag
          (continue (after_ping os message_len again sel) o t).0
          (continue (after_ping os message_len again sel) o t).1
        ≡ continue (go_on rest) o t
  after-flag again sel rest (done true) t h = h t
  after-flag again sel rest (done false) t h = refl
  after-flag again sel rest more t h = refl
  after-flag again sel rest fault t h = refl

  ping_ready-slice :
      (n : ℕ) (s : EPollRSelector) (t : Trace)
      → s.end_of_ready ≡ s.current_ready + n
      → s.end_of_ready ≤ length s.events.events
      → continue flag
          (ping_ready os message_len (suc n) s t).0
          (ping_ready os message_len (suc n) s t).1
        ≡ ping_each (take n (drop s.current_ready s.events.events)) t
  unfolding ping_ready ping_each
  ping_ready-slice zero s t e h =
      let here : s.current_ready ≡ s.end_of_ready = omega arith in rw (next-end s t here) refl
  ping_ready-slice (suc n) s t e h =
      let (x, found, read) = next-read s t (omega arith) h in
      rw (read, drop-cons s.events.events s.current_ready x found, add-one)
        (after-flag (ping_ready os message_len (suc n))
          (record s { current_ready = suc s.current_ready })
          (ping_each (take n (drop (suc s.current_ready) s.events.events)))
          (ping os x.fd message_len t).0 (ping os x.fd message_len t).1
          (λ u.
            ping_ready-slice n (record s { current_ready = suc s.current_ready }) u (omega arith)
              h))

  -- After a `wait`, at the start of the array, with n events reported and room for them, the loop over
  -- `next` pings the sockets of those n events, one after the other in their order, up to the first ping
  -- that fails, and then returns whether all have been answered: n + 1 rounds are enough.
  pub ping_ready-ping_each :
      (s : EPollRSelector) (t : Trace)
      → s.current_ready ≡ 0
      → s.end_of_ready ≤ length s.events.events
      → continue flag
          (ping_ready os message_len (suc s.end_of_ready) s t).0
          (ping_ready os message_len (suc s.end_of_ready) s t).1
        ≡ ping_each (take s.end_of_ready s.events.events) t
  ping_ready-ping_each s t z h =
      ping_ready-slice s.end_of_ready s t (omega arith) h
      ∙ ap (λ i. ping_each (take s.end_of_ready (drop i s.events.events)) t) z
