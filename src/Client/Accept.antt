-- ===== src/Client/Accept.antt =====
-- What `wait_for_conn` returns, and that it closes its listening socket.
use mathlib.Core.List.{append-nil, append_assoc}
use network_ping_test.Os.Runs.{IsDone, continue-done}
use network_ping_test.Base.{
  if◌then◌else◌, ℕ, zero, suc, ◌<◌, ◌≡◌, refl, sym, ◌∙◌, List, [], ◌∷◌, ◌++◌, Option, none, some,
  Bool, true, false, length, arith, inl, inr, Option-cases,
}
use network_ping_test.Os.{
  ◌>>◌, Os, Call, socket, setsockopt, bind, accept, close, Outcome, done, more, fault, Trace, Reply,
  continue,
}
use network_ping_test.Client.{
  set_nonblock, prepare, on_sock, accept_loop, listen_and_accept, wait_for_conn, pure, fcntl_getfl,
  fcntl_setfl, listen, notify, ready_for_connect, with_nonblock,
}

-- The sockets after a run of the loop that started with `xs` and `n` rounds to go: n more on success,
-- and fewer on failure. It never faults.
abbrev pub Accepts : List ℕ → ℕ → Outcome (Bool × List ℕ) → Type 0
Accepts xs n (done (true, ys)) = (zs : List ℕ) × (ys ≡ xs ++ zs) × (length zs ≡ n)
Accepts xs n (done (false, ys)) = (zs : List ℕ) × (ys ≡ xs ++ zs) × (length zs < n)
Accepts xs n more = ⊥
Accepts xs n fault = ⊥

set_nonblock-IsDone : (os : Os) (c : ℕ) (t : Trace) → IsDone (set_nonblock os c t).0
unfolding set_nonblock
set_nonblock-IsDone os c t = elim (Option-cases (os (fcntl_getfl c ∷ t)).value) [
  | inl e ↦ rw e tt
  | inr (flags, e) ↦ rw e (set os c flags (fcntl_setfl c (with_nonblock flags) ∷ fcntl_getfl c ∷ t))
]
  where
    set :
        (os' : Os) (c' flags : ℕ) (u : Trace)
        → IsDone
            (continue {A = Reply} {B = Bool}
              (λ w. elim w.value [ none ↦ pure false | some _ ↦ pure true ])
              (done (os' u))
              u).0
    set os' c' flags u = elim (Option-cases (os' u).value) [
      | inl e ↦ rw e tt
      | inr (_, e) ↦ rw e tt
    ]

prepare-IsDone : (os : Os) (async : Bool) (c : ℕ) (t : Trace) → IsDone (prepare os async c t).0
prepare-IsDone os true c t = set_nonblock-IsDone os c t
prepare-IsDone os false c t = tt

on_sock-IsDone :
    (os : Os) (cb : Option (ℕ → Call)) (c : ℕ) (t : Trace) → IsDone (on_sock os cb c t).0
on_sock-IsDone os none c t = tt
on_sock-IsDone os (some cb) c t = tt

grow :
    (xs : List ℕ) (c n : ℕ) (o : Outcome (Bool × List ℕ))
    → Accepts (xs ++ c ∷ []) n o
    → Accepts xs (suc n) o
grow xs c n (done (true, ys)) (zs, e, l) = (c ∷ zs, e ∙ append_assoc xs (c ∷ []) zs, omega arith)
grow xs c n (done (false, ys)) (zs, e, l) = (c ∷ zs, e ∙ append_assoc xs (c ∷ []) zs, omega arith)
grow xs c n more h = h
grow xs c n fault h = h

module _ (os : Os) (master : ℕ) (cb : Option (ℕ → Call)) (async : Bool) where
  accept_round :
      (left : ℕ) (xs : List ℕ) (t : Trace) (v : Option ℕ)
      → (os (accept master ∷ t)).value ≡ v
      → ((ys : List ℕ) (u : Trace) → Accepts ys left (accept_loop os master cb async left ys u).0)
      → Accepts xs (suc left) (accept_loop os master cb async (suc left) xs t).0
  unfolding accept_loop
  accept_round left xs t none e h = rw e ([], sym (append-nil xs), omega arith)
  accept_round left xs t (some c) e h = rw e (
      continue-done P _ (prepare os async c (accept master ∷ t)).0 _
        (prepare-IsDone os async c (accept master ∷ t)) on_ready)
    where
      P : Outcome (Bool × List ℕ) × Trace → Type 0
      P r = Accepts xs (suc left) r.0

      on_ready :
          (ready : Bool)
          → P (
              (if ready
                  then on_sock os cb c >> accept_loop os master cb async left (xs ++ c ∷ [])
                  else pure (false, xs))
                (prepare os async c (accept master ∷ t)).1)
      on_ready true =
          let u : Trace = (prepare os async c (accept master ∷ t)).1 in
          continue-done P (λ _. accept_loop os master cb async left (xs ++ c ∷ []))
            (on_sock os cb c u).0 (on_sock os cb c u).1 (on_sock-IsDone os cb c u)
            (λ _.
              grow xs c left
                (accept_loop os master cb async left (xs ++ c ∷ []) (on_sock os cb c u).1).0
                (h _ _))
      on_ready false = ([], sym (append-nil xs), omega arith)

  accept_loop-Accepts :
      (n : ℕ) (xs : List ℕ) (t : Trace) → Accepts xs n (accept_loop os master cb async n xs t).0
  unfolding accept_loop
  accept_loop-Accepts zero xs t = ([], sym (append-nil xs), refl)
  accept_loop-Accepts (suc left) xs t =
      accept_round left xs t (os (accept master ∷ t)).value refl (accept_loop-Accepts left)

-- How `wait_for_conn` ends once it has the listening socket, with `xs` in the vector before: as the
-- loop does, or at a `bind` that failed.
abbrev pub Waited : List ℕ → ℕ → Bool → Outcome (Bool × List ℕ) → Type 0
Waited xs n true o = Accepts xs n o
Waited xs n false o = o ≡ done (true, xs)

abbrev pub bound : Option ℕ → Bool
bound none = false
bound (some _) = true

notify-IsDone : (os : Os) (b : Bool) (c : Call) (t : Trace) → IsDone (notify os b c t).0
notify-IsDone os true c t = tt
notify-IsDone os false c t = tt

module _ (os : Os) (n port queue : ℕ) (announce : Bool) (cb : Option (ℕ → Call)) (async : Bool)
    (xs : List ℕ) (m : ℕ) (t : Trace) where
  listen_and_accept-Waited :
      (b : Option ℕ)
      → (os (bind m port ∷ setsockopt m ∷ t)).value ≡ b
      → Waited xs n (bound b) (listen_and_accept os m n port queue announce cb async xs t).0
  unfolding listen_and_accept
  listen_and_accept-Waited none e = rw e refl
  listen_and_accept-Waited (some _) e =
      let u : Trace = listen m queue ∷ bind m port ∷ setsockopt m ∷ t in
      rw e (
        continue-done (λ r. Accepts xs n r.0) (λ _. accept_loop os m cb async n xs)
          (notify os announce ready_for_connect u).0 (notify os announce ready_for_connect u).1
          (notify-IsDone os announce ready_for_connect u)
          (λ _. accept_loop-Accepts os m cb async n xs (notify os announce ready_for_connect u).1))

-- When `socket` succeeds, `wait_for_conn` returns, and its last call closes the socket that it listened
-- on, on every path. When `bind` succeeds it returns true with exactly `sock_count` more sockets in the
-- vector, or false with fewer, none of the earlier ones lost. When `bind` fails it returns true with no
-- socket added.
pub wait_for_conn_lem :
    (os : Os) (n port queue : ℕ) (announce : Bool) (cb : Option (ℕ → Call)) (async : Bool)
    (xs : List ℕ) (t : Trace) (m : ℕ)
    → (os (socket ∷ t)).value ≡ some m
    → ((u : Trace) × ((wait_for_conn os n xs port queue announce cb async t).1 ≡ close m ∷ u))
      × Waited xs n
          (bound (os (bind m port ∷ setsockopt m ∷ socket ∷ t)).value)
          (wait_for_conn os n xs port queue announce cb async t).0
unfolding wait_for_conn
wait_for_conn_lem os n port queue announce cb async xs t m e =
    rw e (
      (_, refl),
      listen_and_accept-Waited os n port queue announce cb async xs m (socket ∷ t) _ refl,
    )
