-- ===== src/Server/Session/Exit.antt =====
-- How the server's program ends.
use network_ping_test.Base.{
  ℕ, suc, ◌≡◌, refl, [], ◌∷◌, List, length, Option, none, some, Bool, true, false, Bool-cases,
  Option-cases, inl, inr, ◌&&◌,
}
use network_ping_test.Os.{
  Os, Outcome, done, Trace, ignore_sigpipe, socket, setsockopt, bind, listen,
}
use network_ping_test.Text.{Bytes}
use network_ping_test.Server.Results.{WorkerResult}
use network_ping_test.Server.Session.{
  bind_and_accept, main_loop_thread, main, is_text, default_port,
}
use network_ping_test.Server.Session.Loop.{LoopEnds, accept_clients-LoopEnds}

abbrev pub is_given : Option ℕ → Bool
is_given none = false
is_given (some _) = true

-- Whether `signal`, `socket` and `bind` succeed.
abbrev pub is_bound : Os → ℕ → Trace → Option ℕ → Bool
is_bound os port t none = false
is_bound os port t (some sock) = is_given (os (bind sock port ∷ setsockopt sock ∷ t)).value

abbrev pub is_ready : Os → ℕ → Trace → Bool
is_ready os port t =
    is_given (os (ignore_sigpipe ∷ t)).value
    && is_bound os port (socket ∷ ignore_sigpipe ∷ t) (os (socket ∷ ignore_sigpipe ∷ t)).value

-- Whether the first argument is -s.
abbrev pub is_single : List Bytes → Bool
is_single [] = false
is_single (first ∷ others) = is_text first (b'-' ∷ b's' ∷ [])

-- The end of the program: 1 at once if it is not ready; else none, or 0 with -s.
abbrev pub Exits : Bool → Bool → Outcome ℕ × Trace → Type 0
Exits false single_shot r = r.0 ≡ done 1
Exits true single_shot r = LoopEnds single_shot r

module _ (os : Os) (base : Bytes) (tresults : Trace → List WorkerResult) (fuel addrs port : ℕ)
    (single_shot : Bool) where
  bind_and_accept-Exits :
      (sock : ℕ) (t : Trace) (v : Option ℕ)
      → (os (bind sock port ∷ setsockopt sock ∷ t)).value ≡ v
      → Exits
          (is_given v)
          single_shot
          (bind_and_accept os base tresults fuel addrs port single_shot sock t)
  unfolding bind_and_accept
  bind_and_accept-Exits sock t none e = rw e refl
  bind_and_accept-Exits sock t (some _) e = rw e (
      accept_clients-LoopEnds os base tresults fuel addrs sock single_shot fuel
        (listen sock 3 ∷ bind sock port ∷ setsockopt sock ∷ t))

  main_loop_thread-Exits :
      (t : Trace)
      → Exits
          (is_ready os port t)
          single_shot
          (main_loop_thread os base tresults fuel addrs port single_shot t)
  unfolding main_loop_thread
  main_loop_thread-Exits t = elim (Option-cases (os (ignore_sigpipe ∷ t)).value) [
    | inl e ↦ rw e refl
    | inr (_, e) ↦ rw e (elim (Option-cases (os (socket ∷ ignore_sigpipe ∷ t)).value) [
      | inl f ↦ rw f refl
      | inr (sock, f) ↦ rw f (bind_and_accept-Exits sock (socket ∷ ignore_sigpipe ∷ t) _ refl)
    ])
  ]

-- If `signal`, `socket` or `bind` fails, the program returns 1. Otherwise, if it returns, it returns 0,
-- and its first argument is -s.
pub main-Exits :
    (os : Os) (base : Bytes) (tresults : Trace → List WorkerResult) (fuel : ℕ) (args : List Bytes)
    (t : Trace)
    → Exits (is_ready os default_port t) (is_single args) (main os base tresults fuel args t)
unfolding main
main-Exits os base tresults fuel [] t =
    main_loop_thread-Exits os base tresults fuel 0 default_port false t
main-Exits os base tresults fuel (first ∷ others) t =
    elim (Bool-cases (is_text first (b'-' ∷ b's' ∷ []))) [
      | inl e ↦
          rw e (main_loop_thread-Exits os base tresults fuel (length others) default_port true t)
      | inr e ↦
          rw e (
            main_loop_thread-Exits os base tresults fuel (suc (length others)) default_port false t)
    ]
