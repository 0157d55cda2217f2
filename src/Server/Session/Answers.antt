-- ===== src/Server/Session/Answers.antt =====
-- How `process_client` answers a request of the driver.
use network_ping_test.Base.{
  ℕ, zero, suc, ◌-◌, ◌≤◌, ◌<◌, ◌≡◌, ◌≢◌, ◌⊎◌, inl, inr, refl, ap, ◌∙◌, ◌∷◌, List, none, some, All,
  length, arith, test_ne, subst, sym, Option,
}
use network_ping_test.Base.Int.{ℤ, pos, negsuc}
use network_ping_test.Os.{
  Call, Os, Outcome, Reply, continue, done, more, fault, Trace, usleep, recv_dontwait, close,
}
use network_ping_test.Os.Close.{close_one}
use network_ping_test.Text.{Bytes}
use network_ping_test.Driver.{Request, ready_message}
use network_ping_test.Server.Results.{WorkerResult}
use network_ping_test.Server.Protocol.Request.{IsRequest, params_of}
use network_ping_test.Server.Protocol.{TestParams, TestResult, serialize_to_str}
use network_ping_test.Server.RunTest.{run_test}
use network_ping_test.Server.Session.{
  eagain, buffer_size, receive, obey, process_client, send_report,
}
use network_ping_test.Server.Session.Requests.{receive-first, load_from_str-arrived}

-- A `recv` that has no data yet.
abbrev pub IsNothing : Reply → Type 0
IsNothing r = ((r.value ≡ none) × (r.errno ≡ eagain)) ⊎ (r.value ≡ some 0)

-- `k` of them in a row, each with a sleep after it, from the trace `u` to `v`.
abbrev pub Waits : Os → ℕ → ℕ → Trace → Trace → Type 0
Waits os sock zero u v = u ≡ v
Waits os sock (suc k) u v =
    IsNothing (os (recv_dontwait sock buffer_size ∷ u))
    × Waits os sock k (usleep ∷ recv_dontwait sock buffer_size ∷ u) v

receive-nothing :
    (os : Os) (sock fuel : ℕ) (u : Trace)
    → IsNothing (os (recv_dontwait sock buffer_size ∷ u))
    → receive os sock (suc fuel) u
      ≡ receive os sock fuel (usleep ∷ recv_dontwait sock buffer_size ∷ u)
unfolding receive
receive-nothing os sock fuel u (inl (e, f)) = rw (e, f) refl
receive-nothing os sock fuel u (inr e) = rw e refl

receive-Waits :
    (os : Os) (sock k fuel : ℕ) (u v : Trace)
    → Waits os sock k u v
    → k ≤ fuel
    → receive os sock fuel u ≡ receive os sock (fuel - k) v
receive-Waits os sock zero fuel u v e h =
    ap (receive os sock fuel) e ∙ ap (λ j. receive os sock j v) (omega arith)
receive-Waits os sock (suc k) zero u v w h = absurd (omega arith)
receive-Waits os sock (suc k) (suc fuel) u v (r, w) h =
    receive-nothing os sock fuel u r
    ∙ (receive-Waits os sock k fuel (usleep ∷ recv_dontwait sock buffer_size ∷ u) v w (omega arith)
        ∙ ap (λ j. receive os sock j v) (omega arith))

-- A request that has arrived whole is obeyed, and the socket is closed last.
process_client-obey :
    (os : Os) (sock k n : ℕ) (base : Bytes) (tresults : Trace → List WorkerResult) (fuel addrs : ℕ)
    (t v : Trace) (r : Request)
    → IsRequest r
    → All (λ c. c ≢ 0) (ready_message r)
    → length (ready_message r) ≡ suc n
    → suc n < buffer_size
    → Waits os sock k (usleep ∷ t) v
    → k < 51
    → (os (recv_dontwait sock buffer_size ∷ v)).value ≡ some (suc n)
    → (os (recv_dontwait sock buffer_size ∷ v)).bytes ≡ ready_message r
    → process_client os sock base tresults fuel addrs t ≡ (
      (obey os sock base tresults fuel addrs
          (some (params_of r))
          (recv_dontwait sock buffer_size ∷ v)).0,
      close sock
          ∷ (obey os sock base tresults fuel addrs
              (some (params_of r))
              (recv_dontwait sock buffer_size ∷ v)).1,
    )
unfolding process_client close_one
process_client-obey os sock k n base tresults fuel addrs t v r valid text size small waits soon
      value bytes =
    rw
      (
        receive-Waits os sock k 51 (usleep ∷ t) v waits (omega arith),
        next_round,
        receive-first os sock (50 - k) n v value,
        test_ne (suc n) buffer_size (omega arith),
        load_from_str-arrived r n (os (recv_dontwait sock buffer_size ∷ v)).bytes valid text size
            bytes,
      )
      refl
  where
    next_round : 51 - k ≡ suc (50 - k)
    next_round = omega arith

-- How `process_client` ends when its test has ended so: without a result it closes the socket; with one
-- it writes the report first, unless the runtime is 0, by which it divides.
abbrev pub Answers :
    ℕ → Bytes → ℤ → Outcome (Option TestResult) × Trace → Outcome (Unit {0}) × Trace → Type 0
Answers sock base runtime (done none, u) r = r ≡ (done tt, close sock ∷ u)
Answers sock base runtime (done (some res), u) r =
    ((runtime ≡ pos 0) × (r ≡ (fault, close sock ∷ u)))
    ⊎ ((runtime ≢ pos 0)
        × (r ≡ (done tt, close sock ∷ Call.write sock (length (serialize_to_str base res)) ∷ u)))
Answers sock base runtime (more, u) r = r ≡ (more, close sock ∷ u)
Answers sock base runtime (fault, u) r = r ≡ (fault, close sock ∷ u)

module _ (os : Os) (sock : ℕ) (base : Bytes) (tresults : Trace → List WorkerResult)
    (fuel addrs : ℕ) where
  abbrev reported : TestParams → Outcome (Option TestResult) × Trace → Outcome (Unit {0}) × Trace
  reported params r = continue (send_report os sock base tresults fuel addrs params) r.0 r.1

  report-Answers :
      (params : TestParams) (runtime : ℤ) (res : TestResult) (u : Trace)
      → params.runtime ≡ runtime
      → Answers sock base runtime
          (done (some res), u)
          (
            (reported params (done (some res), u)).0,
            close sock ∷ (reported params (done (some res), u)).1,
          )
  report-Answers params (pos zero) res u e = rw e (inl (refl, refl))
  report-Answers params (pos (suc n)) res u e =
      rw (e, test_ne (suc n) 0 (omega arith)) (inr (λ h. cc, refl))
  report-Answers params (negsuc n) res u e = rw e (inr (λ h. cc, refl))

  reported-Answers :
      (params : TestParams) (r : Outcome (Option TestResult) × Trace)
      → Answers sock base params.runtime r
          ((reported params r).0, close sock ∷ (reported params r).1)
  reported-Answers params (done none, u) = refl
  reported-Answers params (done (some res), u) = report-Answers params params.runtime res u refl
  reported-Answers params (more, u) = refl
  reported-Answers params (fault, u) = refl

-- A well-formed request of the driver, without a 0 byte, that arrives whole within 51 calls of `recv`,
-- 100 ms apart, and fits the buffer: `process_client` runs the test with its parameters, three workers
-- and the addresses, right after that `recv`. If the test has no result, it then only closes the socket;
-- if it has one, it writes the report to the socket and closes it, unless the runtime is 0, by which it
-- divides. A test that does not return, or is undefined, leaves it so.
pub process_client-arrived :
    (os : Os) (sock k n : ℕ) (base : Bytes) (tresults : Trace → List WorkerResult) (fuel addrs : ℕ)
    (t v : Trace) (r : Request)
    → IsRequest r
    → All (λ c. c ≢ 0) (ready_message r)
    → length (ready_message r) ≡ suc n
    → suc n < buffer_size
    → Waits os sock k (usleep ∷ t) v
    → k < 51
    → (os (recv_dontwait sock buffer_size ∷ v)).value ≡ some (suc n)
    → (os (recv_dontwait sock buffer_size ∷ v)).bytes ≡ ready_message r
    → Answers sock base
        (params_of r).runtime
        (run_test os tresults fuel (params_of r) 3 addrs (recv_dontwait sock buffer_size ∷ v))
        (process_client os sock base tresults fuel addrs t)
process_client-arrived os sock k n base tresults fuel addrs t v r valid text size small waits soon
      value bytes =
    subst
      (Answers sock base (params_of r).runtime
        (run_test os tresults fuel (params_of r) 3 addrs (recv_dontwait sock buffer_size ∷ v)))
      (sym (
        process_client-obey os sock k n base tresults fuel addrs t v r valid text size small waits
          soon value bytes))
      (reported-Answers os sock base tresults fuel addrs (params_of r)
        (run_test os tresults fuel (params_of r) 3 addrs (recv_dontwait sock buffer_size ∷ v)))

-- If none of 51 calls of `recv` has data, `process_client` gives up: it only closes the socket.
pub process_client-silent :
    (os : Os) (sock : ℕ) (base : Bytes) (tresults : Trace → List WorkerResult) (fuel addrs : ℕ)
    (t v : Trace)
    → Waits os sock 51 (usleep ∷ t) v
    → process_client os sock base tresults fuel addrs t ≡ (done tt, close sock ∷ v)
unfolding process_client close_one receive
process_client-silent os sock base tresults fuel addrs t v waits =
    rw (receive-Waits os sock 51 51 (usleep ∷ t) v waits (omega arith)) refl
