-- ===== src/Client/Ping.antt =====
-- `process_message`, and the thread that repeats it.
use network_ping_test.Base.{
  ℕ, ◌⊎◌, zero, suc, ◌<◌, ◌≡◌, ◌≢◌, ◌∷◌, some, true, false, arith, inl, inr, ℕ_discrete, is_some,
}
use network_ping_test.Os.{Os, recv, write, done, Trace}
use network_ping_test.Client.{process_message, th_func}

-- The ping of a whole message: it was read whole, it was not empty, and the answer was written whole.
abbrev pub Echoed : Os → ℕ → ℕ → Trace → Type 0
Echoed os fd n t =
    ((os (recv fd n ∷ t)).value ≡ some n)
    × (n ≢ 0)
    × ((os (write fd n ∷ recv fd n ∷ t)).value ≡ some n)

-- A whole message, not empty, was read.
abbrev pub ReadWhole : Os → ℕ → ℕ → Trace → Type 0
ReadWhole os fd n t = ((os (recv fd n ∷ t)).value ≡ some n) × (n ≢ 0)

-- `process_message` always ends, in one of three ways. A message was read and echoed whole: it returns
-- true. It was read whole, and not echoed whole: false after the read and the write. It was not read
-- whole, or is empty: false after the read alone.
pub process_message_lem :
    (os : Os) (fd n : ℕ) (t : Trace)
    → (Echoed os fd n t × (process_message os fd n t ≡ (done true, write fd n ∷ recv fd n ∷ t)))
      ⊎ ((ReadWhole os fd n t
            × ¬ Echoed os fd n t
            × (process_message os fd n t ≡ (done false, write fd n ∷ recv fd n ∷ t)))
          ⊎ ((¬ ReadWhole os fd n t) × (process_message os fd n t ≡ (done false, recv fd n ∷ t))))
unfolding process_message
process_message_lem os fd n t = elim (is_some (os (recv fd n ∷ t)).value n) [
  | no other ↦ inr (inr ((λ h. other h.0), ground arith))
  | yes read ↦ elim (ℕ_discrete n 0) [
    | yes empty ↦ inr (inr ((λ h. h.1 empty), ground arith))
    | no ne ↦ elim (is_some (os (write fd n ∷ recv fd n ∷ t)).value n) [
      | yes sent ↦ inl ((read, ne, sent), ground arith)
      | no short ↦ inr (inl ((read, ne), (λ h. short h.2), ground arith))
    ]
  ]
]

-- `k` pings in a row that were echoed whole, the trace of calls before them and after them.
abbrev pub Pings : Os → ℕ → ℕ → ℕ → Trace → Trace → Type 0
Pings os fd n zero t u = u ≡ t
Pings os fd n (suc k) t u = Echoed os fd n t × Pings os fd n k (write fd n ∷ recv fd n ∷ t) u

go_on :
    (os : Os) (fd n : ℕ) (t : Trace)
    → Echoed os fd n t
    → process_message os fd n t ≡ (done true, write fd n ∷ recv fd n ∷ t)
unfolding process_message
go_on os fd n t h = ground arith

stop :
    (os : Os) (fd n : ℕ) (t : Trace)
    → ¬ Echoed os fd n t
    → (process_message os fd n t).0 ≡ done false
unfolding process_message
stop os fd n t ne = ground arith

-- A thread ends at the first ping that is not echoed whole, and not before: if k pings are echoed and
-- the next is not, k + 1 rounds are enough, and its calls are those of the k pings and of the last.
pub th_func-ends :
    (os : Os) (fd n k fuel : ℕ) (t u : Trace)
    → Pings os fd n k t u
    → ¬ Echoed os fd n u
    → k < fuel
    → th_func os fuel fd n t ≡ (done tt, (process_message os fd n u).1)
unfolding th_func
th_func-ends os fd n zero zero t u p ne h = absurd (omega arith)
th_func-ends os fd n (suc k) zero t u p ne h = absurd (omega arith)
th_func-ends os fd n zero (suc fuel) t u p ne h =
    rw (← p, stop os fd n u ne) (λ i. (done tt, (process_message os fd n u).1))
th_func-ends os fd n (suc k) (suc fuel) t u p ne h =
    rw (go_on os fd n t p.0) (th_func-ends os fd n k fuel _ u p.1 ne (omega arith))
