-- ===== src/Server/Worker/Written.antt =====
-- The messages that a worker writes, and those that it counts, over its whole run.
pub mod Pinged
pub mod Quiet
pub mod Steps
pub mod Whole
use network_ping_test.Base.{
  ℕ, ◌+◌, ◌-◌, ◌%◌, ◌^◌, ◌≤◌, ◌≡◌, ◌≢◌, refl, ap, [], ◌∷◌, Option, none, some, Bool, true, false,
  ◌==◌, if◌then◌else◌, max, arith, inl, inr, ◌⊎◌, test_eq, test_ne,
}
use network_ping_test.Os.{Os, Call, Outcome, done, more, fault, Trace, recv}
use network_ping_test.Client.{process_message}
use network_ping_test.Client.Ping.{Echoed, ReadWhole, process_message_lem}
use network_ping_test.Server.Worker.{Tables, ping}
use network_ping_test.Server.Worker.Pings.{pings_of, ping-process_message}

-- The descriptor and the outcome of a write of `n` bytes.
abbrev pub is_whole : ℕ → Option ℕ → Bool
is_whole n none = false
is_whole n (some m) = m == n

abbrev pub one_if : Bool → ℕ
one_if true = 1
one_if false = 0

-- The messages of `n` bytes that the calls of a trace have written whole to the descriptor `key`.
unfoldable pub written_to : Os → ℕ → ℕ → Trace → ℕ
written_to os n key [] = 0
written_to os n key (Call.write fd m ∷ t) =
    (if fd == key then one_if (is_whole n (os (Call.write fd m ∷ t)).value) else 0)
    + written_to os n key t
written_to os n key (_ ∷ t) = written_to os n key t

module _ (os : Os) (n key : ℕ) where
  -- From the tables `s` at the trace `t` to `s'` at `u` the count for `key` has grown, modulo 2 ^ 64, by
  -- the messages written between.
  pub record Counts (s : Tables) (t : Trace) (s' : Tables) (u : Trace) : Type 0 where
    pub grown :
        (pings_of key s' + written_to os n key t) % 2 ^ 64
        ≡ (pings_of key s + written_to os n key u) % 2 ^ 64
    pub later : written_to os n key t ≤ written_to os n key u
    pub small : pings_of key s' ≤ max (pings_of key s) (2 ^ 64 - 1)

  pub Counts-join :
      (x y z : Tables) (t u v : Trace) → Counts x t y u → Counts y u z v → Counts x t z v
  Counts-join x y z t u v g h = record {
    grown = omega (arith, g.grown, h.grown);
    later = omega (arith, g.later, h.later);
    small = omega (arith, g.small, h.small);
  }

  -- Nothing counted, nothing written.
  pub Counts-same :
      (s s' : Tables) (t u : Trace)
      → pings_of key s' ≡ pings_of key s
      → written_to os n key u ≡ written_to os n key t
      → Counts s t s' u
  Counts-same s s' t u e f = record {
    grown = omega arith;
    later = omega arith;
    small = omega arith;
  }

  is_whole-no : (v : Option ℕ) → v ≢ some n → is_whole n v ≡ false
  is_whole-no none ne = refl
  is_whole-no (some m) ne = test_ne m n (λ e. ne (ap some e))

  -- A ping writes one message whole if it returns true, and none if it returns false.
  abbrev pub Pinged : ℕ → Trace → Outcome Bool × Trace → Type 0
  Pinged fd t (done b, u) =
      written_to os n key u ≡ (if fd == key then one_if b else 0) + written_to os n key t
  Pinged fd t (more, u) = Unit
  Pinged fd t (fault, u) = Unit

  pub ping-Pinged : (fd : ℕ) (t : Trace) → Pinged fd t (ping os fd n t)
  unfolding written_to
  ping-Pinged fd t =
      rw (ping-process_message os fd n t) (by_outcome (process_message_lem os fd n t))
    where
      o : Outcome Bool × Trace
      o = process_message os fd n t

      by_outcome :
          (Echoed os fd n t × (o ≡ (done true, Call.write fd n ∷ recv fd n ∷ t)))
            ⊎ ((ReadWhole os fd n t
                  × ¬ Echoed os fd n t
                  × (o ≡ (done false, Call.write fd n ∷ recv fd n ∷ t)))
                ⊎ ((¬ ReadWhole os fd n t) × (o ≡ (done false, recv fd n ∷ t))))
          → Pinged fd t o
      by_outcome (inl ((r, pos, w), e)) = rw (e, w, test_eq n n refl) refl
      by_outcome (inr (inl (r, short, e))) =
          rw
            (e, is_whole-no (os (Call.write fd n ∷ recv fd n ∷ t)).value (λ w. short (r.0, r.1, w)))
            refl
      by_outcome (inr (inr (no_read, e))) = rw e (ground arith)
