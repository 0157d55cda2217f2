-- ===== src/Server/Worker/Pings.antt =====
-- The pings of a round.
use network_ping_test.Base.{
  ℕ, ◌+◌, ◌%◌, ◌^◌, ◌<◌, ◌≡◌, refl, List, [], ◌∷◌, Bool, true, false, ◌==◌, arith, Bool-cases, inl,
  inr,
}
use network_ping_test.Os.{Os, Outcome, done, more, fault, Trace, load_done, clock_gettime}
use network_ping_test.Os.Runs.{continue-all}
use network_ping_test.Wait.{get_fast_time, nanoseconds}
use network_ping_test.Server.Results.Merge.{count_at, count_at-add_at, add_at-small}
use network_ping_test.Client.{process_message}
use network_ping_test.Server.Worker.{Tables, ping, ping_all, count_ping, time_or_zero, after_ping}
use network_ping_test.Server.Worker.Queue.{occurs}

-- The pings counted for a socket.
abbrev pub pings_of : ℕ → Tables → ℕ
pings_of key s = count_at key s.result.mess_count_for_sock

-- All of `fds` were pinged and counted; the queue and `ready_fds` are as they were.
abbrev pub AllPinged : ℕ → List ℕ → Tables → Outcome (Bool × Tables) × Trace → Type 0
AllPinged key fds s (done (true, s'), u) =
    (pings_of key s' ≡ (pings_of key s + occurs key fds) % 2 ^ 64)
    × (s'.wait_queue ≡ s.wait_queue)
    × (s'.ready_fds ≡ s.ready_fds)
AllPinged key fds s (done (false, s'), u) = s'.wait_queue ≡ s.wait_queue
AllPinged key fds s (more, u) = Unit
AllPinged key fds s (fault, u) = Unit

module _ (os : Os) (bucket : ℕ → ℕ) (message_len lo hi : ℕ) (key : ℕ) where
  after_count :
      (fd now : ℕ) (fds : List ℕ) (s : Tables) (r : Outcome (Bool × Tables) × Trace)
      → pings_of key s < 2 ^ 64
      → AllPinged key fds (count_ping os bucket message_len lo hi fd now s) r
      → AllPinged key (fd ∷ fds) s r
  after_count fd now fds s (done (true, s'), u) h (c, q, f) =
      (ground (arith, c, count_at-add_at key fd 1 s.result.mess_count_for_sock), q, f)
  after_count fd now fds s (done (false, s'), u) h q = q
  after_count fd now fds s (more, u) h p = tt
  after_count fd now fds s (fault, u) h p = tt

  by_sent :
      (fd : ℕ) (fds : List ℕ) (s : Tables) (u : Trace) (sent : Bool)
      → pings_of key s < 2 ^ 64
      → ((now : ℕ)
          → AllPinged key fds (count_ping os bucket message_len lo hi fd now s) (
              ping_all os bucket message_len lo hi fds
                (count_ping os bucket message_len lo hi fd now s)
                (clock_gettime ∷ u)))
      → AllPinged key (fd ∷ fds) s (
          after_ping os bucket message_len lo hi
            (ping_all os bucket message_len lo hi fds)
            fd
            s
            sent
            u)
  unfolding get_fast_time
  by_sent fd fds s u false h k = refl
  by_sent fd fds s u true h k =
      after_count fd (nanoseconds (os (clock_gettime ∷ u))) fds s _ h
        (k (nanoseconds (os (clock_gettime ∷ u))))

  -- If the loop over the sockets `fds` ends with true, each of them was pinged and counted, as often as
  -- it stands in `fds`, modulo 2 ^ 64. Whether it does or not, the queue stays as it was.
  pub ping_all-AllPinged :
      (fds : List ℕ) (s : Tables) (t : Trace)
      → pings_of key s < 2 ^ 64
      → AllPinged key fds s (ping_all os bucket message_len lo hi fds s t)
  unfolding ping_all
  ping_all-AllPinged [] s t h = (omega arith, refl, refl)
  ping_all-AllPinged (fd ∷ fds) s t h =
      elim (Bool-cases (time_or_zero (os (load_done ∷ t)).value == 1)) [
        | inl e ↦ rw e refl
        | inr e ↦ rw e (
            continue-all (AllPinged key (fd ∷ fds) s)
              (after_ping os bucket message_len lo hi (ping_all os bucket message_len lo hi fds) fd
                s)
              (ping os fd message_len (load_done ∷ t)).0 (ping os fd message_len (load_done ∷ t)).1
              (λ _. tt) (λ _. tt)
              (λ sent. by_sent fd fds s (ping os fd message_len (load_done ∷ t)).1 sent h (λ now.
                ping_all-AllPinged fds (count_ping os bucket message_len lo hi fd now s) _
                  (add_at-small key fd 1 s.result.mess_count_for_sock h))))
      ]

-- The server's `ping` and the client's `process_message` are the same: on every system, they make the
-- same calls and return the same.
pub ping-process_message :
    (os : Os) (fd n : ℕ) (t : Trace) → ping os fd n t ≡ process_message os fd n t
unfolding ping process_message
ping-process_message os fd n t = ground arith
