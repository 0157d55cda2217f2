-- ===== src/Server/Worker/Written/Steps.antt =====
-- The counts of a worker over the steps of a round.
use network_ping_test.Base.{
  ℕ, zero, suc, ◌+◌, ◌≡◌, refl, ap, List, [], ◌∷◌, Option, none, some, Bool, true, false, ◌==◌,
  if◌then◌else◌, arith,
}
use network_ping_test.Os.{
  Os, Run, Outcome, done, more, fault, Trace, ◌>>=◌, pure, load_done, clock_gettime, Event,
}
use network_ping_test.Os.Links.{Linked-then}
use network_ping_test.Wait.{get_fast_time, nanoseconds}
use network_ping_test.Selector.EPoll.{EPollRSelector, next}
use network_ping_test.Server.Results.Merge.{count_at-add_at}
use network_ping_test.Server.Worker.{
  Tables, ping, place, placed, sort_ready, sort_event, choose_timeout, count_ping, after_ping,
  ping_all, time_or_zero,
}
use network_ping_test.Server.Worker.Rounds.{pings_of-place}
use network_ping_test.Server.Worker.Written.{
  written_to, one_if, Counts, Counts-join, Counts-same, Pinged, ping-Pinged,
}
use network_ping_test.Server.Worker.Written.Quiet.{
  left, left_with, Counted, bind, quiet, same, from, choose_timeout-quiet,
}
use network_ping_test.Selector.EPoll.Quiet.{next-quiet}

module _ (os : Os) (bucket : ℕ → ℕ) (n lo hi : ℕ) (key : ℕ) where
  placed-Counted :
      (again halt : Tables → Run (Bool × Tables × EPollRSelector)) (go : Bool) (s : Tables)
      (t : Trace)
      → ((u : Trace) → Counted os bucket n lo hi key (λ x. some (left_with x)) s u (again s u))
      → ((u : Trace) → Counted os bucket n lo hi key (λ x. some (left_with x)) s u (halt s u))
      → Counted os bucket n lo hi key
          (λ x. some (left_with x))
          s
          t
          (placed os bucket n lo hi again halt (go, s) t)
  unfolding written_to
  placed-Counted again halt false s t ha hh = ha t
  placed-Counted again halt true s t ha hh =
      Linked-then (Counts os n key) (Counts-join os n key) (λ x. some (left_with x)) s s t
        (load_done ∷ t) _ (Counts-same os n key s s t (load_done ∷ t) refl refl)
        (by_stop (time_or_zero (os (load_done ∷ t)).value == 1) (load_done ∷ t))
    where
      by_stop :
          (stop : Bool) (u : Trace)
          → Counted os bucket n lo hi key
              (λ x. some (left_with x))
              s
              u
              ((if stop then halt s else again s) u)
      by_stop true u = hh u
      by_stop false u = ha u

  event-Counted :
      (now : ℕ) (s : Tables) (e : Option Event) (sel : EPollRSelector)
      (again : Tables → EPollRSelector → Run (Bool × Tables × EPollRSelector)) (t : Trace)
      → ((s' : Tables) (u : Trace)
          → Counted os bucket n lo hi key (λ x. some (left_with x)) s' u (again s' sel u))
      → Counted os bucket n lo hi key
          (λ x. some (left_with x))
          s
          t
          (sort_event os bucket n lo hi now again s (e, sel) t)
  event-Counted now s none sel again t h = same os bucket n lo hi key s t
  event-Counted now s (some e) sel again t h =
      bind os bucket n lo hi key (λ _. s) (λ x. some (left_with x)) s t
        (choose_timeout os bucket n lo hi t)
        (λ delay.
          placed os bucket n lo hi (λ x. again x sel) (λ x. pure (false, x, sel))
            (place os bucket n lo hi now e.fd delay s))
        (quiet os bucket n lo hi key s t (choose_timeout os bucket n lo hi t)
          (choose_timeout-quiet os bucket n lo hi key t))
        (λ delay u.
          let r : Bool × Tables = place os bucket n lo hi now e.fd delay s in
          from os bucket n lo hi key (λ x. some (left_with x)) s r.1 u _
            (pings_of-place os bucket n lo hi key now e.fd delay s)
            (placed-Counted (λ x. again x sel) (λ x. pure (false, x, sel)) r.0 r.1 u (h r.1)
              (λ v. same os bucket n lo hi key r.1 v)))

  pub sort_ready-Counted :
      (fuel now : ℕ) (s : Tables) (sel : EPollRSelector) (t : Trace)
      → Counted os bucket n lo hi key
          (λ x. some (left_with x))
          s
          t
          (sort_ready os bucket n lo hi fuel now s sel t)
  unfolding sort_ready
  sort_ready-Counted zero now s sel t = tt
  sort_ready-Counted (suc fuel) now s sel t =
      bind os bucket n lo hi key (λ _. s) (λ x. some (left_with x)) s t (next sel t)
        (sort_event os bucket n lo hi now (sort_ready os bucket n lo hi fuel now) s)
        (quiet os bucket n lo hi key s t (next sel t) (ap (written_to os n key) (next-quiet sel t)))
        (λ e u.
          event-Counted now s e.0 e.1 (sort_ready os bucket n lo hi fuel now) u
            (λ s' v. sort_ready-Counted fuel now s' e.1 v))

  -- The tables after a ping, but for the time.
  abbrev pinged_once : ℕ → Tables → Bool → Tables
  pinged_once fd s false = s
  pinged_once fd s true = count_ping os bucket n lo hi fd 0 s

  Counts-ping :
      (fd : ℕ) (s : Tables) (t u : Trace) (b : Bool)
      → written_to os n key u ≡ (if fd == key then one_if b else 0) + written_to os n key t
      → Counts os n key s t (pinged_once fd s b) u
  Counts-ping fd s t u false e = Counts-same os n key s s t u refl (ground arith)
  Counts-ping fd s t u true e =
      let c = count_at-add_at key fd 1 s.result.mess_count_for_sock in
      record { grown = ground (arith, c, e); later = ground (arith, e); small = ground (arith, c) }

  ping-Counted :
      (fd : ℕ) (s : Tables) (t : Trace)
      → Counted os bucket n lo hi key (λ b. some (pinged_once fd s b)) s t (ping os fd n t)
  ping-Counted fd s t = by_outcome (ping os fd n t) (ping-Pinged os n key fd t)
    where
      by_outcome :
          (r : Outcome Bool × Trace)
          → Pinged os n key fd t r
          → Counted os bucket n lo hi key (λ b. some (pinged_once fd s b)) s t r
      by_outcome (done b, u) e = Counts-ping fd s t u b e
      by_outcome (more, u) e = tt
      by_outcome (fault, u) e = tt

  after_ping-Counted :
      (again : Tables → Run (Bool × Tables)) (fd : ℕ) (s : Tables) (b : Bool) (t : Trace)
      → ((s' : Tables) (u : Trace)
          → Counted os bucket n lo hi key (λ x. some (left x)) s' u (again s' u))
      → Counted os bucket n lo hi key
          (λ x. some (left x))
          (pinged_once fd s b)
          t
          (after_ping os bucket n lo hi again fd s b t)
  unfolding get_fast_time written_to
  after_ping-Counted again fd s false t h = same os bucket n lo hi key s t
  after_ping-Counted again fd s true t h =
      let now : ℕ = nanoseconds (os (clock_gettime ∷ t)) in
      Linked-then (Counts os n key) (Counts-join os n key) (λ x. some (left x))
        (count_ping os bucket n lo hi fd 0 s) (count_ping os bucket n lo hi fd now s) t
        (clock_gettime ∷ t) _
        (Counts-same os n key (count_ping os bucket n lo hi fd 0 s)
          (count_ping os bucket n lo hi fd now s) t (clock_gettime ∷ t) refl refl)
        (h (count_ping os bucket n lo hi fd now s) (clock_gettime ∷ t))

  pub ping_all-Counted :
      (fds : List ℕ) (s : Tables) (t : Trace)
      → Counted os bucket n lo hi key (λ x. some (left x)) s t (ping_all os bucket n lo hi fds s t)
  unfolding ping_all written_to
  ping_all-Counted [] s t = same os bucket n lo hi key s t
  ping_all-Counted (fd ∷ fds) s t =
      Linked-then (Counts os n key) (Counts-join os n key) (λ x. some (left x)) s s t
        (load_done ∷ t) _ (Counts-same os n key s s t (load_done ∷ t) refl refl)
        (by_stop (time_or_zero (os (load_done ∷ t)).value == 1) (load_done ∷ t)
          (ping_all-Counted fds))
    where
      by_stop :
          (stop : Bool) (u : Trace)
          → ((s' : Tables) (v : Trace)
              → Counted os bucket n lo hi key
                  (λ x. some (left x))
                  s'
                  v
                  (ping_all os bucket n lo hi fds s' v))
          → Counted os bucket n lo hi key
              (λ x. some (left x))
              s
              u
              ((if stop
                  then pure (false, s)
                  else (ping os fd n >>= λ sent.
                      after_ping os bucket n lo hi (ping_all os bucket n lo hi fds) fd s sent))
                u)
      by_stop true u h = same os bucket n lo hi key s u
      by_stop false u h =
          bind os bucket n lo hi key (pinged_once fd s) (λ x. some (left x)) s u (ping os fd n u) _
            (ping-Counted fd s u)
            (λ b v. after_ping-Counted (ping_all os bucket n lo hi fds) fd s b v h)
