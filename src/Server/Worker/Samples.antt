-- ===== src/Server/Worker/Samples.antt =====
-- The latencies that a worker records.
use network_ping_test.Base.{
  ℕ, zero, suc, ◌+◌, ◌%◌, ◌^◌, ◌≤◌, ◌<◌, ◌≡◌, refl, ap, ◌∙◌, ◌-◌, List, [], ◌∷◌, ◌++◌, Option, none,
  some, Bool, true, false, ◌==◌, length, arith, Bool-cases, inl, inr,
}
use network_ping_test.Os.{Os, Run, Outcome, done, more, fault, Trace, load_done, pure}
use network_ping_test.Os.Runs.{continue-all}
use network_ping_test.Selector.EPoll.{EPollRSelector, ready_count}
use network_ping_test.Selector.EPoll.Ready.{next-read, next-end}
use network_ping_test.Server.Results.{WorkerResult, add64, add_at}
use network_ping_test.Server.Worker.{
  Tables, place, placed, sort_ready, choose_timeout, lookup, emplace_zero, record_latency, seen,
  is_due, time_or_zero, counted,
}

-- The latencies in a histogram, of all buckets.
abbrev pub samples : List (ℕ × ℕ) → ℕ
samples [] = 0
samples ((k, v) ∷ m) = v + samples m

-- They, and the sockets that a worker has met.
abbrev pub met : Tables → ℕ
met s = samples s.result.lat_map + length s.last_time

samples-add_at :
    (k : ℕ) (m : List (ℕ × ℕ)) → samples m + 1 < 2 ^ 64 → samples (add_at k 1 m) ≡ samples m + 1
unfolding add_at
samples-add_at k [] h = omega arith
samples-add_at k ((j, v) ∷ m) h = elim (Bool-cases (j == k)) [
  | inl e ↦ rw e (omega arith)
  | inr e ↦ rw e (omega (arith, samples-add_at k m (omega arith)))
]

length-last : (m : List (ℕ × ℕ)) (x : ℕ × ℕ) → length (m ++ x ∷ []) ≡ length m + 1
length-last [] x = refl
length-last (y ∷ m) x = omega (arith, length-last m x)

-- `k` more latencies and sockets, and no other count of events.
abbrev pub Met : ℕ → Tables → Tables → Type 0
Met k s s' =
    (met s' ≡ met s + k)
    × (samples s'.result.lat_map ≤ samples s.result.lat_map + k)
    × (s'.result.mcount ≡ s.result.mcount)

abbrev pub Sampled : ℕ → Tables → Outcome (Bool × Tables × EPollRSelector) × Trace → Type 0
Sampled k s (done (true, s', sel), u) = Met k s s'
Sampled k s (done (false, s', sel), u) = Unit
Sampled k s (more, u) = Unit
Sampled k s (fault, u) = Unit

ready_count-eq :
    (k : ℕ) (sel : EPollRSelector) → sel.end_of_ready ≡ sel.current_ready + k → ready_count sel ≡ k
unfolding ready_count
ready_count-eq k sel e = omega (arith, e)

module _ (os : Os) (bucket : ℕ → ℕ) (n lo hi : ℕ) where
  met-seen :
      (now fd : ℕ) (s : Tables)
      → samples s.result.lat_map + 1 < 2 ^ 64
      → (met (seen os bucket n lo hi now fd s) ≡ met s + 1)
        × (samples (seen os bucket n lo hi now fd s).result.lat_map ≤ samples s.result.lat_map + 1)
  met-seen now fd s h = by_lookup (lookup fd s.last_time)
    where
      by_lookup :
          (o : Option ℕ)
          → (samples (record_latency os bucket n lo hi now o s.result).lat_map
                + length (emplace_zero fd o s.last_time)
              ≡ met s + 1)
            × (samples (record_latency os bucket n lo hi now o s.result).lat_map
                ≤ samples s.result.lat_map + 1)
      by_lookup none = (omega (arith, length-last s.last_time (fd, 0)), omega arith)
      by_lookup (some v) =
          let e = samples-add_at (bucket ((now + 2 ^ 64 - v) % 2 ^ 64)) s.result.lat_map h in
          (omega (arith, e), omega (arith, e))

  mcount-seen :
      (now : ℕ) (o : Option ℕ) (r : WorkerResult)
      → (record_latency os bucket n lo hi now o r).mcount ≡ r.mcount
  mcount-seen now none r = refl
  mcount-seen now (some v) r = refl

  place-Met :
      (now fd delay : ℕ) (s : Tables)
      → samples s.result.lat_map + 1 < 2 ^ 64
      → Met 1 s (place os bucket n lo hi now fd delay s).1
  unfolding place
  place-Met now fd delay s h =
      let (e, l) = met-seen now fd s h in
      elim (Bool-cases
        (is_due os bucket n lo hi now (time_or_zero (lookup fd s.last_time)) delay)) [
          | inl d ↦ rw d (e, l, mcount-seen now (lookup fd s.last_time) s.result)
          | inr d ↦ rw d (e, l, mcount-seen now (lookup fd s.last_time) s.result)
        ]

  Sampled-then :
      (k : ℕ) (s s' : Tables) (r : Outcome (Bool × Tables × EPollRSelector) × Trace)
      → Met 1 s s'
      → Sampled k s' r
      → Sampled (suc k) s r
  Sampled-then k s s' (done (true, s'', sel), u) (a, b, c) (x, y, z) =
      (omega (arith, a, x), omega (arith, b, y), z ∙ c)
  Sampled-then k s s' (done (false, s'', sel), u) m h = tt
  Sampled-then k s s' (more, u) m h = tt
  Sampled-then k s s' (fault, u) m h = tt

  placed-Sampled :
      (again : Tables → EPollRSelector → Run (Bool × Tables × EPollRSelector)) (k : ℕ) (go : Bool)
      (s s' : Tables) (sel : EPollRSelector) (t : Trace)
      → Met 1 s s'
      → ((u : Trace) → Sampled k s' (again s' sel u))
      → Sampled
          (suc k)
          s
          (placed os bucket n lo hi (λ x. again x sel) (λ x. pure (false, x, sel)) (go, s') t)
  placed-Sampled again k false s s' sel t m h = Sampled-then k s s' (again s' sel t) m (h t)
  placed-Sampled again k true s s' sel t m h =
      elim (Bool-cases (time_or_zero (os (load_done ∷ t)).value == 1)) [
        | inl e ↦ rw e tt
        | inr e ↦ rw e (Sampled-then k s s' (again s' sel (load_done ∷ t)) m (h (load_done ∷ t)))
      ]

  sort_ready-Sampled :
      (k fuel now : ℕ) (s : Tables) (sel : EPollRSelector) (t : Trace)
      → sel.end_of_ready ≡ sel.current_ready + k
      → sel.end_of_ready ≤ length sel.events.events
      → samples s.result.lat_map + k < 2 ^ 64
      → Sampled k s (sort_ready os bucket n lo hi fuel now s sel t)
  unfolding sort_ready
  sort_ready-Sampled k zero now s sel t e h small = tt
  sort_ready-Sampled zero (suc fuel) now s sel t e h small =
      rw (next-end sel t (omega (arith, e))) (omega arith, omega arith, refl)
  sort_ready-Sampled (suc k) (suc fuel) now s sel t e h small =
      let (x, found, read) = next-read sel t (omega (arith, e)) h in
      let sel' : EPollRSelector = record sel { current_ready = sel.current_ready + 1 } in
      rw read (
        continue-all (Sampled (suc k) s)
          (λ delay.
            placed os bucket n lo hi (λ y. sort_ready os bucket n lo hi fuel now y sel')
              (λ y. pure (false, y, sel')) (place os bucket n lo hi now x.fd delay s))
          (choose_timeout os bucket n lo hi t).0 (choose_timeout os bucket n lo hi t).1 (λ _. tt)
          (λ _. tt)
          (λ delay.
            let r : Bool × Tables = place os bucket n lo hi now x.fd delay s in
            let m : Met 1 s r.1 = place-Met now x.fd delay s (omega (arith, small)) in
            placed-Sampled (sort_ready os bucket n lo hi fuel now) k r.0 s r.1 sel'
              (choose_timeout os bucket n lo hi t).1 m
              (λ u.
                sort_ready-Sampled k fuel now r.1 sel' u (omega (arith, e)) h
                  (omega (arith, small, m.1)))))

  -- What a worker does with the `k` events of a wait, while it has fewer than 2 ^ 64 latencies: if
  -- it goes on to its pings, `mcount` has gone up by k, modulo 2 ^ 64, and the latencies in the
  -- histogram and the sockets that the worker has met have gone up by k together.
  pub sort_ready-counted :
      (k fuel now : ℕ) (s s' : Tables) (sel sel' : EPollRSelector) (t u : Trace)
      → sel.end_of_ready ≡ sel.current_ready + k
      → sel.end_of_ready ≤ length sel.events.events
      → samples s.result.lat_map + k < 2 ^ 64
      → sort_ready os bucket n lo hi fuel now (counted os bucket n lo hi sel s) sel t
        ≡ (done (true, s', sel'), u)
      → (met s' ≡ met s + k) × (s'.result.mcount ≡ (s.result.mcount + k) % 2 ^ 64)
  sort_ready-counted k fuel now s s' sel sel' t u e h small q =
      let m : Met k (counted os bucket n lo hi sel s) s' =
        rw q at (sort_ready-Sampled k fuel now (counted os bucket n lo hi sel s) sel t e h small) in
      (m.0, m.2 ∙ ap (add64 s.result.mcount) (ready_count-eq k sel e))
