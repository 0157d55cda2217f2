-- ===== src/Server/Spread/Share.antt =====
-- How many connections a worker gets.
use native.Mathlib.Nat.{div-add-mod, mod-add-mod, mod-lt, mod-eq_of_lt}
use network_ping_test.Base.{
  ℕ, zero, suc, ◌+◌, ◌-◌, ◌*◌, ◌/◌, ◌%◌, ◌≤◌, ◌<◌, ◌≡◌, ◌≢◌, refl, sym, ap, ◌∙◌, List, [], ◌∷◌,
  Option, none, some, true, ◌==◌, if◌then◌else◌, length, get_elem?, get_elem?-of_lt, arith, leb,
  ℕ_discrete, test_eq, test_ne,
}
use network_ping_test.Os.{Os, done, epoll_ctl_add, Trace}
use network_ping_test.Selector.EPoll.{EPollRSelector, add_fd, add_fd_mask, epollin, epollet}
use network_ping_test.Server.Spread.{spread, max_sock_count}

-- The connections of worker `j` among `fds`, the first of which has the index `idx`.
abbrev pub share : ℕ → ℕ → ℕ → List ℕ → List ℕ
share w j idx [] = []
share w j idx (fd ∷ fds) =
    if idx % w == j then fd ∷ share w j (idx + 1) fds else share w j (idx + 1) fds

-- Steps from `r` round to `j`.
ahead : ℕ → ℕ → ℕ → ℕ
ahead w j r = if leb r j then j - r else j + w - r

next_mod :
    (w idx : ℕ)
    → 0 < w
    → ((suc (idx % w) ≡ w) → (idx + 1) % w ≡ 0)
      × ((suc (idx % w) ≢ w) → (idx + 1) % w ≡ suc (idx % w))
next_mod w idx pos = (
  (λ e. sym (mod-add-mod idx w 1) ∙ (ap (λ (k : ℕ). k % w) (one_more ∙ e) ∙ self)),
  λ ne. sym (mod-add-mod idx w 1) ∙ (mod-eq_of_lt (omega (arith, mod-lt idx pos)) ∙ one_more),
)
  where
    one_more : idx % w + 1 ≡ suc (idx % w)
    one_more = omega arith

    self : w % w ≡ 0
    self = grind arith

ahead_step :
    (w j r r' : ℕ)
    → j < w
    → r < w
    → (suc r ≡ w → r' ≡ 0)
    → (suc r ≢ w → r' ≡ suc r)
    → (r ≡ j → (ahead w j r ≡ 0) × (suc (ahead w j r') ≡ w))
      × (r ≢ j → ahead w j r ≡ suc (ahead w j r'))
unfolding ahead
ahead_step w j r r' lt lr wrap step = elim (ℕ_discrete (suc r) w) [
  | yes e ↦ let z : r' ≡ 0 = wrap e in ground arith
  | no ne ↦ let z : r' ≡ suc r = step ne in ground arith
]

ahead-lt : (w j r : ℕ) → j < w → ahead w j r < w
unfolding ahead
ahead-lt w j r lt = ground arith

share-ahead :
    (w j idx : ℕ) (fds : List ℕ)
    → j < w
    → w * length (share w j idx fds) + ahead w j (idx % w) < length fds + w
share-ahead w j idx [] lt = omega (arith, ahead-lt w j (idx % w) lt)
share-ahead w j idx (fd ∷ fds) lt = elim (ℕ_discrete (idx % w) j) [
  | yes e ↦
      rw (test_eq (idx % w) j e)
        (omega (arith, share-ahead w j (idx + 1) fds lt, (round.0 e).0, (round.0 e).1))
  | no ne ↦
      rw (test_ne (idx % w) j ne) (omega (arith, share-ahead w j (idx + 1) fds lt, round.1 ne))
]
  where
    round :
        ((idx % w) ≡ j → (ahead w j (idx % w) ≡ 0) × (suc (ahead w j ((idx + 1) % w)) ≡ w))
        × ((idx % w) ≢ j → ahead w j (idx % w) ≡ suc (ahead w j ((idx + 1) % w)))
    round =
        ahead_step w j (idx % w) ((idx + 1) % w) lt (mod-lt idx (omega arith))
          (next_mod w idx (omega arith)).0 (next_mod w idx (omega arith)).1

bound : (l n w : ℕ) → 0 < w → w * l < n + w → l ≤ n / w + 1
bound l n w pos h = grind (arith, div-add-mod n w, mod-lt n pos)

-- Dealt out in turn, n connections give no one of w workers more than n / w + 1, the number of places
-- that its selector has (`max_sock_count_per_worker`).
pub share-le-room :
    (w j : ℕ) (fds : List ℕ) (room : ℕ)
    → j < w
    → max_sock_count (length fds) w ≡ some room
    → length (share w j 0 fds) ≤ room
unfolding max_sock_count
share-le-room zero j fds room lt e = absurd (omega arith)
share-le-room (suc v) j fds room lt e = ground (
  arith,
  e,
  bound (length (share (suc v) j 0 fds)) (length fds) (suc v) (omega arith)
      (omega (arith, share-ahead (suc v) j 0 fds lt)),
)

-- The calls of a `spread` in which no `epoll_ctl` fails: one for each connection, in order, on the
-- epoll set of the worker whose turn it is.
abbrev pub deal : Trace → Option EPollRSelector → ℕ → Trace
deal t none fd = t
deal t (some sel) fd = epoll_ctl_add sel.efd fd (epollin + epollet) ∷ t

abbrev pub dealt : List EPollRSelector → ℕ → ℕ → List ℕ → Trace → Trace
dealt sels w idx [] t = t
dealt sels w idx (fd ∷ fds) t = dealt sels w (idx + 1) fds (deal t (get_elem? sels (idx % w)) fd)

-- With as many selectors as workers, and no failure of `epoll_ctl`, the connections are dealt out in
-- turn, and no selector outside the vector is used.
pub spread-dealt :
    (os : Os) (sels : List EPollRSelector) (w idx : ℕ) (fds : List ℕ) (t : Trace)
    → 0 < w
    → length sels ≡ w
    → ((efd : Option ℕ) (fd mask : ℕ) (u : Trace)
        → (os (epoll_ctl_add efd fd mask ∷ u)).value ≡ some 0)
    → spread os sels w idx fds t ≡ (done true, dealt sels w idx fds t)
unfolding spread add_fd add_fd_mask
spread-dealt os sels w idx [] t pos l h = refl
spread-dealt os sels w idx (fd ∷ fds) t pos l h =
    let (sel, e) = get_elem?-of_lt sels (idx % w) (omega (arith, mod-lt idx pos)) in
    rw (e, h sel.efd fd (epollin + epollet) t) (spread-dealt os sels w (idx + 1) fds _ pos l h)
