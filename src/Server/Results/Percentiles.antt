-- ===== src/Server/Results/Percentiles.antt =====
-- The percentiles of the message counts.
use native.Mathlib.Nat.{le_trans}
use network_ping_test.Base.{
  ℕ, zero, suc, ◌+◌, ◌*◌, ◌/◌, ◌≤◌, ◌<◌, ◌≡◌, refl, List, [], ◌∷◌, Option, none, some, leb, leb→le,
  length, get_elem?, get_elem?-of_lt, get_elem?-past, All, arith, Bool-cases, inl, inr,
}
use network_ping_test.Server.Results.{
  insert_sorted, sort, percentile_index, put_percentile, percentiles_from, percentiles,
}

-- Each element is at most the ones after it.
abbrev pub IsSorted : List ℕ → Type 0
IsSorted [] = Unit
IsSorted (x ∷ xs) = All (λ y. x ≤ y) xs × IsSorted xs

All-weaken : (x y : ℕ) (xs : List ℕ) → x ≤ y → All (λ z. y ≤ z) xs → All (λ z. x ≤ z) xs
All-weaken x y [] h a = tt
All-weaken x y (z ∷ xs) h a = (omega arith, All-weaken x y xs h a.1)

All-insert :
    (x y : ℕ) (ys : List ℕ) → x ≤ y → All (λ z. x ≤ z) ys → All (λ z. x ≤ z) (insert_sorted y ys)
unfolding insert_sorted
All-insert x y [] h a = (h, tt)
All-insert x y (z ∷ ys) h a = elim (Bool-cases (leb y z)) [
  | inl e ↦ rw e (h, a)
  | inr e ↦ rw e (a.0, All-insert x y ys h a.1)
]

insert-IsSorted : (x : ℕ) (ys : List ℕ) → IsSorted ys → IsSorted (insert_sorted x ys)
unfolding insert_sorted
insert-IsSorted x [] s = (tt, tt)
insert-IsSorted x (y ∷ ys) s = elim (Bool-cases (leb x y)) [
  | inl e ↦ rw e ((leb→le x y e, All-weaken x y ys (leb→le x y e) s.0), s)
  | inr e ↦ rw e (All-insert y x ys (ground arith) s.0, insert-IsSorted x ys s.1)
]

pub sort-IsSorted : (xs : List ℕ) → IsSorted (sort xs)
unfolding sort
sort-IsSorted [] = tt
sort-IsSorted (x ∷ xs) = insert-IsSorted x (sort xs) (sort-IsSorted xs)

length-insert : (x : ℕ) (ys : List ℕ) → length (insert_sorted x ys) ≡ suc (length ys)
unfolding insert_sorted
length-insert x [] = refl
length-insert x (y ∷ ys) = ground (arith, length-insert x ys)

length-sort : (xs : List ℕ) → length (sort xs) ≡ length xs
unfolding sort
length-sort [] = refl
length-sort (x ∷ xs) = omega (arith, length-insert x (sort xs), length-sort xs)

All-get :
    (x : ℕ) (xs : List ℕ) (i : ℕ) (y : ℕ) → All (λ z. x ≤ z) xs → get_elem? xs i ≡ some y → x ≤ y
All-get x [] i y a e = cc
All-get x (z ∷ xs) zero y a e = ground arith
All-get x (z ∷ xs) (suc i) y a e = All-get x xs i y a.1 e

sorted-get :
    (xs : List ℕ) (i j x y : ℕ)
    → IsSorted xs
    → i ≤ j
    → get_elem? xs i ≡ some x
    → get_elem? xs j ≡ some y
    → x ≤ y
sorted-get [] i j x y s h p q = cc
sorted-get (z ∷ xs) zero zero x y s h p q = ground arith
sorted-get (z ∷ xs) zero (suc j) x y s h p q =
    let le : z ≤ y = All-get z xs j y s.0 q in ground arith
sorted-get (z ∷ xs) (suc i) zero x y s h p q = absurd (omega arith)
sorted-get (z ∷ xs) (suc i) (suc j) x y s h p q = sorted-get xs i j x y s.1 (omega arith) p q

index-lt : (n i : ℕ) → 0 < n → i < 19 → percentile_index n i < n
index-lt n i pos h = grind arith

index_mono : (n k m : ℕ) → k ≤ m → percentile_index n k ≤ percentile_index n m
index_mono n k m h = grind arith

-- The k-th of the values is the entry of `mps` at the place that the source computes for it.
abbrev pub Reads : ℕ → ℕ → List ℕ → List ℕ → Type 0
Reads i n mps [] = Unit
Reads i n mps (p ∷ ps) = (get_elem? mps (percentile_index n i) ≡ some p) × Reads (i + 1) n mps ps

percentiles_from-total :
    (left i n : ℕ) (mps : List ℕ)
    → 0 < n
    → n ≤ length mps
    → i + left ≤ 19
    → (ps : List ℕ) × (percentiles_from left i n mps ≡ some ps)
      × (length ps ≡ left)
      × Reads i n mps ps
unfolding percentiles_from
percentiles_from-total zero i n mps pos h r = ([], refl, refl, tt)
percentiles_from-total (suc left) i n mps pos h r =
    let (p, e) = get_elem?-of_lt mps (percentile_index n i) (le_trans inside h) in
    let (ps, f, l, reads) = percentiles_from-total left (i + 1) n mps pos h (omega arith) in
    (p ∷ ps, rw (e, f) refl, omega (arith, l), (e, reads))
  where
    inside : percentile_index n i < n
    inside = index-lt n i pos (omega arith)

pub Reads-IsSorted : (i n : ℕ) (mps ps : List ℕ) → IsSorted mps → Reads i n mps ps → IsSorted ps
Reads-IsSorted i n mps [] s r = tt
Reads-IsSorted i n mps (p ∷ ps) s r =
    (above i (i + 1) p ps (omega arith) r.0 r.1, Reads-IsSorted (i + 1) n mps ps s r.1)
  where
    above :
        (k m x : ℕ) (qs : List ℕ)
        → k ≤ m
        → get_elem? mps (percentile_index n k) ≡ some x
        → Reads m n mps qs
        → All (λ z. x ≤ z) qs
    above k m x [] h e q = tt
    above k m x (y ∷ qs) h e q = (
      sorted-get mps (percentile_index n k) (percentile_index n m) x y s (index_mono n k m h) e q.0,
      above k (m + 1) x qs (omega arith) e q.1,
    )

-- If at least `num_conn` sockets were counted, and there is one, all 19 reads are inside `mps`; the
-- k-th percentile is the entry of the sorted counts at num_conn * k / 20, and the percentiles rise.
pub percentiles_lem :
    (n : ℕ) (mps : List ℕ)
    → 0 < n
    → n ≤ length mps
    → (ps : List ℕ) × (percentiles n (sort mps) ≡ some ps)
      × (length ps ≡ 19)
      × Reads 0 n (sort mps) ps
      × IsSorted ps
unfolding percentiles
percentiles_lem n mps pos h =
    let (ps, e, l, r) =
      percentiles_from-total 19 0 n (sort mps) pos (omega (arith, length-sort mps)) (omega arith) in
    (ps, e, l, r, Reads-IsSorted 0 n (sort mps) ps (sort-IsSorted mps) r)

outside :
    (left i n : ℕ) (mps : List ℕ)
    → i + left ≡ 18
    → length mps ≤ percentile_index n 18
    → percentiles_from (suc left) i n mps ≡ none
unfolding percentiles_from
outside zero i n mps e h = rw (last, get_elem?-past mps (percentile_index n 18) h) refl
  where
    last : i ≡ 18
    last = omega arith
outside (suc left) i n mps e h =
    rw (outside left (i + 1) n mps (omega arith) h)
      (put_none (get_elem? mps (percentile_index n i)))
  where
    put_none : (o : Option ℕ) → put_percentile o none ≡ none
    put_none none = refl
    put_none (some p) = refl

-- If only 95 percent of the connections, or fewer, were counted, because the others never got a
-- message through, the loop reads outside `mps`.
pub percentiles_out_of_range :
    (n : ℕ) (mps : List ℕ) → length mps ≤ n * 19 / 20 → percentiles n (sort mps) ≡ none
unfolding percentiles
percentiles_out_of_range n mps h = outside 18 0 n (sort mps) refl (omega (arith, length-sort mps))

percentiles_from-Reads :
    (left i n : ℕ) (mps ps : List ℕ)
    → percentiles_from left i n mps ≡ some ps
    → (length ps ≡ left) × Reads i n mps ps
unfolding percentiles_from
percentiles_from-Reads zero i n mps [] e = (refl, tt)
percentiles_from-Reads zero i n mps (p ∷ ps) e = cc
percentiles_from-Reads (suc left) i n mps ps e =
    by_parts (get_elem? mps (percentile_index n i)) (percentiles_from left (i + 1) n mps) ps refl
      (λ qs h. percentiles_from-Reads left (i + 1) n mps qs h) e
  where
    by_parts :
        (p : Option ℕ) (rest : Option (List ℕ)) (qs : List ℕ)
        → get_elem? mps (percentile_index n i) ≡ p
        → ((rs : List ℕ) → rest ≡ some rs → (length rs ≡ left) × Reads (i + 1) n mps rs)
        → put_percentile p rest ≡ some qs
        → (length qs ≡ suc left) × Reads i n mps qs
    by_parts none rest qs g ih h = cc
    by_parts (some p) none qs g ih h = cc
    by_parts (some p) (some rs) [] g ih h = ground arith
    by_parts (some p) (some rs) (q ∷ qs) g ih h = ground (arith, ih rs refl)

-- The entries that `percentiles` returns are those that the source reads.
pub percentiles-Reads :
    (n : ℕ) (mps ps : List ℕ) → percentiles n mps ≡ some ps → (length ps ≡ 19) × Reads 0 n mps ps
unfolding percentiles
percentiles-Reads n mps ps e = percentiles_from-Reads 19 0 n mps ps e
