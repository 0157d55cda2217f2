-- ===== src/Server/Results/Order.antt =====
-- server.cpp `run_test`, lines 574 to 595: the workers' results in another order.
use mathlib.Core.List.{Perm, Permᴰ, append_assoc, perm_append_comm}
use native.Mathlib.Nat.{ℕ_set}
use mathlib.Core.List.Perm
use mathlib.Core.Logic.{∥∥₁_elim}
use network_ping_test.Base.{
  ℕ, ◌%◌, ◌^◌, ◌≡◌, refl, sym, ap, ◌∙◌, List, [], ◌∷◌, ◌++◌, leb, arith, Bool-cases, inl, inr, ◌↔◌,
}
use network_ping_test.Server.Results.{WorkerResult, merge, insert_sorted, sort, collect_mps, values}
use network_ping_test.Server.Results.Merge.{count_at, weights, mcounts, merge_lem}

insert-swap :
    (x y : ℕ) (zs : List ℕ)
    → insert_sorted x (insert_sorted y zs) ≡ insert_sorted y (insert_sorted x zs)
unfolding insert_sorted
insert-swap x y [] = ground arith
insert-swap x y (z ∷ zs) = ground (arith, insert-swap x y zs)

insert-Perm : (x : ℕ) (ys : List ℕ) → Perm (insert_sorted x ys) (x ∷ ys)
unfolding insert_sorted
insert-Perm x [] = Perm.rfl
insert-Perm x (y ∷ ys) = elim (Bool-cases (leb x y)) [
  | inl e ↦ rw e Perm.rfl
  | inr e ↦ rw e (Perm.trans (Perm.cons y (insert-Perm x ys)) (Perm.swap x y ys))
]

sort-Perm : (xs : List ℕ) → Perm (sort xs) xs
unfolding sort
sort-Perm [] = Perm.rfl
sort-Perm (x ∷ xs) = Perm.trans (insert-Perm x (sort xs)) (Perm.cons x (sort-Perm xs))

sort-swapped : {xs ys : List ℕ} → Permᴰ xs ys → sort xs ≡ sort ys
unfolding sort
sort-swapped Permᴰ.nil = refl
sort-swapped (Permᴰ.cons {b = b} {l₁ = l₁} e d) = rw (e, sort-swapped d) refl
sort-swapped (Permᴰ.swap {a = a} {b = b} {l = l} e f) = rw (e, f) (insert-swap _ _ (sort l))
sort-swapped (Permᴰ.trans d c) = sort-swapped d ∙ sort-swapped c

sorts-IsProp : (xs ys : List ℕ) → IsProp (sort xs ≡ sort ys)
sorts-IsProp xs ys = hlevel

-- Two lists have the same sorted form exactly if one is a rearrangement of the other.
pub sort-Perm_iff : (xs ys : List ℕ) → (sort xs ≡ sort ys) ↔ Perm xs ys
sort-Perm_iff xs ys = (
  (λ e. Perm.trans (Perm.symm (sort-Perm xs)) (rw e (sort-Perm ys))),
  λ p. ∥∥₁_elim p (sorts-IsProp xs ys) sort-swapped,
)

mcounts-swapped : {rs ss : List WorkerResult} → Permᴰ rs ss → mcounts rs ≡ mcounts ss
mcounts-swapped Permᴰ.nil = refl
mcounts-swapped (Permᴰ.cons e d) = rw (e, mcounts-swapped d) refl
mcounts-swapped (Permᴰ.swap e f) = rw (e, f) (omega arith)
mcounts-swapped (Permᴰ.trans d c) = mcounts-swapped d ∙ mcounts-swapped c

weights-swapped :
    (key : ℕ) {rs ss : List WorkerResult} → Permᴰ rs ss → weights key rs ≡ weights key ss
weights-swapped key Permᴰ.nil = refl
weights-swapped key (Permᴰ.cons e d) = rw (e, weights-swapped key d) refl
weights-swapped key (Permᴰ.swap e f) = rw (e, f) (omega arith)
weights-swapped key (Permᴰ.trans d c) = weights-swapped key d ∙ weights-swapped key c

append-swap : (xs ys zs : List ℕ) → Perm (xs ++ (ys ++ zs)) (ys ++ (xs ++ zs))
append-swap xs ys zs =
    rw (← append_assoc xs ys zs, ← append_assoc ys xs zs)
      (Perm.append_right zs (perm_append_comm xs ys))

collect_mps-swapped :
    {rs ss : List WorkerResult} → Permᴰ rs ss → Perm (collect_mps rs) (collect_mps ss)
unfolding collect_mps
collect_mps-swapped Permᴰ.nil = Perm.rfl
collect_mps-swapped (Permᴰ.cons {b = b} e d) =
    rw e (Perm.append_left (values b.mess_count_for_sock) (collect_mps-swapped d))
collect_mps-swapped (Permᴰ.swap {a' = a} {b' = b} {l = l} e f) =
    rw (e, f)
      (append-swap (values b.mess_count_for_sock) (values a.mess_count_for_sock) (collect_mps l))
collect_mps-swapped (Permᴰ.trans d c) = Perm.trans (collect_mps-swapped d) (collect_mps-swapped c)

-- In whatever order the results of the workers stand, the sum of their counts is the same, and so
-- is that of each bucket, and the sorted counts of their sockets.
pub merge-Perm :
    (rs ss : List WorkerResult)
    → Perm rs ss
    → ((merge rs 0 []).0 ≡ (merge ss 0 []).0)
      × ((key : ℕ) → count_at key (merge rs 0 []).1 ≡ count_at key (merge ss 0 []).1)
      × (sort (collect_mps rs) ≡ sort (collect_mps ss))
merge-Perm rs ss p = (
  ∥∥₁_elim p (ℕ_set _ _)
      (λ d. (merge_lem 0 rs).0 ∙ ap (λ n. n % 2 ^ 64) (mcounts-swapped d) ∙ sym (merge_lem 0 ss).0),
  λ key. ∥∥₁_elim p (ℕ_set _ _) (λ d.
      (merge_lem key rs).1
      ∙ ap (λ n. n % 2 ^ 64) (weights-swapped key d)
      ∙ sym (merge_lem key ss).1),
  ∥∥₁_elim p (sorts-IsProp (collect_mps rs) (collect_mps ss))
      (λ d. (sort-Perm_iff (collect_mps rs) (collect_mps ss)).1 (collect_mps-swapped d)),
)
