-- ===== src/Server/Results/Merge.antt =====
-- The merged histogram and count.
use network_ping_test.Base.{ℕ, ◌+◌, ◌%◌, ◌^◌, ◌<◌, ◌≡◌, List, [], ◌∷◌, ◌==◌, if◌then◌else◌, arith}
use network_ping_test.Server.Results.{WorkerResult, add64, add_at, add_map, merge}

-- The count under a key; 0 if there is none.
abbrev pub count_at : ℕ → List (ℕ × ℕ) → ℕ
count_at key [] = 0
count_at key ((k, v) ∷ m) = if k == key then v else count_at key m

-- What a map adds under a key, all its entries counted.
abbrev pub weight : ℕ → List (ℕ × ℕ) → ℕ
weight key [] = 0
weight key ((k, v) ∷ m) = (if k == key then v else 0) + weight key m

abbrev pub weights : ℕ → List WorkerResult → ℕ
weights key [] = 0
weights key (r ∷ rs) = weight key r.lat_map + weights key rs

abbrev pub mcounts : List WorkerResult → ℕ
mcounts [] = 0
mcounts (r ∷ rs) = r.mcount + mcounts rs

pub count_at-add_at :
    (key k v : ℕ) (m : List (ℕ × ℕ))
    → count_at key (add_at k v m) ≡ (if k == key then add64 (count_at key m) v else count_at key m)
unfolding add_at
count_at-add_at key k v [] = ground arith
count_at-add_at key k v ((j, w) ∷ m) = ground (arith, count_at-add_at key k v m)

pub add_at-small :
    (key k v : ℕ) (m : List (ℕ × ℕ))
    → count_at key m < 2 ^ 64
    → count_at key (add_at k v m) < 2 ^ 64
add_at-small key k v m h = ground (arith, count_at-add_at key k v m)

count_at-add_map :
    (key : ℕ) (m total : List (ℕ × ℕ))
    → count_at key total < 2 ^ 64
    → count_at key (add_map m total) ≡ (count_at key total + weight key m) % 2 ^ 64
unfolding add_map
count_at-add_map key [] total h = omega (arith, h)
count_at-add_map key ((k, v) ∷ m) total h =
    let ih = count_at-add_map key m (add_at k v total) (add_at-small key k v total h) in
    ground (arith, ih, count_at-add_at key k v total)

add_map-small :
    (key : ℕ) (m total : List (ℕ × ℕ))
    → count_at key total < 2 ^ 64
    → count_at key (add_map m total) < 2 ^ 64
add_map-small key m total h = omega (arith, count_at-add_map key m total h)

merge_acc :
    (key : ℕ) (rs : List WorkerResult) (n : ℕ) (total : List (ℕ × ℕ))
    → n < 2 ^ 64
    → count_at key total < 2 ^ 64
    → ((merge rs n total).0 ≡ (n + mcounts rs) % 2 ^ 64)
      × (count_at key (merge rs n total).1 ≡ (count_at key total + weights key rs) % 2 ^ 64)
unfolding merge
merge_acc key [] n total hn ht = (omega arith, omega arith)
merge_acc key (r ∷ rs) n total hn ht =
    let ih =
      merge_acc key rs (add64 n r.mcount) (add_map r.lat_map total) (omega arith)
        (add_map-small key r.lat_map total ht) in
    let added = count_at-add_map key r.lat_map total ht in
    (omega (arith, ih.0), omega (arith, ih.1, added))

-- Merging the workers' results adds up, modulo 2 ^ 64, their message counts and, in each bucket, all
-- the entries that their histograms hold for it; a bucket that no worker has stays at 0.
pub merge_lem :
    (key : ℕ) (rs : List WorkerResult)
    → ((merge rs 0 []).0 ≡ mcounts rs % 2 ^ 64)
      × (count_at key (merge rs 0 []).1 ≡ weights key rs % 2 ^ 64)
merge_lem key rs =
    let all = merge_acc key rs 0 [] (omega arith) (omega arith) in
    (omega (arith, all.0), omega (arith, all.1))
