-- ===== src/Driver/Entries.antt =====
-- The histogram in the server's report, and the dictionary that the driver makes of it.
use mathlib.Core.List.{map, append_assoc, append-nil}
use network_ping_test.Base.{
  ℕ, ◌*◌, ◌≡◌, ◌≢◌, refl, ap, sym, ◌∙◌, List, [], ◌∷◌, ◌++◌, false, length, take, drop, arith,
}
use network_ping_test.Base.Int.{ℤ, pos}
use network_ping_test.Driver.{evens, odds, zip, equal, set_item, dict}
use network_ping_test.Server.Protocol.{put_number, put_numbers, put_entries}

-- The numbers of a histogram, keys and counts in turn.
abbrev pub flat : List (ℕ × ℕ) → List ℕ
flat [] = []
flat ((k, v) ∷ m) = k ∷ v ∷ flat m

abbrev pub as_items : List (ℕ × ℕ) → List (ℤ × ℤ)
as_items [] = []
as_items ((k, v) ∷ m) = (pos k, pos v) ∷ as_items m

pub put_entries-flat :
    (m : List (ℕ × ℕ)) (ns : List ℕ)
    → put_entries m (put_numbers ns []) ≡ put_numbers (flat m ++ ns) []
put_entries-flat [] ns = refl
put_entries-flat ((k, v) ∷ m) ns = ap (λ s. put_number k (put_number v s)) (put_entries-flat m ns)

pub length-flat : (m : List (ℕ × ℕ)) → length (flat m) ≡ length m * 2
length-flat [] = refl
length-flat ((k, v) ∷ m) = omega (arith, length-flat m)

pub take-map : (xs ys : List ℕ) → take (length xs) (map pos (xs ++ ys)) ≡ map pos xs
take-map [] ys = refl
take-map (x ∷ xs) ys = ap (λ zs. pos x ∷ zs) (take-map xs ys)

pub drop-map : (xs ys : List ℕ) → drop (length xs) (map pos (xs ++ ys)) ≡ map pos ys
drop-map [] ys = refl
drop-map (x ∷ xs) ys = drop-map xs ys

pub zip-flat :
    (m : List (ℕ × ℕ)) → zip (evens (map pos (flat m))) (odds (map pos (flat m))) ≡ as_items m
zip-flat [] = refl
zip-flat ((k, v) ∷ m) = ap (λ ps. (pos k, pos v) ∷ ps) (zip-flat m)

-- No two entries have the same key.
abbrev pub Lacks : ℕ → List (ℕ × ℕ) → Type 0
Lacks key [] = Unit
Lacks key ((k, v) ∷ m) = (k ≢ key) × Lacks key m

abbrev pub Distinct : List (ℕ × ℕ) → Type 0
Distinct [] = Unit
Distinct ((k, v) ∷ m) = Lacks k m × Distinct m

append_items : (d m : List (ℕ × ℕ)) → as_items (d ++ m) ≡ as_items d ++ as_items m
append_items [] m = refl
append_items ((k, v) ∷ d) m = ap (λ ps. (pos k, pos v) ∷ ps) (append_items d m)

set_item-new :
    (key value : ℕ) (d : List (ℕ × ℕ))
    → Lacks key d
    → set_item (pos key) (pos value) (as_items d) ≡ as_items (d ++ (key, value) ∷ [])
unfolding set_item
set_item-new key value [] l = refl
set_item-new key value ((k, v) ∷ d) l = rw (other, set_item-new key value d l.1) refl
  where
    other : equal (pos k) (pos key) ≡ false
    other = ground (arith, l.0)

-- Entries with keys that differ from all before.
abbrev Fresh : List (ℕ × ℕ) → List (ℕ × ℕ) → Type 0
Fresh d [] = Unit
Fresh d ((k, v) ∷ m) = Lacks k d × Fresh (d ++ (k, v) ∷ []) m

dict-Fresh : (m d : List (ℕ × ℕ)) → Fresh d m → dict (as_items m) (as_items d) ≡ as_items (d ++ m)
unfolding dict
dict-Fresh [] d f = ap as_items (sym (append-nil d))
dict-Fresh ((k, v) ∷ m) d f =
    rw (dict, set_item-new k v d f.0)
      (dict-Fresh m (d ++ (k, v) ∷ []) f.1 ∙ ap as_items (append_assoc d ((k, v) ∷ []) m))

Lacks-append :
    (key k v : ℕ) (d : List (ℕ × ℕ)) → Lacks key d → k ≢ key → Lacks key (d ++ (k, v) ∷ [])
Lacks-append key k v [] l ne = (ne, tt)
Lacks-append key k v ((j, w) ∷ d) l ne = (l.0, Lacks-append key k v d l.1 ne)

-- Every key of `m` is missing in `d`.
abbrev Apart : List (ℕ × ℕ) → List (ℕ × ℕ) → Type 0
Apart d [] = Unit
Apart d ((k, v) ∷ m) = Lacks k d × Apart d m

Apart-step : (k v : ℕ) (d m : List (ℕ × ℕ)) → Apart d m → Lacks k m → Apart (d ++ (k, v) ∷ []) m
Apart-step k v d [] a l = tt
Apart-step k v d ((j, w) ∷ m) a l =
    (Lacks-append j k v d a.0 (λ e. l.0 (sym e)), Apart-step k v d m a.1 l.1)

Distinct-Fresh : (m d : List (ℕ × ℕ)) → Apart d m → Distinct m → Fresh d m
Distinct-Fresh [] d a h = tt
Distinct-Fresh ((k, v) ∷ m) d a h =
    (a.0, Distinct-Fresh m (d ++ (k, v) ∷ []) (Apart-step k v d m a.1 h.0) h.1)

none_before : (m : List (ℕ × ℕ)) → Apart [] m
none_before [] = tt
none_before ((k, v) ∷ m) = (tt, none_before m)

-- A dictionary of entries with distinct keys has just those.
pub dict-Distinct : (m : List (ℕ × ℕ)) → Distinct m → dict (as_items m) [] ≡ as_items m
dict-Distinct m h = dict-Fresh m [] (Distinct-Fresh m [] (none_before m) h)
