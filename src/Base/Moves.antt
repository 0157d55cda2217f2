-- ===== src/Base/Moves.antt =====
-- Lists of which one element moves at a time: weights and predicates under a move.
use Prim.Native.Nat.{ℕ, zero, suc, ◌+◌}
use mathlib.Core.Path.{◌≡◌, refl, subst}
use mathlib.Core.Logic.{◌⊎◌, inl, inr}
use mathlib.Core.Bool.{Bool, true, false}
use mathlib.Core.List.{List, [], ◌∷◌}
use mathlib.Core.Option.{some, some-injective}
use native.Mathlib.Omega.{arith}
use network_ping_test.Base.Lists.{length, get_elem?, All}

-- One element goes from `p` to `q`.
pub data Swap {ℓ} {A : Type ℓ} (p q : A) : List A → List A → Type ℓ where
  here : (ws : List A) → Swap p q (p ∷ ws) (q ∷ ws)
  there : (w : A) {vs ws : List A} → Swap p q vs ws → Swap p q (w ∷ vs) (w ∷ ws)

-- The sum of a weight over the list.
abbrev pub total {ℓ} : {A : Type ℓ} → (A → ℕ) → List A → ℕ
total f [] = 0
total f (w ∷ ws) = f w + total f ws

module _ {ℓ} {A : Type ℓ} {p q : A} where
  pub total-Swap :
      (f : A → ℕ) {vs ws : List A} → Swap p q vs ws → total f ws + f p ≡ total f vs + f q
  total-Swap f (here ws) = omega arith
  total-Swap f (there w st) = omega (arith, total-Swap f st)

  pub length-Swap : {vs ws : List A} → Swap p q vs ws → length ws ≡ length vs
  length-Swap (here ws) = refl
  length-Swap (there w st) = omega (arith, length-Swap st)

  pub All-Swap : (P : A → Type 0) {vs ws : List A} → Swap p q vs ws → P q → All P vs → All P ws
  All-Swap P (here ws) h a = (h, a.1)
  All-Swap P (there w st) h a = (a.0, All-Swap P st h a.1)

  -- The element that moves was in the list.
  pub All-moved : (P : A → Type 0) {vs ws : List A} → Swap p q vs ws → All P vs → P p
  All-moved P (here ws) a = a.0
  All-moved P (there w st) a = All-moved P st a.1

pub All-get {ℓ} :
    {A : Type ℓ} (P : A → Type 0) (ws : List A) (i : ℕ) {w : A}
    → get_elem? ws i ≡ some w
    → All P ws
    → P w
All-get P [] i e a = cc
All-get P (w ∷ ws) zero e a = subst P (some-injective _ _ e) a.0
All-get P (w ∷ ws) (suc i) e a = All-get P ws i e a.1

-- A place in the list where an element `p` can go on.
abbrev pub Movable {ℓ} : {A : Type ℓ} → A → List A → Type ℓ
Movable {A = A} p vs = (q : A) → (ws : List A) × Swap p q vs ws

pub move_later {ℓ} : {A : Type ℓ} {p w : A} {vs : List A} → Movable p vs → Movable p (w ∷ vs)
move_later {w} m q = let (ws, st) = m q in (w ∷ ws, there w st)

-- Either all meet a test, or one that does not can be picked.
pub pick {ℓ} :
    {A : Type ℓ} (test : A → Bool) (vs : List A)
    → All (λ w. test w ≡ true) vs ⊎ ((p : A) × (test p ≡ false) × Movable p vs)
pick test [] = inl tt
pick {A = A} test (w ∷ ws) = decide (test w) refl (pick test ws)
  where
    decide :
        (b : Bool)
        → test w ≡ b
        → All (λ v. test v ≡ true) ws ⊎ ((p : A) × (test p ≡ false) × Movable p ws)
        → All (λ v. test v ≡ true) (w ∷ ws) ⊎ ((p : A) × (test p ≡ false) × Movable p (w ∷ ws))
    decide false e r = inr (w, e, λ q. (q ∷ ws, here ws))
    decide true e (inl a) = inl (e, a)
    decide true e (inr (p, np, m)) = inr (p, np, move_later m)
