-- ===== src/Server/Barrier/Workers.antt =====
-- Lists of workers: counts and predicates under a step of one worker.
use network_ping_test.Base.{
  ℕ, ◌≤◌, ◌<◌, ◌≡◌, refl, List, [], ◌∷◌, Bool, true, false, length, All, arith,
}
use network_ping_test.Base.Moves.{here, total, Movable, move_later}
use network_ping_test.Server.Barrier.{Worker, starting, waiting, holding, looping, exited}

abbrev pub registered : Worker → Bool
registered starting = false
registered _ = true

-- A worker that has got hold of the mutex.
abbrev pub past : Worker → Bool
past starting = false
past waiting = false
past _ = true

-- Between `active_count++` and `~DecOnExit`.
abbrev pub alive : Worker → ℕ
alive starting = 0
alive exited = 0
alive _ = 1

abbrev pub holds : Worker → ℕ
holds holding = 1
holds _ = 0

abbrev pub IsRegistered : Worker → Type 0
IsRegistered w = registered w ≡ true

abbrev pub IsBefore : Worker → Type 0
IsBefore w = past w ≡ false

total-le-length : (ws : List Worker) → total alive ws ≤ length ws
total-le-length [] = omega arith
total-le-length (w ∷ ws) = ground (arith, total-le-length ws)

-- If as many are alive as there are, each has registered.
pub IsRegistered-of_total : (ws : List Worker) → total alive ws ≡ length ws → All IsRegistered ws
IsRegistered-of_total [] e = tt
IsRegistered-of_total (w ∷ ws) e = ground (arith, total-le-length ws, IsRegistered-of_total ws)

-- Workers that have registered and are not past the barrier are alive.
pub total_of_registered :
    (ws : List Worker) → All IsRegistered ws → All IsBefore ws → total alive ws ≡ length ws
total_of_registered [] r b = refl
total_of_registered (w ∷ ws) r b = ground (arith, total_of_registered ws r.1 b.1)

-- A positive count of holders shows one.
pub find_holder : (vs : List Worker) → 0 < total holds vs → Movable holding vs
find_holder [] h = absurd (omega arith)
find_holder (holding ∷ ws) h = λ q. (q ∷ ws, here ws)
find_holder (starting ∷ ws) h = move_later (find_holder ws (omega arith))
find_holder (waiting ∷ ws) h = move_later (find_holder ws (omega arith))
find_holder (looping ∷ ws) h = move_later (find_holder ws (omega arith))
find_holder (exited ∷ ws) h = move_later (find_holder ws (omega arith))

pub total_before : (vs : List Worker) → All IsBefore vs → total holds vs ≡ 0
total_before [] b = refl
total_before (w ∷ ws) b = ground (arith, total_before ws b.1)
