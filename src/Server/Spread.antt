-- ===== src/Server/Spread.antt =====
-- server.cpp `run_test`, lines 504 to 522: the selectors of the workers, and the connections dealt out
-- to them in turn.
pub mod Share
use network_ping_test.Base.{
  ℕ, zero, suc, ◌+◌, ◌/◌, ◌%◌, List, [], ◌∷◌, ◌++◌, Option, none, some, Bool, true, false, ◌==◌,
  if◌then◌else◌, get_elem?, min,
}
use network_ping_test.Os.{
  Os, Run, Outcome, done, more, fault, Call, epoll_create, ◌>>=◌, continue, pure, undefined, Trace,
}
use network_ping_test.Selector.EPoll.{EPollRSelector, construct, ok, add_fd}

-- `std::min(params.num_conn, worker_threads)`
abbrev pub worker_count : ℕ → ℕ → ℕ
worker_count num_conn worker_threads = min num_conn worker_threads

-- `params.num_conn / worker_threads + 1`; a division by 0 is undefined.
unfoldable pub max_sock_count : ℕ → ℕ → Option ℕ
max_sock_count num_conn zero = none
max_sock_count num_conn (suc w) = some (num_conn / suc w + 1)

-- `for(int i = 0; i < worker_threads; ++i)`: false if a selector is not `ok`.
pub make_selectors : Os → ℕ → ℕ → List EPollRSelector → Run (Bool × List EPollRSelector)
unfolding construct ok
make_selectors os zero room sels = pure (true, sels)
make_selectors os (suc left) room sels = do
  sel ← construct os room
  if ok sel then make_selectors os left room (sels ++ sel ∷ []) else pure (false, sels ++ sel ∷ [])

-- `selectors[idx % worker_threads].add_fd(fd)`; a selector outside the vector is undefined.
abbrev pub add_to : Os → ℕ → Option EPollRSelector → Run (Bool × EPollRSelector)
add_to os fd none = undefined
add_to os fd (some sel) = add_fd os fd sel

-- `for(auto fd: sockets.fds)`. `add_fd` changes the epoll set in the kernel, and not the object.
pub spread : Os → List EPollRSelector → ℕ → ℕ → List ℕ → Run Bool
unfolding add_fd
spread os sels w idx [] = pure true
spread os sels w idx (fd ∷ fds) = do
  (added, _) ← add_to os fd (get_elem? sels (idx % w))
  if added then spread os sels w (idx + 1) fds else pure false
