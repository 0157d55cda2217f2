-- ===== src/Os/Close.antt =====
-- Destructors that close descriptors: `FDList` and `FDCloser` of client.cpp and server.cpp.
use network_ping_test.Base.{ℕ, List, [], ◌∷◌}
use network_ping_test.Os.{close, Trace}

-- `~FDList`: `for(int fd: fds) close(fd);`
unfoldable pub close_all : List ℕ → Trace → Trace
close_all [] t = t
close_all (fd ∷ fds) t = close_all fds (close fd ∷ t)

-- `~FDCloser`
unfoldable pub close_one : ℕ → Trace → Trace
close_one fd t = close fd ∷ t
