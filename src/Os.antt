-- ===== src/Os.antt =====
-- The operating system as the program sees it: the calls that the C++ code makes, and their replies.
-- Nothing here is code of the repository, so the replies are a parameter: an `Os` answers each call
-- from the whole history of calls, and a statement over every `Os` holds whatever the kernel and the
-- peers do. The callbacks that the caller hands to the client library are calls too, and so are the
-- accesses to the data that threads share (`Sync` of server.cpp), and the draws of a random number.
pub mod Close
pub mod Runs
pub mod Links
pub mod Sample
use network_ping_test.Base.{ℕ, List, [], ◌∷◌, Option, none, some, Bool}
use network_ping_test.Base.Int.{ℤ}

-- `epoll_event` with `data.fd`, and what `poll` reports of one slot (`fd`, `revents`).
pub record Event : Type 0 where
  pub fd : ℕ
  pub flags : ℕ

-- `pollfd` as it is handed to `poll`; no `fd` is -1.
pub record PollFd : Type 0 where
  pub fd : Option ℕ
  pub events : ℕ
  pub revents : ℕ

pub data Call : Type 0 where
  clock_gettime epoll_create gethostbyname : Call
  epoll_wait : (efd : Option ℕ) (maxevents : ℕ) (timeout : ℤ) → Call
  epoll_ctl_add : (efd : Option ℕ) (fd mask : ℕ) → Call
  epoll_ctl_del : (efd : Option ℕ) (fd : ℕ) → Call
  poll : List PollFd → Call
  socket : Call
  setsockopt getsockopt : (fd : ℕ) → Call
  bind : (fd port : ℕ) → Call
  listen : (fd backlog : ℕ) → Call
  accept : (fd : ℕ) → Call
  connect : (fd : ℕ) → Call
  fcntl_getfl : (fd : ℕ) → Call
  fcntl_setfl : (fd flags : ℕ) → Call
  recv : (fd count : ℕ) → Call
  write : (fd count : ℕ) → Call
  close : (fd : ℕ) → Call
  ready_for_connect preparation_done test_done : Call
  start_thread join_thread : (fd : ℕ) → Call
  load_started store_run load_counter load_done store_done load_active lock_start unlock_start
        usleep ignore_sigpipe :
      Call
  recv_dontwait : (fd count : ℕ) → Call
  rand_timeout : (lo hi : ℕ) → Call

-- `value` is what the call returns, with `none` for -1; `errno` is read after a failure. The other
-- fields are what a call writes through its pointers: the time, the events, the `revents`,
-- the pending error of a socket, the bytes that are received.
pub record Reply : Type 0 where
  pub value : Option ℕ
  pub errno : ℕ
  pub sec : ℕ
  pub nsec : ℕ
  pub events : List Event
  pub revents : List ℕ
  pub error : ℕ
  pub bytes : List ℕ

abbrev pub Os : Type 0
Os = List Call → Reply

-- Newest call first.
abbrev pub Trace : Type 0
Trace = List Call

-- `more`: the fuel of a loop ran out. `fault`: undefined behaviour of C++, such as an access outside
-- a vector, or an exception that nothing catches.
pub data Outcome {ℓ} (A : Type ℓ) : Type ℓ where
  done : A → Outcome A
  more : Outcome A
  fault : Outcome A

-- A run of code: from the calls made so far to an outcome and the calls made then.
abbrev pub Run : Type 0 → Type 0
Run A = Trace → Outcome A × Trace

abbrev pub continue : {A B : Type 0} → (A → Run B) → Outcome A → Trace → Outcome B × Trace
continue f (done a) t = f a t
continue f more t = (more, t)
continue f fault t = (fault, t)

infixl 5 ◌>>=◌ ◌>>◌
abbrev pub ◌>>=◌ : {A B : Type 0} → Run A → (A → Run B) → Run B
◌>>=◌ m f t = let (o, t') = m t in continue f o t'

abbrev pub ◌>>◌ : {A B : Type 0} → Run A → Run B → Run B
m >> k = m >>= λ _. k

abbrev pub pure : {A : Type 0} → A → Run A
pure a t = (done a, t)

abbrev pub undefined : {A : Type 0} → Run A
undefined t = (fault, t)

abbrev pub out_of_fuel : {A : Type 0} → Run A
out_of_fuel t = (more, t)

abbrev pub call : Os → Call → Run Reply
call os c t = (done (os (c ∷ t)), c ∷ t)

-- A destructor's calls, made whatever the outcome.
abbrev pub finally : {A : Type 0} → Run A → (Trace → Trace) → Run A
finally m f t = let (o, t') = m t in (o, f t')

-- The replies that concrete systems give.
abbrev pub replied : ℕ → Reply
replied n = record {
  value = some n;
  errno = 0;
  sec = 0;
  nsec = 0;
  events = [];
  revents = [];
  error = 0;
  bytes = [];
}

abbrev pub failed : ℕ → Reply
failed e = record {
  value = none;
  errno = e;
  sec = 0;
  nsec = 0;
  events = [];
  revents = [];
  error = 0;
  bytes = [];
}

abbrev pub einterrupted : ℕ
einterrupted = 4

-- What a call that ends returns, when it returns a `bool` beside a state.
abbrev pub answer : {A : Type 0} → Outcome (Bool × A) → Option Bool
answer (done (b, _)) = some b
answer more = none
answer fault = none
