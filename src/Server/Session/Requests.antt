-- ===== src/Server/Session/Requests.antt =====
-- What a request can do to the server.
use network_ping_test.Base.{
  ℕ, zero, suc, ◌≤◌, ◌<◌, ◌≡◌, ◌≢◌, refl, ap, List, [], ◌∷◌, length, take, All, arith, some, ◌∙◌,
  sym, test_ne,
}
use network_ping_test.Base.Int.{pos}
use network_ping_test.Os.{
  Os, done, fault, Trace, continue, usleep, recv_dontwait, epoll_create, gethostbyname,
}
use network_ping_test.Text.{Bytes, scan_word, undefined}
use network_ping_test.Text.Words.{scan_word-ne-undefined}
use network_ping_test.Driver.{Request, ready_message}
use network_ping_test.Server.Results.{WorkerResult}
use network_ping_test.Server.Protocol.{load_from_str, ip_size}
use network_ping_test.Server.Protocol.Request.{IsRequest, params_of, load_from_str-ready_message}
use network_ping_test.Server.RunTest.Closing.{run_test_zero}
use network_ping_test.Server.Session.{
  until_nul, c_string, buffer_size, receive, answer_message, process_client,
}

length-until_nul : (s : Bytes) → length (until_nul s) ≤ length s
unfolding until_nul
length-until_nul [] = omega arith
length-until_nul (c ∷ s) = ground (arith, length-until_nul s)

length-take : (n : ℕ) (s : Bytes) → length (take n s) ≤ n
length-take zero s = omega arith
length-take (suc n) [] = omega arith
length-take (suc n) (c ∷ s) = omega (arith, length-take n s)

-- The text of a message that `process_client` accepts, of less than `sizeof(buff)` bytes, never
-- overflows the array `ip` when `load_from_str` scans it.
pub scan_word-c_string :
    (n : ℕ) (buff : Bytes) → n < buffer_size → scan_word ip_size (c_string n buff) ≢ undefined
scan_word-c_string n buff h =
    scan_word-ne-undefined ip_size (c_string n buff)
      (omega (arith, length-until_nul (take n buff), length-take n buff))

c_string-whole : (s : Bytes) → All (λ c. c ≢ 0) s → c_string (length s) s ≡ s
unfolding until_nul
c_string-whole [] a = refl
c_string-whole (c ∷ s) a = ground (arith, c_string-whole s a.1)

module _ (os : Os) (sock : ℕ) (base : Bytes) (tresults : Trace → List WorkerResult) (fuel addrs : ℕ)
    (t : Trace) where
  process_client-parts :
      (process_client os sock base tresults fuel addrs t).0
      ≡ (continue
          (answer_message os sock base tresults fuel addrs)
          (receive os sock 51 (usleep ∷ t)).0
          (receive os sock 51 (usleep ∷ t)).1).0
  unfolding process_client
  process_client-parts = refl

pub receive-first :
    (os : Os) (sock left n : ℕ) (u : Trace)
    → (os (recv_dontwait sock buffer_size ∷ u)).value ≡ some (suc n)
    → receive os sock (suc left) u ≡ (
      done (some (suc n, (os (recv_dontwait sock buffer_size ∷ u)).bytes)),
      recv_dontwait sock buffer_size ∷ u,
    )
unfolding receive
receive-first os sock left n u e = rw e refl

-- A request that has been received whole is read back.
pub load_from_str-arrived :
    (r : Request) (n : ℕ) (buff : Bytes)
    → IsRequest r
    → All (λ c. c ≢ 0) (ready_message r)
    → length (ready_message r) ≡ suc n
    → buff ≡ ready_message r
    → load_from_str (c_string (suc n) buff) ≡ done (some (params_of r))
load_from_str-arrived r n buff v text size bytes =
    ap load_from_str whole ∙ load_from_str-ready_message r v
  where
    whole : c_string (suc n) buff ≡ ready_message r
    whole =
        ap (c_string (suc n)) bytes
        ∙ (ap (λ k. c_string k (ready_message r)) (sym size)
            ∙ c_string-whole (ready_message r) text)

-- A well-formed request of the driver for 0 connections, without a 0 byte, which arrives whole with the
-- first `recv`, fits the buffer, and whose host is found, ends the server in a division by 0, if
-- `epoll_create` succeeds: the message is accepted, and the test has no workers.
pub process_client_zero :
    (os : Os) (sock host efd : ℕ) (base : Bytes) (tresults : Trace → List WorkerResult)
    (fuel addrs : ℕ) (t : Trace) (r : Request) (n : ℕ)
    → IsRequest r
    → r.count ≡ pos 0
    → All (λ c. c ≢ 0) (ready_message r)
    → length (ready_message r) ≡ suc n
    → suc n < buffer_size
    → (os (recv_dontwait sock buffer_size ∷ usleep ∷ t)).value ≡ some (suc n)
    → (os (recv_dontwait sock buffer_size ∷ usleep ∷ t)).bytes ≡ ready_message r
    → (os (gethostbyname ∷ recv_dontwait sock buffer_size ∷ usleep ∷ t)).value ≡ some host
    → (os (epoll_create ∷ gethostbyname ∷ recv_dontwait sock buffer_size ∷ usleep ∷ t)).value
      ≡ some efd
    → (process_client os sock base tresults (suc fuel) addrs t).0 ≡ fault
process_client_zero os sock host efd base tresults fuel addrs t r n v none_asked text size small
      value bytes found epoll =
    process_client-parts os sock base tresults (suc fuel) addrs t
    ∙ rw
        (
          receive-first os sock 50 n (usleep ∷ t) value,
          test_ne (suc n) buffer_size (omega arith),
          load_from_str-arrived r n (os (recv_dontwait sock buffer_size ∷ usleep ∷ t)).bytes v text
              size bytes,
          run_test_zero os tresults fuel (params_of r) 3 addrs host efd
              (recv_dontwait sock buffer_size ∷ usleep ∷ t) none_asked found epoll,
        )
        refl
