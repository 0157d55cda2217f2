-- ===== src/Server/Session/Tests.antt =====
-- Requests on a concrete system.
use network_ping_test.Base.{
  ℕ, zero, suc, ◌+◌, ◌≡◌, ◌≢◌, refl, List, [], ◌∷◌, Option, some, none, arith, true, false, length,
  All, replicate, length-replicate, inl,
}
use network_ping_test.Base.Int.{pos}
use network_ping_test.Os.{
  Os, Outcome, Trace, done, fault, join_thread, recv_dontwait, usleep, close,
}
use network_ping_test.Os.Sample.{system}
use network_ping_test.Text.{Bytes, is_space, show, show_ℤ}
use network_ping_test.Driver.{Request, ready_message}
use network_ping_test.Server.Connect.Tests.{two_active, two_active_value}
use network_ping_test.Server.Results.{WorkerResult}
use network_ping_test.Server.Protocol.{TestParams, TestResult, load_from_str, ip_size}
use network_ping_test.Server.Protocol.Request.{
  IsRequest, params_of, load_from_str-ready_message, load_from_str_overflow,
}
use network_ping_test.Server.RunTest.{run_test}
use network_ping_test.Server.Session.{process_client, buffer_size, eagain}
use network_ping_test.Server.Session.Loop.{Sessions, accept_clients-Sessions, accept_clients-single}
use network_ping_test.Server.Session.Exit.{Exits, is_ready, main-Exits}
use network_ping_test.Server.Session.{accept_clients, main, default_port, receive}
use network_ping_test.Os.{accept}
use network_ping_test.Server.Session.Answers.{
  Answers, Waits, process_client-arrived, process_client-silent,
}
use network_ping_test.Server.Session.Requests.{process_client_zero}

-- The address "a7".
abbrev nothing_asked : Request
nothing_asked = record {
  address = b'a' ∷ b'7' ∷ [];
  port = pos 80;
  count = pos 0;
  runtime = pos 10;
  min_timeout = 0;
  max_timeout = 25;
  msize = pos 64;
}

nothing-IsRequest : IsRequest nothing_asked
unfolding ready_message show_ℤ show is_space
nothing-IsRequest = record {
  first = b'a';
  others = b'7' ∷ [];
  address = refl;
  word = (refl, (refl, tt));
  port = refl;
  count = refl;
  runtime = refl;
  msize = refl;
  ordered = omega arith;
  fits = omega arith;
  short = omega arith;
}

load_from_str-ready_message_example :
    load_from_str (ready_message nothing_asked) ≡ done (some (params_of nothing_asked))
load_from_str-ready_message_example = load_from_str-ready_message nothing_asked nothing-IsRequest

abbrev message : Bytes
message = ready_message nothing_asked

-- A system that hands that message over.
abbrev asking : Os
asking t = record (system t) { value = answer_to t; bytes = message }
  where
    answer_to : Trace → Option ℕ
    answer_to [] = none
    answer_to (recv_dontwait fd count ∷ u) = some 18
    answer_to (_ ∷ u) = some 5

length-message : length message ≡ 18
unfolding ready_message show_ℤ show
length-message = refl

message_text : All (λ c. c ≢ 0) message
unfolding ready_message show_ℤ show
message_text = omega arith

-- No worker has anything to tell.
abbrev nothing_left : Trace → List WorkerResult
nothing_left t = []

process_client_zero_example : (process_client asking 4 (b'2' ∷ []) nothing_left 9 0 []).0 ≡ fault
process_client_zero_example =
    process_client_zero asking 4 5 5 (b'2' ∷ []) nothing_left 8 0 [] nothing_asked 17
      nothing-IsRequest refl message_text length-message (omega arith) refl refl refl refl

-- A word of 1025 bytes.
all_word : (n : ℕ) → All (λ c. is_space c ≡ false) (replicate n b'x')
unfolding is_space
all_word zero = tt
all_word (suc n) = (refl, all_word n)

full : length {A = ℕ} (b'x' ∷ replicate 1024 b'x') ≡ ip_size
full = omega (arith, length-replicate {A = ℕ} 1024 b'x')

load_from_str_overflow_example : load_from_str (b'x' ∷ replicate 1024 b'x') ≡ fault
load_from_str_overflow_example =
    load_from_str_overflow b'x' (replicate 1024 b'x') (all_word (suc 1024)) full

-- A test of two connections.
abbrev two_asked : TestParams
two_asked = record (params_of nothing_asked) { num_conn = pos 2 }

abbrev counted_result : WorkerResult
counted_result = record { mcount = 5; lat_map = (4, 2) ∷ []; mess_count_for_sock = (102, 5) ∷ [] }

-- What the workers have left once the second of them has been joined, and not before.
abbrev left_after_joins : Trace → List WorkerResult
left_after_joins (join_thread (suc i) ∷ t) = counted_result ∷ counted_result ∷ []
left_after_joins t = []

abbrev tested : Outcome (Option TestResult) × Trace
tested = run_test two_active left_after_joins 20 two_asked 3 0 []

-- A request for two connections, which arrives with the second call of `recv`.
abbrev two_request : Request
two_request = record nothing_asked { count = pos 2 }

two-IsRequest : IsRequest two_request
unfolding ready_message show_ℤ show is_space
two-IsRequest = record {
  first = b'a';
  others = b'7' ∷ [];
  address = refl;
  word = (refl, (refl, tt));
  port = refl;
  count = refl;
  runtime = refl;
  msize = refl;
  ordered = omega arith;
  fits = omega arith;
  short = omega arith;
}

length-two_request : length (ready_message two_request) ≡ 18
unfolding ready_message show_ℤ show
length-two_request = refl

two_request_text : All (λ c. c ≢ 0) (ready_message two_request)
unfolding ready_message show_ℤ show
two_request_text = omega arith

abbrev slow_value : Trace → Option ℕ
slow_value [] = none
slow_value (recv_dontwait fd count ∷ usleep ∷ []) = none
slow_value (recv_dontwait fd count ∷ u) = some 18
slow_value (c ∷ u) = two_active_value (c ∷ u)

abbrev slow : Os
slow t = record (system t) {
  value = slow_value t;
  errno = eagain;
  bytes = ready_message two_request;
}

abbrev after_first : Trace
after_first = usleep ∷ recv_dontwait 4 buffer_size ∷ usleep ∷ []

process_client-arrived_example :
    Answers 4
      (b'2' ∷ [])
      (pos 10)
      (run_test slow left_after_joins 20
        (params_of two_request)
        3
        0
        (recv_dontwait 4 buffer_size ∷ after_first))
      (process_client slow 4 (b'2' ∷ []) left_after_joins 20 0 [])
process_client-arrived_example =
    process_client-arrived slow 4 1 17 (b'2' ∷ []) left_after_joins 20 0 [] after_first two_request
      two-IsRequest two_request_text length-two_request (omega arith) (inl (refl, refl), refl)
      (omega arith) refl refl

-- A driver that sends nothing.
abbrev silent : Os
silent t = record (system t) { value = none; errno = eagain }

silent_waits : (k : ℕ) (u : Trace) → (v : Trace) × Waits silent 4 k u v
silent_waits zero u = (u, refl)
silent_waits (suc k) u =
    let (v, w) = silent_waits k (usleep ∷ recv_dontwait 4 buffer_size ∷ u) in
    (v, (inl (refl, refl), w))

process_client-silent_example :
    process_client silent 4 (b'2' ∷ []) nothing_left 9 0 []
    ≡ (done tt, close 4 ∷ (silent_waits 51 (usleep ∷ [])).0)
process_client-silent_example =
    process_client-silent silent 4 (b'2' ∷ []) nothing_left 9 0 [] (silent_waits 51 (usleep ∷ [])).0
      (silent_waits 51 (usleep ∷ [])).1

-- A client that sends nothing in time, which is closed, whatever came before.
abbrev served_calls : Trace → Trace
served_calls t =
    (process_client system (100 + length t) (b'2' ∷ []) nothing_left 9 0 (accept 3 ∷ t)).1

served_silent :
    (t : Trace)
    → process_client system (100 + length t) (b'2' ∷ []) nothing_left 9 0 (accept 3 ∷ t)
      ≡ (done tt, served_calls t)
unfolding process_client receive
served_silent t = refl

two_silent :
    accept_clients system (b'2' ∷ []) nothing_left 9 0 5 3 false []
    ≡ accept_clients system (b'2' ∷ []) nothing_left 9 0 3 3 false (served_calls (served_calls []))
two_silent =
    accept_clients-Sessions system (b'2' ∷ []) nothing_left 9 0 3 2 3 []
      (served_calls (served_calls []))
      (Sessions.served 100 refl (served_silent []) (
        Sessions.served (100 + length (served_calls [])) refl (served_silent (served_calls []))
          Sessions.idle))

one_silent :
    accept_clients system (b'2' ∷ []) nothing_left 9 0 5 3 true [] ≡ (done 0, served_calls [])
one_silent =
    accept_clients-single system (b'2' ∷ []) nothing_left 9 0 3 0 5 100 [] [] (served_calls [])
      (omega arith) refl refl (served_silent [])

main-Exits_example :
    Exits
      (is_ready system default_port [])
      true
      (main system (b'2' ∷ []) nothing_left 9 ((b'-' ∷ b's' ∷ []) ∷ []) [])
main-Exits_example = main-Exits system (b'2' ∷ []) nothing_left 9 ((b'-' ∷ b's' ∷ []) ∷ []) []
