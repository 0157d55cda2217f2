-- ===== src/Server/Protocol/Request.antt =====
-- The message of the driver, as the server reads it.
use network_ping_test.Base.{
  ℕ, ◌+◌, ◌^◌, ◌≤◌, ◌<◌, ◌≡◌, refl, [], ◌∷◌, ◌++◌, true, length, arith, All, some, length-append,
}
use network_ping_test.Os.{done, fault}
use network_ping_test.Text.{Bytes, is_int, show, show_ℤ, scan_word, matched}
use network_ping_test.Text.Numbers.{scan_int-show, scan_ulong-show, space-Stops}
use network_ping_test.Text.Words.{IsWordByte, scan_word-append, space-EndsWord, scan_word-overflow}
use network_ping_test.Driver.{Request, ready_message}
use network_ping_test.Server.Protocol.{TestParams, load_from_str, scan_params, ip_size}

-- A request that fits the message: the address is one word, not empty; the numbers fit `int` and
-- `unsigned long`; the timeouts are in order; the message is no longer than the server takes.
pub record IsRequest (r : Request) : Type 0 where
  pub first : ℕ
  pub others : Bytes
  pub address : r.address ≡ first ∷ others
  pub word : All IsWordByte (first ∷ others)
  pub port : is_int r.port ≡ true
  pub count : is_int r.count ≡ true
  pub runtime : is_int r.runtime ≡ true
  pub msize : is_int r.msize ≡ true
  pub ordered : r.min_timeout ≤ r.max_timeout
  pub fits : r.max_timeout < 2 ^ 64
  pub short : length (ready_message r) ≤ ip_size

abbrev pub params_of : Request → TestParams
params_of r = record {
  ip = r.address;
  port = r.port;
  num_conn = r.count;
  runtime = r.runtime;
  min_timeout = r.min_timeout;
  max_timeout = r.max_timeout;
  message_len = r.msize;
}

-- The text after the address, from each field on.
after_max : Request → Bytes
after_max r = b' ' ∷ (show_ℤ r.msize ++ [])

after_min : Request → Bytes
after_min r = b' ' ∷ (show r.max_timeout ++ after_max r)

after_runtime : Request → Bytes
after_runtime r = b' ' ∷ (show r.min_timeout ++ after_min r)

after_count : Request → Bytes
after_count r = b' ' ∷ (show_ℤ r.runtime ++ after_runtime r)

after_port : Request → Bytes
after_port r = b' ' ∷ (show_ℤ r.count ++ after_count r)

after_address : Request → Bytes
after_address r = b' ' ∷ (show_ℤ r.port ++ after_port r)

message-parts : (r : Request) → ready_message r ≡ r.address ++ after_address r
unfolding ready_message after_address after_port after_count after_runtime after_min after_max
message-parts r = refl

longer : (r : Request) → 0 < length (after_address r)
unfolding after_address
longer r = omega arith

address_fits : (r : Request) (v : IsRequest r) → length (v.first ∷ v.others) < ip_size
unfolding after_address after_port after_count after_runtime after_min after_max
address_fits r v =
    let total : length (ready_message r) ≡ length (v.first ∷ v.others) + length (after_address r) =
      rw (message-parts r, v.address) (length-append (v.first ∷ v.others) (after_address r)) in
    omega (arith, v.short, total, longer r)

address_read :
    (r : Request) (v : IsRequest r)
    → scan_word ip_size (r.address ++ after_address r) ≡ matched r.address (after_address r)
unfolding after_address
address_read r v = rw v.address (
    scan_word-append ip_size v.first v.others _ v.word
      (space-EndsWord (show_ℤ r.port ++ after_port r)) (address_fits r v))

scanned :
    (r : Request)
    → IsRequest r
    → scan_params (r.address ++ after_address r) ≡ matched (params_of r) []
unfolding scan_params after_address after_port after_count after_runtime after_min after_max
scanned r v = rw (
  address_read r v,
  scan_int-show r.port (after_port r) v.port (space-Stops (show_ℤ r.count ++ after_count r)),
  scan_int-show r.count (after_count r) v.count (space-Stops (show_ℤ r.runtime ++ after_runtime r)),
  scan_int-show r.runtime (after_runtime r) v.runtime
      (space-Stops (show r.min_timeout ++ after_min r)),
  scan_ulong-show r.min_timeout (after_min r) (omega (arith, v.ordered, v.fits))
      (space-Stops (show r.max_timeout ++ after_max r)),
  scan_ulong-show r.max_timeout (after_max r) v.fits (space-Stops (show_ℤ r.msize ++ [])),
  scan_int-show r.msize [] v.msize tt,
)

-- The server reads every request that fits back from the message of the driver.
pub load_from_str-ready_message :
    (r : Request) → IsRequest r → load_from_str (ready_message r) ≡ done (some (params_of r))
unfolding load_from_str
load_from_str-ready_message r v =
    rw (message-parts r, scanned r v) (ground (arith, v.short, v.ordered, message-parts r))

-- A message of `sizeof(ip)` bytes without white space passes the test on its length, and overflows `ip`
-- by the closing 0.
pub load_from_str_overflow :
    (c : ℕ) (w : Bytes)
    → All IsWordByte (c ∷ w)
    → length (c ∷ w) ≡ ip_size
    → load_from_str (c ∷ w) ≡ fault
unfolding load_from_str scan_params
load_from_str_overflow c w a full =
    rw (scan_word-overflow ip_size c w a (omega (arith, full))) (ground (arith, full))
