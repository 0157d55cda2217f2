-- ===== src/Server/Protocol.antt =====
-- server.cpp `TestParams`, `TestResult`, `load_from_str`, `serialize_to_str`: the messages between the
-- driver and the server. A message has no byte 0 in it; `string::c_str` and `strlen` stop there. The
-- base of the buckets is printed as the build says, "2" or 2 ^ 0.1 with 12 digits: a parameter.
pub mod Request
use network_ping_test.Base.{
  ℕ, zero, suc, ◌+◌, ◌≤◌, List, [], ◌∷◌, ◌++◌, Bool, true, false, ltb, if◌then◌else◌, length,
  Option, none, some,
}
use network_ping_test.Base.Int.{ℤ}
use network_ping_test.Os.{Outcome, done, more, fault}
use network_ping_test.Text.{
  Bytes, Scanned, matched, mismatched, undefined, Scanner, proceed, ◌>>=◌, yield, scan_int,
  scan_ulong, scan_word, show,
}

-- The fields `port`, `num_conn`, `runtime` and `message_len` are `int`.
pub record TestParams : Type 0 where
  pub ip : Bytes
  pub port : ℤ
  pub num_conn : ℤ
  pub runtime : ℤ
  pub min_timeout : ℕ
  pub max_timeout : ℕ
  pub message_len : ℤ

-- `sizeof(params.ip)`
abbrev pub ip_size : ℕ
ip_size = 1025

-- `sscanf(data, "%s %d %d %d %lu %lu %d", …)`
pub scan_params : Scanner TestParams
scan_params = do
  ip ← scan_word ip_size
  port ← scan_int
  num_conn ← scan_int
  runtime ← scan_int
  min_timeout ← scan_ulong
  max_timeout ← scan_ulong
  message_len ← scan_int
  yield (record {
    ip = ip;
    port = port;
    num_conn = num_conn;
    runtime = runtime;
    min_timeout = min_timeout;
    max_timeout = max_timeout;
    message_len = message_len;
  })

-- After the scan: with fewer than 7 conversions, or timeouts in the wrong order, false.
abbrev pub checked_params : Scanned TestParams → Outcome (Option TestParams)
checked_params (matched p rest) =
    if ltb p.max_timeout p.min_timeout then done none else done (some p)
checked_params mismatched = done none
checked_params undefined = fault

-- `none` is a return of false.
pub load_from_str : Bytes → Outcome (Option TestParams)
unfolding scan_params
load_from_str message =
    if ltb ip_size (length message) then done none else checked_params (scan_params message)

-- The fields that are sent to the driver.
pub record TestResult : Type 0 where
  pub mcount : ℕ
  pub percentiles : List ℕ
  pub lat_map : List (ℕ × ℕ)

-- `serialized << " " << n`, before the rest.
abbrev pub put_number : ℕ → Bytes → Bytes
put_number n rest = b' ' ∷ (show n ++ rest)

abbrev pub put_entries : List (ℕ × ℕ) → Bytes → Bytes
put_entries [] rest = rest
put_entries ((k, v) ∷ m) rest = put_number k (put_number v (put_entries m rest))

abbrev pub put_numbers : List ℕ → Bytes → Bytes
put_numbers [] rest = rest
put_numbers (n ∷ ns) rest = put_number n (put_numbers ns rest)

unfoldable pub serialize_to_str : Bytes → TestResult → Bytes
serialize_to_str base res =
    show res.mcount
    ++ b' '
      ∷ (base
          ++ put_number (length res.lat_map) (
              put_entries res.lat_map
                (put_number (length res.percentiles) (put_numbers res.percentiles []))))
