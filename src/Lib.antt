-- ===== src/Lib.antt =====
-- A model of network_ping_test: a server that opens many TCP connections to a client, sends a message
-- on each, and counts and times the echoes that come back. Two programs meet over the network.
--
-- The client (client.cpp, driven from Python) listens, accepts a number of connections
-- (`wait_for_conn`), and echoes messages (`process_message`), with a thread for each connection
-- (`run_test_th`), or in an event loop (`run_test`) over one of two selectors with the same interface
-- (`RSelector` of common.h): `EPollRSelector` (common.h, common.cpp), which waits by `epoll_wait_ex`,
-- and `PollRSelector` (client.cpp). The server (server.cpp) connects, deals its connections out to
-- worker threads, each with an `EPollRSelector`, starts them at a barrier, stops them after a while,
-- and puts their counts together (`run_test`).
--
-- Which file models which part. A module's own file has the definitions, those below it the proofs.
--   Base: tests on numbers, lists, ℤ and bits over the native numbers.
--   Os: the system calls and callbacks that the code makes, and the runs of code that makes them.
--     A run carries the trace of the calls made so far, and an `Os` answers a call from it; theorems
--     hold for every `Os`, or for one with a documented property (`EpollContract`, `NeedsRoom`,
--     `Ticks`). Os/Close has `FDList` and `FDCloser` of client.cpp. An access outside a vector is the
--     outcome `fault`. Os/Links carries a relation between two points of a trace through a run.
--   Wait: common.h `EventsList`, `get_fast_time`; common.cpp `epoll_wait_ex`.
--   Selector: common.h `RSelector`. Selector/EPoll: common.cpp `EPollRSelector`. Selector/Poll:
--     client.cpp `PollRSelector`.
--   Client: the rest of client.cpp.
--   Text: the parts of `sscanf` and of the output of integers that server.cpp and main.py use: "%s",
--     "%d", "%lu", and decimal digits. A text is a list of bytes.
--   Driver: main.py, the request that `ready_func` sends and `get_run_stats`, which reads the report.
--   Server/Protocol: server.cpp `load_from_str` and `serialize_to_str`.
--   Server/Session: server.cpp `process_client`, `main_loop_thread`, `main`.
--   Server/RunTest: server.cpp `run_test`, the main thread of a test; what the workers leave in their
--     results is a parameter. Walk below it relates it to Server/Barrier.
--   Server/Barrier: server.cpp `Sync`, and the accesses of `run_test` and `worker_thread` to it, as a
--     step relation on the states of all threads; every interleaving is a sequence of steps.
--   Server/Connect: server.cpp `connect_all` and `check_socket_ready`.
--   Server/Worker: server.cpp `ping` and the loop of `worker_thread`, past the barrier. Its rounds are
--     in Rounds and Ends, the latencies in Samples, its whole runs in Written (what it counts) and
--     Stop (how it ends). Server/Worker/Fast: `worker_thread_fast`, which no code starts.
--   Server/Spread: the selectors of `run_test` and the dealing out of connections.
--   Server/Results: the merge of the workers' results and the percentiles.
--   Latency: server.cpp `log2_64`.
--   Old: old/client.cpp, the former client, which connects to the server by itself. Old/EPoll: its
--     `EPollRSelector`; its `PollRSelector` is that of client.cpp. Old/Events: its `run_test`,
--     `run_test_epoll` and `run_test_poll`. Old/Threads: `th_func` and `run_test_th` as a step relation
--     on their counters. Old/Program: `run_test_th` as the main thread runs it, and `main`.
--
-- Bounds and fuel. Each unbounded `for` and `while` runs on fuel, a round for each unit; an outcome
-- `more` says that it ran out. Theorems on the result name the fuel that is enough, or hold for any
-- fuel. `unsigned long` wraps at 2 ^ 64. A time or a sum of times is below 2 ^ 63 where a theorem
-- says so. An `int` that is counted up is a number without bound: the counts of connections and
-- their products with 19 fit. A scanned number outside the range of its type is undefined, and so
-- are ten times the runtime and the count of messages of old/client.cpp past the range of `int`.
--
-- Not modelled: the output to stdout and stderr, but for a division in it; the counters under
-- EPOLL_CALL_STATS, `set_rr_prio` and the like of it in old/client.cpp, `time_ns` there, the
-- average latency of `run_test`, a floating point number that is only printed, `get_in_addr`, which
-- nothing calls, the rest of main.py, with the `recv` of a report and its limit of 64 KB, and what is
-- neither C++ nor read by it. `errno` is read as `epoll_wait` left it, so that a failure of
-- `clock_gettime`, which would change it, is not; and the address of the first place of an empty
-- vector, which `epoll_wait_ex` takes and hands on, is no access. The function from a latency to its
-- bucket is a parameter of a worker.
pub mod Base
pub mod Os
pub mod Wait
pub mod Text
pub mod Selector
pub mod Client
pub mod Server
pub mod Latency
pub mod Driver
pub mod Old
