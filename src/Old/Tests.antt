-- ===== src/Old/Tests.antt =====
-- The former client on concrete systems.
use network_ping_test.Base.{ℕ, ◌%◌, ◌^◌, ◌≡◌, refl, [], ◌∷◌, Bool, true, false, All, arith}
use network_ping_test.Base.Moves.{here, total}
use network_ping_test.Os.{
  Os, Trace, done, replied, socket, connect, gethostbyname, load_started, usleep, start_thread,
}
use network_ping_test.Os.Close.{close_all}
use network_ping_test.Os.Sample.{system}
use network_ping_test.Old.{connect_all, connect_loop}
use network_ping_test.Old.Opened.{Connected, connect_all-Connected}
use network_ping_test.Old.Threads
use network_ping_test.Old.Threads.{Thread, waiting, pinging, exited, System, Reach, IsExited}
use network_ping_test.Old.Threads.Invariant.{IsRegistered, released}
use network_ping_test.Old.Threads.Outcomes.{
  CanStep, messages, joined_sum, no_early_ping, threads_progress,
}
use network_ping_test.Old.Program.{run_test_th}
use network_ping_test.Old.Program.Order.{Ending, Starts, worked, run_test_th-Ending}

connect_all-Connected_example : Connected system 2 [] (connect_all system 2 true [] [])
connect_all-Connected_example = connect_all-Connected system true 2 0 [] [] refl

abbrev at : Threads.Main → Thread → ℕ → ℕ → Bool → System
at m t msgs finished run = record {
  main = m;
  threads = t ∷ [];
  msg_processed = msgs;
  started = 1;
  finished = finished;
  run_lola_run = run;
}

one_message : Reach 1 (at Threads.joining (pinging 1) 0 0 true)
one_message =
    Threads.next
      (Threads.next
        (Threads.next
          (Threads.next (Threads.next Threads.begin (Threads.enter (here [])))
            (Threads.all_started refl refl))
          (Threads.release refl))
        (Threads.go refl (here [])))
      (Threads.ping (here []))

all_joined : Reach 1 (at Threads.ended (exited 1) 1 1 true)
all_joined =
    Threads.next
      (Threads.next (Threads.next one_message (Threads.add (here []))) (Threads.finish (here [])))
      (Threads.joined refl (Threads.left 1, tt))

joined_sum_example :
    All IsExited (exited 1 ∷ [])
    × ((at Threads.ended (exited 1) 1 1 true).msg_processed
        ≡ total messages (exited 1 ∷ []) % 2 ^ 64)
    × ((at Threads.ended (exited 1) 1 1 true).started ≡ 1)
    × ((at Threads.ended (exited 1) 1 1 true).finished ≡ 1)
joined_sum_example = joined_sum all_joined refl

no_early_ping_example :
    (true ≡ true) × (released Threads.joining ≡ true) × All IsRegistered (pinging 1 ∷ [])
no_early_ping_example = no_early_ping 0 one_message refl refl

threads_progress_example : CanStep (at Threads.joining (pinging 1) 0 0 true)
threads_progress_example = threads_progress one_message refl

-- The thread is counted after one sleep.
abbrev late : Os
late (load_started ∷ usleep ∷ t) = replied 1
late t = system t

abbrev made : Trace
made = connect 101 ∷ socket ∷ gethostbyname ∷ []

connects : connect_all late 1 false [] [] ≡ (done (true, 101 ∷ []), made)
unfolding connect_all connect_loop
connects = refl

abbrev started : Trace
started = load_started ∷ usleep ∷ load_started ∷ start_thread 101 ∷ made

starts : Starts late 1 1 (start_thread 101 ∷ made) started
starts = ((λ e. cc), (refl, refl))

abbrev calls : Trace
calls = worked late 2 1 1 true true true (101 ∷ []) made started

run_test_th-Ending_example :
    run_test_th late 2 1 true true true []
    ≡ (done (Ending late true calls).0, close_all (101 ∷ []) (Ending late true calls).1)
run_test_th-Ending_example =
    run_test_th-Ending late 2 1 1 true true true (101 ∷ []) made started [] connects starts
      (omega arith)
