-- ===== src/Sync/Futex/Tests.antt =====
-- Examples of futexes: a thread waits, and is woken.
use rucux.Base.{true, false, some, List, [], ◌∷◌, arith}
use rucux.Process.Signal.{Thread}
use rucux.Sync.Futex.{Futex, wait_begin, futex_wake}
use rucux.Sync.Futex.Wake.{Wakes, futex_wake_lem}
use rucux.Sync.Futex.Leave.{Op, wakes, begins, ends, Waits, wait-Absent}

abbrev running : Thread
running = record {
  sig_handlers = λ s. 0;
  sig_restorers = λ s. 0;
  sig_mask = λ s. false;
  sig_pending = λ s. false;
  is_blocked = false;
  is_terminated = false;
  is_user = true;
  kernel_depth = 1;
  interruptible_wait = false;
  exit_code = 0;
}

abbrev idle : Futex
idle = record { table = λ i. []; threads = λ t. running; memory = λ p a. some 5 }

abbrev meanwhile : List Op
meanwhile = begins 3 1 4096 5 ∷ wakes 1 4096 1 ∷ ends 3 1 4096 ∷ []

wait-Absent_example : Waits idle 2 1 4096 5 meanwhile 7 (wait_begin idle 2 1 4096 5)
wait-Absent_example =
    wait-Absent idle 2 1 4096 5 meanwhile 7 (λ i. tt)
      (λ e. omega arith, (tt, (λ e. omega arith, tt)))

abbrev two : Futex
two = (wait_begin (wait_begin idle 2 1 4096 5).1 3 1 4096 5).1

futex_wake_lem_example : Wakes two 1 4096 1 (futex_wake two 1 4096 1)
futex_wake_lem_example = futex_wake_lem two 1 4096 1
