-- ===== src/Scheduler/Dispatch/Tests.antt =====
-- Examples of dispatching: two processors, on the first of which thread 5 waits.
use rucux.Base.{ℕ, ◌≡◌, refl, ◌⊎◌, true, false, none, some, [], arith}
use rucux.Scheduler.Dispatch.{
  ready, Thread, Cpu, Machine, enqueue, queue_locked, choose, take, peek, first_queue, source_of,
  keeps, busiest,
}
use rucux.Scheduler.Dispatch.Valid.{IsValid}
use rucux.Scheduler.Dispatch.Queued.{enqueue-IsValid}
use rucux.Scheduler.Dispatch.Claimed.{Claims}
use rucux.Scheduler.Dispatch.Steps.{choose_lem, chooses, step, step-IsValid, Allowed}

abbrev resting : Thread
resting = record {
  state = ready;
  priority = 1;
  last_cpu = 0;
  run_queued = false;
  dispatch_cpu = none;
  pins = 0;
}

abbrev quiet : Cpu
quiet = record {
  current_thread = none;
  idle_thread = 9;
  online = true;
  queues = λ k. [];
  total_runnable = 0;
  switching_from = none;
}

abbrev asleep : Machine
asleep = record { threads = λ t. resting; cpus = λ c. quiet; cpu_count = 2 }

asleep-IsValid : IsValid asleep
asleep-IsValid = record {
  priorities = λ t. omega arith;
  nodes = λ c k. tt;
  once = λ c k. tt;
  counted = λ c. refl;
}

abbrev waiting : Machine
waiting = enqueue asleep 5

waiting-IsValid : IsValid waiting
waiting-IsValid = enqueue-IsValid asleep 5 asleep-IsValid

idle-unqueued : (waiting.threads (waiting.cpus 1).idle_thread).run_queued ≡ false
unfolding enqueue queue_locked
idle-unqueued = refl

-- The second processor has nothing to do and takes the thread of the first.
choose-steals : (choose waiting 1).0 ≡ some 5
unfolding choose enqueue queue_locked take peek first_queue source_of keeps busiest
choose-steals = refl

choose_lem_example :
    (choose waiting 1 ≡ ((waiting.cpus 1).current_thread, waiting))
    ⊎ ((t : ℕ) × ((choose waiting 1).0 ≡ some t) × Claims (choose waiting 1).1 1 t)
choose_lem_example = choose_lem waiting 1 waiting-IsValid idle-unqueued

choose-Allowed : Allowed waiting (chooses 1)
unfolding Allowed
choose-Allowed = idle-unqueued

step-IsValid_example : IsValid (step waiting (chooses 1))
step-IsValid_example = step-IsValid waiting (chooses 1) waiting-IsValid choose-Allowed
