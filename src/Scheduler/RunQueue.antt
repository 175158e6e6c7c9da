-- ===== src/Scheduler/RunQueue.antt =====
-- kernel::cpu::run_queue of src/kernel/scheduler/dispatch.cpp: a queue linked through thread::next. A
-- pointer is a number or, when null, `none`; the links of all threads are one function.
pub mod Refines
mod Tests
use rucux.Base.{ℕ, ◌+◌, ◌-◌, Option, none, some, ◌==◌, if◌then◌else◌}

pub record RunQueue : Type 0 where
  pub head : Option ℕ
  pub tail : Option ℕ
  pub count : ℕ

abbrev pub Links : Type 0
Links = ℕ → Option ℕ

abbrev pub link : Links → ℕ → Option ℕ → Links
link next t v = λ x. if x == t then v else next x

unfoldable pub init : RunQueue
init = record { head = none; tail = none; count = 0 }

unfoldable pub enqueue : Links → RunQueue → ℕ → Links × RunQueue
enqueue next q t =
    let cleared = link next t none in
    elim q.tail [
      | none ↦ (cleared, record { head = some t; tail = some t; count = q.count + 1 })
      | some last ↦
          (link cleared last (some t), record { head = q.head; tail = some t; count = q.count + 1 })
    ]

-- The thread, the links and the queue afterwards.
unfoldable pub dequeue : Links → RunQueue → Option ℕ × Links × RunQueue
dequeue next q = elim q.head [
  | none ↦ (none, next, q)
  | some t ↦ (
    some t,
    link next t none,
    record {
      head = next t;
      tail = elim (next t) [ none ↦ none | some _ ↦ q.tail ];
      count = q.count - 1;
    },
  )
]
