-- ===== src/Scheduler/Dispatch.antt =====
-- src/kernel/scheduler/dispatch.cpp and the fields of src/include/kernel/scheduler/scheduler.hpp and
-- src/include/kernel/cpu/percpu.hpp that it uses. A thread pointer is a number, a run queue is the list
-- of its threads from the head on, and its count is the length of that list. All operations run under
-- the dispatch lock, so each is one step. NO_CPU is `none`.
pub mod Valid
pub mod Queued
pub mod Claimed
pub mod Steps
mod Tests
use rucux.Base.{
  ℕ, zero, suc, ◌+◌, ◌-◌, Bool, true, false, ◌&&◌, ◌||◌, not, Option, none, some, List, [], ◌∷◌,
  ◌++◌, ltb, leb, ◌==◌, if◌then◌else◌, length,
}

pub data ThreadState : Type 0 where
  ready : ThreadState
  running : ThreadState
  blocked : ThreadState
  terminated : ThreadState

pub record Thread : Type 0 where
  pub state : ThreadState
  pub priority : ℕ
  pub last_cpu : ℕ
  pub run_queued : Bool
  pub dispatch_cpu : Option ℕ
  pub pins : ℕ

abbrev pub num_prios : ℕ
num_prios = 3

-- `queues` gives the run queue of each priority.
pub record Cpu : Type 0 where
  pub current_thread : Option ℕ
  pub idle_thread : ℕ
  pub online : Bool
  pub queues : ℕ → List ℕ
  pub total_runnable : ℕ
  pub switching_from : Option ℕ

pub record Machine : Type 0 where
  pub threads : ℕ → Thread
  pub cpus : ℕ → Cpu
  pub cpu_count : ℕ

abbrev pub set_thread : Machine → ℕ → Thread → Machine
set_thread m t v = record m { threads = λ x. if x == t then v else m.threads x }

abbrev pub set_cpu : Machine → ℕ → Cpu → Machine
set_cpu m c v = record m { cpus = λ x. if x == c then v else m.cpus x }

abbrev pub set_queue : (ℕ → List ℕ) → ℕ → List ℕ → ℕ → List ℕ
set_queue queues k q = λ x. if x == k then q else queues x

abbrev pub is_ready : ThreadState → Bool
is_ready ready = true
is_ready running = false
is_ready blocked = false
is_ready terminated = false

abbrev pub is_running : ThreadState → Bool
is_running ready = false
is_running running = true
is_running blocked = false
is_running terminated = false

abbrev pub is_terminated : ThreadState → Bool
is_terminated ready = false
is_terminated running = false
is_terminated blocked = false
is_terminated terminated = true

abbrev pub has_cpu : Option ℕ → Bool
has_cpu none = false
has_cpu (some c) = true

unfoldable pub queue_locked : Machine → ℕ → ℕ → Machine
queue_locked m owner c =
    let o = m.threads owner in
    let p = m.cpus c in
    if o.run_queued || has_cpu o.dispatch_cpu || owner == p.idle_thread
    then m
    else set_cpu (set_thread m owner (record o { last_cpu = c; run_queued = true })) c (record p {
      queues = set_queue p.queues o.priority (p.queues o.priority ++ owner ∷ []);
      total_runnable = p.total_runnable + 1;
    })

-- The priority of the first queue from `k` on that is not empty; `n` queues are left.
unfoldable pub first_queue : ℕ → (ℕ → List ℕ) → ℕ → Option ℕ
first_queue zero queues k = none
first_queue (suc n) queues k = elim (queues k) [
  | [] ↦ first_queue n queues (k + 1)
  | _ ∷ _ ↦ some k
]

abbrev pub head : List ℕ → Option ℕ
head [] = none
head (t ∷ _) = some t

unfoldable pub peek : Cpu → Option ℕ
peek p = elim (first_queue num_prios p.queues 0) [ none ↦ none | some k ↦ head (p.queues k) ]

-- The thread at the head of queue `k` leaves it and is claimed.
unfoldable pub claim : Machine → ℕ → ℕ → ℕ → List ℕ → ℕ → Machine
claim m source k next rest destination =
    let p = m.cpus source in
    set_thread
      (set_cpu m source
        (record p { queues = set_queue p.queues k rest; total_runnable = p.total_runnable - 1 }))
      next
      (record (m.threads next) {
        run_queued = false;
        dispatch_cpu = some destination;
        last_cpu = destination;
      })

unfoldable pub take : Machine → ℕ → ℕ → Option ℕ × Machine
take m source destination = elim (first_queue num_prios (m.cpus source).queues 0) [
  | none ↦ (none, m)
  | some k ↦ elim ((m.cpus source).queues k) [
    | [] ↦ (none, m)
    | next ∷ rest ↦ (some next, claim m source k next rest destination)
  ]
]

-- A blocked thread becomes ready: the compare-and-exchange of enqueue succeeds under the lock.
abbrev pub woken : ThreadState → ThreadState
woken ready = ready
woken running = running
woken blocked = ready
woken terminated = terminated

abbrev pub waken : Thread → Thread
waken o = record o { state = woken o.state }

unfoldable pub enqueue : Machine → ℕ → Machine
enqueue m owner =
    let o = m.threads owner in
    if is_terminated o.state || is_running o.state
    then m
    else queue_locked (set_thread m owner (waken o)) owner
        (if leb m.cpu_count o.last_cpu then 0 else o.last_cpu)

-- The search of choose for the processor with the largest load; `n` processors are left.
unfoldable pub busiest : ℕ → Machine → ℕ → ℕ → ℕ → ℕ → ℕ
busiest zero m c id source load = source
busiest (suc n) m c id source load =
    let other = m.cpus id in
    let better = not (id == c) && other.online && ltb load other.total_runnable in
    busiest n m c (id + 1) (if better then id else source)
      (if better then other.total_runnable else load)

-- Where the next thread comes from.
unfoldable pub source_of : Machine → ℕ → ℕ
source_of m c = elim (peek (m.cpus c)) [ none ↦ busiest m.cpu_count m c 0 c 0 | some _ ↦ c ]

-- Does the current thread go on, in the face of the next one?
unfoldable pub keeps : Machine → Option ℕ → Option ℕ → Bool
keeps m none next = false
keeps m (some t) next =
    (is_running (m.threads t).state || is_ready (m.threads t).state)
    && elim next [ none ↦ true | some u ↦ ltb (m.threads t).priority (m.threads u).priority ]

unfoldable pub choose : Machine → ℕ → Option ℕ × Machine
choose m c =
    let p = m.cpus c in
    let source = source_of m c in
    let next = peek (m.cpus source) in
    if keeps m p.current_thread next
    then (p.current_thread, m)
    else if has_cpu next
    then take m source c
    else (
      some p.idle_thread,
      set_thread m p.idle_thread (record (m.threads p.idle_thread) { dispatch_cpu = some c }),
    )

unfoldable pub release_candidate : Machine → ℕ → Machine
release_candidate m owner = set_thread m owner (record (m.threads owner) { dispatch_cpu = none })

-- The outgoing thread becomes ready if it was running.
unfoldable pub outgoing : Machine → Option ℕ → Machine
outgoing m none = m
outgoing m (some old) =
    if is_running (m.threads old).state
    then set_thread m old (record (m.threads old) { state = ready })
    else m

abbrev same_thread : Option ℕ → ℕ → Bool
same_thread none next = false
same_thread (some old) next = old == next

unfoldable pub prepare_switch : Machine → ℕ → ℕ → Machine
unfolding outgoing
prepare_switch m c next =
    let old = (m.cpus c).current_thread in
    let same = same_thread old next in
    let m' = if same then m else outgoing m old in
    set_cpu (set_thread m' next (record (m'.threads next) { state = running; last_cpu = c })) c
      (record (m.cpus c) {
        current_thread = some next;
        switching_from = if same then (m.cpus c).switching_from else old;
      })

unfoldable pub finish_switch : Machine → ℕ → Machine
finish_switch m c =
    let m' = set_cpu m c (record (m.cpus c) { switching_from = none }) in
    elim (m.cpus c).switching_from [
      | none ↦ m'
      | some old ↦
          let m'' = set_thread m' old (record (m.threads old) { dispatch_cpu = none }) in
          if is_ready (m.threads old).state then queue_locked m'' old c else m''
    ]

unfoldable pub reclaimable : Machine → ℕ → Bool
reclaimable m owner =
    let o = m.threads owner in
    is_terminated o.state && not (has_cpu o.dispatch_cpu) && not o.run_queued && o.pins == 0

unfoldable pub cpu_of : Machine → ℕ → ℕ
cpu_of m owner = (m.threads owner).last_cpu
