-- ===== src/Scheduler/Dispatch/Steps.antt =====
-- Sequences of the operations of src/kernel/scheduler/dispatch.cpp.
use rucux.Base.{
  ℕ, ◌≡◌, refl, ap, sym, ◌∙◌, Bool, true, false, ◌⊎◌, inl, inr, Option, none, some, List, arith,
  ◌==◌, if◌then◌else◌, All, Bool-cases, Option-cases, subst, ==→eq,
}
use rucux.Scheduler.Dispatch.{
  ready, running, Thread, Cpu, Machine, set_thread, set_cpu, is_ready, is_running, queue_locked,
  peek, take, enqueue, source_of, keeps, choose, release_candidate, outgoing, same_thread,
  prepare_switch, finish_switch,
}
use rucux.Scheduler.Dispatch.Valid.{NodeOk, NoDup, IsValid, All-map, set_thread-IsValid}
use rucux.Scheduler.Dispatch.Queued.{queue_locked-IsValid, enqueue-IsValid}
use rucux.Scheduler.Dispatch.Claimed.{Claims, take-Claims}

abbrev QueuedAt : Thread → ℕ → ℕ → Type 0
QueuedAt o c k =
    (o.run_queued ≡ true)
    × (o.dispatch_cpu ≡ none)
    × (o.last_cpu ≡ c)
    × (o.priority ≡ k)
    × (is_ready o.state ≡ true)

-- A thread may change so that, if it is queued, it stays as its queue wants it.
set_thread_kept :
    (m : Machine) (t : ℕ) (v : Thread)
    → IsValid m
    → v.priority ≡ (m.threads t).priority
    → ((c k : ℕ) → QueuedAt (m.threads t) c k → QueuedAt v c k)
    → IsValid (set_thread m t v)
set_thread_kept m t v ok same keep = record {
  priorities = λ x. ground (arith, ok.priorities x, ok.priorities t);
  nodes = λ c k.
      All-map (NodeOk m.threads c k) (NodeOk (set_thread m t v).threads c k) ((m.cpus c).queues k)
        (λ x h. elim (Bool-cases (x == t)) [
          | inl e ↦
              let is : (set_thread m t v).threads x ≡ v = ground arith in
              subst (λ (o : Thread). QueuedAt o c k) (sym is)
                (keep c k (subst (λ (y : ℕ). QueuedAt (m.threads y) c k) (==→eq x t e) h))
          | inr e ↦
              let is : (set_thread m t v).threads x ≡ m.threads x = ground arith in
              subst (λ (o : Thread). QueuedAt o c k) (sym is) h
        ])
        (ok.nodes c k);
  once = ok.once;
  counted = ok.counted;
}

release_candidate-IsValid :
    (m : Machine) (owner : ℕ) → IsValid m → IsValid (release_candidate m owner)
unfolding release_candidate
release_candidate-IsValid m owner ok =
    set_thread_kept m owner (record (m.threads owner) { dispatch_cpu = none }) ok refl
      (λ c k h. (h.0, refl, h.2, h.3, h.4))

outgoing-IsValid : (m : Machine) (old : Option ℕ) → IsValid m → IsValid (outgoing m old)
unfolding outgoing
outgoing-IsValid m none ok = ok
outgoing-IsValid m (some old) ok = elim (Bool-cases (is_running (m.threads old).state)) [
  | inr e ↦ let result : outgoing m (some old) ≡ m = ground arith in subst IsValid (sym result) ok
  | inl e ↦
      let v : Thread = record (m.threads old) { state = ready } in
      let result : outgoing m (some old) ≡ set_thread m old v = ground arith in
      subst IsValid (sym result)
        (set_thread_kept m old v ok refl (λ c k h. (h.0, h.1, h.2, h.3, refl)))
]

-- The queues and their counts do not depend on which thread runs.
same_queues :
    (m : Machine) (c : ℕ) (p : Cpu)
    → IsValid m
    → p.queues ≡ (m.cpus c).queues
    → p.total_runnable ≡ (m.cpus c).total_runnable
    → IsValid (set_cpu m c p)
same_queues m c p ok q t =
    let queues_at : (c' k : ℕ) → ((set_cpu m c p).cpus c').queues k ≡ (m.cpus c').queues k = λ c' k.
      elim (Bool-cases (c' == c)) [
        | inl e ↦
            let at : (set_cpu m c p).cpus c' ≡ p = ground arith in
            ap (λ (x : Cpu). x.queues k) at
            ∙ ap (λ (f : ℕ → List ℕ). f k) q
            ∙ ap (λ (x : ℕ). (m.cpus x).queues k) (sym (==→eq c' c e))
        | inr e ↦
            let at : (set_cpu m c p).cpus c' ≡ m.cpus c' = ground arith in
            ap (λ (x : Cpu). x.queues k) at
      ] in
    record {
      priorities = ok.priorities;
      nodes = λ c' k. subst (All (NodeOk m.threads c' k)) (sym (queues_at c' k)) (ok.nodes c' k);
      once = λ c' k. subst NoDup (sym (queues_at c' k)) (ok.once c' k);
      counted = λ c'.
          ground
            (arith, ok.counted c', ok.counted c, queues_at c' 0, queues_at c' 1, queues_at c' 2);
    }

finish_switch-IsValid : (m : Machine) (c : ℕ) → IsValid m → IsValid (finish_switch m c)
unfolding finish_switch
finish_switch-IsValid m c ok =
    let m' = set_cpu m c (record (m.cpus c) { switching_from = none }) in
    let ok' : IsValid m' =
      same_queues m c (record (m.cpus c) { switching_from = none }) ok refl refl in
    elim (Option-cases (m.cpus c).switching_from) [
      | inl e ↦ let result : finish_switch m c ≡ m' = ground arith in subst IsValid (sym result) ok'
      | inr (old, e) ↦
          let v : Thread = record (m.threads old) { dispatch_cpu = none } in
          let m'' = set_thread m' old v in
          let ok'' : IsValid m'' =
            set_thread_kept m' old v ok' refl (λ c k h. (h.0, refl, h.2, h.3, h.4)) in
          elim (Bool-cases (is_ready (m.threads old).state)) [
            | inl is ↦
                let result : finish_switch m c ≡ queue_locked m'' old c = ground arith in
                subst IsValid (sym result) (queue_locked-IsValid m'' old c ok'' (ground arith))
            | inr is ↦
                let result : finish_switch m c ≡ m'' = ground arith in
                subst IsValid (sym result) ok''
          ]
    ]

outgoing-unqueued :
    (m : Machine) (old : Option ℕ) (t : ℕ)
    → ((outgoing m old).threads t).run_queued ≡ (m.threads t).run_queued
unfolding outgoing
outgoing-unqueued m none t = refl
outgoing-unqueued m (some old) t = ground (arith, ap (λ (x : ℕ). (m.threads x).run_queued))

outgoing-cpus : (m : Machine) (old : Option ℕ) → (outgoing m old).cpus ≡ m.cpus
unfolding outgoing
outgoing-cpus m none = refl
outgoing-cpus m (some old) = ground arith

-- What prepare_switch has before the next thread is marked; `b` says that it is the current one.
before_next :
    (m : Machine) (old : Option ℕ) (t : ℕ) (b : Bool)
    → IsValid m
    → (m.threads t).run_queued ≡ false
    → IsValid (if b then m else outgoing m old)
      × (((if b then m else outgoing m old).threads t).run_queued ≡ false)
      × ((if b then m else outgoing m old).cpus ≡ m.cpus)
before_next m old t true ok out = (ok, out, refl)
before_next m old t false ok out =
    (outgoing-IsValid m old ok, outgoing-unqueued m old t ∙ out, outgoing-cpus m old)

prepare_switch-IsValid :
    (m : Machine) (c next : ℕ)
    → IsValid m
    → (m.threads next).run_queued ≡ false
    → IsValid (prepare_switch m c next)
unfolding prepare_switch
prepare_switch-IsValid m c next ok out =
    let old = (m.cpus c).current_thread in
    let same = same_thread old next in
    let m' = if same then m else outgoing m old in
    let (ok', out', cpus) = before_next m old next same ok out in
    let v : Thread = record (m'.threads next) { state = running; last_cpu = c } in
    same_queues (set_thread m' next v) c
      (record (m.cpus c) {
        current_thread = some next;
        switching_from = if same then (m.cpus c).switching_from else old;
      })
      (set_thread-IsValid m' next v ok' out' refl) (ap (λ (f : ℕ → Cpu). (f c).queues) (sym cpus))
      (ap (λ (f : ℕ → Cpu). (f c).total_runnable) (sym cpus))

-- choose lets the current thread of a processor go on, and then it changes nothing, or it gives a
-- thread that is in no queue and that the processor has claimed, and the queues stay valid. The idle
-- thread of the processor is assumed to be in no queue.
pub choose_lem :
    (m : Machine) (c : ℕ)
    → IsValid m
    → (m.threads (m.cpus c).idle_thread).run_queued ≡ false
    → (choose m c ≡ ((m.cpus c).current_thread, m))
      ⊎ ((t : ℕ) × ((choose m c).0 ≡ some t) × Claims (choose m c).1 c t)
unfolding choose
choose_lem m c ok idle =
    let p = m.cpus c in
    let source = source_of m c in
    let next = peek (m.cpus source) in
    elim (Bool-cases (keeps m p.current_thread next)) [
      | inl e ↦ inl (ground arith)
      | inr e ↦ elim (Option-cases next) [
        | inl z ↦
            let v : Thread = record (m.threads p.idle_thread) { dispatch_cpu = some c } in
            let m' = set_thread m p.idle_thread v in
            let result : choose m c ≡ (some p.idle_thread, m') = ground arith in
            inr (
              p.idle_thread,
              ap (λ r. r.0) result,
              subst (λ (r : Option ℕ × Machine). Claims r.1 c p.idle_thread) (sym result)
                  (record {
                    valid = set_thread-IsValid m p.idle_thread v ok idle refl;
                    unqueued = ground (arith, idle);
                    claimed = ground arith;
                  }),
            )
        | inr (t, z) ↦
            let result : choose m c ≡ take m source c = ground arith in
            let (given, claims) = take-Claims m source c t ok z in
            inr (
              t,
              ap (λ r. r.0) result ∙ given,
              subst (λ (r : Option ℕ × Machine). Claims r.1 c t) (sym result) claims,
            )
      ]
    ]

pub data Op : Type 0 where
  enqueues : ℕ → Op
  chooses : ℕ → Op
  releases : ℕ → Op
  prepares : ℕ → ℕ → Op
  finishes : ℕ → Op

unfoldable pub step : Machine → Op → Machine
unfolding enqueue choose release_candidate prepare_switch finish_switch
step m (enqueues t) = enqueue m t
step m (chooses c) = (choose m c).1
step m (releases t) = release_candidate m t
step m (prepares c t) = prepare_switch m c t
step m (finishes c) = finish_switch m c

-- What the scheduler sees to: the thread that is switched to, and an idle thread, are in no queue.
unfoldable pub Allowed : Machine → Op → Type 0
Allowed m (enqueues t) = Unit
Allowed m (chooses c) = (m.threads (m.cpus c).idle_thread).run_queued ≡ false
Allowed m (releases t) = Unit
Allowed m (prepares c t) = (m.threads t).run_queued ≡ false
Allowed m (finishes c) = Unit

-- Every dispatch operation keeps the run queues valid: each queued thread is ready, on no processor,
-- marked with its queue's processor and priority and in no queue twice, and the counts agree. It is
-- assumed that a thread that is switched to, and an idle thread when a thread is chosen, are in no
-- queue.
pub step-IsValid : (m : Machine) (o : Op) → IsValid m → Allowed m o → IsValid (step m o)
unfolding step Allowed
step-IsValid m (enqueues t) ok h = enqueue-IsValid m t ok
step-IsValid m (chooses c) ok h = elim (choose_lem m c ok h) [
  | inl e ↦ subst (λ (r : Option ℕ × Machine). IsValid r.1) (sym e) ok
  | inr (t, e, claims) ↦ claims.valid
]
step-IsValid m (releases t) ok h = release_candidate-IsValid m t ok
step-IsValid m (prepares c t) ok h = prepare_switch-IsValid m c t ok h
step-IsValid m (finishes c) ok h = finish_switch-IsValid m c ok
