-- ===== src/Scheduler/Dispatch/Valid.antt =====
-- The invariant of the run queues of src/kernel/scheduler/dispatch.cpp: every thread of a queue belongs
-- there, the queues are counted, and no thread stands twice in a queue.
use rucux.Base.{
  ℕ, ◌+◌, ◌<◌, ◌≡◌, ◌≢◌, sym, true, false, inl, inr, none, List, [], ◌∷◌, ◌++◌, arith, ◌==◌,
  if◌then◌else◌, length, All, Bool-cases, subst, ==→eq,
}
use rucux.Scheduler.Dispatch.{Thread, Machine, num_prios, set_thread, is_ready}

-- A thread of queue `k` of processor `c`.
abbrev pub NodeOk : (ℕ → Thread) → ℕ → ℕ → ℕ → Type 0
NodeOk threads c k t =
    ((threads t).run_queued ≡ true)
    × ((threads t).dispatch_cpu ≡ none)
    × ((threads t).last_cpu ≡ c)
    × ((threads t).priority ≡ k)
    × (is_ready (threads t).state ≡ true)

abbrev pub NoDup : List ℕ → Type 0
NoDup [] = Unit {0}
NoDup (x ∷ xs) = All (λ y. x ≢ y) xs × NoDup xs

pub record IsValid (m : Machine) : Type 0 where
  pub priorities : (t : ℕ) → (m.threads t).priority < num_prios
  pub nodes : (c k : ℕ) → All (NodeOk m.threads c k) ((m.cpus c).queues k)
  pub once : (c k : ℕ) → NoDup ((m.cpus c).queues k)
  pub counted :
      (c : ℕ)
      → (m.cpus c).total_runnable
        ≡ length ((m.cpus c).queues 0) + length ((m.cpus c).queues 1) + length ((m.cpus c).queues 2)

pub All-map : (P Q : ℕ → Type 0) (xs : List ℕ) → ((x : ℕ) → P x → Q x) → All P xs → All Q xs
All-map P Q [] f h = tt
All-map P Q (x ∷ xs) f h = (f x h.0, All-map P Q xs f h.1)

pub All-append : (P : ℕ → Type 0) (xs : List ℕ) (y : ℕ) → All P xs → P y → All P (xs ++ y ∷ [])
All-append P [] y h p = (p, tt)
All-append P (x ∷ xs) y h p = (h.0, All-append P xs y h.1 p)

pub NoDup-append : (xs : List ℕ) (y : ℕ) → NoDup xs → All (λ x. x ≢ y) xs → NoDup (xs ++ y ∷ [])
NoDup-append [] y d h = (tt, tt)
NoDup-append (x ∷ xs) y d h = (All-append (λ z. x ≢ z) xs y d.0 h.0, NoDup-append xs y d.1 h.1)

-- A thread that is not queued may change without a queue noticing.
pub NodeOk-frame :
    (threads : ℕ → Thread) (c k t x : ℕ) (v : Thread)
    → (threads t).run_queued ≡ false
    → NodeOk threads c k x
    → NodeOk (λ y. if y == t then v else threads y) c k x
NodeOk-frame threads c k t x v out ok = elim (Bool-cases (x == t)) [
  | inl e ↦
      let queued : (threads t).run_queued ≡ true =
        subst (λ y. (threads y).run_queued ≡ true) (==→eq x t e) ok.0 in
      absurd (ground arith)
  | inr e ↦
      let same : (if x == t then v else threads x) ≡ threads x = ground arith in
      subst
        (λ (o : Thread).
          (o.run_queued ≡ true)
          × (o.dispatch_cpu ≡ none)
          × (o.last_cpu ≡ c)
          × (o.priority ≡ k)
          × (is_ready o.state ≡ true))
        (sym same) ok
]

pub set_thread-IsValid :
    (m : Machine) (t : ℕ) (v : Thread)
    → IsValid m
    → (m.threads t).run_queued ≡ false
    → v.priority ≡ (m.threads t).priority
    → IsValid (set_thread m t v)
set_thread-IsValid m t v ok out same = record {
  priorities = λ x. ground (arith, ok.priorities x, ok.priorities t);
  nodes = λ c k.
      All-map (NodeOk m.threads c k) (NodeOk (set_thread m t v).threads c k) ((m.cpus c).queues k)
        (λ x. NodeOk-frame m.threads c k t x v out) (ok.nodes c k);
  once = ok.once;
  counted = ok.counted;
}
