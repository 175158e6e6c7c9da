-- ===== src/Sync/Futex/Leave.antt =====
-- A waiter of src/kernel/sync/futex.cpp lies on the stack of its thread, so it has to leave the table
-- before futex_wait returns.
use rucux.Base.{
  ℕ, ◌≡◌, ◌≢◌, sym, ap, subst, false, List, [], ◌∷◌, ◌==◌, arith, Bool-cases, All, inl, inr, Option,
  some, Option-cases, ==→eq, ==_self,
}
use rucux.Process.Signal.{Thread}
use rucux.Sync.Futex.{
  Waiter, Futex, futex_hash, wait_begin, begin_interruptible_wait, unlink, wait_end, wake_loop,
  futex_wake, put,
}
use rucux.Sync.Futex.Absent.{
  Absent, Once, unlink-Absent, unlink-Once, unlink_gone, kept-Absent, kept-Once,
}

-- What other threads do meanwhile: they wait, go on and wake, and memory changes.
pub data Op : Type 0 where
  begins : ℕ → ℕ → ℕ → ℕ → Op
  ends : ℕ → ℕ → ℕ → Op
  wakes : ℕ → ℕ → ℕ → Op
  writes : (ℕ → ℕ → Option ℕ) → Op

unfoldable pub step : Futex → Op → Futex
step s (begins t addr_space addr val) = (wait_begin s t addr_space addr val).1
step s (ends t addr_space addr) = (wait_end s t addr_space addr).1
step s (wakes addr_space addr count) = (futex_wake s addr_space addr count).1
step s (writes memory) = record s { memory = memory }

unfoldable pub run : Futex → List Op → Futex
run s [] = s
run s (o ∷ os) = run (step s o) os

-- The operation is none of thread `t`.
abbrev pub Other : ℕ → Op → Type 0
Other t (begins u addr_space addr val) = u ≢ t
Other t (ends u addr_space addr) = u ≢ t
Other t (wakes addr_space addr count) = Unit
Other t (writes memory) = Unit

-- The thread waits in bucket `i` at most, and once.
record Placed (t i : ℕ) (table : ℕ → List Waiter) : Type 0 where
  pub here : Once t (table i)
  pub nowhere : (j : ℕ) → j ≢ i → Absent t (table j)

Placed-put :
    (t i k : ℕ) (table : ℕ → List Waiter) (ws : List Waiter)
    → (Once t (table k) → Once t ws)
    → (Absent t (table k) → Absent t ws)
    → Placed t i table
    → Placed t i (put table k ws)
Placed-put t i k table ws once absent p = record {
  here = elim (Bool-cases (i == k)) [
    | inl same ↦ rw same (once (subst (λ x. Once t (table x)) (==→eq i k same) p.here))
    | inr other ↦ rw other p.here
  ];
  nowhere = λ j apart. elim (Bool-cases (j == k)) [
    | inl same ↦
        rw same (absent (subst (λ x. Absent t (table x)) (==→eq j k same) (p.nowhere j apart)))
    | inr other ↦ rw other (p.nowhere j apart)
  ];
}

apart_test : (u t : ℕ) → u ≢ t → (u == t) ≡ false
apart_test u t apart = ground arith

-- The state in which thread `u` sleeps.
abbrev enrolled_in : Futex → ℕ → ℕ → ℕ → Thread → Futex
enrolled_in s u addr_space addr blocked =
    let k : ℕ = futex_hash addr_space addr in
    record s {
      threads = put s.threads u blocked;
      table =
          put s.table k (record { thread = u; addr = addr; addr_space = addr_space } ∷ s.table k);
    }

-- The two ways that futex_wait begins.
data Begun (s : Futex) (u addr_space addr val : ℕ) (r : ℕ × Futex) : Type 0 where
  fails : r.0 ≢ 0 → r.1 ≡ s → Begun s u addr_space addr val r
  enrolls :
      (blocked : Thread)
      → s.memory addr_space addr ≡ some val
      → r ≡ (0, enrolled_in s u addr_space addr blocked)
      → Begun s u addr_space addr val r

wait_begin_cases :
    (s : Futex) (u addr_space addr val : ℕ)
    → Begun s u addr_space addr val (wait_begin s u addr_space addr val)
unfolding wait_begin
wait_begin_cases s u addr_space addr val = elim (Option-cases (s.memory addr_space addr)) [
  | inl e ↦ fails (ground arith) (ground arith)
  | inr (observed, e) ↦ elim (Bool-cases (observed == val)) [
    | inr differs ↦ fails (ground arith) (ground arith)
    | inl same ↦ elim (Option-cases (begin_interruptible_wait (s.threads u))) [
      | inl f ↦ fails (ground arith) (ground arith)
      | inr (blocked, f) ↦ enrolls blocked (ground arith) (ground arith)
    ]
  ]
]

enrolled-Placed :
    (t i : ℕ) (s : Futex) (u addr_space addr : ℕ) (blocked : Thread)
    → u ≢ t
    → Placed t i s.table
    → Placed t i (enrolled_in s u addr_space addr blocked).table
enrolled-Placed t i s u addr_space addr blocked apart p =
    let k : ℕ = futex_hash addr_space addr in
    let w : Waiter = record { thread = u; addr = addr; addr_space = addr_space } in
    Placed-put t i k s.table (w ∷ s.table k) (λ once. rw (apart_test u t apart) once)
      (λ absent. (apart, absent)) p

begin-Placed :
    (t i : ℕ) (s : Futex) (u addr_space addr val : ℕ)
    → u ≢ t
    → Placed t i s.table
    → Placed t i (wait_begin s u addr_space addr val).1.table
begin-Placed t i s u addr_space addr val apart p = elim (wait_begin_cases s u addr_space addr val) [
  | fails bad same ↦ subst (λ (x : Futex). Placed t i x.table) (sym same) p
  | enrolls blocked value e ↦
      subst (λ (r : ℕ × Futex). Placed t i r.1.table) (sym e)
        (enrolled-Placed t i s u addr_space addr blocked apart p)
]

step-Placed :
    (t i : ℕ) (s : Futex) (o : Op) → Other t o → Placed t i s.table → Placed t i (step s o).table
unfolding step wait_end futex_wake
step-Placed t i s (begins u addr_space addr val) apart p =
    begin-Placed t i s u addr_space addr val apart p
step-Placed t i s (ends u addr_space addr) apart p =
    let k : ℕ = futex_hash addr_space addr in
    Placed-put t i k s.table (unlink u (s.table k)) (unlink-Once t u (s.table k))
      (unlink-Absent t u (s.table k)) p
step-Placed t i s (wakes addr_space addr count) other p =
    let k : ℕ = futex_hash addr_space addr in
    Placed-put t i k s.table (wake_loop addr_space addr (s.table k) count).1
      (kept-Once t addr_space addr (s.table k) count)
      (kept-Absent t addr_space addr (s.table k) count) p
step-Placed t i s (writes memory) other p = p

run-Placed :
    (t i : ℕ) (s : Futex) (os : List Op)
    → All (Other t) os
    → Placed t i s.table
    → Placed t i (run s os).table
unfolding run
run-Placed t i s [] others p = p
run-Placed t i s (o ∷ os) (other, others) p =
    run-Placed t i (step s o) os others (step-Placed t i s o other p)

own_Placed :
    (s : Futex) (t addr_space addr : ℕ) (blocked : Thread)
    → ((i : ℕ) → Absent t (s.table i))
    → Placed t (futex_hash addr_space addr) (enrolled_in s t addr_space addr blocked).table
own_Placed s t addr_space addr blocked absent =
    let k : ℕ = futex_hash addr_space addr in
    record {
      here = rw (==_self k, ==_self t) (absent k);
      nowhere = λ i apart. rw (apart_test i k apart) (absent i);
    }

own_end :
    (s : Futex) (t addr_space addr : ℕ) (os : List Op) (j : ℕ)
    → Placed t (futex_hash addr_space addr) s.table
    → All (Other t) os
    → Absent t ((wait_end (run s os) t addr_space addr).1.table j)
unfolding wait_end
own_end s t addr_space addr os j p others =
    let k : ℕ = futex_hash addr_space addr in
    let q : Placed t k (run s os).table = run-Placed t k s os others p in
    elim (Bool-cases (j == k)) [
      | inl same ↦ rw same (unlink_gone t ((run s os).table k) q.here)
      | inr other ↦ rw other (q.nowhere j (λ e. absurd (ground arith)))
    ]

-- How a call of futex_wait goes: it is refused and changes nothing, or it sleeps while the word holds
-- the value expected, and after it has gone on no bucket `j` holds its waiter.
pub data Waits (s : Futex) (t addr_space addr val : ℕ) (os : List Op) (j : ℕ) (r : ℕ × Futex)
    : Type 0 where
  refused : r.0 ≢ 0 → r.1 ≡ s → Waits s t addr_space addr val os j r
  slept :
      r.0 ≡ 0
      → s.memory addr_space addr ≡ some val
      → Absent t ((wait_end (run r.1 os) t addr_space addr).1.table j)
      → Waits s t addr_space addr val os j r

-- A futex_wait by a thread that waits nowhere is either refused, with nothing changed, or it sleeps,
-- which it does only while the word holds the value expected. After it has gone on, whatever other
-- threads did meanwhile, woken or not, no waiter of its stack is left in the table.
pub wait-Absent :
    (s : Futex) (t addr_space addr val : ℕ) (os : List Op) (j : ℕ)
    → ((i : ℕ) → Absent t (s.table i))
    → All (Other t) os
    → Waits s t addr_space addr val os j (wait_begin s t addr_space addr val)
wait-Absent s t addr_space addr val os j absent others =
    elim (wait_begin_cases s t addr_space addr val) [
      | fails bad same ↦ refused bad same
      | enrolls blocked value e ↦ slept (ap (λ (r : ℕ × Futex). r.0) e) value (
          subst (λ (r : ℕ × Futex). Absent t ((wait_end (run r.1 os) t addr_space addr).1.table j))
            (sym e)
            (own_end (enrolled_in s t addr_space addr blocked) t addr_space addr os j
              (own_Placed s t addr_space addr blocked absent) others))
    ]
