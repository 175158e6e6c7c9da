-- ===== src/Scheduler/Dispatch/Claimed.antt =====
-- The run queues under take and choose of src/kernel/scheduler/dispatch.cpp.
use rucux.Base.{
  ℕ, suc, ◌+◌, ◌-◌, ◌<◌, ◌≡◌, ◌≢◌, ap, sym, ◌∙◌, true, false, ◌⊎◌, inl, inr, Option, none, some,
  List, [], ◌∷◌, arith, ◌==◌, if◌then◌else◌, length, All, Option-cases, List-cases, subst,
}
use rucux.Scheduler.Dispatch.{
  Thread, Machine, num_prios, set_thread, is_ready, first_queue, peek, claim, take,
}
use rucux.Scheduler.Dispatch.Valid.{NodeOk, NoDup, IsValid, All-map}
use rucux.Scheduler.Dispatch.Queued.{with_queue, queues-all}

All-both :
    (P Q R : ℕ → Type 0) (xs : List ℕ)
    → ((x : ℕ) → P x → Q x → R x)
    → All P xs
    → All Q xs
    → All R xs
All-both P Q R [] f p q = tt
All-both P Q R (x ∷ xs) f p q = (f x p.0 q.0, All-both P Q R xs f p.1 q.1)

-- A thread other than the one that changes.
NodeOk-other :
    (threads : ℕ → Thread) (c k t x : ℕ) (v : Thread)
    → t ≢ x
    → NodeOk threads c k x
    → NodeOk (λ y. if y == t then v else threads y) c k x
NodeOk-other threads c k t x v ne ok =
    let same : (if x == t then v else threads x) ≡ threads x = ground arith in
    subst
      (λ (o : Thread).
        (o.run_queued ≡ true)
        × (o.dispatch_cpu ≡ none)
        × (o.last_cpu ≡ c)
        × (o.priority ≡ k)
        × (is_ready o.state ≡ true))
      (sym same) ok

module _ (m : Machine) (source k next : ℕ) (rest : List ℕ) (dest : ℕ) (ok : IsValid m)
    (first : (m.cpus source).queues k ≡ next ∷ rest) where
  abbrev claimed : Thread
  claimed = record (m.threads next) {
    run_queued = false;
    dispatch_cpu = some dest;
    last_cpu = dest;
  }

  abbrev shorter : Machine
  shorter = with_queue m source k rest ((m.cpus source).total_runnable - 1)

  in_queue : All (NodeOk m.threads source k) (next ∷ rest)
  in_queue = subst (All (NodeOk m.threads source k)) first (ok.nodes source k)

  all_once : NoDup (next ∷ rest)
  all_once = subst NoDup first (ok.once source k)

  below : k < num_prios
  below = ground (arith, ok.priorities next, in_queue.0.3)

  -- No other queue has the thread that is claimed.
  elsewhere : (c' k' x : ℕ) → (c' ≢ source) ⊎ (k' ≢ k) → NodeOk m.threads c' k' x → next ≢ x
  elsewhere c' k' x d h e =
      let at_cpu : source ≡ c' = sym in_queue.0.2 ∙ ap (λ y. (m.threads y).last_cpu) e ∙ h.2 in
      let prio : k ≡ k' = sym in_queue.0.3 ∙ ap (λ y. (m.threads y).priority) e ∙ h.3 in
      elim d [ inl ne ↦ ne (sym at_cpu) | inr ne ↦ ne (sym prio) ]

  shrunk : (j : ℕ) → k ≡ j → length ((m.cpus source).queues j) ≡ suc (length rest)
  shrunk j e =
      subst (λ (i : ℕ). length ((m.cpus source).queues i) ≡ suc (length rest)) e (ap length first)

  claim-counted :
      (c' : ℕ)
      → (shorter.cpus c').total_runnable
        ≡ length ((shorter.cpus c').queues 0)
          + length ((shorter.cpus c').queues 1)
          + length ((shorter.cpus c').queues 2)
  claim-counted c' =
      ground (arith, ok.counted c', ok.counted source, below, shrunk 0, shrunk 1, shrunk 2)

  pub claim-IsValid : IsValid (claim m source k next rest dest)
  unfolding claim
  claim-IsValid = record {
    priorities = λ x. ground (arith, ok.priorities x, ok.priorities next);
    nodes =
        queues-all (λ c' k' q. All (NodeOk (set_thread m next claimed).threads c' k') q) m source k
          rest ((m.cpus source).total_runnable - 1)
          (λ c' k' d.
            All-map (NodeOk m.threads c' k') (NodeOk (set_thread m next claimed).threads c' k')
              ((m.cpus c').queues k')
              (λ x h. NodeOk-other m.threads c' k' next x claimed (elsewhere c' k' x d h) h)
              (ok.nodes c' k'))
          (All-both (λ x. next ≢ x) (NodeOk m.threads source k)
            (NodeOk (set_thread m next claimed).threads source k) rest
            (λ x ne h. NodeOk-other m.threads source k next x claimed ne h) all_once.0 in_queue.1);
    once =
        queues-all (λ c' k' q. NoDup q) m source k rest ((m.cpus source).total_runnable - 1)
          (λ c' k' d. ok.once c' k') all_once.1;
    counted = claim-counted;
  }

-- What take and choose promise of the thread that they give to processor `c`.
pub record Claims (m : Machine) (c t : ℕ) : Type 0 where
  pub valid : IsValid m
  pub unqueued : (m.threads t).run_queued ≡ false
  pub claimed : (m.threads t).dispatch_cpu ≡ some c

claim-Claims :
    (m : Machine) (source k next : ℕ) (rest : List ℕ) (dest : ℕ)
    → IsValid m
    → (m.cpus source).queues k ≡ next ∷ rest
    → Claims (claim m source k next rest dest) dest next
unfolding claim
claim-Claims m source k next rest dest ok first = record {
  valid = claim-IsValid m source k next rest dest ok first;
  unqueued = ground arith;
  claimed = ground arith;
}

-- take gives the thread that peek saw.
pub take-Claims :
    (m : Machine) (source dest t : ℕ)
    → IsValid m
    → peek (m.cpus source) ≡ some t
    → ((take m source dest).0 ≡ some t) × Claims (take m source dest).1 dest t
unfolding take peek
take-Claims m source dest t ok seen =
    elim (Option-cases (first_queue num_prios (m.cpus source).queues 0)) [
      | inl e ↦ absurd (ground arith)
      | inr (k, e) ↦ elim (List-cases ((m.cpus source).queues k)) [
        | inl z ↦ absurd (ground arith)
        | inr (next, rest, z) ↦
            let result : take m source dest ≡ (some next, claim m source k next rest dest) =
              ground arith in
            let same : next ≡ t = ground arith in
            subst
              (λ (u : ℕ). ((take m source dest).0 ≡ some u) × Claims (take m source dest).1 dest u)
              same
              (
                ap (λ r. r.0) result,
                subst (λ (r : Option ℕ × Machine). Claims r.1 dest next) (sym result)
                    (claim-Claims m source k next rest dest ok z),
              )
      ]
    ]
