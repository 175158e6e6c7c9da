-- ===== src/Scheduler/Dispatch/Queued.antt =====
-- The run queues under queue_locked and enqueue of src/kernel/scheduler/dispatch.cpp.
use rucux.Base.{
  ℕ, ◌+◌, ◌≡◌, ◌≢◌, refl, ap, sym, true, false, ◌||◌, ◌⊎◌, inl, inr, none, List, [], ◌∷◌, ◌++◌,
  arith, leb, ◌==◌, if◌then◌else◌, All, Bool-cases, subst, length-append, ==→eq,
}
use rucux.Scheduler.Dispatch.{
  ThreadState, ready, running, blocked, terminated, Thread, Machine, set_thread, set_cpu, set_queue,
  is_ready, is_running, is_terminated, has_cpu, queue_locked, waken, woken, enqueue,
}
use rucux.Scheduler.Dispatch.Valid.{
  NodeOk, NoDup, IsValid, All-map, All-append, NoDup-append, NodeOk-frame,
}

-- One queue changes, and with it the count of its processor.
abbrev pub with_queue : Machine → ℕ → ℕ → List ℕ → ℕ → Machine
with_queue m c k q total =
    set_cpu m c
      (record (m.cpus c) { queues = set_queue (m.cpus c).queues k q; total_runnable = total })

-- A property of every queue carries over if the new queue has it.
pub queues-all :
    (P : ℕ → ℕ → List ℕ → Type 0) (m : Machine) (c k : ℕ) (q : List ℕ) (total : ℕ)
    → ((c' k' : ℕ) → ((c' ≢ c) ⊎ (k' ≢ k)) → P c' k' ((m.cpus c').queues k'))
    → P c k q
    → (c' k' : ℕ) → P c' k' (((with_queue m c k q total).cpus c').queues k')
queues-all P m c k q total old new c' k' = elim (Bool-cases (c' == c)) [
  | inr e ↦
      let same : ((with_queue m c k q total).cpus c').queues k' ≡ (m.cpus c').queues k' =
        ground arith in
      subst (P c' k') (sym same) (old c' k' (inl (ground arith)))
  | inl e ↦ elim (Bool-cases (k' == k)) [
    | inr f ↦
        let here : (m.cpus c').queues k' ≡ (m.cpus c).queues k' =
          ap (λ (x : ℕ). (m.cpus x).queues k') (==→eq c' c e) in
        let same : ((with_queue m c k q total).cpus c').queues k' ≡ (m.cpus c').queues k' =
          ground (arith, here) in
        subst (P c' k') (sym same) (old c' k' (inr (ground arith)))
    | inl f ↦
        let same : ((with_queue m c k q total).cpus c').queues k' ≡ q = ground arith in
        subst (P c' k') (sym same) (
          subst (λ (x : ℕ). P x k' q) (sym (==→eq c' c e))
            (subst (λ (x : ℕ). P c x q) (sym (==→eq k' k f)) new))
  ]
]

not_in :
    (threads : ℕ → Thread) (c k owner : ℕ) (xs : List ℕ)
    → All (NodeOk threads c k) xs
    → (threads owner).run_queued ≡ false
    → All (λ x. x ≢ owner) xs
not_in threads c k owner xs ok out =
    All-map (NodeOk threads c k) (λ x. x ≢ owner) xs
      (λ x h e.
        let queued : (threads owner).run_queued ≡ true =
          subst (λ y. (threads y).run_queued ≡ true) e h.0 in
        absurd (ground arith))
      ok

module _ (m : Machine) (owner c : ℕ) (ok : IsValid m) (out : (m.threads owner).run_queued ≡ false)
    (off : (m.threads owner).dispatch_cpu ≡ none)
    (is : is_ready (m.threads owner).state ≡ true) where
  abbrev o : Thread
  o = m.threads owner

  abbrev q : List ℕ
  q = (m.cpus c).queues o.priority ++ owner ∷ []

  abbrev marked : Machine
  marked = set_thread m owner (record o { last_cpu = c; run_queued = true })

  abbrev queued : Machine
  queued = with_queue marked c o.priority q ((m.cpus c).total_runnable + 1)

  owner_ok : NodeOk queued.threads c o.priority owner
  owner_ok = (ground arith, ground (arith, off), ground arith, ground arith, ground (arith, is))

  kept : (c' k : ℕ) → All (NodeOk queued.threads c' k) ((m.cpus c').queues k)
  kept c' k =
      All-map (NodeOk m.threads c' k) (NodeOk queued.threads c' k) ((m.cpus c').queues k)
        (λ x.
          NodeOk-frame m.threads c' k owner x (record o { last_cpu = c; run_queued = true }) out)
        (ok.nodes c' k)

  queued-IsValid : IsValid queued
  queued-IsValid = record {
    priorities = λ x. ground (arith, ok.priorities x, ok.priorities owner);
    nodes =
        queues-all (λ c' k q. All (NodeOk queued.threads c' k) q) marked c o.priority q
          ((m.cpus c).total_runnable + 1) (λ c' k d. kept c' k)
          (All-append (NodeOk queued.threads c o.priority) ((m.cpus c).queues o.priority) owner
            (kept c o.priority) owner_ok);
    once =
        queues-all (λ c' k q. NoDup q) marked c o.priority q ((m.cpus c).total_runnable + 1)
          (λ c' k d. ok.once c' k)
          (NoDup-append ((m.cpus c).queues o.priority) owner (ok.once c o.priority) (
            not_in m.threads c o.priority owner ((m.cpus c).queues o.priority)
              (ok.nodes c o.priority) out));
    counted = λ c'. ground (
      arith,
      ok.counted c',
      ok.priorities owner,
      length-append ((m.cpus c).queues o.priority) (owner ∷ []),
    );
  }

pub queue_locked-IsValid :
    (m : Machine) (owner c : ℕ)
    → IsValid m
    → is_ready (m.threads owner).state ≡ true
    → IsValid (queue_locked m owner c)
unfolding queue_locked
queue_locked-IsValid m owner c ok is =
    let o = m.threads owner in
    elim (Bool-cases (o.run_queued || has_cpu o.dispatch_cpu || owner == (m.cpus c).idle_thread)) [
      | inl e ↦
          let result : queue_locked m owner c ≡ m = ground arith in subst IsValid (sym result) ok
      | inr e ↦
          let off : o.dispatch_cpu ≡ none = ground arith in
          let result : queue_locked m owner c ≡ queued m owner c ok (ground arith) off is =
            ground arith in
          subst IsValid (sym result) (queued-IsValid m owner c ok (ground arith) off is)
    ]

woken_ready :
    (s : ThreadState) → (is_terminated s || is_running s) ≡ false → is_ready (woken s) ≡ true
woken_ready ready h = refl
woken_ready running h = absurd (ground arith)
woken_ready blocked h = refl
woken_ready terminated h = absurd (ground arith)

woken_still_ready : (s : ThreadState) → is_ready s ≡ true → is_ready (woken s) ≡ true
woken_still_ready ready h = refl
woken_still_ready running h = absurd (ground arith)
woken_still_ready blocked h = refl
woken_still_ready terminated h = absurd (ground arith)

-- A queued thread is ready, and waking leaves it so.
waken-NodeOk :
    (threads : ℕ → Thread) (c k owner x : ℕ)
    → NodeOk threads c k x
    → NodeOk (λ y. if y == owner then waken (threads owner) else threads y) c k x
waken-NodeOk threads c k owner x (queued, off, at_cpu, prio, is) = elim (Bool-cases (x == owner)) [
  | inl e ↦
      let same : x ≡ owner = ==→eq x owner e in
      let keep : (if x == owner then waken (threads owner) else threads x) ≡ waken (threads x) =
        ground (arith, ap (λ y. waken (threads y)) same) in
      subst
        (λ (o : Thread).
          (o.run_queued ≡ true)
          × (o.dispatch_cpu ≡ none)
          × (o.last_cpu ≡ c)
          × (o.priority ≡ k)
          × (is_ready o.state ≡ true))
        (sym keep) (queued, off, at_cpu, prio, woken_still_ready (threads x).state is)
  | inr e ↦
      let keep : (if x == owner then waken (threads owner) else threads x) ≡ threads x =
        ground arith in
      subst
        (λ (o : Thread).
          (o.run_queued ≡ true)
          × (o.dispatch_cpu ≡ none)
          × (o.last_cpu ≡ c)
          × (o.priority ≡ k)
          × (is_ready o.state ≡ true))
        (sym keep) (queued, off, at_cpu, prio, is)
]

waken-IsValid :
    (m : Machine) (owner : ℕ) → IsValid m → IsValid (set_thread m owner (waken (m.threads owner)))
waken-IsValid m owner ok = record {
  priorities = λ x. ground (arith, ok.priorities x, ok.priorities owner);
  nodes = λ c k.
      All-map (NodeOk m.threads c k)
        (NodeOk (set_thread m owner (waken (m.threads owner))).threads c k) ((m.cpus c).queues k)
        (λ x. waken-NodeOk m.threads c k owner x) (ok.nodes c k);
  once = ok.once;
  counted = ok.counted;
}

pub enqueue-IsValid : (m : Machine) (owner : ℕ) → IsValid m → IsValid (enqueue m owner)
unfolding enqueue
enqueue-IsValid m owner ok =
    let o = m.threads owner in
    let woken_m = set_thread m owner (waken o) in
    let target = if leb m.cpu_count o.last_cpu then 0 else o.last_cpu in
    elim (Bool-cases (is_terminated o.state || is_running o.state)) [
      | inl e ↦ let result : enqueue m owner ≡ m = ground arith in subst IsValid (sym result) ok
      | inr e ↦
          let result : enqueue m owner ≡ queue_locked woken_m owner target = ground arith in
          let is : is_ready (woken_m.threads owner).state ≡ true =
            ground (arith, woken_ready o.state e) in
          subst IsValid (sym result)
            (queue_locked-IsValid woken_m owner target (waken-IsValid m owner ok) is)
    ]
