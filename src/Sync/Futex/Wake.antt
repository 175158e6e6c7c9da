-- ===== src/Sync/Futex/Wake.antt =====
-- What futex_wake of src/kernel/sync/futex.cpp wakes.
use rucux.Base.{
  ℕ, zero, suc, ◌≤◌, ◌≡◌, refl, ap, true, false, List, [], ◌∷◌, ◌++◌, map, ◌==◌, if◌then◌else◌,
  length, arith, Bool-cases, All, inl, inr, ◌⊎◌, ==_self,
}
use rucux.Sync.Futex.{
  Waiter, Futex, futex_hash, matches, wake_loop, futex_wake, unblock, unblock_all, put,
}
use rucux.Process.Signal.{Thread}

-- The waiters for an address, and the others.
abbrev pub those : ℕ → ℕ → List Waiter → List Waiter
those addr_space addr [] = []
those addr_space addr (w ∷ ws) =
    let rest = those addr_space addr ws in if matches addr_space addr w then w ∷ rest else rest

abbrev pub others : ℕ → ℕ → List Waiter → List Waiter
others addr_space addr [] = []
others addr_space addr (w ∷ ws) =
    let rest = others addr_space addr ws in if matches addr_space addr w then rest else w ∷ rest

abbrev pub thread_of : Waiter → ℕ
thread_of w = w.thread

-- What a wake-up of at most `count` waiters takes from a list.
pub record Woken (addr_space addr count : ℕ) (ws : List Waiter) (r : List ℕ × List Waiter)
    : Type 0 where
  pub in_order :
      r.0 ++ map thread_of (those addr_space addr r.1) ≡ map thread_of (those addr_space addr ws)
  pub spared : others addr_space addr r.1 ≡ others addr_space addr ws
  pub bounded : length r.0 ≤ count
  pub enough : (length r.0 ≡ count) ⊎ (those addr_space addr r.1 ≡ [])

wake_loop_lem :
    (s a : ℕ) (ws : List Waiter) (count : ℕ) → Woken s a count ws (wake_loop s a ws count)
unfolding wake_loop
wake_loop_lem s a [] count = record {
  in_order = refl;
  spared = refl;
  bounded = omega arith;
  enough = inr refl;
}
wake_loop_lem s a (w ∷ ws) zero = record {
  in_order = refl;
  spared = refl;
  bounded = omega arith;
  enough = inl refl;
}
wake_loop_lem s a (w ∷ ws) (suc count) =
    let taken = wake_loop_lem s a ws count in
    let passed = wake_loop_lem s a ws (suc count) in
    elim (Bool-cases (matches s a w)) [
      | inl hit ↦ rw hit (record {
        in_order = rw hit (ap (◌∷◌ w.thread) taken.in_order);
        spared = rw hit taken.spared;
        bounded = omega (arith, taken.bounded);
        enough = elim taken.enough [ inl e ↦ inl (ap suc e) | inr e ↦ inr e ];
      })
      | inr miss ↦ rw miss (record {
        in_order = rw miss passed.in_order;
        spared = rw miss (ap (◌∷◌ w) passed.spared);
        bounded = passed.bounded;
        enough = elim passed.enough [ inl e ↦ inl e | inr e ↦ inr (rw miss e) ];
      })
    ]

-- A thread that has ended or is ready to run.
abbrev pub Ready : Thread → Type 0
Ready t = (t.is_terminated ≡ true) ⊎ (t.is_blocked ≡ false)

unblock-Ready : (t : Thread) → Ready (unblock t)
unfolding unblock
unblock-Ready t = elim (Bool-cases t.is_terminated) [
  | inl ended ↦ inl (ground arith)
  | inr live ↦ elim (Bool-cases t.is_blocked) [
    | inl asleep ↦ inr (ground arith)
    | inr awake ↦ inr (ground arith)
  ]
]

unblock_all-keeps :
    (ts : List ℕ) (threads : ℕ → Thread) (t : ℕ)
    → Ready (threads t)
    → Ready (unblock_all ts threads t)
unfolding unblock_all
unblock_all-keeps [] threads t h = h
unblock_all-keeps (u ∷ ts) threads t h =
    unblock_all-keeps ts (put threads u (unblock (threads u))) t (elim (Bool-cases (t == u)) [
      | inl same ↦ rw same (unblock-Ready (threads u))
      | inr other ↦ rw other h
    ])

unblock_all-Ready :
    (ts : List ℕ) (threads : ℕ → Thread) → All (λ t. Ready (unblock_all ts threads t)) ts
unfolding unblock_all
unblock_all-Ready [] threads = tt
unblock_all-Ready (u ∷ ts) threads =
    let after : ℕ → Thread = put threads u (unblock (threads u)) in
    (
      unblock_all-keeps ts after u (rw (==_self u) (unblock-Ready (threads u))),
      unblock_all-Ready ts after,
    )

-- A wake-up at an address.
pub record Wakes (s : Futex) (addr_space addr count : ℕ) (r : ℕ × Futex) : Type 0 where
  pub woken : List ℕ
  pub counted : r.0 ≡ length woken
  pub bucket :
      Woken addr_space addr count
        (s.table (futex_hash addr_space addr))
        (woken, r.1.table (futex_hash addr_space addr))
  pub ready : All (λ t. Ready (r.1.threads t)) woken

-- futex_wake takes waiters of the address, in the order of the bucket, until `count` are taken or none
-- is left; it returns how many, each of them is ready to run or has ended, and the waiters of
-- other addresses in the same bucket stay in their order.
pub futex_wake_lem :
    (s : Futex) (addr_space addr count : ℕ)
    → Wakes s addr_space addr count (futex_wake s addr_space addr count)
unfolding futex_wake
futex_wake_lem s addr_space addr count =
    let i : ℕ = futex_hash addr_space addr in
    let r : List ℕ × List Waiter = wake_loop addr_space addr (s.table i) count in
    record {
      woken = r.0;
      counted = refl;
      bucket = rw (==_self i) (wake_loop_lem addr_space addr (s.table i) count);
      ready = unblock_all-Ready r.0 s.threads;
    }
