-- ===== src/Sync/Futex.antt =====
-- src/kernel/sync/futex.cpp and src/include/kernel/sync/futex.hpp, with the interruptible waits of
-- src/include/kernel/scheduler/scheduler.hpp. A bucket is the list of its waiters; a waiter lives on the
-- stack of its thread, so the thread names it. futex_wait is two steps, before and after it sleeps.
-- What copy_from_user finds at an address is given. An error -n is the number n.
pub mod Wake
pub mod Absent
pub mod Leave
mod Tests
use rucux.Base.{
  ℕ, zero, suc, ◌+◌, ◌*◌, ◌%◌, ◌^◌, bit_xor, Bool, true, false, ◌&&◌, ◌||◌, not, Option, none, some,
  List, [], ◌∷◌, ◌==◌, if◌then◌else◌, length,
}
use rucux.Process.Signal.{Thread, fatal_signal_pending}

pub record Waiter : Type 0 where
  pub thread : ℕ
  pub addr : ℕ
  pub addr_space : ℕ

-- g_futex_table, the threads and the words of the address spaces.
pub record Futex : Type 0 where
  pub table : ℕ → List Waiter
  pub threads : ℕ → Thread
  pub memory : ℕ → ℕ → Option ℕ

abbrev pub futex_hash_size : ℕ
futex_hash_size = 256

unfoldable pub futex_hash : ℕ → ℕ → ℕ
futex_hash addr_space addr =
    let h = bit_xor 14695981039346656037 addr_space * 1099511628211 % 2 ^ 64 in
    bit_xor h addr * 1099511628211 % 2 ^ 64 % futex_hash_size

abbrev pub put {ℓ} : {A : Type ℓ} → (ℕ → A) → ℕ → A → ℕ → A
put f i v = λ x. if x == i then v else f x

unfoldable pub futex_init : Futex → Futex
futex_init s = record s { table = λ i. [] }

unfoldable pub begin_interruptible_wait : Thread → Option Thread
begin_interruptible_wait t =
    if fatal_signal_pending t
    then none
    else some (record t { interruptible_wait = true; is_blocked = true })

abbrev pub end_interruptible_wait : Thread → Thread
end_interruptible_wait t = record t { interruptible_wait = false }

-- The first part: an error, or 0 for a thread that sleeps.
unfoldable pub wait_begin : Futex → ℕ → ℕ → ℕ → ℕ → ℕ × Futex
wait_begin s t addr_space addr val =
    let i = futex_hash addr_space addr in
    elim (s.memory addr_space addr) [
      | none ↦ (14, s)
      | some observed ↦
          if observed == val
          then elim (begin_interruptible_wait (s.threads t)) [
            | none ↦ (4, s)
            | some blocked ↦ (
              0,
              record s {
                threads = put s.threads t blocked;
                table =
                    put s.table i
                      (record { thread = t; addr = addr; addr_space = addr_space } ∷ s.table i);
              },
            )
          ]
          else (1, s)
    ]

-- The list without the first waiter of the thread, if it has one.
unfoldable pub unlink : ℕ → List Waiter → List Waiter
unlink t [] = []
unlink t (w ∷ ws) = if w.thread == t then ws else w ∷ unlink t ws

-- The second part, when the thread runs again.
unfoldable pub wait_end : Futex → ℕ → ℕ → ℕ → ℕ × Futex
wait_end s t addr_space addr =
    let i = futex_hash addr_space addr in
    (
      if fatal_signal_pending (s.threads t) then 4 else 0,
      record s {
        table = put s.table i (unlink t (s.table i));
        threads = put s.threads t (end_interruptible_wait (s.threads t));
      },
    )

abbrev pub matches : ℕ → ℕ → Waiter → Bool
matches addr_space addr w = w.addr == addr && w.addr_space == addr_space

-- The loop of futex_wake: the threads to unblock, in order, and the waiters that stay.
unfoldable pub wake_loop : ℕ → ℕ → List Waiter → ℕ → List ℕ × List Waiter
wake_loop addr_space addr [] count = ([], [])
wake_loop addr_space addr (w ∷ ws) zero = ([], w ∷ ws)
wake_loop addr_space addr (w ∷ ws) (suc count) =
    let taken = wake_loop addr_space addr ws count in
    let passed = wake_loop addr_space addr ws (suc count) in
    if matches addr_space addr w then (w.thread ∷ taken.0, taken.1) else (passed.0, w ∷ passed.1)

-- scheduler::unblock: the thread is ready to run then, unless it has ended.
unfoldable pub unblock : Thread → Thread
unblock t =
    if t.is_terminated || t.interruptible_wait && not t.is_blocked
    then t
    else record t { is_blocked = false }

unfoldable pub unblock_all : List ℕ → (ℕ → Thread) → ℕ → Thread
unfolding unblock
unblock_all [] threads = threads
unblock_all (t ∷ ts) threads = unblock_all ts (put threads t (unblock (threads t)))

-- How many are woken.
unfoldable pub futex_wake : Futex → ℕ → ℕ → ℕ → ℕ × Futex
unfolding wake_loop
futex_wake s addr_space addr count =
    let i = futex_hash addr_space addr in
    let (woken, kept) = wake_loop addr_space addr (s.table i) count in
    (length woken, record s { table = put s.table i kept; threads = unblock_all woken s.threads })
