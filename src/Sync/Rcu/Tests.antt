-- ===== src/Sync/Rcu/Tests.antt =====
-- Examples of read-copy-update on two processors.
use mathlib.Core.List.{Perm}
use rucux.Base.{ℕ, ◌∷◌, ◌<◌, ◌≡◌, refl, true, false, none, [], ◌++◌, All, arith}
use rucux.Sync.Rcu.{
  Head, Rcu, init, read_lock, note_load, note_store, next_grace_period, all_cpus_passed,
  synchronize_round, process_callbacks, not_empty, call_rcu_link, locks, loads, stores, links,
  Inside, here, next, Reach, start, later,
}
use rucux.Sync.Rcu.Grace.{grace_period}
use rucux.Sync.Rcu.Progress.{notes, listed, process_callbacks_lem, grace_ends}

-- Processor 1 reads.
abbrev reading : Rcu
reading = read_lock init 1

reading-Reach : Reach 2 reading
unfolding init
reading-Reach = later start (locks init 1 refl)

abbrev reserved : Rcu
reserved = (next_grace_period reading).1

abbrev head : Head
head = record { cb = 9; arg = 0; gp_num = 1 }

-- The callback is listed, and processor 0 notes a quiescent state.
abbrev noted : Rcu
noted = note_store (note_load (call_rcu_link head reserved) 0) 0

noted-Inside : Inside 2 1 reserved noted
unfolding call_rcu_link note_load note_store next_grace_period read_lock init
noted-Inside =
    next
      (next (next here (links reserved head) (omega arith)) (loads (call_rcu_link head reserved) 0)
        (omega arith))
      (stores (note_load (call_rcu_link head reserved) 0) 0) (omega arith)

grace_period_example :
    (all_cpus_passed 2 noted.cpu_qs 1 ≡ false)
    × All (λ h. h.gp_num < (next_grace_period reading).0) (process_callbacks 2 noted).0
unfolding next_grace_period read_lock init
grace_period_example =
    grace_period 2 1 1 reading noted reading-Reach (omega arith) (omega arith) (omega arith)
      noted-Inside (omega arith)

process_callbacks_lem_example :
    Perm
      ((process_callbacks 2 noted).1.callback_list ++ (process_callbacks 2 noted).0)
      noted.callback_list
    × All (λ h. all_cpus_passed 2 noted.cpu_qs h.gp_num ≡ true) (process_callbacks 2 noted).0
    × All
        (λ h. all_cpus_passed 2 noted.cpu_qs h.gp_num ≡ false)
        (process_callbacks 2 noted).1.callback_list
    × ((process_callbacks 2 noted).1.callbacks_pending
        ≡ not_empty (process_callbacks 2 noted).1.callback_list)
unfolding call_rcu_link note_load note_store next_grace_period read_lock init
process_callbacks_lem_example = process_callbacks_lem 2 noted refl

-- The same with no reader.
abbrev idle : Rcu
idle = call_rcu_link head (next_grace_period init).1

both_listed : (c : ℕ) → c < 2 → listed c (1 ∷ 0 ∷ 1 ∷ []) ≡ true
both_listed c h = ground arith

grace_ends_example :
    (synchronize_round 2 1 0 (notes (1 ∷ 0 ∷ 1 ∷ []) idle) ≡ none)
    × Perm (process_callbacks 2 (notes (1 ∷ 0 ∷ 1 ∷ []) idle)).0 (head ∷ [])
    × ((process_callbacks 2 (notes (1 ∷ 0 ∷ 1 ∷ []) idle)).1.callback_list ≡ [])
unfolding call_rcu_link next_grace_period init
grace_ends_example =
    grace_ends 2 1 0 (1 ∷ 0 ∷ 1 ∷ []) idle (refl, (refl, (refl, tt))) both_listed (omega arith) refl
      (omega arith, tt)
