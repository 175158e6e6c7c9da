-- ===== src/Sync/Rcu.antt =====
-- src/kernel/sync/rcu.cpp. A processor is its number. note_quiescent_state is two steps, its load of the
-- counter and its store, since other processors run between them; the processor itself has its
-- interrupts off, and so do readers, whose saved flags are left out. call_rcu likewise reserves its
-- grace period first and puts the callback into the list afterwards.
pub mod Grace
pub mod Progress
mod Tests
use rucux.Base.{
  ℕ, zero, suc, ◌+◌, ◌-◌, ◌%◌, ◌^◌, ◌<◌, ◌≡◌, Bool, true, false, ◌&&◌, ◌||◌, not, Option, none,
  some, List, [], ◌∷◌, ltb, leb, ◌==◌, if◌then◌else◌,
}

-- rcu_head
pub record Head : Type 0 where
  pub cb : ℕ
  pub arg : ℕ
  pub gp_num : ℕ

-- `noting` is the value that note_quiescent_state has loaded and not stored yet.
pub record Rcu : Type 0 where
  pub gp_counter : ℕ
  pub cpu_qs : ℕ → ℕ
  pub nesting : ℕ → ℕ
  pub noting : ℕ → Option ℕ
  pub callback_list : List Head
  pub callbacks_pending : Bool

abbrev pub put {ℓ} : {A : Type ℓ} → (ℕ → A) → ℕ → A → ℕ → A
put f c v = λ x. if x == c then v else f x

unfoldable pub init : Rcu
init = record {
  gp_counter = 0;
  cpu_qs = λ c. 0;
  nesting = λ c. 0;
  noting = λ c. none;
  callback_list = [];
  callbacks_pending = false;
}

unfoldable pub read_lock : Rcu → ℕ → Rcu
read_lock s c = record s { nesting = put s.nesting c ((s.nesting c + 1) % 2 ^ 32) }

-- `none` is the trap. The outermost unlock goes on with note_quiescent_state.
unfoldable pub read_unlock : Rcu → ℕ → Option Rcu
read_unlock s c =
    if s.nesting c == 0
    then none
    else some (record s { nesting = put s.nesting c (s.nesting c - 1) })

unfoldable pub note_load : Rcu → ℕ → Rcu
note_load s c =
    if s.nesting c == 0 then record s { noting = put s.noting c (some s.gp_counter) } else s

unfoldable pub note_store : Rcu → ℕ → Rcu
note_store s c = elim (s.noting c) [
  | none ↦ s
  | some gp ↦ record s { cpu_qs = put s.cpu_qs c gp; noting = put s.noting c none }
]

unfoldable pub note_quiescent_state : Rcu → ℕ → Rcu
unfolding note_load note_store
note_quiescent_state s c = note_store (note_load s c) c

-- The processors below `n`.
unfoldable pub all_cpus_passed : ℕ → (ℕ → ℕ) → ℕ → Bool
all_cpus_passed zero cpu_qs gp = true
all_cpus_passed (suc n) cpu_qs gp = leb gp (cpu_qs n) && all_cpus_passed n cpu_qs gp

-- g_gp_counter.fetch_add(1) + 1, with the counter afterwards.
unfoldable pub next_grace_period : Rcu → ℕ × Rcu
next_grace_period s = let gp = (s.gp_counter + 1) % 2 ^ 64 in (gp, record s { gp_counter = gp })

-- What the loop of synchronize does in each round until its grace period has passed.
unfoldable pub synchronize_round : ℕ → ℕ → ℕ → Rcu → Option Rcu
unfolding note_quiescent_state
synchronize_round ncpus gp c s =
    if all_cpus_passed ncpus s.cpu_qs gp then none else some (note_quiescent_state s c)

-- `memory` is whether kmalloc gives the head. A null callback is number 0.
unfoldable pub call_rcu_reserve : Bool → ℕ → ℕ → Rcu → Option Head × Rcu
unfolding next_grace_period
call_rcu_reserve memory cb arg s =
    if cb == 0 || not memory
    then (none, s)
    else (let (gp, s') = next_grace_period s in
        (some (record { cb = cb; arg = arg; gp_num = gp }), s'))

unfoldable pub call_rcu_link : Head → Rcu → Rcu
call_rcu_link head s = record s { callback_list = head ∷ s.callback_list; callbacks_pending = true }

-- The loop over the list: what stays, and what is ready, latest first.
unfoldable pub split_ready : ℕ → (ℕ → ℕ) → List Head → List Head → List Head × List Head
unfolding all_cpus_passed
split_ready ncpus cpu_qs [] ready = ([], ready)
split_ready ncpus cpu_qs (h ∷ hs) ready =
    let passed = all_cpus_passed ncpus cpu_qs h.gp_num in
    let rest = split_ready ncpus cpu_qs hs (if passed then h ∷ ready else ready) in
    if passed then rest else (h ∷ rest.0, rest.1)

abbrev pub not_empty : List Head → Bool
not_empty [] = false
not_empty (h ∷ hs) = true

-- The callbacks that run, in their order.
unfoldable pub process_callbacks : ℕ → Rcu → List Head × Rcu
unfolding split_ready
process_callbacks ncpus s =
    let (kept, ready) = split_ready ncpus s.cpu_qs s.callback_list [] in
    if not s.callbacks_pending
    then ([], s)
    else (ready, record s { callback_list = kept; callbacks_pending = not_empty kept })

-- What the processors do, in any order. A processor between load and store takes no lock, and the
-- counter of 64 bits is taken not to wrap.
pub data Step (ncpus : ℕ) : Rcu → Rcu → Type 0 where
  locks : (s : Rcu) (c : ℕ) → s.noting c ≡ none → Step ncpus s (read_lock s c)
  unlocks : (s : Rcu) (c : ℕ) {t : Rcu} → read_unlock s c ≡ some t → Step ncpus s t
  loads : (s : Rcu) (c : ℕ) → Step ncpus s (note_load s c)
  stores : (s : Rcu) (c : ℕ) → Step ncpus s (note_store s c)
  reserves : (s : Rcu) → s.gp_counter + 1 < 2 ^ 64 → Step ncpus s (next_grace_period s).1
  links : (s : Rcu) (h : Head) → Step ncpus s (call_rcu_link h s)
  processes : (s : Rcu) → Step ncpus s (process_callbacks ncpus s).1

-- Steps from `s` on that do not end the read section of processor `c`.
pub data Inside (ncpus c : ℕ) (s : Rcu) : Rcu → Type 0 where
  here : Inside ncpus c s s
  next : {t u : Rcu} → Inside ncpus c s t → Step ncpus t u → 0 < u.nesting c → Inside ncpus c s u

pub data Reach (ncpus : ℕ) : Rcu → Type 0 where
  start : Reach ncpus init
  later : {s t : Rcu} → Reach ncpus s → Step ncpus s t → Reach ncpus t
