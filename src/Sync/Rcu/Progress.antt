-- ===== src/Sync/Rcu/Progress.antt =====
-- The ends of grace periods in src/kernel/sync/rcu.cpp, and the callbacks that run then.
use mathlib.Core.List.{Perm, perm_middle, append-nil}
use mathlib.Core.List.Perm
use rucux.Base.{
  ℕ, zero, suc, inl, inr, ◌<◌, ◌≤◌, ◌≡◌, refl, sym, ap, ◌∙◌, subst, true, false, none, some, List,
  [], ◌∷◌, ◌++◌, ◌==◌, arith, Bool-cases, All, Bool, ◌||◌,
}
use rucux.Sync.Rcu.{
  Head, Rcu, note_load, note_store, note_quiescent_state, all_cpus_passed, synchronize_round,
  split_ready, process_callbacks, not_empty, put,
}

-- The processors of the list note their quiescent states, the last of the list first.
unfoldable pub notes : List ℕ → Rcu → Rcu
notes [] s = s
notes (c ∷ cs) s = note_quiescent_state (notes cs s) c

abbrev pub listed : ℕ → List ℕ → Bool
listed c [] = false
listed c (x ∷ xs) = c == x || listed c xs

note_lem :
    (s : Rcu) (c : ℕ)
    → s.nesting c ≡ 0
    → note_quiescent_state s c ≡ record s {
      cpu_qs = put s.cpu_qs c s.gp_counter;
      noting = put (put s.noting c (some s.gp_counter)) c none;
    }
unfolding note_quiescent_state note_load note_store
note_lem s c out = ground arith

notes_lem :
    (cs : List ℕ) (s : Rcu)
    → All (λ c. s.nesting c ≡ 0) cs
    → (((notes cs s).gp_counter ≡ s.gp_counter)
        × ((notes cs s).nesting ≡ s.nesting)
        × ((notes cs s).callback_list ≡ s.callback_list)
        × ((notes cs s).callbacks_pending ≡ s.callbacks_pending))
      × ((c : ℕ) → listed c cs ≡ true → (notes cs s).cpu_qs c ≡ s.gp_counter)
unfolding notes
notes_lem [] s out = ((refl, refl, refl, refl), λ c h. absurd (cc))
notes_lem (n ∷ cs) s out =
    let (same, passed) = notes_lem cs s out.1 in
    let t : Rcu = notes cs s in
    let e = note_lem t n (ap (λ (f : ℕ → ℕ). f n) same.1 ∙ out.0) in
    (
      (
        ap (λ (x : Rcu). x.gp_counter) e ∙ same.0,
        ap (λ (x : Rcu). x.nesting) e ∙ same.1,
        ap (λ (x : Rcu). x.callback_list) e ∙ same.2,
        ap (λ (x : Rcu). x.callbacks_pending) e ∙ same.3,
      ),
      λ c h. ap (λ (x : Rcu). x.cpu_qs c) e ∙ (elim (Bool-cases (c == n)) [
        | inl here ↦ rw here same.0
        | inr other ↦ rw other (passed c (ground arith))
      ]),
    )

all_passed :
    (n gp : ℕ) (qs : ℕ → ℕ) → ((c : ℕ) → c < n → gp ≤ qs c) → all_cpus_passed n qs gp ≡ true
unfolding all_cpus_passed
all_passed zero gp qs h = refl
all_passed (suc n) gp qs h = ground (arith, h n, all_passed n gp qs (λ c k. h c (omega arith)))

notes-passed :
    (n gp : ℕ) (cs : List ℕ) (s : Rcu)
    → All (λ c. s.nesting c ≡ 0) cs
    → ((c : ℕ) → c < n → listed c cs ≡ true)
    → gp ≤ s.gp_counter
    → all_cpus_passed n (notes cs s).cpu_qs gp ≡ true
notes-passed n gp cs s out every h =
    let noted = notes_lem cs s out in
    all_passed n gp (notes cs s).cpu_qs (λ c k. omega (arith, h, noted.1 c (every c k)))

split_ready-perm :
    (n : ℕ) (qs : ℕ → ℕ) (hs ready : List Head)
    → Perm ((split_ready n qs hs ready).0 ++ (split_ready n qs hs ready).1) (hs ++ ready)
unfolding split_ready
split_ready-perm n qs [] ready = Perm.refl ready
split_ready-perm n qs (h ∷ hs) ready = elim (Bool-cases (all_cpus_passed n qs h.gp_num)) [
  | inl p ↦ rw p (Perm.trans (split_ready-perm n qs hs (h ∷ ready)) (perm_middle hs ready))
  | inr w ↦ rw w (Perm.cons h (split_ready-perm n qs hs ready))
]

split_ready-kept :
    (n : ℕ) (qs : ℕ → ℕ) (hs ready : List Head)
    → All (λ h. all_cpus_passed n qs h.gp_num ≡ false) (split_ready n qs hs ready).0
unfolding split_ready
split_ready-kept n qs [] ready = tt
split_ready-kept n qs (h ∷ hs) ready = elim (Bool-cases (all_cpus_passed n qs h.gp_num)) [
  | inl p ↦ rw p (split_ready-kept n qs hs (h ∷ ready))
  | inr w ↦ rw w (w, split_ready-kept n qs hs ready)
]

split_ready-ran :
    (n : ℕ) (qs : ℕ → ℕ) (hs ready : List Head)
    → All (λ h. all_cpus_passed n qs h.gp_num ≡ true) ready
    → All (λ h. all_cpus_passed n qs h.gp_num ≡ true) (split_ready n qs hs ready).1
unfolding split_ready
split_ready-ran n qs [] ready ok = ok
split_ready-ran n qs (h ∷ hs) ready ok = elim (Bool-cases (all_cpus_passed n qs h.gp_num)) [
  | inl p ↦ rw p (split_ready-ran n qs hs (h ∷ ready) (p, ok))
  | inr w ↦ rw w (split_ready-ran n qs hs ready ok)
]

-- process_callbacks runs each callback of the list whose grace period has passed on every processor,
-- keeps each of the others, and loses and repeats none; afterwards the pending flag tells whether
-- the list is empty. It is assumed that the flag is set, as it is while the list holds a callback.
pub process_callbacks_lem :
    (n : ℕ) (s : Rcu)
    → s.callbacks_pending ≡ true
    → let ran = (process_callbacks n s).0 in
      let t = (process_callbacks n s).1 in
      Perm (t.callback_list ++ ran) s.callback_list
      × All (λ h. all_cpus_passed n s.cpu_qs h.gp_num ≡ true) ran
      × All (λ h. all_cpus_passed n s.cpu_qs h.gp_num ≡ false) t.callback_list
      × (t.callbacks_pending ≡ not_empty t.callback_list)
unfolding process_callbacks
process_callbacks_lem n s pending = rw pending (
  subst
      (λ xs.
        Perm
          ((split_ready n s.cpu_qs s.callback_list []).0
            ++ (split_ready n s.cpu_qs s.callback_list []).1)
          xs)
      (append-nil s.callback_list) (split_ready-perm n s.cpu_qs s.callback_list []),
  split_ready-ran n s.cpu_qs s.callback_list [] tt,
  split_ready-kept n s.cpu_qs s.callback_list [],
  refl,
)

none_kept :
    (n bound : ℕ) (qs : ℕ → ℕ) (hs ready : List Head)
    → ((gp : ℕ) → gp ≤ bound → all_cpus_passed n qs gp ≡ true)
    → All (λ h. h.gp_num ≤ bound) hs
    → (split_ready n qs hs ready).0 ≡ []
unfolding split_ready
none_kept n bound qs [] ready passed ok = refl
none_kept n bound qs (h ∷ hs) ready passed (low, ok) =
    rw (passed h.gp_num low) (none_kept n bound qs hs (h ∷ ready) passed ok)

-- Grace periods end: once every processor has noted a quiescent state outside of its read sections, in
-- any order and any number of times, synchronize returns for each grace period that was reserved
-- before, and process_callbacks runs every callback of the list, each as often as it stands there,
-- and keeps none. It is assumed that the pending flag is set, as it is while the list holds a callback,
-- and that the callbacks have grace periods that were reserved.
pub grace_ends :
    (n gp c : ℕ) (order : List ℕ) (s : Rcu)
    → All (λ x. s.nesting x ≡ 0) order
    → ((x : ℕ) → x < n → listed x order ≡ true)
    → gp ≤ s.gp_counter
    → s.callbacks_pending ≡ true
    → All (λ h. h.gp_num ≤ s.gp_counter) s.callback_list
    → (synchronize_round n gp c (notes order s) ≡ none)
      × Perm (process_callbacks n (notes order s)).0 s.callback_list
      × ((process_callbacks n (notes order s)).1.callback_list ≡ [])
unfolding synchronize_round process_callbacks
grace_ends n gp c order s out every old pending ok =
    let noted = notes_lem order s out in
    let t : Rcu = notes order s in
    let still : t.callbacks_pending ≡ true = noted.0.3 ∙ pending in
    let kept : (process_callbacks n t).1.callback_list ≡ [] =
      rw (still, process_callbacks)
        (none_kept n s.gp_counter t.cpu_qs t.callback_list []
          (λ g h. notes-passed n g order s out every h)
          (subst (All (λ h. h.gp_num ≤ s.gp_counter)) (sym noted.0.2) ok)) in
    let ran : Perm ([] ++ (process_callbacks n t).0) t.callback_list =
      subst (λ (xs : List Head). Perm (xs ++ (process_callbacks n t).0) t.callback_list) kept
        (process_callbacks_lem n t still).0 in
    (
      rw (notes-passed n gp order s out every old) refl,
      subst (Perm (process_callbacks n t).0) noted.0.2 ran,
      kept,
    )
