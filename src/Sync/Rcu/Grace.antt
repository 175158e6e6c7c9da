-- ===== src/Sync/Rcu/Grace.antt =====
-- Grace periods of src/kernel/sync/rcu.cpp.
use rucux.Base.{
  ℕ, zero, suc, ◌+◌, ◌-◌, ◌%◌, ◌^◌, ◌<◌, ◌≤◌, ◌≡◌, ◌≢◌, ◌⊎◌, inl, inr, refl, sym, ap, ◌∙◌, subst,
  true, false, none, some, List, [], ◌∷◌, leb, ◌==◌, arith, leb→le, leb→lt, Bool-cases,
  Option-cases, All,
}
use rucux.Sync.Rcu.{
  Head, Rcu, init, read_lock, read_unlock, note_load, note_store, all_cpus_passed,
  next_grace_period, call_rcu_link, split_ready, process_callbacks, Step, locks, unlocks, loads,
  stores, reserves, links, processes, Inside, here, next, Reach, start, later, put,
}

-- A processor in a read section has no note under way, and no note is ahead of the counter.
pub record IsValid (s : Rcu) (c : ℕ) : Type 0 where
  pub quiet : (s.noting c ≡ none) ⊎ (s.nesting c ≡ 0)
  pub passed : s.cpu_qs c ≤ s.gp_counter
  pub noted : (s.noting c ≡ none) ⊎ ((gp : ℕ) × (s.noting c ≡ some gp) × (gp ≤ s.gp_counter))

true_ne : true ≢ false
true_ne e = cc

split_ready-passed :
    (n gp : ℕ) (qs : ℕ → ℕ) (hs ready : List Head)
    → ((m : ℕ) → gp ≤ m → all_cpus_passed n qs m ≡ false)
    → All (λ h. h.gp_num < gp) ready
    → All (λ h. h.gp_num < gp) (split_ready n qs hs ready).1
unfolding split_ready
split_ready-passed n gp qs [] ready not_yet old = old
split_ready-passed n gp qs (h ∷ hs) ready not_yet old =
    elim (Bool-cases (all_cpus_passed n qs h.gp_num)) [
      | inl p ↦ rw p (
          split_ready-passed n gp qs hs (h ∷ ready) not_yet (
            elim (Bool-cases (leb gp h.gp_num)) [
              | inl new ↦ absurd (true_ne (sym p ∙ not_yet h.gp_num (leb→le gp h.gp_num new)))
              | inr before ↦ leb→lt gp h.gp_num before
            ],
            old,
          ))
      | inr w ↦ rw w (split_ready-passed n gp qs hs ready not_yet old)
    ]

behind : (n c gp : ℕ) (qs : ℕ → ℕ) → c < n → qs c < gp → all_cpus_passed n qs gp ≡ false
unfolding all_cpus_passed
behind zero c gp qs h late = absurd (omega arith)
behind (suc n) c gp qs h late = elim (Bool-cases (n == c)) [
  | inl same ↦
      (let e : n ≡ c = ground arith in
        let late' : qs n < gp = subst (λ x. qs x < gp) (sym e) late in ground arith)
  | inr other ↦ ground (arith, behind n c gp qs)
]

same_processor : (c d : ℕ) → (c ≡ d) ⊎ ((c == d) ≡ false)
same_processor c d = elim (Bool-cases (c == d)) [ inl e ↦ inl (ground arith) | inr e ↦ inr e ]

stored_passed :
    (s : Rcu) (c d gp : ℕ)
    → c ≡ d
    → s.noting d ≡ some gp
    → IsValid s c
    → put s.cpu_qs d gp c ≤ s.gp_counter
stored_passed s c d gp same e v =
    let here : s.noting c ≡ some gp = ap s.noting same ∙ e in
    elim v.noted [ inl free ↦ absurd (ground arith) | inr (g, f, small) ↦ ground arith ]

Step-IsValid : {n : ℕ} {s t : Rcu} (c : ℕ) → Step n s t → IsValid s c → IsValid t c
unfolding read_lock read_unlock note_load note_store next_grace_period call_rcu_link
    process_callbacks
Step-IsValid c (locks s d free) v = record {
  quiet = ground (arith, v.quiet, free);
  passed = v.passed;
  noted = v.noted;
}
Step-IsValid c (unlocks s d {t} e) v = elim (Bool-cases (s.nesting d == 0)) [
  | inl out ↦ absurd (ground arith)
  | inr in_section ↦
      (let result : record s { nesting = put s.nesting d (s.nesting d - 1) } ≡ t = ground arith in
        subst (λ x. IsValid x c) result
          (record { quiet = ground (arith, v.quiet); passed = v.passed; noted = v.noted }))
]
Step-IsValid c (loads s d) v = elim (Bool-cases (s.nesting d == 0)) [
  | inl out ↦
      (let t : Rcu = record s { noting = put s.noting d (some s.gp_counter) } in
        let result : note_load s d ≡ t = ground arith in
        subst (λ x. IsValid x c) (sym result)
          (elim (same_processor c d) [
            | inl same ↦ record {
              quiet = inr (ap s.nesting same ∙ ground arith);
              passed = v.passed;
              noted = inr (s.gp_counter, ground arith, omega arith);
            }
            | inr other ↦ record {
              quiet = ground (arith, v.quiet);
              passed = v.passed;
              noted = rw other v.noted;
            }
          ]))
  | inr in_section ↦
      (let result : note_load s d ≡ s = ground arith in subst (λ x. IsValid x c) (sym result) v)
]
Step-IsValid c (stores s d) v = elim (Option-cases (s.noting d)) [
  | inl e ↦
      (let result : note_store s d ≡ s = ground arith in subst (λ x. IsValid x c) (sym result) v)
  | inr (gp, e) ↦
      (let t : Rcu = record s { cpu_qs = put s.cpu_qs d gp; noting = put s.noting d none } in
        let result : note_store s d ≡ t = ground arith in
        subst (λ x. IsValid x c) (sym result)
          (elim (same_processor c d) [
            | inl same ↦ record {
              quiet = inl (ground arith);
              passed = stored_passed s c d gp same e v;
              noted = inl (ground arith);
            }
            | inr other ↦ record {
              quiet = rw other v.quiet;
              passed = rw other v.passed;
              noted = rw other v.noted;
            }
          ]))
]
Step-IsValid c (reserves s room) v = record {
  quiet = v.quiet;
  passed = omega (arith, v.passed);
  noted = ground (arith, v.noted);
}
Step-IsValid c (links s h) v = record { quiet = v.quiet; passed = v.passed; noted = v.noted }
Step-IsValid c (processes s) v = elim (Bool-cases s.callbacks_pending) [
  | inl some_left ↦ rw some_left (record { quiet = v.quiet; passed = v.passed; noted = v.noted })
  | inr idle ↦ rw idle (record { quiet = v.quiet; passed = v.passed; noted = v.noted })
]

init-IsValid : (c : ℕ) → IsValid init c
unfolding init
init-IsValid c = record { quiet = inl refl; passed = omega arith; noted = inl refl }

Reach-IsValid : {n : ℕ} {s : Rcu} (c : ℕ) → Reach n s → IsValid s c
Reach-IsValid c start = init-IsValid c
Reach-IsValid c (later r st) = Step-IsValid c st (Reach-IsValid c r)

-- A processor in a read section, seen from others.
abbrev Frozen : Rcu → Rcu → ℕ → Type 0
Frozen s t c = (t.cpu_qs c ≡ s.cpu_qs c) × (t.noting c ≡ none)

Step-Frozen :
    {n : ℕ} {s t : Rcu} (c : ℕ) → Step n s t → s.noting c ≡ none → 0 < s.nesting c → Frozen s t c
unfolding read_lock read_unlock note_load note_store next_grace_period call_rcu_link
    process_callbacks
Step-Frozen c (locks s d free) quiet inside = (refl, quiet)
Step-Frozen c (unlocks s d {t} e) quiet inside = elim (Bool-cases (s.nesting d == 0)) [
  | inl out ↦ absurd (ground arith)
  | inr in_section ↦
      (let result : record s { nesting = put s.nesting d (s.nesting d - 1) } ≡ t = ground arith in
        subst (λ x. Frozen s x c) result (refl, quiet))
]
Step-Frozen c (loads s d) quiet inside = elim (Bool-cases (s.nesting d == 0)) [
  | inl out ↦
      (let apart : c ≢ d = λ same. absurd (ground (arith, ap s.nesting same)) in
        let result : note_load s d ≡ record s { noting = put s.noting d (some s.gp_counter) } =
          ground arith in
        subst (λ x. Frozen s x c) (sym result) (refl, ground arith))
  | inr in_section ↦
      (let result : note_load s d ≡ s = ground arith in
        subst (λ x. Frozen s x c) (sym result) (refl, quiet))
]
Step-Frozen c (stores s d) quiet inside = elim (Option-cases (s.noting d)) [
  | inl e ↦
      (let result : note_store s d ≡ s = ground arith in
        subst (λ x. Frozen s x c) (sym result) (refl, quiet))
  | inr (gp, e) ↦
      (let apart : c ≢ d = λ same. absurd (ground (arith, ap s.noting same)) in
        let result : note_store s d
            ≡ record s { cpu_qs = put s.cpu_qs d gp; noting = put s.noting d none } =
          ground arith in
        subst (λ x. Frozen s x c) (sym result) (ground arith, ground arith))
]
Step-Frozen c (reserves s room) quiet inside = (refl, quiet)
Step-Frozen c (links s h) quiet inside = (refl, quiet)
Step-Frozen c (processes s) quiet inside = elim (Bool-cases s.callbacks_pending) [
  | inl some_left ↦ rw some_left (refl, quiet)
  | inr idle ↦ rw idle (refl, quiet)
]

Inside-Frozen :
    {n c : ℕ} {s t : Rcu}
    → Inside n c s t
    → s.noting c ≡ none
    → 0 < s.nesting c
    → Frozen s t c × (0 < t.nesting c)
Inside-Frozen here quiet inside = ((refl, quiet), inside)
Inside-Frozen {c} (next before st still) quiet inside =
    let (frozen, on) = Inside-Frozen before quiet inside in
    let (same, off) = Step-Frozen c st frozen.1 on in ((same ∙ frozen.0, off), still)

-- In any interleaving from the start: if a processor is in a read section when a grace period is
-- reserved, by synchronize or call_rcu, then as long as it stays in that section the grace period
-- has not passed, so synchronize does not return, and no callback of it or of a later one is run.
-- It is assumed that the counter of grace periods has not reached its 64 bits.
pub grace_period :
    (n c gp : ℕ) (s t : Rcu)
    → Reach n s
    → c < n
    → 0 < s.nesting c
    → s.gp_counter + 1 < 2 ^ 64
    → Inside n c (next_grace_period s).1 t
    → (next_grace_period s).0 ≤ gp
    → (all_cpus_passed n t.cpu_qs gp ≡ false)
      × All (λ h. h.gp_num < (next_grace_period s).0) (process_callbacks n t).0
unfolding process_callbacks next_grace_period
grace_period n c gp s t r below inside room stays late =
    let v : IsValid s c = Reach-IsValid c r in
    let quiet : s.noting c ≡ none = elim v.quiet [ inl q ↦ q | inr out ↦ absurd (omega arith) ] in
    let (frozen, on) = Inside-Frozen stays quiet inside in
    let g : ℕ = (s.gp_counter + 1) % 2 ^ 64 in
    let old : t.cpu_qs c < g = omega (arith, frozen.0, v.passed) in
    let not_yet : (m : ℕ) → g ≤ m → all_cpus_passed n t.cpu_qs m ≡ false =
      λ m h. behind n c m t.cpu_qs below (omega arith) in
    (
      not_yet gp late,
      elim (Bool-cases t.callbacks_pending) [
        | inl some_left ↦
            rw some_left (split_ready-passed n g t.cpu_qs t.callback_list [] not_yet tt)
        | inr idle ↦ rw idle tt
      ],
    )
