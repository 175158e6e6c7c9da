-- ===== src/Memory/Vma/Covers.antt =====
-- vma_manager::covers of src/kernel/memory/vma.cpp against the address space that a tree stands for.
use rucux.Base.{
  ℕ, zero, suc, ◌+◌, ◌≤◌, ◌<◌, ◌≡◌, ◌≢◌, true, false, none, some, List, [], ◌∷◌, arith, ltb, leb,
  if◌then◌else◌, Bool-cases, Option-cases, inl, inr, ◌⊎◌, length, ltb→lt, ltb→le,
}
use rucux.Memory.Vma.{Region, find, covers_loop, covers}
use rucux.Memory.Vma.View.{Ordered, lookup, lookup-find, find-holds, region_at-find}
use rucux.Memory.Vma.Insert.{lookup-region_at}

-- How many regions end above the cursor.
ahead : List Region → ℕ → ℕ
ahead [] c = 0
ahead (x ∷ xs) c = (if ltb c x.end then 1 else 0) + ahead xs c

ahead-le : (rs : List Region) (c : ℕ) → ahead rs c ≤ length rs
unfolding ahead
ahead-le [] c = omega arith
ahead-le (x ∷ xs) c = ground (arith, ahead-le xs c)

ahead_mono : (rs : List Region) (c d : ℕ) → c ≤ d → ahead rs d ≤ ahead rs c
unfolding ahead
ahead_mono [] c d h = omega arith
ahead_mono (x ∷ xs) c d h = ground (arith, ahead_mono xs c d)

-- A round of the loop leaves the region behind that it found.
ahead-find :
    (rs : List Region) (c : ℕ) (r : Region) → find rs c ≡ some r → ahead rs r.end < ahead rs c
unfolding ahead find
ahead-find [] c r h = cc
ahead-find (x ∷ xs) c r h =
    ground (arith, ahead-find xs c r, ahead_mono xs c x.end, find-holds xs c r)

-- The first address from the cursor on that the loop finds unmapped.
abbrev pub Gap : List Region → ℕ → ℕ → Type 0
Gap rs start end = (b : ℕ) × (start ≤ b) × (b < end) × (lookup rs b ≡ none)

covers_loop-Gap :
    (fuel : ℕ) (rs : List Region) (cursor end : ℕ)
    → Ordered 0 rs
    → ahead rs cursor < fuel
    → covers_loop fuel rs cursor end ≡ false
    → Gap rs cursor end
unfolding covers_loop
covers_loop-Gap zero rs cursor end o f h = absurd (omega arith)
covers_loop-Gap (suc fuel) rs cursor end o f h = elim (Bool-cases (ltb cursor end)) [
  | inr e ↦ absurd (ground arith)
  | inl e ↦ elim (Option-cases (find rs cursor)) [
    | inl g ↦ (cursor, omega arith, ltb→lt _ _ e, ground (arith, lookup-find 0 rs cursor o))
    | inr (r, g) ↦
        let held = find-holds rs cursor r g in
        let rest =
          covers_loop-Gap fuel rs r.end end o (omega (arith, ahead-find rs cursor r g))
            (ground arith) in
        (rest.0, omega (arith, rest, held), rest.2, rest.3)
  ]
]

covers_loop-mapped :
    (fuel : ℕ) (rs : List Region) (cursor end a : ℕ)
    → Ordered 0 rs
    → covers_loop fuel rs cursor end ≡ true
    → cursor ≤ a
    → a < end
    → lookup rs a ≢ none
unfolding covers_loop
covers_loop-mapped zero rs cursor end a o h p q = absurd (ground arith)
covers_loop-mapped (suc fuel) rs cursor end a o h p q = elim (Option-cases (find rs cursor)) [
  | inl g ↦ absurd (ground arith)
  | inr (r, g) ↦ elim (Bool-cases (ltb a r.end)) [
    | inr e ↦ covers_loop-mapped fuel rs r.end end a o (ground arith) (ltb→le _ _ e) q
    | inl e ↦
        let held = find-holds rs cursor r g in
        let (here, _, _) = region_at-find 0 rs cursor r o g in
        let hit = lookup-region_at 0 rs r.start a r o here (omega (arith, held)) (ltb→lt _ _ e) in
        λ z. ground arith
  ]
]

-- Where covers returns true, the range is not empty and each of its addresses is mapped.
pub covers-mapped :
    (rs : List Region) (start end a : ℕ)
    → Ordered 0 rs
    → covers rs start end ≡ true
    → start ≤ a
    → a < end
    → lookup rs a ≢ none
unfolding covers
covers-mapped rs start end a o h p q =
    covers_loop-mapped (suc (suc (length rs))) rs start end a o (ground arith) p q

-- covers decides, for any address `a`: it returns true, the range is not empty and `a` is mapped if it
-- is in the range; or it returns false, and the range is empty or some address of it is not mapped. The
-- regions are assumed to be in order and apart.
pub covers_decides :
    (rs : List Region) (start end a : ℕ)
    → Ordered 0 rs
    → ((covers rs start end ≡ true)
        × (start < end)
        × ((a < start) ⊎ (end ≤ a) ⊎ (lookup rs a ≢ none)))
      ⊎ ((covers rs start end ≡ false) × ((end ≤ start) ⊎ Gap rs start end))
unfolding covers
covers_decides rs start end a o = elim (Bool-cases (leb end start)) [
  | inl e ↦ inr (ground arith, inl (ground arith))
  | inr e ↦
      let fuel : ℕ = suc (suc (length rs)) in
      elim (Bool-cases (covers_loop fuel rs start end)) [
        | inl h ↦
            let yes : covers rs start end ≡ true = ground arith in
            let mapped : (a < start) ⊎ (end ≤ a) ⊎ (lookup rs a ≢ none) =
              elim (Bool-cases (leb start a)) [
                | inr below ↦ inl (ground arith)
                | inl from ↦ elim (Bool-cases (ltb a end)) [
                  | inr above ↦ inr (inl (ground arith))
                  | inl to ↦
                      inr (inr (covers-mapped rs start end a o yes (ground arith) (ground arith)))
                ]
              ] in
            inl (yes, ground arith, mapped)
        | inr h ↦ inr (
          ground arith,
          inr (covers_loop-Gap fuel rs start end o (omega (arith, ahead-le rs start)) h),
        )
      ]
]
