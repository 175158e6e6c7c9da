-- ===== src/Memory/Vma/SetProt.antt =====
-- The whole of vma_manager::set_prot of src/kernel/memory/vma.cpp.
use rucux.Base.{
  ℕ, ◌<◌, ◌≡◌, refl, ap, sym, subst, ◌∙◌, ◌⊎◌, inl, inr, Bool, true, false, Option, some, List, [],
  ◌∷◌, arith, ltb, if◌then◌else◌, Bool-cases, Option-cases, ltb→le,
}
use rucux.Memory.Vma.{Region, right_part, find, crossing, protect, protect_to, set_prot, covers}
use rucux.Memory.Vma.View.{Ordered, Page, within, lookup, region_at, region_at-find, find-holds}
use rucux.Memory.Vma.Replace.{replace, region_at_bounds}
use rucux.Memory.Vma.Split.{halves, split_cases, halves-Ordered, halves-lookup}
use rucux.Memory.Vma.Protect.{
  reprot, protect-Ordered, lookup-protect, crossing-found, crossing-halves, region_at-halves,
}

-- The tree is in order. After success an address of the range has the new protection, and all else
-- maps as before; after failure everything does.
abbrev pub Protected : ℕ → ℕ → ℕ → List Region → ℕ → Bool × List Region → Type 0
Protected start end prot rs a result =
    Ordered 0 result.1
    × (lookup result.1 a ≡ (
        if result.0
        then if within start end a then reprot prot (lookup rs a) else lookup rs a
        else lookup rs a))

module _ (start end prot : ℕ) (rs : List Region) (a : ℕ) where
  known :
      (v w : Bool × List Region)
      → w ≡ v
      → Protected start end prot rs a v
      → Protected start end prot rs a w
  known v w e p = subst (Protected start end prot rs a) (sym e) p

  protect_to-Protected :
      (memory : Bool) (s : Region)
      → Ordered 0 rs
      → region_at rs start ≡ some s
      → Protected start end prot rs a (protect_to memory rs start end prot)
  unfolding protect_to
  protect_to-Protected memory s o h = elim (Option-cases (crossing rs start end)) [
    | inl e ↦
        known (true, protect rs start end prot) (protect_to memory rs start end prot) (ground arith)
          (protect-Ordered 0 rs start end prot o, lookup-protect 0 rs start end prot a s o h e)
    | inr (r, e) ↦
        let (here, low, key, p, q) = crossing-found 0 rs start end r o e in
        elim (split_cases memory 0 rs r end o here) [
          | inl (_, f) ↦ absurd (ground arith)
          | inr (inl (f, _)) ↦
              known (false, rs) (protect_to memory rs start end prot) (ground arith) (o, refl)
          | inr (inr (f, _, _)) ↦
              let rs' = replace r.start (halves r end) rs in
              let o' = halves-Ordered memory 0 rs r end o here p q in
              let same = halves-lookup memory 0 rs r end o here a p q in
              let s' = region_at-halves 0 rs start end r s o here h key p q in
              let clear = crossing-halves 0 rs start end r o here key p q in
              known (true, protect rs' start end prot) (protect_to memory rs start end prot)
                (ground arith)
                (
                  protect-Ordered 0 rs' start end prot o',
                  lookup-protect 0 rs' start end prot a _ o' s' clear
                      ∙ ap (λ (v : Option Page). if within start end a then reprot prot v else v)
                          same,
                )
        ]
  ]

-- A part of a region that is cut at `at` starts there.
region_at-right :
    (lo : ℕ) (rs : List Region) (r : Region) (at : ℕ)
    → Ordered lo rs
    → region_at rs r.start ≡ some r
    → r.start < at
    → at < r.end
    → region_at (replace r.start (halves r at) rs) at ≡ some (right_part r at)
unfolding region_at replace
region_at-right lo [] r at o h p q = cc
region_at-right lo (x ∷ xs) r at o h p q =
    ground (arith, region_at-right x.end xs r at o.2, region_at_bounds x.end xs r.start r o.2)

-- set_prot changes the protection of exactly the addresses of the range if it succeeds, and changes
-- no mapping if it fails; it fails where covers does.
pub set_prot_refines :
    (memory memory' : Bool) (rs : List Region) (start end prot a : ℕ)
    → Ordered 0 rs
    → Protected start end prot rs a (set_prot memory memory' rs start end prot)
      × (((set_prot memory memory' rs start end prot).0 ≡ false) ⊎ (covers rs start end ≡ true))
unfolding set_prot
set_prot_refines memory memory' rs start end prot a o = elim (Bool-cases (covers rs start end)) [
  | inr e ↦ (
    known start end prot rs a (false, rs) (set_prot memory memory' rs start end prot) (ground arith)
        (o, refl),
    inl (ground arith),
  )
  | inl e ↦ (covered e, inr e)
]
  where
    covered :
        covers rs start end ≡ true
        → Protected start end prot rs a (set_prot memory memory' rs start end prot)
    covered e = elim (Option-cases (find rs start)) [
      | inl f ↦
          known start end prot rs a (false, rs) (set_prot memory memory' rs start end prot)
            (ground arith) (o, refl)
      | inr (r, f) ↦
          let held = find-holds rs start r f in
          let (here, low, full) = region_at-find 0 rs start r o f in
          elim (Bool-cases (ltb r.start start)) [
            | inr g ↦
                let at_start : r.start ≡ start = omega (arith, ltb→le r.start start g, held) in
                known start end prot rs a (protect_to memory' rs start end prot)
                  (set_prot memory memory' rs start end prot) (ground arith)
                  (protect_to-Protected start end prot rs a memory' r o
                    (subst (λ (k : ℕ). region_at rs k ≡ some r) at_start here))
            | inl g ↦ elim (split_cases memory 0 rs r start o here) [
              | inl (_, k) ↦ absurd (ground arith)
              | inr (inl (k, _)) ↦
                  known start end prot rs a (false, rs) (set_prot memory memory' rs start end prot)
                    (ground arith) (o, refl)
              | inr (inr (k, p, q)) ↦
                  let rs' = replace r.start (halves r start) rs in
                  let same = halves-lookup memory 0 rs r start o here a p q in
                  let rest =
                    protect_to-Protected start end prot rs' a memory' (right_part r start)
                      (halves-Ordered memory 0 rs r start o here p q)
                      (region_at-right 0 rs r start o here p q) in
                  known start end prot rs a (protect_to memory' rs' start end prot)
                    (set_prot memory memory' rs start end prot) (ground arith)
                    (rest.0, ground (arith, same, rest.1))
            ]
          ]
    ]
