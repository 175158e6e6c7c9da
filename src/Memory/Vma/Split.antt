-- ===== src/Memory/Vma/Split.antt =====
-- vma_manager::split and isolate of src/kernel/memory/vma.cpp.
use rucux.Base.{
  ℕ, ◌+◌, ◌-◌, ◌≤◌, ◌<◌, ◌≡◌, refl, sym, subst, ◌∙◌, ◌⊎◌, inl, inr, Bool, true, false, ◌||◌, Option,
  none, some, List, [], ◌∷◌, arith, ltb, leb, Bool-cases, Option-cases,
}
use rucux.Memory.Vma.{
  Region, word, right_part, find, first_overlap, split, isolate, isolate_end, checked,
}
use rucux.Memory.Vma.View.{
  Ordered, page_of, lookup, region_at, region_at-first_overlap, region_at-find,
}
use rucux.Memory.Vma.Replace.{replace, replace-Ordered, lookup-replace, tree_insert-update}
use rucux.Memory.Vma.Insert.{lookup-region_at}

-- The regions that take the place of a region which is cut at `at`.
abbrev pub halves : Region → ℕ → List Region
halves r at = record r { end = at } ∷ (right_part r at ∷ [])

pub lookup-halves :
    (r : Region) (at a : ℕ)
    → r.start < at
    → at < r.end
    → r.start ≤ a
    → a < r.end
    → lookup (halves r at) a ≡ some (page_of r a)
unfolding lookup
lookup-halves r at a p q h k = ground (arith, moved)
  where
    moved :
        at ≤ a
        → word (word (r.file_offset + (at - r.start)) + (a - at))
          ≡ word (r.file_offset + (a - r.start))
    moved h = omega arith

module _ (memory : Bool) (lo : ℕ) (rs : List Region) (r : Region) (at : ℕ) (ordered : Ordered lo rs)
    (here : region_at rs r.start ≡ some r) where
  -- A split does nothing, fails for want of memory, or puts the halves in place of the region.
  pub split_cases :
      (split memory rs r at ≡ (some r, rs)) × ((at ≤ r.start) ⊎ (r.end ≤ at))
      ⊎ ((split memory rs r at ≡ (none, rs)) × (memory ≡ false)
          ⊎ ((split memory rs r at ≡ (some (right_part r at), replace r.start (halves r at) rs))
              × (r.start < at)
              × (at < r.end)))
  unfolding split
  split_cases = elim (Bool-cases (leb at r.start || leb r.end at)) [
    | inl e ↦ inl (ground arith, ground arith)
    | inr e ↦ elim (Bool-cases memory) [
      | inr f ↦ inr (inl (ground arith, f))
      | inl f ↦
          let p : r.start < at = ground arith in
          let q : at < r.end = ground arith in
          let cut =
            tree_insert-update lo r.start r (record r { end = at }) (right_part r at) rs ordered
              here refl p q in
          inr (inr (ground arith, p, q))
    ]
  ]

  pub halves-Ordered : r.start < at → at < r.end → Ordered lo (replace r.start (halves r at) rs)
  halves-Ordered p q = replace-Ordered r.start r (halves r at) (omega arith) lo rs ordered here

  pub halves-lookup :
      (a : ℕ)
      → r.start < at
      → at < r.end
      → lookup (replace r.start (halves r at) rs) a ≡ lookup rs a
  halves-lookup a p q = ground (
    arith,
    lookup-replace r.start r (halves r at) (omega arith) lo rs a ordered here,
    lookup-halves r at a p q,
    lookup-region_at lo rs r.start a r ordered here,
  )

  -- Whatever split returns, the tree stays in order and every address maps as before.
  pub split_keeps :
      (a : ℕ)
      → Ordered lo (split memory rs r at).1 × (lookup (split memory rs r at).1 a ≡ lookup rs a)
  split_keeps a = elim split_cases [
    | inl (e, _) ↦ rw e (ordered, refl)
    | inr (inl (e, _)) ↦ rw e (ordered, refl)
    | inr (inr (e, p, q)) ↦ rw e (halves-Ordered p q, halves-lookup a p q)
  ]

-- What holds of the tree after a split, and after what follows a split that succeeded, holds after
-- both.
pub checked_rule {ℓ} :
    (P : List Region → Type ℓ) (s : Option Region × List Region)
    (next : Region → List Region → Bool × List Region)
    → P s.1
    → ((r : Region) → s.0 ≡ some r → P (next r s.1).1)
    → P (checked s next).1
checked_rule P (none, rs) next p k = p
checked_rule P (some r, rs) next p k = k r refl

-- The tree is in order and stands for the same address space as `rs`, at `a`.
abbrev pub SameAt : List Region → ℕ → List Region → Type 0
SameAt rs a rs' = Ordered 0 rs' × (lookup rs' a ≡ lookup rs a)

pub SameAt-trans :
    (rs rs' rs'' : List Region) (a : ℕ) → SameAt rs a rs' → SameAt rs' a rs'' → SameAt rs a rs''
SameAt-trans rs rs' rs'' a p q = (q.0, q.1 ∙ p.1)

pub split-SameAt :
    (memory : Bool) (rs : List Region) (r : Region) (at a : ℕ)
    → Ordered 0 rs
    → region_at rs r.start ≡ some r
    → SameAt rs a (split memory rs r at).1
split-SameAt memory rs r at a o h = split_keeps memory 0 rs r at o h a

-- A result that is known.
pub SameAt-eq :
    (rs : List Region) (a : ℕ) (v w : Bool × List Region)
    → w ≡ v
    → SameAt rs a v.1
    → SameAt rs a w.1
SameAt-eq rs a v w e p = subst (λ (u : Bool × List Region). SameAt rs a u.1) (sym e) p

isolate_end-SameAt :
    (memory : Bool) (rs : List Region) (end a : ℕ)
    → Ordered 0 rs
    → SameAt rs a (isolate_end memory rs end).1
unfolding isolate_end
isolate_end-SameAt memory rs end a o = elim (Option-cases (find rs (end - 1))) [
  | inl e ↦ SameAt-eq rs a (true, rs) (isolate_end memory rs end) (ground arith) (o, refl)
  | inr (last, e) ↦
      let cut = split-SameAt memory rs last end a o (region_at-find 0 rs (end - 1) last o e).0 in
      let next : Region → List Region → Bool × List Region = λ _ rs'. (true, rs') in
      let both = checked_rule (SameAt rs a) (split memory rs last end) next cut (λ r k. cut) in
      elim (Bool-cases (ltb end last.end)) [
        | inl f ↦
            SameAt-eq rs a (checked (split memory rs last end) next) (isolate_end memory rs end)
              (ground arith) both
        | inr f ↦ SameAt-eq rs a (true, rs) (isolate_end memory rs end) (ground arith) (o, refl)
      ]
]

-- isolate keeps the tree in order, and every address maps as before, whether it succeeds or not.
pub isolate_keeps :
    (memory memory' : Bool) (rs : List Region) (start end a : ℕ)
    → Ordered 0 rs
    → SameAt rs a (isolate memory memory' rs start end).1
unfolding isolate
isolate_keeps memory memory' rs start end a o = elim (Bool-cases (leb end start)) [
  | inl e ↦
      SameAt-eq rs a (false, rs) (isolate memory memory' rs start end) (ground arith) (o, refl)
  | inr e ↦ elim (Option-cases (first_overlap rs start end)) [
    | inl f ↦
        SameAt-eq rs a (true, rs) (isolate memory memory' rs start end) (ground arith) (o, refl)
    | inr (first, f) ↦
        let cut =
          split-SameAt memory rs first start a o
            (region_at-first_overlap 0 rs start end first o f).0 in
        let s = split memory rs first start in
        let next : Region → List Region → Bool × List Region =
          λ _ rs'. isolate_end memory' rs' end in
        let both = checked_rule (SameAt rs a) s next cut (λ r k.
          SameAt-trans rs s.1 (isolate_end memory' s.1 end).1 a cut
            (isolate_end-SameAt memory' s.1 end a cut.0)) in
        elim (Bool-cases (ltb first.start start)) [
          | inl g ↦
              SameAt-eq rs a (checked s next) (isolate memory memory' rs start end) (ground arith)
                both
          | inr g ↦
              SameAt-eq rs a (isolate_end memory' rs end) (isolate memory memory' rs start end)
                (ground arith) (isolate_end-SameAt memory' rs end a o)
        ]
  ]
]
