-- ===== src/Memory/Vma/Protect.antt =====
-- The loops of vma_manager::set_prot of src/kernel/memory/vma.cpp.
use rucux.Base.{
  ℕ, ◌≤◌, ◌<◌, ◌≡◌, refl, inl, inr, Option, none, some, List, [], ◌∷◌, arith, ltb, ◌==◌,
  if◌then◌else◌, Bool-cases, ==→eq,
}
use rucux.Memory.Vma.{Region, crossing_loop, crossing, protect_loop, protect}
use rucux.Memory.Vma.View.{Ordered, Page, within, lookup, lookup_below, region_at}
use rucux.Memory.Vma.Replace.{replace, region_at_bounds}
use rucux.Memory.Vma.Split.{halves}

-- The page with another protection.
abbrev pub reprot : ℕ → Option Page → Option Page
reprot prot none = none
reprot prot (some p) = some (record p { prot = prot })

protect_loop-Ordered :
    (lo : ℕ) (rs : List Region) (end prot : ℕ)
    → Ordered lo rs
    → Ordered lo (protect_loop rs end prot)
unfolding protect_loop
protect_loop-Ordered lo [] end prot o = tt
protect_loop-Ordered lo (x ∷ xs) end prot o =
    ground (arith, protect_loop-Ordered x.end xs end prot o.2)

lookup-protect_loop :
    (lo : ℕ) (rs : List Region) (end prot a : ℕ)
    → Ordered lo rs
    → crossing_loop rs end ≡ none
    → lookup (protect_loop rs end prot) a
      ≡ (if ltb a end then reprot prot (lookup rs a) else lookup rs a)
unfolding protect_loop crossing_loop lookup
lookup-protect_loop lo [] end prot a o h = ground arith
lookup-protect_loop lo (x ∷ xs) end prot a o h =
    ground (arith, lookup-protect_loop x.end xs end prot a o.2, lookup_below x.end xs a o.2)

pub protect-Ordered :
    (lo : ℕ) (rs : List Region) (key end prot : ℕ)
    → Ordered lo rs
    → Ordered lo (protect rs key end prot)
unfolding protect
protect-Ordered lo [] key end prot o = tt
protect-Ordered lo (x ∷ xs) key end prot o = elim (Bool-cases (x.start == key)) [
  | inl e ↦ rw (e, protect) (protect_loop-Ordered lo (x ∷ xs) end prot o)
  | inr e ↦ rw (e, protect) (o.0, o.1, protect-Ordered x.end xs key end prot o.2)
]

pub lookup-protect :
    (lo : ℕ) (rs : List Region) (key end prot a : ℕ) (r : Region)
    → Ordered lo rs
    → region_at rs key ≡ some r
    → crossing rs key end ≡ none
    → lookup (protect rs key end prot) a
      ≡ (if within key end a then reprot prot (lookup rs a) else lookup rs a)
unfolding protect crossing lookup region_at
lookup-protect lo [] key end prot a r o h c = cc
lookup-protect lo (x ∷ xs) key end prot a r o h c = elim (Bool-cases (x.start == key)) [
  | inl e ↦
      let at_key : x.start ≡ key = ==→eq _ _ e in
      let all = lookup-protect_loop lo (x ∷ xs) end prot a o (ground arith) in
      ground (arith, all, lookup_below x.start (x ∷ xs) a (omega arith, o.1, o.2))
  | inr e ↦
      ground
        (arith, lookup-protect x.end xs key end prot a r o.2, region_at_bounds x.end xs key r o.2)
]

-- The region that the first loop stops at.
crossing_loop-found :
    (lo : ℕ) (rs : List Region) (end : ℕ) (r : Region)
    → Ordered lo rs
    → crossing_loop rs end ≡ some r
    → (region_at rs r.start ≡ some r) × (lo ≤ r.start) × (r.start < end) × (end < r.end)
unfolding crossing_loop region_at
crossing_loop-found lo [] end r o h = cc
crossing_loop-found lo (x ∷ xs) end r o h = ground (arith, crossing_loop-found x.end xs end r o.2)

pub crossing-found :
    (lo : ℕ) (rs : List Region) (key end : ℕ) (r : Region)
    → Ordered lo rs
    → crossing rs key end ≡ some r
    → (region_at rs r.start ≡ some r)
      × (lo ≤ r.start)
      × (key ≤ r.start)
      × (r.start < end)
      × (end < r.end)
unfolding crossing region_at
crossing-found lo [] key end r o h = cc
crossing-found lo (x ∷ xs) key end r o h = elim (Bool-cases (x.start == key)) [
  | inl e ↦
      let at_key : x.start ≡ key = ==→eq _ _ e in
      let f = crossing_loop-found x.start (x ∷ xs) end r (omega arith, o.1, o.2) (ground arith) in
      (f.0, omega (arith, f), omega (arith, f), f.2, f.3)
  | inr e ↦ ground (arith, crossing-found x.end xs key end r o.2)
]

crossing_loop-halves :
    (lo : ℕ) (rs : List Region) (end : ℕ) (r : Region)
    → Ordered lo rs
    → region_at rs r.start ≡ some r
    → r.start < end
    → end < r.end
    → crossing_loop (replace r.start (halves r end) rs) end ≡ none
unfolding crossing_loop region_at replace
crossing_loop-halves lo [] end r o h p q = cc
crossing_loop-halves lo (x ∷ xs) end r o h p q =
    ground (arith, crossing_loop-halves x.end xs end r o.2, region_at_bounds x.end xs r.start r o.2)

crossing_above :
    (lo : ℕ) (rs : List Region) (key end : ℕ)
    → Ordered lo rs
    → key < lo
    → crossing rs key end ≡ none
unfolding crossing
crossing_above lo [] key end o h = refl
crossing_above lo (x ∷ xs) key end o h = ground (arith, crossing_above x.end xs key end o.2)

pub crossing-halves :
    (lo : ℕ) (rs : List Region) (key end : ℕ) (r : Region)
    → Ordered lo rs
    → region_at rs r.start ≡ some r
    → key ≤ r.start
    → r.start < end
    → end < r.end
    → crossing (replace r.start (halves r end) rs) key end ≡ none
unfolding crossing region_at replace
crossing-halves lo [] key end r o h k p q = cc
crossing-halves lo (x ∷ xs) key end r o h k p q = elim (Bool-cases (x.start == r.start)) [
  | inl e ↦
      let whole = crossing_loop-halves lo (x ∷ xs) end r o h p q in
      let above = crossing_above x.end xs key end o.2 in unfold crossing_loop in ground arith
  | inr e ↦
      let whole = crossing_loop-halves lo (x ∷ xs) end r o h p q in
      ground (arith, crossing-halves x.end xs key end r o.2)
]

-- After the cut there is still a region that starts at `key`.
pub region_at-halves :
    (lo : ℕ) (rs : List Region) (key end : ℕ) (r s : Region)
    → Ordered lo rs
    → region_at rs r.start ≡ some r
    → region_at rs key ≡ some s
    → key ≤ r.start
    → r.start < end
    → end < r.end
    → region_at (replace r.start (halves r end) rs) key
      ≡ some (if key == r.start then record r { end = end } else s)
unfolding region_at replace
region_at-halves lo [] key end r s o h k l p q = cc
region_at-halves lo (x ∷ xs) key end r s o h k l p q =
    ground (arith, region_at-halves x.end xs key end r s o.2, region_at_bounds x.end xs key s o.2)
