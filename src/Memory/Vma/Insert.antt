-- ===== src/Memory/Vma/Insert.antt =====
-- vma_manager::insert of src/kernel/memory/vma.cpp against the address space that a tree stands for.
use rucux.Base.{
  ℕ, ◌≤◌, ◌<◌, ◌≡◌, ◌≢◌, refl, ◌⊎◌, inl, inr, Bool, false, Option, none, some, List, [], ◌∷◌, arith,
  max, leb, if◌then◌else◌, Bool-cases, Option-cases,
}
use rucux.Memory.Vma.{Region, tree_insert, overlap_loop, first_overlap, insert}
use rucux.Memory.Vma.View.{
  Ordered, page_of, within, lookup, region_at, region_at-first_overlap, first_overlap-none,
}
use rucux.Memory.Vma.Replace.{region_at_bounds}

pub lookup-region_at :
    (lo : ℕ) (rs : List Region) (key a : ℕ) (r : Region)
    → Ordered lo rs
    → region_at rs key ≡ some r
    → r.start ≤ a
    → a < r.end
    → lookup rs a ≡ some (page_of r a)
unfolding lookup region_at
lookup-region_at lo [] key a r o h p q = cc
lookup-region_at lo (x ∷ xs) key a r o h p q =
    ground (arith, lookup-region_at x.end xs key a r o.2, region_at_bounds x.end xs key r o.2)

tree_insert-Ordered :
    (lo : ℕ) (z : Region) (rs : List Region)
    → Ordered lo rs
    → overlap_loop rs z.start z.end ≡ none
    → z.start < z.end
    → lo ≤ z.start
    → Ordered lo (tree_insert z rs)
unfolding tree_insert overlap_loop
tree_insert-Ordered lo z [] o h p q = (q, p, tt)
tree_insert-Ordered lo z (x ∷ xs) o h p q = ground (arith, tree_insert-Ordered x.end z xs o.2)

lookup-tree_insert :
    (lo : ℕ) (z : Region) (rs : List Region) (a : ℕ)
    → Ordered lo rs
    → overlap_loop rs z.start z.end ≡ none
    → z.start < z.end
    → lookup (tree_insert z rs) a
      ≡ (if within z.start z.end a then some (page_of z a) else lookup rs a)
unfolding tree_insert overlap_loop lookup
lookup-tree_insert lo z [] a o h p = refl
lookup-tree_insert lo z (x ∷ xs) a o h p = ground (arith, lookup-tree_insert x.end z xs a o.2)

-- The region that insert makes.
abbrev pub new_region : ℕ → ℕ → ℕ → ℕ → ℕ → ℕ → Option ℕ → Region
new_region start end prot flags fd offset backing = record {
  start = start;
  end = end;
  prot = prot;
  flags = flags;
  fd = fd;
  file_offset = offset;
  backing = backing;
}

-- Why insert may return a null pointer: an empty range, no memory, or an address that is taken.
abbrev pub Refused : Bool → List Region → ℕ → ℕ → Type 0
Refused memory rs start end =
    (end ≤ start) ⊎ ((memory ≡ false) ⊎ ((b : ℕ) × (start ≤ b) × (b < end) × (lookup rs b ≢ none)))

module _ (memory : Bool) (rs : List Region) (start end prot flags fd offset : ℕ)
    (backing : Option ℕ) (a : ℕ) (ordered : Ordered 0 rs) where
  taken :
      (r : Region)
      → first_overlap rs start end ≡ some r
      → (b : ℕ) × (start ≤ b) × (b < end) × (lookup rs b ≢ none)
  taken r h =
      let f = region_at-first_overlap 0 rs start end r ordered h in
      let b : ℕ = max start r.start in
      let hit = lookup-region_at 0 rs r.start b r ordered f.0 (omega arith) (omega (arith, f)) in
      (b, omega arith, omega (arith, f), λ e. ground arith)

  -- insert either changes nothing, and then the range is empty or partly mapped or memory is short,
  -- or it returns the new region, the tree stays in order, the range was unmapped and maps to the
  -- new region now, and every other address maps as before.
  pub insert_refines :
      let region = new_region start end prot flags fd offset backing in
      let rs' = tree_insert region rs in
      let result = insert memory rs start end prot flags fd offset backing in
      ((result ≡ (none, rs)) × Refused memory rs start end)
      ⊎ ((result ≡ (some region, rs'))
          × Ordered 0 rs'
          × (lookup rs' a ≡ (if within start end a then some (page_of region a) else lookup rs a))
          × ((if within start end a then lookup rs a else none) ≡ none))
  unfolding insert
  insert_refines = elim (Bool-cases (leb end start)) [
    | inl e ↦ inl (ground arith, inl (ground arith))
    | inr e ↦ elim (Option-cases (first_overlap rs start end)) [
      | inr (r, h) ↦ inl (ground arith, inr (inr (taken r h)))
      | inl h ↦ elim (Bool-cases memory) [
        | inr short ↦ inl (ground arith, inr (inl short))
        | inl enough ↦
            let region = new_region start end prot flags fd offset backing in
            let free : overlap_loop rs start end ≡ none = unfold first_overlap in ground arith in
            inr (
              ground arith,
              tree_insert-Ordered 0 region rs ordered free (ground arith) (omega arith),
              lookup-tree_insert 0 region rs a ordered free (ground arith),
              ground (arith, first_overlap-none 0 rs start end a ordered h),
            )
      ]
    ]
  ]
