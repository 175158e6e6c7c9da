-- ===== src/Memory/Vma/Replace.antt =====
-- Changing one region of a tree (src/kernel/memory/vma.cpp) into others within its bounds: every
-- write, split and removal of the region code is such a change.
use rucux.Base.{
  ℕ, ◌≤◌, ◌<◌, ◌≡◌, refl, false, none, some, List, [], ◌∷◌, ◌++◌, arith, ◌==◌, if◌then◌else◌,
  Bool-cases, inl, inr, subst,
}
use rucux.Memory.Vma.{Region, tree_insert, tree_remove, update}
use rucux.Memory.Vma.View.{Ordered, within, lookup, lookup_below, Ordered-mono, region_at}

-- The regions `news` are in order and lie between `lo` and `hi`.
abbrev pub Fits : ℕ → ℕ → List Region → Type 0
Fits lo hi [] = lo ≤ hi
Fits lo hi (r ∷ rs) = (lo ≤ r.start) × (r.start < r.end) × Fits r.end hi rs

unfoldable pub replace : ℕ → List Region → List Region → List Region
replace key news [] = []
replace key news (x ∷ xs) = if x.start == key then news ++ xs else x ∷ replace key news xs

Fits-Ordered :
    (lo hi : ℕ) (news rs : List Region) → Fits lo hi news → Ordered hi rs → Ordered lo (news ++ rs)
Fits-Ordered lo hi [] rs f o = Ordered-mono hi lo rs f o
Fits-Ordered lo hi (n ∷ ns) rs f o = (f.0, f.1, Fits-Ordered n.end hi ns rs f.2 o)

pub Fits-mono : (lo lo' hi : ℕ) (news : List Region) → lo' ≤ lo → Fits lo hi news → Fits lo' hi news
Fits-mono lo lo' hi [] h f = omega arith
Fits-mono lo lo' hi (n ∷ ns) h f = (omega arith, f.1, f.2)

Fits-le : (lo hi : ℕ) (news : List Region) → Fits lo hi news → lo ≤ hi
Fits-le lo hi [] f = f
Fits-le lo hi (n ∷ ns) f = omega (arith, Fits-le n.end hi ns f.2)

pub lookup-Fits :
    (lo hi : ℕ) (news : List Region) (a : ℕ)
    → Fits lo hi news
    → within lo hi a ≡ false
    → lookup news a ≡ none
unfolding lookup
lookup-Fits lo hi [] a f h = refl
lookup-Fits lo hi (n ∷ ns) a f h = ground (arith, lookup-Fits n.end hi ns a, Fits-le n.end hi ns)

lookup-append :
    (lo hi : ℕ) (news ys : List Region) (a : ℕ)
    → Fits lo hi news
    → Ordered hi ys
    → lookup (news ++ ys) a ≡ (if within lo hi a then lookup news a else lookup ys a)
unfolding lookup
lookup-append lo hi [] ys a f o = ground (arith, lookup_below hi ys a o)
lookup-append lo hi (n ∷ ns) ys a f o = ground (
  arith,
  lookup-append n.end hi ns ys a f.2 o,
  lookup_below hi ys a o,
  lookup-Fits n.end hi ns a f.2,
  Fits-le n.end hi ns f.2,
)

pub region_at_bounds :
    (lo : ℕ) (rs : List Region) (key : ℕ) (r : Region)
    → Ordered lo rs
    → region_at rs key ≡ some r
    → (lo ≤ r.start) × (r.start < r.end) × (r.start ≡ key)
unfolding region_at
region_at_bounds lo [] key r o h = cc
region_at_bounds lo (x ∷ xs) key r o h = ground (arith, region_at_bounds x.end xs key r o.2)

module _ (key : ℕ) (r : Region) (news : List Region) (fits : Fits r.start r.end news) where
  pub replace-Ordered :
      (lo : ℕ) (rs : List Region)
      → Ordered lo rs
      → region_at rs key ≡ some r
      → Ordered lo (replace key news rs)
  unfolding replace region_at
  replace-Ordered lo [] o h = tt
  replace-Ordered lo (x ∷ xs) o h = elim (Bool-cases (x.start == key)) [
    | inl e ↦
        let same : x ≡ r = ground arith in
        rw (e, replace)
          (Fits-Ordered lo x.end news xs
            (rw same (Fits-mono r.start lo r.end news (omega (arith, rw same at o.0)) fits)) o.2)
    | inr e ↦ rw (e, replace) (o.0, o.1, replace-Ordered x.end xs o.2 (ground arith))
  ]

  -- Addresses of the region map as the new regions say, all others as before.
  pub lookup-replace :
      (lo : ℕ) (rs : List Region) (a : ℕ)
      → Ordered lo rs
      → region_at rs key ≡ some r
      → lookup (replace key news rs) a
        ≡ (if within r.start r.end a then lookup news a else lookup rs a)
  unfolding replace region_at lookup
  lookup-replace lo [] a o h = cc
  lookup-replace lo (x ∷ xs) a o h = elim (Bool-cases (x.start == key)) [
    | inl e ↦
        let same : x ≡ r = ground arith in
        let joined =
          lookup-append r.start r.end news xs a fits
            (subst (λ (z : Region). Ordered z.end xs) same o.2) in
        ground arith
    | inr e ↦ ground (arith, lookup-replace x.end xs a o.2, region_at_bounds x.end xs key r o.2)
  ]

-- The operations of the tree as replacements.
pub tree_remove-replace : (key : ℕ) (rs : List Region) → tree_remove key rs ≡ replace key [] rs
unfolding tree_remove replace
tree_remove-replace key [] = refl
tree_remove-replace key (x ∷ xs) = ground (arith, tree_remove-replace key xs)

pub update-replace :
    (key : ℕ) (r : Region) (rs : List Region) → update key r rs ≡ replace key (r ∷ []) rs
unfolding update replace
update-replace key r [] = refl
update-replace key r (x ∷ xs) = ground (arith, update-replace key r xs)

tree_insert_first :
    (lo : ℕ) (z : Region) (rs : List Region)
    → Ordered lo rs
    → z.start < lo
    → tree_insert z rs ≡ z ∷ rs
unfolding tree_insert
tree_insert_first lo z [] o h = refl
tree_insert_first lo z (x ∷ xs) o h = ground arith

-- A region cut short, and the rest of it inserted.
pub tree_insert-update :
    (lo key : ℕ) (r left right : Region) (rs : List Region)
    → Ordered lo rs
    → region_at rs key ≡ some r
    → left.start ≡ r.start
    → r.start < right.start
    → right.start < r.end
    → tree_insert right (update key left rs) ≡ replace key (left ∷ (right ∷ [])) rs
unfolding tree_insert update replace region_at
tree_insert-update lo key r left right [] o h e p q = cc
tree_insert-update lo key r left right (x ∷ xs) o h e p q = elim (Bool-cases (x.start == key)) [
  | inl hit ↦ ground (arith, tree_insert_first x.end right xs o.2)
  | inr miss ↦
      ground (
        arith,
        tree_insert-update x.end key r left right xs o.2,
        region_at_bounds x.end xs key r o.2,
      )
]
