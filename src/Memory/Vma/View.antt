-- ===== src/Memory/Vma/View.antt =====
-- The order of a region tree of src/kernel/memory/vma.cpp, and the address space that it stands
-- for: a partial function from addresses.
use rucux.Base.{
  ℕ, ◌+◌, ◌-◌, ◌≤◌, ◌<◌, ◌≡◌, refl, Bool, ◌&&◌, Option, none, some, List, [], ◌∷◌, arith, ltb, leb,
  ◌==◌, if◌then◌else◌,
}
use rucux.Memory.Vma.{Region, word, find, first_overlap, overlap_loop}

-- Regions are not empty, do not meet, and go upwards from `lo`.
abbrev pub Ordered : ℕ → List Region → Type 0
Ordered lo [] = Unit {0}
Ordered lo (r ∷ rs) = (lo ≤ r.start) × (r.start < r.end) × Ordered r.end rs

-- What an address maps to: its protection, and the byte of the backing file.
pub record Page : Type 0 where
  pub prot : ℕ
  pub flags : ℕ
  pub fd : ℕ
  pub position : ℕ
  pub backing : Option ℕ

abbrev pub page_of : Region → ℕ → Page
page_of r a = record {
  prot = r.prot;
  flags = r.flags;
  fd = r.fd;
  position = word (r.file_offset + (a - r.start));
  backing = r.backing;
}

abbrev pub within : ℕ → ℕ → ℕ → Bool
within start end a = leb start a && ltb a end

-- The page of the first region that holds the address.
unfoldable pub lookup : List Region → ℕ → Option Page
lookup [] a = none
lookup (r ∷ rs) a = if within r.start r.end a then some (page_of r a) else lookup rs a

pub lookup_below : (lo : ℕ) (rs : List Region) (a : ℕ) → Ordered lo rs → a < lo → lookup rs a ≡ none
unfolding lookup
lookup_below lo [] a o h = refl
lookup_below lo (r ∷ rs) a o h = ground (arith, lookup_below r.end rs a)

pub Ordered-mono : (lo lo' : ℕ) (rs : List Region) → lo' ≤ lo → Ordered lo rs → Ordered lo' rs
Ordered-mono lo lo' [] h o = tt
Ordered-mono lo lo' (r ∷ rs) h o = (omega arith, o.1, o.2)

abbrev pub page_at : Option Region → ℕ → Option Page
page_at none a = none
page_at (some r) a = some (page_of r a)

pub lookup-find :
    (lo : ℕ) (rs : List Region) (a : ℕ) → Ordered lo rs → lookup rs a ≡ page_at (find rs a) a
unfolding find lookup
lookup-find lo [] a o = refl
lookup-find lo (r ∷ rs) a o = ground (arith, lookup_below r.end rs a, lookup-find r.end rs a)

pub find-holds :
    (rs : List Region) (a : ℕ) (r : Region) → find rs a ≡ some r → (r.start ≤ a) × (a < r.end)
unfolding find
find-holds [] a r h = cc
find-holds (x ∷ rs) a r h = ground (arith, find-holds rs a r)

-- The region that starts at `key`.
unfoldable pub region_at : List Region → ℕ → Option Region
region_at [] key = none
region_at (r ∷ rs) key = if r.start == key then some r else region_at rs key

pub region_at-find :
    (lo : ℕ) (rs : List Region) (a : ℕ) (r : Region)
    → Ordered lo rs
    → find rs a ≡ some r
    → (region_at rs r.start ≡ some r) × (lo ≤ r.start) × (r.start < r.end)
unfolding find region_at
region_at-find lo [] a r o h = cc
region_at-find lo (x ∷ rs) a r o h = ground (arith, region_at-find x.end rs a r)

region_at-overlap_loop :
    (lo : ℕ) (rs : List Region) (start end : ℕ) (r : Region)
    → Ordered lo rs
    → overlap_loop rs start end ≡ some r
    → (region_at rs r.start ≡ some r)
      × (lo ≤ r.start)
      × (r.start < r.end)
      × (r.start < end)
      × (start < r.end)
unfolding overlap_loop region_at
region_at-overlap_loop lo [] start end r o h = cc
region_at-overlap_loop lo (x ∷ rs) start end r o h =
    ground (arith, region_at-overlap_loop x.end rs start end r)

-- vma_manager::first_overlap returns a region of the tree that meets the range.
pub region_at-first_overlap :
    (lo : ℕ) (rs : List Region) (start end : ℕ) (r : Region)
    → Ordered lo rs
    → first_overlap rs start end ≡ some r
    → (region_at rs r.start ≡ some r)
      × (lo ≤ r.start)
      × (r.start < r.end)
      × (r.start < end)
      × (start < r.end)
      × (start < end)
unfolding first_overlap
region_at-first_overlap lo rs start end r o h =
    ground (arith, region_at-overlap_loop lo rs start end r o)

overlap_loop-none :
    (lo : ℕ) (rs : List Region) (start end a : ℕ)
    → Ordered lo rs
    → overlap_loop rs start end ≡ none
    → start ≤ a
    → a < end
    → lookup rs a ≡ none
unfolding overlap_loop lookup
overlap_loop-none lo [] start end a o h p q = refl
overlap_loop-none lo (x ∷ rs) start end a o h p q =
    ground (arith, overlap_loop-none x.end rs start end a, lookup_below x.end rs a)

-- Where it returns none, no address of the range is mapped.
pub first_overlap-none :
    (lo : ℕ) (rs : List Region) (start end a : ℕ)
    → Ordered lo rs
    → first_overlap rs start end ≡ none
    → start ≤ a
    → a < end
    → lookup rs a ≡ none
unfolding first_overlap
first_overlap-none lo rs start end a o h p q =
    overlap_loop-none lo rs start end a o (ground arith) p q
