-- ===== src/Memory/Vma.antt =====
-- src/kernel/memory/vma.cpp and src/include/kernel/memory/vma.hpp. The red-black tree of a
-- vma_manager is the list of its regions in the order of the tree; a pointer to a region is the
-- region, and stands for the one with its start. Each `new` has an argument that says whether it
-- succeeds. A file offset is a 64-bit word, as are addresses.
pub mod View
pub mod Replace
pub mod Insert
pub mod Split
pub mod Leftover
pub mod Span
pub mod Remove
pub mod Protect
pub mod SetProt
pub mod Covers
mod Tests
use rucux.Base.{
  ℕ, zero, suc, ◌+◌, ◌-◌, ◌%◌, ◌^◌, Bool, true, false, ◌&&◌, ◌||◌, not, Option, none, some, List,
  [], ◌∷◌, ltb, leb, ◌==◌, if◌then◌else◌, length, bit_and,
}

-- struct vma
pub record Region : Type 0 where
  pub start : ℕ
  pub end : ℕ
  pub prot : ℕ
  pub flags : ℕ
  pub fd : ℕ
  pub file_offset : ℕ
  pub backing : Option ℕ

-- VMA_OWNS_FRAMES
abbrev pub vma_owns_frames : ℕ
vma_owns_frames = 0x80000000

abbrev pub word : ℕ → ℕ
word n = n % 2 ^ 64

-- rb_tree::insert by vma_cmp
unfoldable pub tree_insert : Region → List Region → List Region
tree_insert z [] = z ∷ []
tree_insert z (x ∷ xs) = if ltb z.start x.start then z ∷ (x ∷ xs) else x ∷ tree_insert z xs

-- rb_tree::remove of the region that starts at `key`
unfoldable pub tree_remove : ℕ → List Region → List Region
tree_remove key [] = []
tree_remove key (x ∷ xs) = if x.start == key then xs else x ∷ tree_remove key xs

-- A write through the pointer to the region that starts at `key`.
unfoldable pub update : ℕ → Region → List Region → List Region
update key r [] = []
update key r (x ∷ xs) = if x.start == key then r ∷ xs else x ∷ update key r xs

-- vma_manager::find, by vma_find_cmp
unfoldable pub find : List Region → ℕ → Option Region
find [] addr = none
find (x ∷ xs) addr =
    if ltb addr x.start then none else if leb x.end addr then find xs addr else some x

pub overlap_loop : List Region → ℕ → ℕ → Option Region
overlap_loop [] start end = none
overlap_loop (x ∷ xs) start end =
    if leb end x.start then none else if ltb start x.end then some x else overlap_loop xs start end

unfoldable pub first_overlap : List Region → ℕ → ℕ → Option Region
unfolding overlap_loop
first_overlap rs start end = if leb end start then none else overlap_loop rs start end

-- The right part of a split region, from `at` on.
abbrev pub right_part : Region → ℕ → Region
right_part region at = record region {
  start = at;
  file_offset = word (region.file_offset + (at - region.start));
}

-- The result is the right part, the region itself, or `none` if `new` fails.
unfoldable pub split : Bool → List Region → Region → ℕ → Option Region × List Region
unfolding update tree_insert
split memory rs region at =
    if leb at region.start || leb region.end at
    then (some region, rs)
    else if memory
    then (let right = right_part region at in
        (some right, tree_insert right (update region.start (record region { end = at }) rs)))
    else (none, rs)

-- if (!split(...)) return false;
abbrev pub checked :
    Option Region × List Region → (Region → List Region → Bool × List Region) → Bool × List Region
checked (none, rs) next = (false, rs)
checked (some r, rs) next = next r rs

unfoldable pub insert :
    Bool → List Region → ℕ → ℕ → ℕ → ℕ → ℕ → ℕ → Option ℕ → Option Region × List Region
unfolding first_overlap tree_insert
insert memory rs start end prot flags fd offset backing =
    let region : Region = record {
      start = start;
      end = end;
      prot = prot;
      flags = flags;
      fd = fd;
      file_offset = offset;
      backing = backing;
    } in
    if leb end start then (none, rs) else elim (first_overlap rs start end) [
      | some _ ↦ (none, rs)
      | none ↦ if memory then (some region, tree_insert region rs) else (none, rs)
    ]

-- The loop of vma_manager::covers; each round leaves a region behind.
unfoldable pub covers_loop : ℕ → List Region → ℕ → ℕ → Bool
unfolding find
covers_loop zero rs cursor end = false
covers_loop (suc fuel) rs cursor end = elim (ltb cursor end) [
  | false ↦ true
  | true ↦ elim (find rs cursor) [
    | none ↦ false
    | some r ↦ elim (leb r.end cursor) [ true ↦ false | false ↦ covers_loop fuel rs r.end end ]
  ]
]

unfoldable pub covers : List Region → ℕ → ℕ → Bool
unfolding covers_loop
covers rs start end =
    if leb end start then false else covers_loop (suc (suc (length rs))) rs start end

-- The second part of vma_manager::isolate, behind the split at `start`.
pub isolate_end : Bool → List Region → ℕ → Bool × List Region
unfolding find split
isolate_end memory rs end = elim (find rs (end - 1)) [
  | none ↦ (true, rs)
  | some last ↦
      if ltb end last.end
      then checked (split memory rs last end) (λ _ rs'. (true, rs'))
      else (true, rs)
]

unfoldable pub isolate : Bool → Bool → List Region → ℕ → ℕ → Bool × List Region
unfolding isolate_end first_overlap split
isolate memory memory' rs start end =
    if leb end start then (false, rs) else elim (first_overlap rs start end) [
      | none ↦ (true, rs)
      | some first ↦
          if ltb first.start start
          then checked (split memory rs first start) (λ _ rs'. isolate_end memory' rs' end)
          else isolate_end memory' rs end
    ]

-- The first loop of vma_manager::set_prot, over the regions from some region on.
pub crossing_loop : List Region → ℕ → Option Region
crossing_loop [] end = none
crossing_loop (x ∷ xs) end =
    if ltb x.start end then if ltb end x.end then some x else crossing_loop xs end else none

pub crossing : List Region → ℕ → ℕ → Option Region
unfolding crossing_loop
crossing [] key end = none
crossing (x ∷ xs) key end =
    if x.start == key then crossing_loop (x ∷ xs) end else crossing xs key end

-- Its second loop.
pub protect_loop : List Region → ℕ → ℕ → List Region
protect_loop [] end prot = []
protect_loop (x ∷ xs) end prot =
    if ltb x.start end then record x { prot = prot } ∷ protect_loop xs end prot else x ∷ xs

pub protect : List Region → ℕ → ℕ → ℕ → List Region
unfolding protect_loop
protect [] key end prot = []
protect (x ∷ xs) key end prot =
    if x.start == key then protect_loop (x ∷ xs) end prot else x ∷ protect xs key end prot

-- set_prot from the region on that begins at `key`.
pub protect_to : Bool → List Region → ℕ → ℕ → ℕ → Bool × List Region
unfolding crossing split protect
protect_to memory rs key end prot = elim (crossing rs key end) [
  | none ↦ (true, protect rs key end prot)
  | some r ↦ checked (split memory rs r end) (λ _ rs'. (true, protect rs' key end prot))
]

unfoldable pub set_prot : Bool → Bool → List Region → ℕ → ℕ → ℕ → Bool × List Region
unfolding covers find split protect_to
set_prot memory memory' rs start end prot =
    if covers rs start end
    then elim (find rs start) [
      | none ↦ (false, rs)
      | some region ↦
          if ltb region.start start
          then checked (split memory rs region start)
              (λ right rs'. protect_to memory' rs' right.start end prot)
          else protect_to memory' rs region.start end prot
    ]
    else (false, rs)

-- The search of vma_manager::remove for a region that reaches beyond both ends.
pub span_loop : List Region → ℕ → ℕ → Option Region
span_loop [] start end = none
span_loop (x ∷ xs) start end =
    if leb end x.start
    then none
    else if ltb x.start start && ltb end x.end
    then some x
    else span_loop xs start end

-- The body of its while loop; `right` is the spare region, used at most once.
pub carve : List Region → Option Region → ℕ → ℕ → Region → List Region × Option Region
unfolding tree_insert tree_remove update
carve rs right start end region =
    if leb start region.start && leb region.end end
    then (tree_remove region.start rs, right)
    else if ltb region.start start && ltb end region.end
    then (let cut = update region.start (record region { end = start }) rs in
        (elim right [ none ↦ cut | some x ↦ tree_insert x cut ], none))
    else if ltb region.start start
    then (update region.start (record region { end = start }) rs, right)
    else (
      update region.start
          (record region {
            file_offset = word (region.file_offset + (end - region.start));
            start = end;
          })
          rs,
      right,
    )

pub remove_loop : ℕ → List Region → Option Region → ℕ → ℕ → List Region
unfolding first_overlap carve
remove_loop zero rs right start end = rs
remove_loop (suc fuel) rs right start end = elim (first_overlap rs start end) [
  | none ↦ rs
  | some region ↦
      let (rs', right') = carve rs right start end region in remove_loop fuel rs' right' start end
]

unfoldable pub remove : Bool → List Region → ℕ → ℕ → Bool × List Region
unfolding span_loop remove_loop
remove memory rs start len =
    let end = word (start + len) in
    let rounds = suc (length rs) in
    if len == 0
    then (true, rs)
    else if ltb end start
    then (false, rs)
    else elim (span_loop rs start end) [
      | none ↦ (true, remove_loop rounds rs none start end)
      | some span ↦
          if memory
          then (true, remove_loop rounds rs (some (right_part span end)) start end)
          else (false, rs)
    ]

unfoldable pub owns_frame : List Region → ℕ → Bool
unfolding find
owns_frame rs address = elim (find rs address) [
  | none ↦ true
  | some r ↦ not (bit_and r.flags vma_owns_frames == 0)
]

-- vma_manager::destroy_all takes the first region until the tree is empty.
unfoldable pub destroy_all : List Region → List Region
destroy_all [] = []
destroy_all (x ∷ xs) = destroy_all xs
