-- ===== src/Memory/Vma/Tests.antt =====
-- The region theorems at a tree of two regions with a hole between them.
use rucux.Base.{
  ◌≤◌, ◌<◌, ◌≡◌, ◌≢◌, ◌⊎◌, refl, true, false, none, some, List, [], ◌∷◌, arith, if◌then◌else◌,
}
use rucux.Memory.Vma.{Region, insert, covers, set_prot, remove, tree_insert}
use rucux.Memory.Vma.View.{Ordered, page_of, within, lookup}
use rucux.Memory.Vma.Insert.{new_region, Refused, insert_refines}
use rucux.Memory.Vma.Remove.{Removal, remove_refines}
use rucux.Memory.Vma.SetProt.{Protected, set_prot_refines}
use rucux.Memory.Vma.Covers.{Gap, covers_decides}

abbrev code_region : Region
code_region = record {
  start = 0x1000;
  end = 0x3000;
  prot = 5;
  flags = 0x80000000;
  fd = 0xffffffff;
  file_offset = 0;
  backing = none;
}

abbrev file_region : Region
file_region = record {
  start = 0x4000;
  end = 0x8000;
  prot = 3;
  flags = 2;
  fd = 3;
  file_offset = 0x10000;
  backing = some 7;
}

abbrev tree : List Region
tree = code_region ∷ (file_region ∷ [])

remove_middle : remove true tree 0x5000 0x1000 ≡ (
  true,
  code_region
      ∷ (record file_region { end = 0x5000 }
          ∷ (record file_region { start = 0x6000; file_offset = 0x12000 } ∷ [])),
)
unfolding remove
remove_middle = refl

remove_across : remove true tree 0x2000 0x3000 ≡ (
  true,
  record code_region { end = 0x2000 }
      ∷ (record file_region { start = 0x5000; file_offset = 0x11000 } ∷ []),
)
unfolding remove
remove_across = refl

insert_refines_example :
    let region = new_region 0x3000 0x4000 3 2 0 0 none in
    let rs' = tree_insert region tree in
    let result = insert true tree 0x3000 0x4000 3 2 0 0 none in
    ((result ≡ (none, tree)) × Refused true tree 0x3000 0x4000)
    ⊎ ((result ≡ (some region, rs'))
        × Ordered 0 rs'
        × (lookup rs' 0x3800 ≡ (
            if within 0x3000 0x4000 0x3800
            then some (page_of region 0x3800)
            else lookup tree 0x3800))
        × ((if within 0x3000 0x4000 0x3800 then lookup tree 0x3800 else none) ≡ none))
insert_refines_example = insert_refines true tree 0x3000 0x4000 3 2 0 0 none 0x3800 (omega arith)

remove_refines_example : Removal true tree 0x5000 0x1000 0x6010 (remove true tree 0x5000 0x1000)
remove_refines_example =
    remove_refines true tree 0x5000 0x1000 0x6010 (omega arith) (omega arith) (omega arith)

set_prot_refines_example :
    Protected 0x5000 0x6000 1 tree 0x5800 (set_prot true true tree 0x5000 0x6000 1)
    × (((set_prot true true tree 0x5000 0x6000 1).0 ≡ false) ⊎ (covers tree 0x5000 0x6000 ≡ true))
set_prot_refines_example = set_prot_refines true true tree 0x5000 0x6000 1 0x5800 (omega arith)

covers_decides_example :
    ((covers tree 0x1000 0x3000 ≡ true)
      × (0x1000 < 0x3000)
      × ((0x2fff < 0x1000) ⊎ (0x3000 ≤ 0x2fff) ⊎ (lookup tree 0x2fff ≢ none)))
    ⊎ ((covers tree 0x1000 0x3000 ≡ false) × ((0x3000 ≤ 0x1000) ⊎ Gap tree 0x1000 0x3000))
covers_decides_example = covers_decides tree 0x1000 0x3000 0x2fff (omega arith)
