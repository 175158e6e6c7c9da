-- ===== src/Memory/Buddy/Free.antt =====
-- Theorems on buddy_allocator::free of src/kernel/memory/buddy.cpp.
use rucux.Base.{
  ℕ, zero, suc, ◌+◌, ◌-◌, ◌*◌, ◌/◌, ◌%◌, ◌^◌, ◌≤◌, ◌<◌, ◌≡◌, refl, ap₂, sym, ◌⊎◌, arith, ltb, leb,
  ◌==◌, Bool-cases, Option-cases, inl, inr, subst, ◌||◌, not, set,
}
use rucux.Memory.Buddy.{
  Buddy, word, block_size, free_list, push_block, max_order, page_size, buddy_of, unlink, merge,
  free,
}
use rucux.Memory.Buddy.Cover.{
  Weight, Additive, holds, pages, holds-Additive, pages-Additive, total, total-set,
  total-push_block, BlockOk, AllLists, limit, IsValid, SameArena,
}
use rucux.Memory.Buddy.Halve.{Shape, Shape-set, Shape-list, Shape-push}
use rucux.Memory.Buddy.Join.{buddies_merge, merged, unlink-All, unlink-weight}
use rucux.Memory.Buddy.Guard.{Improper, guard-BlockOk, refused-Improper}

-- What merging promises of the allocator that it leaves.
record Merged (lo hi : ℕ) (w : Weight) (b : Buddy) (addr order : ℕ) (b' : Buddy) : Type 0 where
  shape : Shape lo hi b'
  weight : total w b' ≡ total w b + w addr order
  same_base : b'.base ≡ b.base
  same_pages : b'.total_pages ≡ b.total_pages
  same_count : b'.free_pages ≡ b.free_pages

push-Merged :
    (lo hi : ℕ) (w : Weight) (b : Buddy) (addr order : ℕ)
    → Shape lo hi b
    → BlockOk lo hi order addr
    → order < max_order + 1
    → Merged lo hi w b addr order (push_block b order addr)
push-Merged lo hi w b addr order s ok h = record {
  shape = Shape-push lo hi b order addr s ok;
  weight = total-push_block w b order addr (omega (arith, s.0));
  same_base = refl;
  same_pages = refl;
  same_count = refl;
}

merge_lem :
    (lo hi : ℕ) (w : Weight) (additive : Additive w) (k : ℕ) (b : Buddy) (addr order : ℕ)
    → Shape lo hi b
    → BlockOk lo hi order addr
    → order + k ≡ max_order
    → Merged lo hi w b addr order (merge k b addr order)
unfolding merge
merge_lem lo hi w additive zero b addr order s ok h =
    push-Merged lo hi w b addr order s ok (omega arith)
merge_lem lo hi w additive (suc k) b addr order s ok h =
    let other = buddy_of addr order in
    elim (Option-cases (unlink (free_list b order) other)) [
      | inl e ↦
          let result : merge (suc k) b addr order ≡ push_block b order addr = ground arith in
          subst (Merged lo hi w b addr order) (sym result)
            (push-Merged lo hi w b addr order s ok (omega arith))
      | inr (rest, e) ↦
          let b' : Buddy = record b { free_lists = set b.free_lists order rest } in
          let result : merge (suc k) b addr order ≡ merge k b' (merged other addr) (suc order) =
            ground arith in
          let (ok', rest_ok) =
            unlink-All (BlockOk lo hi order) (free_list b order) rest other e
              (Shape-list lo hi b order s) in
          let (block, joined) = buddies_merge lo hi order addr ok ok' in
          let ih =
            merge_lem lo hi w additive k b' (merged other addr) (suc order)
              (Shape-set lo hi b order rest s rest_ok) block (omega arith) in
          let removed = total-set w b order rest (omega (arith, s.0)) in
          let listed = unlink-weight w (free_list b order) rest other order e in
          let sum = joined w additive in
          subst (Merged lo hi w b addr order) (sym result) (record {
            shape = ih.shape;
            weight = omega (arith, ih.weight, removed, listed, sum);
            same_base = ih.same_base;
            same_pages = ih.same_pages;
            same_count = ih.same_count;
          })
    ]

-- The count that free records, before the blocks merge.
abbrev counted_in : Buddy → ℕ → Buddy
counted_in b order = record b { free_pages = word (b.free_pages + 2 ^ order) }

-- What free promises of a block that it takes back; `q` is any byte.
pub record Frees (b : Buddy) (addr order : ℕ) (b' : Buddy) (q : ℕ) : Type 0 where
  pub valid : IsValid b'
  pub moved : total (holds q) b' ≡ total (holds q) b + holds q addr order
  pub counted : b'.free_pages ≡ b.free_pages + 2 ^ order
  pub same_arena : SameArena b b'

free-accepted :
    (b : Buddy) (addr order q : ℕ)
    → IsValid b
    → order < max_order + 1
    → BlockOk b.base (limit b) order addr
    → b.free_pages + 2 ^ order ≤ b.total_pages
    → Frees b addr order (merge (max_order - order) (counted_in b order) addr order) q
unfolding total
free-accepted b addr order q v small ok room =
    let b' = merge (max_order - order) (counted_in b order) addr order in
    let merged_by : (w : Weight)
        → Additive w
        → Merged b.base (limit b) w (counted_in b order) addr order b' =
      λ w additive.
        merge_lem b.base (limit b) w additive (max_order - order) (counted_in b order) addr order
          (v.lists, v.blocks) ok (omega arith) in
    let by_pages = merged_by pages pages-Additive in
    let by_byte = merged_by (holds q) (holds-Additive q) in
    let same_limit : limit b' ≡ limit b =
      ap₂ (λ (x y : ℕ). x + y * page_size) by_pages.same_base by_pages.same_pages in
    let count : b'.free_pages ≡ b.free_pages + 2 ^ order =
      omega (arith, by_pages.same_count, room, v.arena) in
    record {
      valid = record {
        lists = by_pages.shape.0;
        blocks =
            subst (λ (x : ℕ). AllLists (BlockOk x (limit b')) b'.free_lists 0)
              (sym by_pages.same_base)
              (subst (λ (x : ℕ). AllLists (BlockOk b.base x) b'.free_lists 0) (sym same_limit)
                by_pages.shape.1);
        arena = (omega (arith, by_pages.same_base, v.arena), omega (arith, same_limit, v.arena));
        counted = omega (arith, count, by_pages.weight, v.counted);
        fits = omega (arith, count, by_pages.same_pages, room);
      };
      moved = by_byte.weight;
      counted = count;
      same_arena = (by_pages.same_base, by_pages.same_pages);
    }

-- free either refuses a block, which changes nothing and happens only if the block is none of the
-- arena, or takes it back: the bytes of the block and no others join the free blocks, whatever
-- merges, the pages are counted, and the allocator stays valid, of the same arena. It is assumed that
-- the arena starts at a page and that the pages of the block are not counted as free already.
pub free_lem :
    (b : Buddy) (addr order q : ℕ)
    → IsValid b
    → b.base % page_size ≡ 0
    → b.free_pages + 2 ^ order ≤ b.total_pages
    → ((free b addr order ≡ b) × Improper b addr order) ⊎ Frees b addr order (free b addr order) q
unfolding free
free_lem b addr order q v page room =
    elim (Bool-cases (
      addr == 0
      || ltb max_order order
      || ltb addr b.base
      || not (addr % block_size order == 0)
      || leb b.total_pages ((addr - b.base) / page_size)
      || ltb (b.total_pages - (addr - b.base) / page_size) (2 ^ order))) [
        | inl refused ↦ inl (ground arith, refused-Improper b addr order v refused)
        | inr passed ↦
            let ok : BlockOk b.base (limit b) order addr =
              guard-BlockOk b addr order (ground arith) (ground arith) (ground arith) (ground arith)
                page in
            let result : free b addr order
                ≡ merge (max_order - order) (counted_in b order) addr order =
              ground arith in
            inr (
              subst (λ (b' : Buddy). Frees b addr order b' q) (sym result)
                (free-accepted b addr order q v (ground arith) ok room))
      ]
