-- ===== src/Memory/Buddy.antt =====
-- src/kernel/memory/buddy.cpp and src/include/kernel/memory/buddy.hpp: the allocator of page frames.
-- A free list is the list of the addresses of its blocks, from the head on; the lists stand in the
-- order of their orders, 0 to max_order. Addresses and counts are 64-bit words.
pub mod Cover
pub mod Halve
pub mod Alloc
pub mod Free
pub mod Join
pub mod Guard
pub mod Order
pub mod Init
mod Tests
use rucux.Base.{
  ℕ, zero, suc, ◌+◌, ◌-◌, ◌*◌, ◌/◌, ◌%◌, ◌^◌, Bool, true, false, ◌&&◌, ◌||◌, not, Option, none,
  some, List, [], ◌∷◌, ltb, leb, ◌==◌, if◌then◌else◌, get_or, set, bit_xor,
}

abbrev pub page_size : ℕ
page_size = 4096

abbrev pub max_order : ℕ
max_order = 10

pub record Buddy : Type 0 where
  pub free_lists : List (List ℕ)
  pub base : ℕ
  pub total_pages : ℕ
  pub free_pages : ℕ

abbrev pub word : ℕ → ℕ
word n = n % 2 ^ 64

-- PAGE_SIZE << order
abbrev pub block_size : ℕ → ℕ
block_size order = page_size * 2 ^ order

abbrev pub free_list : Buddy → ℕ → List ℕ
free_list b order = get_or b.free_lists order []

-- The block's link becomes the list, and the list its block.
abbrev pub push_block : Buddy → ℕ → ℕ → Buddy
push_block b order addr = record b {
  free_lists = set b.free_lists order (addr ∷ free_list b order);
}

-- The loop of pages_to_order: `size` doubles while it is below `count`.
pub order_loop : ℕ → ℕ → ℕ → ℕ → ℕ
order_loop zero count order size = order
order_loop (suc fuel) count order size = elim (ltb size count) [
  | true ↦ order_loop fuel count (order + 1) (size * 2)
  | false ↦ order
]

unfoldable pub pages_to_order : ℕ → ℕ
unfolding order_loop
pages_to_order count =
    if leb count 1
    then 0
    else if ltb (2 ^ max_order) count
    then max_order + 1
    else order_loop (max_order + 1) count 0 1

unfoldable pub buddy_of : ℕ → ℕ → ℕ
buddy_of addr order = bit_xor addr (block_size order)

-- The search of init for the largest order, downwards from `order`.
unfoldable pub fit_order : ℕ → ℕ → ℕ → ℕ
fit_order zero addr remaining = 0
fit_order (suc order) addr remaining =
    let lower = fit_order order addr remaining in
    if leb (2 ^ suc order) remaining && addr % (2 ^ suc order * page_size) == 0
    then suc order
    else lower

-- The loop of init: every round adds one block.
unfoldable pub init_loop : ℕ → Buddy → ℕ → ℕ → Buddy
unfolding fit_order
init_loop zero b addr remaining = b
init_loop (suc fuel) b addr remaining = elim (remaining == 0) [
  | true ↦ b
  | false ↦
      let order = fit_order max_order addr remaining in
      let b' = push_block b order addr in
      init_loop fuel (record b' { free_pages = word (b.free_pages + 2 ^ order) })
        (word (addr + 2 ^ order * page_size)) (remaining - 2 ^ order)
]

abbrev pub no_blocks : List (List ℕ)
no_blocks = [] ∷ [] ∷ [] ∷ [] ∷ [] ∷ [] ∷ [] ∷ [] ∷ [] ∷ [] ∷ [] ∷ []

unfoldable pub init : ℕ → ℕ → Buddy
unfolding init_loop
init base total_pages =
    init_loop (suc total_pages)
      (record { free_lists = no_blocks; base = base; total_pages = total_pages; free_pages = 0 })
      base total_pages

-- The smallest order from `current` on with a free block; `n` orders are left to look at.
unfoldable pub find_order : ℕ → Buddy → ℕ → Option ℕ
find_order zero b current = none
find_order (suc n) b current = elim (free_list b current) [
  | [] ↦ find_order n b (current + 1)
  | _ ∷ _ ↦ some current
]

-- The loop that splits a block: `k` halvings down to the order that was asked for.
unfoldable pub split_down : ℕ → Buddy → ℕ → ℕ → Buddy
split_down zero b order addr = b
split_down (suc k) b order addr =
    split_down k (push_block b (order + k) (word (addr + block_size (order + k)))) order addr

-- The result 0 is `none`.
unfoldable pub alloc : Buddy → ℕ → Option ℕ × Buddy
unfolding find_order split_down
alloc b order =
    if ltb max_order order then (none, b) else elim (find_order (max_order + 1 - order) b order) [
      | none ↦ (none, b)
      | some current ↦ elim (free_list b current) [
        | [] ↦ (none, b)
        | addr ∷ rest ↦
            let taken : Buddy = record b { free_lists = set b.free_lists current rest } in
            let halved = split_down (current - order) taken order addr in
            (some addr, record halved { free_pages = word (b.free_pages + 2 ^ 64 - 2 ^ order) })
      ]
    ]

-- The list without its first occurrence of the block, if it has one.
pub unlink : List ℕ → ℕ → Option (List ℕ)
unlink [] addr = none
unlink (x ∷ xs) addr =
    if x == addr then some xs else elim (unlink xs addr) [ none ↦ none | some ys ↦ some (x ∷ ys) ]

-- The merging loop of free: `k` orders are left above `order`.
pub merge : ℕ → Buddy → ℕ → ℕ → Buddy
unfolding unlink buddy_of
merge zero b addr order = push_block b order addr
merge (suc k) b addr order = elim (unlink (free_list b order) (buddy_of addr order)) [
  | none ↦ push_block b order addr
  | some rest ↦
      let other = buddy_of addr order in
      merge k (record b { free_lists = set b.free_lists order rest })
        (if ltb other addr then other else addr) (order + 1)
]

unfoldable pub free : Buddy → ℕ → ℕ → Buddy
unfolding merge
free b addr order =
    if addr == 0
      || ltb max_order order
      || ltb addr b.base
      || not (addr % block_size order == 0)
      || leb b.total_pages ((addr - b.base) / page_size)
      || ltb (b.total_pages - (addr - b.base) / page_size) (2 ^ order)
    then b
    else merge (max_order - order) (record b { free_pages = word (b.free_pages + 2 ^ order) }) addr
        order

unfoldable pub alloc_pages : Buddy → ℕ → Option ℕ × Buddy
unfolding alloc pages_to_order
alloc_pages b count = if count == 0 then (none, b) else alloc b (pages_to_order count)
