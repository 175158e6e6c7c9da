-- ===== src/Memory/Buddy/Alloc.antt =====
-- Theorems on buddy_allocator::alloc of src/kernel/memory/buddy.cpp.
use rucux.Base.{
  ℕ, zero, suc, ◌+◌, ◌-◌, ◌*◌, ◌%◌, ◌^◌, ◌≤◌, ◌<◌, ◌≡◌, ◌≢◌, ap, ap₂, sym, ◌∙◌, ◌⊎◌, Option, none,
  some, List, [], ◌∷◌, arith, ◌==◌, set, All, Bool-cases, Option-cases, inl, inr, subst, ==→eq,
  List-cases,
}
use native.Mathlib.Nat.{mul-mod_left}
use rucux.Memory.Buddy.{
  Buddy, word, block_size, free_list, max_order, page_size, find_order, split_down, alloc,
}
use rucux.Memory.Buddy.Cover.{
  Weight, Additive, holds, pages, holds-Additive, pages-Additive, list_weight, total, total-set,
  BlockOk, AllLists, limit, IsValid, SameArena,
}
use rucux.Memory.Buddy.Halve.{
  Shape, Shape-set, Shape-list, split_down-Shape, total-split_down, base-split_down,
}

-- The order that alloc finds has a free block, and no order from `current` up to it has.
pub find_order-some :
    (n : ℕ) (b : Buddy) (current c : ℕ)
    → find_order n b current ≡ some c
    → (current ≤ c) × (c < current + n) × (free_list b c ≢ [])
unfolding find_order
find_order-some zero b current c h = cc
find_order-some (suc n) b current c h = elim (List-cases (free_list b current)) [
  | inl e ↦
      let (lo, hi, full) = find_order-some n b (current + 1) c (ground arith) in
      (omega arith, omega arith, full)
  | inr (x, r, e) ↦
      let same : current ≡ c = ground arith in (omega arith, omega arith, λ z. ground arith)
]

pub find_order-none :
    (n : ℕ) (b : Buddy) (current i : ℕ)
    → find_order n b current ≡ none
    → current ≤ i
    → i < current + n
    → free_list b i ≡ []
unfolding find_order
find_order-none zero b current i h p q = absurd (omega arith)
find_order-none (suc n) b current i h p q = elim (List-cases (free_list b current)) [
  | inl e ↦ elim (Bool-cases (current == i)) [
    | inl same ↦ subst (λ (j : ℕ). free_list b j ≡ []) (==→eq current i same) e
    | inr other ↦ find_order-none n b (current + 1) i (ground arith) (ground arith) (omega arith)
  ]
  | inr (x, r, e) ↦ absurd (ground arith)
]

-- The allocator after a block was taken at order `c` and halved down to `order`.
abbrev taken_state : Buddy → ℕ → ℕ → ℕ → List ℕ → Buddy
taken_state b order c addr rest =
    let taken : Buddy = record b { free_lists = set b.free_lists c rest } in
    record (split_down (c - order) taken order addr) {
      free_pages = word (b.free_pages + 2 ^ 64 - 2 ^ order);
    }

module _ (b : Buddy) (order c addr : ℕ) (rest : List ℕ) (v : IsValid b)
    (first : free_list b c ≡ addr ∷ rest) (low : order ≤ c) (high : c < max_order + 1) where
  abbrev after : Buddy
  after = taken_state b order c addr rest

  abbrev taken : Buddy
  taken = record b { free_lists = set b.free_lists c rest }

  shape : Shape b.base (limit b) b
  shape = (v.lists, v.blocks)

  here : All (BlockOk b.base (limit b) c) (addr ∷ rest)
  here = subst (All (BlockOk b.base (limit b) c)) first (Shape-list b.base (limit b) b c shape)

  block : BlockOk b.base (limit b) (order + (c - order)) addr
  block = subst (λ (o : ℕ). BlockOk b.base (limit b) o addr) (omega arith) here.0

  taken-Shape : Shape b.base (limit b) taken
  taken-Shape = Shape-set b.base (limit b) b c rest shape here.1

  after-Shape : Shape b.base (limit b) after × BlockOk b.base (limit b) order addr
  after-Shape =
      split_down-Shape b.base (limit b) v.arena.1 (c - order) taken order addr taken-Shape block

  after-weight : (w : Weight) → Additive w → total w b ≡ total w after + w addr order
  unfolding list_weight total
  after-weight w additive =
      let split =
        total-split_down b.base (limit b) v.arena.1 w additive (c - order) taken order addr
          taken-Shape block (omega arith) in
      let removed = total-set w b c rest (omega (arith, v.lists)) in
      let listed : list_weight w (free_list b c) c ≡ w addr c + list_weight w rest c =
        ap (λ (l : List ℕ). list_weight w l c) first in
      let same : w addr (order + (c - order)) ≡ w addr c = ap (w addr) (omega arith) in
      omega (arith, split, removed, listed, same)

  after-IsValid : IsValid after
  after-IsValid =
      let (same_base, same_pages) =
        base-split_down b.base (limit b) v.arena.1 (c - order) taken order addr in
      let same_limit : limit after ≡ limit b =
        ap₂ (λ (x y : ℕ). x + y * page_size) same_base same_pages in
      let weighed = after-weight pages pages-Additive in
      let count : after.free_pages ≡ total pages after =
        omega (arith, weighed, v.counted, v.fits, v.arena) in
      record {
        lists = after-Shape.0.0;
        blocks =
            subst (λ (x : ℕ). AllLists (BlockOk x (limit after)) after.free_lists 0) (sym same_base)
              (subst (λ (x : ℕ). AllLists (BlockOk b.base x) after.free_lists 0) (sym same_limit)
                after-Shape.0.1);
        arena = (omega (arith, same_base, v.arena), omega (arith, same_limit, v.arena));
        counted = count;
        fits = omega (arith, count, weighed, v.counted, v.fits, same_pages);
      }

  after-SameArena : SameArena b after
  after-SameArena = base-split_down b.base (limit b) v.arena.1 (c - order) taken order addr

  after-counted : b.free_pages ≡ after.free_pages + 2 ^ order
  after-counted = omega (arith, after-weight pages pages-Additive, v.counted, after-IsValid.counted)

-- What alloc promises of a block that it hands out; `q` is any byte.
pub record Allocates (b : Buddy) (order addr : ℕ) (b' : Buddy) (q : ℕ) : Type 0 where
  pub valid : IsValid b'
  pub aligned : addr % block_size order ≡ 0
  pub inside : (0 < addr) × (b.base ≤ addr) × (addr + block_size order ≤ limit b)
  pub moved : total (holds q) b ≡ total (holds q) b' + holds q addr order
  pub counted : b.free_pages ≡ b'.free_pages + 2 ^ order
  pub same_arena : SameArena b b'

-- For an order `i` from the requested one up to the largest: alloc either fails, which changes nothing
-- and happens only when list `i` has no block, or hands out an aligned block of the arena, takes the
-- bytes of that block and no others out of the free blocks, counts its pages, and leaves a valid
-- allocator of the same arena. The allocator is assumed to be valid.
pub alloc_lem :
    (b : Buddy) (order i q : ℕ)
    → IsValid b
    → order ≤ i
    → i < max_order + 1
    → ((alloc b order ≡ (none, b)) × (free_list b i ≡ []))
      ⊎ ((addr : ℕ) × ((alloc b order).0 ≡ some addr) × Allocates b order addr (alloc b order).1 q)
unfolding alloc
alloc_lem b order i q v low high =
    elim (Option-cases (find_order (max_order + 1 - order) b order)) [
      | inl e ↦
          inl (ground arith, find_order-none (max_order + 1 - order) b order i e low (omega arith))
      | inr (c, e) ↦
          let (from, to, full) = find_order-some (max_order + 1 - order) b order c e in
          elim (List-cases (free_list b c)) [
            | inl z ↦ absurd (full z)
            | inr (addr, rest, z) ↦
                let result : alloc b order ≡ (some addr, taken_state b order c addr rest) =
                  ground arith in
                let top : c < max_order + 1 = omega arith in
                let valid = after-IsValid b order c addr rest v z from top in
                let ok = (after-Shape b order c addr rest v z from top).1 in
                inr (
                  addr,
                  ap (λ r. r.0) result,
                  subst (λ (r : Option ℕ × Buddy). Allocates b order addr r.1 q) (sym result)
                      (record {
                        valid = valid;
                        aligned =
                            ap (λ (x : ℕ). x % block_size order) ok.aligned
                            ∙ mul-mod_left ok.index (block_size order);
                        inside = (omega (arith, ok.above, v.arena), ok.above, ok.below);
                        moved =
                            after-weight b order c addr rest v z from top (holds q)
                              (holds-Additive q);
                        counted = after-counted b order c addr rest v z from top;
                        same_arena = after-SameArena b order c addr rest v z from top;
                      }),
                )
          ]
    ]
