-- ===== src/Memory/Buddy/Cover.antt =====
-- Weights of the free lists of src/kernel/memory/buddy.cpp: a weight gives a number to each block. The
-- invariant of the allocator is stated here too.
use rucux.Base.{
  ℕ, zero, suc, ◌+◌, ◌*◌, ◌^◌, ◌≤◌, ◌<◌, ◌≡◌, ◌&&◌, List, [], ◌∷◌, arith, ltb, leb, if◌then◌else◌,
  length, get_or, set, All, subst,
}
use native.Mathlib.Nat.{pow-suc}
use rucux.Memory.Buddy.{Buddy, block_size, free_list, push_block, max_order, page_size}

abbrev pub Weight : Type 0
Weight = ℕ → ℕ → ℕ

-- 1 for a block that holds the byte `q`, else 0.
abbrev pub holds : ℕ → Weight
holds q addr order = if leb addr q && ltb q (addr + block_size order) then 1 else 0

abbrev pub pages : Weight
pages addr order = 2 ^ order

-- A block weighs what its two halves weigh.
abbrev pub Additive : Weight → Type 0
Additive w =
    (addr order : ℕ) → w addr (suc order) ≡ w addr order + w (addr + block_size order) order

pub block_size-suc : (order : ℕ) → block_size (suc order) ≡ 2 * block_size order
block_size-suc order = omega (arith, pow-suc 2 order)

pub holds-Additive : (q : ℕ) → Additive (holds q)
holds-Additive q addr order = ground (arith, pow-suc 2 order)

pub pages-Additive : Additive pages
pages-Additive addr order = omega (arith, pow-suc 2 order)

module _ (w : Weight) where
  unfoldable pub list_weight : List ℕ → ℕ → ℕ
  list_weight [] order = 0
  list_weight (x ∷ xs) order = w x order + list_weight xs order

  -- The lists from the one of order `order` on.
  unfoldable pub lists_weight : List (List ℕ) → ℕ → ℕ
  lists_weight [] order = 0
  lists_weight (l ∷ ls) order = list_weight l order + lists_weight ls (suc order)

  unfoldable pub total : Buddy → ℕ
  unfolding lists_weight list_weight
  total b = lists_weight b.free_lists 0

  -- Changing one list changes the weight by the difference of that list.
  lists_weight-set :
      (ls : List (List ℕ)) (i from order : ℕ) (v : List ℕ)
      → i < length ls
      → order ≡ from + i
      → lists_weight (set ls i v) from + list_weight (get_or ls i []) order
        ≡ lists_weight ls from + list_weight v order
  unfolding lists_weight
  lists_weight-set [] i from order v h e = absurd (omega arith)
  lists_weight-set (l ∷ ls) zero from order v h e =
      let same : order ≡ from = omega arith in rw same (omega arith)
  lists_weight-set (l ∷ ls) (suc i) from order v h e =
      omega (arith, lists_weight-set ls i (suc from) order v (omega arith) (omega arith))

  pub total-set :
      (b : Buddy) (order : ℕ) (v : List ℕ)
      → order < length b.free_lists
      → total (record b { free_lists = set b.free_lists order v })
          + list_weight (free_list b order) order
        ≡ total b + list_weight v order
  unfolding total
  total-set b order v h = lists_weight-set b.free_lists order 0 order v h (omega arith)

  pub total-push_block :
      (b : Buddy) (order addr : ℕ)
      → order < length b.free_lists
      → total (push_block b order addr) ≡ total b + w addr order
  unfolding list_weight
  total-push_block b order addr h = omega (arith, total-set b order (addr ∷ free_list b order) h)

-- A block of the arena [lo, hi): its address is a multiple of its size.
pub record BlockOk (lo hi order addr : ℕ) : Type 0 where
  pub index : ℕ
  pub aligned : addr ≡ index * block_size order
  pub above : lo ≤ addr
  pub below : addr + block_size order ≤ hi

abbrev pub AllLists : (ℕ → ℕ → Type 0) → List (List ℕ) → ℕ → Type 0
AllLists P [] order = Unit {0}
AllLists P (l ∷ ls) order = All (P order) l × AllLists P ls (suc order)

-- Where the memory that is managed ends.
abbrev pub limit : Buddy → ℕ
limit b = b.base + b.total_pages * page_size

-- The memory that is managed stays the same.
abbrev pub SameArena : Buddy → Buddy → Type 0
SameArena b b' = (b'.base ≡ b.base) × (b'.total_pages ≡ b.total_pages)

-- There are eleven lists, every block lies aligned in the arena, which is within 64 bits and not
-- at address 0, and the count of free pages is that of the lists.
pub record IsValid (b : Buddy) : Type 0 where
  pub lists : length b.free_lists ≡ max_order + 1
  pub blocks : AllLists (BlockOk b.base (limit b)) b.free_lists 0
  pub arena : (0 < b.base) × (limit b ≤ 2 ^ 64)
  pub counted : b.free_pages ≡ total pages b
  pub fits : b.free_pages ≤ b.total_pages

pub AllLists-get :
    (P : ℕ → ℕ → Type 0) (ls : List (List ℕ)) (from i order : ℕ)
    → order ≡ from + i
    → AllLists P ls from
    → All (P order) (get_or ls i [])
AllLists-get P [] from i order e h = tt
AllLists-get P (l ∷ ls) from zero order e h = let same : order ≡ from = omega arith in rw same h.0
AllLists-get P (l ∷ ls) from (suc i) order e h =
    AllLists-get P ls (suc from) i order (omega arith) h.1

pub AllLists-set :
    (P : ℕ → ℕ → Type 0) (ls : List (List ℕ)) (from i order : ℕ) (v : List ℕ)
    → order ≡ from + i
    → AllLists P ls from
    → All (P order) v
    → AllLists P (set ls i v) from
AllLists-set P [] from i order v e h k = tt
AllLists-set P (l ∷ ls) from zero order v e h k =
    (subst (λ (o : ℕ). All (P o) v) (omega arith) k, h.1)
AllLists-set P (l ∷ ls) from (suc i) order v e h k =
    (h.0, AllLists-set P ls (suc from) i order v (omega arith) h.1 k)
