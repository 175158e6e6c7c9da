-- ===== src/Memory/Buddy/Halve.antt =====
-- The splitting loop of buddy_allocator::alloc in src/kernel/memory/buddy.cpp.
use rucux.Base.{
  ℕ, zero, suc, ◌+◌, ◌*◌, ◌^◌, ◌≤◌, ◌<◌, ◌≡◌, refl, ap, sym, ◌∙◌, List, ◌∷◌, arith, length, set,
  All, length-set, subst,
}
use native.Mathlib.Nat.{one-le-pow}
use rucux.Memory.Buddy.{Buddy, word, block_size, free_list, push_block, max_order, split_down}
use rucux.Memory.Buddy.Cover.{
  Weight, Additive, block_size-suc, total, total-push_block, BlockOk, AllLists, AllLists-get,
  AllLists-set,
}

odd_index : (i s addr : ℕ) → addr ≡ i * (2 * s) → addr + s ≡ (2 * i + 1) * s
odd_index i s addr h = grind arith

-- The two halves of a block of the arena are blocks of the arena.
pub BlockOk-halves :
    (lo hi order addr : ℕ)
    → BlockOk lo hi (suc order) addr
    → BlockOk lo hi order addr × BlockOk lo hi order (addr + block_size order)
BlockOk-halves lo hi order addr ok = (
  record {
    index = 2 * ok.index;
    aligned = ok.aligned ∙ rw (block_size-suc order) (grind arith);
    above = ok.above;
    below = omega (arith, ok.below, block_size-suc order);
  },
  record {
    index = 2 * ok.index + 1;
    aligned =
        odd_index ok.index (block_size order) addr
          (ok.aligned ∙ ap (λ (t : ℕ). ok.index * t) (block_size-suc order));
    above = omega (arith, ok.above);
    below = omega (arith, ok.below, block_size-suc order);
  },
)

-- What the proof carries of an allocator through the loop.
abbrev pub Shape : ℕ → ℕ → Buddy → Type 0
Shape lo hi b = (length b.free_lists ≡ max_order + 1) × AllLists (BlockOk lo hi) b.free_lists 0

pub Shape-set :
    (lo hi : ℕ) (b : Buddy) (order : ℕ) (v : List ℕ)
    → Shape lo hi b
    → All (BlockOk lo hi order) v
    → Shape lo hi (record b { free_lists = set b.free_lists order v })
Shape-set lo hi b order v s ok = (
  length-set b.free_lists order v ∙ s.0,
  AllLists-set (BlockOk lo hi) b.free_lists 0 order order v (omega arith) s.1 ok,
)

pub Shape-list :
    (lo hi : ℕ) (b : Buddy) (order : ℕ)
    → Shape lo hi b
    → All (BlockOk lo hi order) (free_list b order)
Shape-list lo hi b order s =
    AllLists-get (BlockOk lo hi) b.free_lists 0 order order (omega arith) s.1

pub Shape-push :
    (lo hi : ℕ) (b : Buddy) (order addr : ℕ)
    → Shape lo hi b
    → BlockOk lo hi order addr
    → Shape lo hi (push_block b order addr)
Shape-push lo hi b order addr s ok =
    Shape-set lo hi b order (addr ∷ free_list b order) s (ok, Shape-list lo hi b order s)

pub no_wrap :
    (hi order addr : ℕ)
    → hi ≤ 2 ^ 64
    → addr + block_size order + block_size order ≤ hi
    → word (addr + block_size order) ≡ addr + block_size order
no_wrap hi order addr small h = omega (arith, one-le-pow order 2)

module _ (lo hi : ℕ) (small : hi ≤ 2 ^ 64) where
  split_step :
      (k : ℕ) (b : Buddy) (order addr : ℕ)
      → BlockOk lo hi (order + k) (addr + block_size (order + k))
      → split_down (suc k) b order addr
        ≡ split_down k (push_block b (order + k) (addr + block_size (order + k))) order addr
  unfolding split_down
  split_step k b order addr high =
      ap (λ (t : ℕ). split_down k (push_block b (order + k) t) order addr)
        (no_wrap hi (order + k) addr small high.below)

  parts :
      (k order addr : ℕ)
      → BlockOk lo hi (order + suc k) addr
      → BlockOk lo hi (order + k) addr × BlockOk lo hi (order + k) (addr + block_size (order + k))
  parts k order addr ok =
      BlockOk-halves lo hi (order + k) addr
        (subst (λ (o : ℕ). BlockOk lo hi o addr) (omega arith) ok)

  pub split_down-Shape :
      (k : ℕ) (b : Buddy) (order addr : ℕ)
      → Shape lo hi b
      → BlockOk lo hi (order + k) addr
      → Shape lo hi (split_down k b order addr) × BlockOk lo hi order addr
  unfolding split_down
  split_down-Shape zero b order addr s ok =
      (s, subst (λ (o : ℕ). BlockOk lo hi o addr) (omega arith) ok)
  split_down-Shape (suc k) b order addr s ok =
      let (low, high) = parts k order addr ok in
      let b' = push_block b (order + k) (addr + block_size (order + k)) in
      let rest =
        split_down-Shape k b' order addr
          (Shape-push lo hi b (order + k) (addr + block_size (order + k)) s high) low in
      (subst (Shape lo hi) (sym (split_step k b order addr high)) rest.0, rest.1)

  -- Halving a block puts into the lists what the block weighs more than its first part.
  pub total-split_down :
      (w : Weight) (additive : Additive w) (k : ℕ) (b : Buddy) (order addr : ℕ)
      → Shape lo hi b
      → BlockOk lo hi (order + k) addr
      → order + k < max_order + 1
      → total w (split_down k b order addr) + w addr order ≡ total w b + w addr (order + k)
  unfolding split_down
  total-split_down w additive zero b order addr s ok h =
      ap (λ (o : ℕ). total w b + w addr o) (omega arith)
  total-split_down w additive (suc k) b order addr s ok h =
      let (low, high) = parts k order addr ok in
      let buddy : ℕ = addr + block_size (order + k) in
      let rest =
        total-split_down w additive k (push_block b (order + k) buddy) order addr
          (Shape-push lo hi b (order + k) buddy s high) low (omega arith) in
      let pushed = total-push_block w b (order + k) buddy (omega (arith, s.0)) in
      let whole : w addr (order + suc k) ≡ w addr (order + k) + w buddy (order + k) =
        ap (w addr) (omega arith) ∙ additive addr (order + k) in
      let step = ap (total w) (split_step k b order addr high) in
      omega (arith, rest, pushed, whole, step)

  pub base-split_down :
      (k : ℕ) (b : Buddy) (order addr : ℕ)
      → ((split_down k b order addr).base ≡ b.base)
        × ((split_down k b order addr).total_pages ≡ b.total_pages)
  unfolding split_down
  base-split_down zero b order addr = (refl, refl)
  base-split_down (suc k) b order addr = base-split_down k _ order addr
