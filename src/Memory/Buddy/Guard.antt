-- ===== src/Memory/Buddy/Guard.antt =====
-- Which blocks the guard of buddy_allocator::free in src/kernel/memory/buddy.cpp lets pass.
use rucux.Base.{
  true, false, ℕ, ◌+◌, ◌-◌, ◌*◌, ◌/◌, ◌%◌, ◌^◌, ◌≤◌, ◌<◌, ◌≡◌, ◌≢◌, ◌∙◌, ◌⊎◌, arith, ltb, leb, ◌==◌,
  Bool-cases, inl, inr, ◌||◌, not,
}
use native.Mathlib.Nat.{div-add-mod', one-le-pow}
use rucux.Memory.Buddy.{Buddy, block_size, max_order, page_size}
use rucux.Memory.Buddy.Cover.{total, BlockOk, limit, IsValid}

regroup : (q s : ℕ) → q * (page_size * s) ≡ q * s * page_size
regroup q s = grind arith

end_within :
    (addr base total s p : ℕ)
    → addr ≡ p * page_size
    → base % page_size ≡ 0
    → base ≤ addr
    → s ≤ total - (addr - base) / page_size
    → (addr - base) / page_size < total
    → addr + page_size * s ≤ base + total * page_size
end_within addr base total s p h e above room inside = omega arith

-- What the guard of free lets pass lies aligned in the arena.
pub guard-BlockOk :
    (b : Buddy) (addr order : ℕ)
    → b.base ≤ addr
    → addr % block_size order ≡ 0
    → (addr - b.base) / page_size < b.total_pages
    → 2 ^ order ≤ b.total_pages - (addr - b.base) / page_size
    → b.base % page_size ≡ 0
    → BlockOk b.base (limit b) order addr
guard-BlockOk b addr order above aligned inside room page =
    let block : addr ≡ addr / block_size order * block_size order =
      omega (arith, div-add-mod' addr (block_size order)) in
    let whole_pages : addr ≡ addr / block_size order * 2 ^ order * page_size =
      block ∙ regroup (addr / block_size order) (2 ^ order) in
    record {
      index = addr / block_size order;
      aligned = block;
      above = above;
      below =
          end_within addr b.base b.total_pages (2 ^ order) (addr / block_size order * 2 ^ order)
            whole_pages page above room inside;
    }

-- What is no block of the arena: its order is too large, or its address is not aligned, or it does
-- not lie in the arena.
abbrev pub Improper : Buddy → ℕ → ℕ → Type 0
Improper b addr order =
    (max_order < order)
    ⊎ (addr % block_size order ≢ 0)
    ⊎ (addr < b.base)
    ⊎ (limit b < addr + block_size order)

beyond_end :
    (addr base total s : ℕ)
    → 1 ≤ s
    → base ≤ addr
    → total < (addr - base) / page_size + s
    → base + total * page_size < addr + page_size * s
beyond_end addr base total s h above e = omega arith

pub refused-Improper :
    (b : Buddy) (addr order : ℕ)
    → IsValid b
    → (addr == 0
        || ltb max_order order
        || ltb addr b.base
        || not (addr % block_size order == 0)
        || leb b.total_pages ((addr - b.base) / page_size)
        || ltb (b.total_pages - (addr - b.base) / page_size) (2 ^ order))
      ≡ true
    → Improper b addr order
refused-Improper b addr order v refused =
    let size : 1 ≤ 2 ^ order = omega (arith, one-le-pow order 2) in
    let q = (addr - b.base) / page_size in
    elim (Bool-cases (ltb addr b.base)) [
      | inl e ↦ inr (inr (inl (ground arith)))
      | inr above ↦ elim (Bool-cases (ltb max_order order)) [
        | inl e ↦ inl (ground arith)
        | inr small ↦ elim (Bool-cases (addr % block_size order == 0)) [
          | inr e ↦ inr (inl (ground arith))
          | inl e ↦
              let nonzero : (addr == 0) ≡ false = ground (arith, v.arena) in
              let over : b.total_pages < q + 2 ^ order = ground arith in
              inr (
                inr
                  (inr (beyond_end addr b.base b.total_pages (2 ^ order) size (ground arith) over)))
        ]
      ]
    ]
