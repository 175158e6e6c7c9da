-- ===== src/Memory/Buddy/Init.antt =====
-- buddy_allocator::init of src/kernel/memory/buddy.cpp.
use rucux.Base.{
  ℕ, zero, suc, ◌+◌, ◌-◌, ◌*◌, ◌/◌, ◌%◌, ◌^◌, ◌≤◌, ◌<◌, ◌≡◌, refl, ap, ap₂, sym, subst, inl, inr,
  false, ◌&&◌, ltb, leb, ◌==◌, if◌then◌else◌, length, arith, Bool-cases,
}
use native.Mathlib.Nat.{one-le-pow, div-add-mod'}
use rucux.Memory.Buddy.{
  Buddy, word, page_size, block_size, max_order, fit_order, init_loop, init, push_block, no_blocks,
}
use rucux.Memory.Buddy.Cover.{
  Weight, holds, pages, list_weight, lists_weight, total, total-push_block, BlockOk, AllLists,
  IsValid, limit,
}
use rucux.Memory.Buddy.Halve.{Shape, Shape-push}

-- The order that init takes for its next block: the block fits, and is aligned.
fit_order_lem :
    (n addr remaining : ℕ)
    → 0 < remaining
    → addr % page_size ≡ 0
    → (fit_order n addr remaining ≤ n)
      × (2 ^ fit_order n addr remaining ≤ remaining)
      × (addr % block_size (fit_order n addr remaining) ≡ 0)
unfolding fit_order
fit_order_lem zero addr remaining some_left page = (omega arith, omega arith, page)
fit_order_lem (suc n) addr remaining some_left page =
    let goal : ℕ → Type 0 = λ o. (o ≤ suc n) × (2 ^ o ≤ remaining) × (addr % block_size o ≡ 0) in
    let (low, fits, aligned) = fit_order_lem n addr remaining some_left page in
    elim (Bool-cases (leb (2 ^ suc n) remaining && addr % (2 ^ suc n * page_size) == 0)) [
      | inl e ↦
          let result : fit_order (suc n) addr remaining ≡ suc n = ground arith in
          subst goal (sym result) (omega arith, ground arith, ground arith)
      | inr e ↦
          let result : fit_order (suc n) addr remaining ≡ fit_order n addr remaining =
            ground arith in
          subst goal (sym result) (omega (arith, low), fits, aligned)
    ]

-- What a run of pages weighs: what its blocks weigh.
pub record Spreads (w : Weight) (spread : ℕ → ℕ → ℕ) : Type 0 where
  pub empty : (addr : ℕ) → spread addr 0 ≡ 0
  pub block :
      (addr n order : ℕ)
      → spread addr (2 ^ order + n) ≡ w addr order + spread (addr + block_size order) n

-- 1 for a run of pages that holds the byte `q`, else 0.
abbrev pub run_holds : ℕ → ℕ → ℕ → ℕ
run_holds q addr n = if leb addr q && ltb q (addr + n * page_size) then 1 else 0

holds-Spreads : (q : ℕ) → Spreads (holds q) (run_holds q)
holds-Spreads q = record { empty = λ addr. ground arith; block = λ addr n order. ground arith }

pages-Spreads : Spreads pages (λ addr n. n)
pages-Spreads = record { empty = λ addr. refl; block = λ addr n order. refl }

-- What the rest of the loop does.
record Filled (lo hi : ℕ) (w : Weight) (spread : ℕ → ℕ → ℕ) (b : Buddy) (addr remaining : ℕ)
    (b' : Buddy) : Type 0 where
  shape : Shape lo hi b'
  same_base : b'.base ≡ b.base
  same_pages : b'.total_pages ≡ b.total_pages
  counted : b'.free_pages ≡ b.free_pages + remaining
  weight : total w b' ≡ total w b + spread addr remaining

-- One round of the loop, with a block of the order `o`.
abbrev block_added : Buddy → ℕ → ℕ → Buddy
block_added b o addr = record (push_block b o addr) { free_pages = b.free_pages + 2 ^ o }

abbrev round : ℕ → Buddy → ℕ → ℕ → ℕ → Buddy
round fuel b addr remaining o =
    init_loop fuel (record (push_block b o addr) { free_pages = word (b.free_pages + 2 ^ o) })
      (word (addr + 2 ^ o * page_size)) (remaining - 2 ^ o)

init_loop-round :
    (fuel : ℕ) (b : Buddy) (addr remaining : ℕ)
    → (remaining == 0) ≡ false
    → init_loop (suc fuel) b addr remaining
      ≡ round fuel b addr remaining (fit_order max_order addr remaining)
unfolding init_loop
init_loop-round fuel b addr remaining more = rw (more, init_loop) refl

round_exact :
    (fuel : ℕ) (b : Buddy) (addr remaining o : ℕ)
    → 2 ^ o ≤ remaining
    → b.free_pages + remaining < 2 ^ 64
    → round fuel b addr remaining o
      ≡ init_loop fuel (block_added b o addr) (word (addr + block_size o)) (remaining - 2 ^ o)
round_exact fuel b addr remaining o fits room =
    let count : word (b.free_pages + 2 ^ o) ≡ b.free_pages + 2 ^ o = omega arith in
    let next : addr + 2 ^ o * page_size ≡ addr + block_size o = omega arith in
    ap₂
      (λ (n a : ℕ).
        init_loop fuel (record (push_block b o addr) { free_pages = n }) (word a)
          (remaining - 2 ^ o))
      count next

module _ (lo hi : ℕ) (small : hi ≤ 2 ^ 64) (w : Weight) (spread : ℕ → ℕ → ℕ)
    (s : Spreads w spread) where
  added :
      (b b' : Buddy) (start remaining o : ℕ)
      → length b.free_lists ≡ max_order + 1
      → o ≤ max_order
      → 2 ^ o ≤ remaining
      → Filled lo hi w spread (block_added b o start) (start + block_size o) (remaining - 2 ^ o) b'
      → Filled lo hi w spread b start remaining b'
  unfolding total
  added b b' start remaining o lists low fits rest =
      let whole : remaining ≡ 2 ^ o + (remaining - 2 ^ o) = omega arith in
      record {
        shape = rest.shape;
        same_base = rest.same_base;
        same_pages = rest.same_pages;
        counted = omega (arith, rest.counted);
        weight = omega (
          arith,
          rest.weight,
          total-push_block w b o start (omega (arith, lists)),
          s.block start (remaining - 2 ^ o) o,
          ap (spread start) whole,
        );
      }

  empty_lem :
      (fuel : ℕ) (b : Buddy) (start addr : ℕ)
      → Shape lo hi b
      → Filled lo hi w spread b start 0 (init_loop (suc fuel) b addr 0)
  unfolding init_loop
  empty_lem fuel b start addr shape = record {
    shape = shape;
    same_base = refl;
    same_pages = refl;
    counted = omega arith;
    weight = omega (arith, s.empty start);
  }

  -- What the loop does with fuel for all pages. `start` is the address that `addr` is, without the wrap
  -- that it may have when no page remains.
  abbrev Fills : ℕ → Type 0
  Fills fuel =
      (b : Buddy) (start addr remaining : ℕ)
      → remaining < fuel
      → Shape lo hi b
      → addr ≡ word start
      → start % page_size ≡ 0
      → lo ≤ start
      → start + remaining * page_size ≤ hi
      → b.free_pages + remaining < 2 ^ 64
      → Filled lo hi w spread b start remaining (init_loop fuel b addr remaining)

  -- What a round does with a block that fits.
  round_lem :
      (fuel : ℕ) (b : Buddy) (start remaining o : ℕ)
      → Fills fuel
      → remaining < suc fuel
      → Shape lo hi b
      → start % page_size ≡ 0
      → lo ≤ start
      → start + remaining * page_size ≤ hi
      → b.free_pages + remaining < 2 ^ 64
      → (o ≤ max_order) × (2 ^ o ≤ remaining) × (start % block_size o ≡ 0)
      → Filled lo hi w spread b start remaining (round fuel b start remaining o)
  round_lem fuel b start remaining o later enough shape page above below room (low, fits, aligned) =
      let size : 1 ≤ 2 ^ o = omega (arith, one-le-pow o 2) in
      let ok : BlockOk lo hi o start = record {
        index = start / block_size o;
        aligned = omega (arith, div-add-mod' start (block_size o), aligned);
        above = above;
        below = omega arith;
      } in
      subst (Filled lo hi w spread b start remaining)
        (sym (round_exact fuel b start remaining o fits room))
        (added b _ start remaining o shape.0 low fits (
          later (block_added b o start) (start + block_size o) (word (start + block_size o))
            (remaining - 2 ^ o) (omega arith) (Shape-push lo hi b o start shape ok) refl
            (omega (arith, page)) (omega arith) (omega arith) (omega arith)))

  init_loop_lem : (fuel : ℕ) → Fills fuel
  init_loop_lem zero b start addr remaining enough shape at_start page above below room =
      absurd (omega arith)
  init_loop_lem (suc fuel) b start addr remaining enough shape at_start page above below room =
      elim (Bool-cases (remaining == 0)) [
        | inl done ↦
            let none_left : remaining ≡ 0 = ground arith in
            subst (λ (n : ℕ). Filled lo hi w spread b start n (init_loop (suc fuel) b addr n))
              (sym none_left) (empty_lem fuel b start addr shape)
        | inr more ↦
            let here : addr ≡ start = ground arith in
            subst
              (λ (a : ℕ).
                Filled lo hi w spread b start remaining (init_loop (suc fuel) b a remaining))
              (sym here)
              (subst (Filled lo hi w spread b start remaining)
                (sym (init_loop-round fuel b start remaining more))
                (round_lem fuel b start remaining (fit_order max_order start remaining)
                  (init_loop_lem fuel) enough shape page above below room
                  (fit_order_lem max_order start remaining (ground arith) page)))
      ]

no_blocks-AllLists : (P : ℕ → ℕ → Type 0) → AllLists P no_blocks 0
no_blocks-AllLists P = (tt, (tt, (tt, (tt, (tt, (tt, (tt, (tt, (tt, (tt, (tt, tt)))))))))))

-- What init promises; `q` is any byte.
pub record Initial (base count q : ℕ) (b : Buddy) : Type 0 where
  pub valid : IsValid b
  pub same_base : b.base ≡ base
  pub same_pages : b.total_pages ≡ count
  pub all_free : b.free_pages ≡ count
  pub held : total (holds q) b ≡ run_holds q base count

-- init puts every byte of the arena into exactly one free block, and no other byte, counts its pages, and
-- makes a valid allocator. The arena is assumed to start at a page that is not 0 and
-- to lie within 64 bits.
pub init_lem :
    (base count q : ℕ)
    → 0 < base
    → base < 2 ^ 64
    → base % page_size ≡ 0
    → base + count * page_size ≤ 2 ^ 64
    → Initial base count q (init base count)
unfolding init total lists_weight list_weight
init_lem base count q nonzero below page small =
    let hi : ℕ = base + count * page_size in
    let start : Buddy = record {
      free_lists = no_blocks;
      base = base;
      total_pages = count;
      free_pages = 0;
    } in
    let b : Buddy = init base count in
    let filled : (w : Weight) (spread : ℕ → ℕ → ℕ)
        → Spreads w spread
        → Filled base hi w spread start base count b =
      λ w spread s.
        init_loop_lem base hi small w spread s (suc count) start base base count (omega arith)
          (refl, no_blocks-AllLists (BlockOk base hi)) (omega arith) page (omega arith)
          (omega arith) (omega arith) in
    let by_pages = filled pages (λ addr n. n) pages-Spreads in
    let by_byte = filled (holds q) (run_holds q) (holds-Spreads q) in
    let same_limit : limit b ≡ hi =
      ap₂ (λ (x y : ℕ). x + y * page_size) by_pages.same_base by_pages.same_pages in
    record {
      valid = record {
        lists = by_pages.shape.0;
        blocks =
            subst (λ (x : ℕ). AllLists (BlockOk x (limit b)) b.free_lists 0)
              (sym by_pages.same_base)
              (subst (λ (x : ℕ). AllLists (BlockOk base x) b.free_lists 0) (sym same_limit)
                by_pages.shape.1);
        arena = (omega (arith, by_pages.same_base), omega (arith, same_limit));
        counted = omega (arith, by_pages.counted, by_pages.weight);
        fits = omega (arith, by_pages.counted, by_pages.same_pages);
      };
      same_base = by_pages.same_base;
      same_pages = by_pages.same_pages;
      all_free = omega (arith, by_pages.counted);
      held = omega (arith, by_byte.weight);
    }
