-- ===== src/Memory/Buddy/Tests.antt =====
-- Examples of the page-frame allocator: an arena of 16 pages at 1 MiB.
use rucux.Base.{ℕ, ◌+◌, ◌*◌, ◌≤◌, ◌≡◌, refl, ◌⊎◌, none, some, [], ◌∷◌, arith}
use rucux.Memory.Buddy.{
  Buddy, init, alloc, free, pages_to_order, max_order, block_size, free_list, find_order,
  split_down, merge, unlink, buddy_of, init_loop, fit_order,
}
use rucux.Memory.Buddy.Cover.{IsValid, BlockOk, limit, total, list_weight, lists_weight}
use rucux.Memory.Buddy.Alloc.{alloc_lem, Allocates}
use rucux.Memory.Buddy.Free.{free_lem, Frees}
use rucux.Memory.Buddy.Guard.{Improper}
use rucux.Memory.Buddy.Init.{init_lem, Initial}
use rucux.Memory.Buddy.Order.{pages_to_order_lem, Least}

abbrev arena : Buddy
arena = record {
  free_lists = [] ∷ [] ∷ [] ∷ [] ∷ (0x100000 ∷ []) ∷ [] ∷ [] ∷ [] ∷ [] ∷ [] ∷ [] ∷ [];
  base = 0x100000;
  total_pages = 16;
  free_pages = 16;
}

init-arena : init 0x100000 16 ≡ arena
unfolding init init_loop fit_order
init-arena = refl

arena-block : BlockOk 0x100000 (limit arena) 4 0x100000
arena-block = record { index = 16; aligned = refl; above = omega arith; below = omega arith }

arena-IsValid : IsValid arena
unfolding total lists_weight list_weight
arena-IsValid = record {
  lists = refl;
  blocks = (tt, (tt, (tt, (tt, ((arena-block, tt), (tt, (tt, (tt, (tt, (tt, (tt, tt)))))))))));
  arena = (omega arith, omega arith);
  counted = refl;
  fits = omega arith;
}

-- One page taken from the arena leaves one block of each smaller order.
abbrev one_taken : Buddy
one_taken = record {
  free_lists =
      (0x101000 ∷ [])
      ∷ (0x102000 ∷ [])
      ∷ (0x104000 ∷ [])
      ∷ (0x108000 ∷ [])
      ∷ []
      ∷ []
      ∷ []
      ∷ []
      ∷ []
      ∷ []
      ∷ []
      ∷ [];
  base = 0x100000;
  total_pages = 16;
  free_pages = 15;
}

alloc_one : alloc arena 0 ≡ (some 0x100000, one_taken)
unfolding alloc find_order split_down
alloc_one = refl

free_one : free one_taken 0x100000 0 ≡ arena
unfolding free merge unlink buddy_of
free_one = refl

alloc_lem_example :
    ((alloc arena 0 ≡ (none, arena)) × (free_list arena 3 ≡ []))
    ⊎ ((addr : ℕ) × ((alloc arena 0).0 ≡ some addr)
        × Allocates arena 0 addr (alloc arena 0).1 0x100800)
alloc_lem_example = alloc_lem arena 0 3 0x100800 arena-IsValid (omega arith) (omega arith)

page_block :
    (order addr index : ℕ)
    → addr ≡ index * block_size order
    → 0x100000 ≤ addr
    → addr + block_size order ≤ limit one_taken
    → BlockOk 0x100000 (limit one_taken) order addr
page_block order addr i e lo hi = record { index = i; aligned = e; above = lo; below = hi }

one_taken-IsValid : IsValid one_taken
unfolding total lists_weight list_weight
one_taken-IsValid = record {
  lists = refl;
  blocks = (
    (page_block 0 0x101000 0x101 refl (omega arith) (omega arith), tt),
    (
      (page_block 1 0x102000 0x81 refl (omega arith) (omega arith), tt),
      (
        (page_block 2 0x104000 0x41 refl (omega arith) (omega arith), tt),
        (
          (page_block 3 0x108000 0x21 refl (omega arith) (omega arith), tt),
          (tt, (tt, (tt, (tt, (tt, (tt, (tt, tt))))))),
        ),
      ),
    ),
  );
  arena = (omega arith, omega arith);
  counted = refl;
  fits = omega arith;
}

free_lem_example :
    ((free one_taken 0x100000 0 ≡ one_taken) × Improper one_taken 0x100000 0)
    ⊎ Frees one_taken 0x100000 0 (free one_taken 0x100000 0) 0x100800
free_lem_example = free_lem one_taken 0x100000 0 0x100800 one_taken-IsValid refl (omega arith)

pages_to_order_lem_example : Least 5 max_order (pages_to_order 5)
pages_to_order_lem_example = pages_to_order_lem 5 (omega arith)

init_lem_example : Initial 0x100000 16 0x100800 (init 0x100000 16)
init_lem_example = init_lem 0x100000 16 0x100800 (omega arith) (omega arith) refl (omega arith)
