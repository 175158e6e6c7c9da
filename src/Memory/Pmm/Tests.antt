-- ===== src/Memory/Pmm/Tests.antt =====
-- Examples of the page allocator: two CPUs and 16 pages at 1 MiB.
use rucux.Base.{ℕ, ◌≡◌, refl, some, List, [], ◌∷◌, arith}
use rucux.Memory.Buddy.{
  Buddy, no_blocks, fit_order, init_loop, find_order, split_down, alloc, pages_to_order,
}
use rucux.Memory.Buddy as Buddies
use rucux.Memory.Pmm.{Pmm, MemoryMapEntry, best, init, refill, alloc_page, alloc_pages}
use rucux.Memory.Pmm.Steps.{Machine, Usable, Partitions, Reachable-Partitions}
use rucux.Memory.Pmm.Steps.Step.{handed_out}
use rucux.Memory.Pmm.Steps.Reachable.{started, stepped}

abbrev memory_map : List MemoryMapEntry
memory_map =
    record { base = 4096; length = 0x8000; type = 1 }
    ∷ record { base = 0x100000; length = 0x10000; type = 1 }
    ∷ record { base = 0x200000; length = 0x400000; type = 2 }
    ∷ []

abbrev before_init : Pmm
before_init = record {
  buddy = record { free_lists = no_blocks; base = 0; total_pages = 0; free_pages = 0 };
  total_pages = 0;
  caches = [] ∷ [] ∷ [];
}

abbrev first_page : ℕ
first_page = 0x10f000

abbrev after_alloc : Machine
after_alloc = ((alloc_pages (init before_init memory_map) 1 1).1, (first_page, 0) ∷ [])

-- The cache is filled with all pages, and its last one handed out.
handed : (alloc_pages (init before_init memory_map) 1 1).0 ≡ some first_page
unfolding init best Buddies.init init_loop fit_order alloc_pages Buddies.alloc_pages pages_to_order
    alloc_page refill alloc find_order split_down
handed = refl

memory_map-Usable : Usable memory_map
unfolding best
memory_map-Usable = (omega arith, omega arith, omega arith)

Reachable-Partitions_example : Partitions after_alloc
unfolding init pages_to_order
Reachable-Partitions_example = Reachable-Partitions memory_map after_alloc memory_map-Usable (
    stepped (init before_init memory_map, []) after_alloc (started before_init (refl, (refl, tt)))
      (handed_out (init before_init memory_map) [] 1 1 first_page (omega arith) handed))
