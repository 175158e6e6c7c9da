-- ===== src/Memory/Pmm/Return.antt =====
-- What pmm::free_page of src/kernel/memory/pmm.cpp takes back.
use rucux.Base.{
  ℕ, ◌+◌, ◌/◌, ◌≤◌, ◌<◌, ◌≡◌, List, [], ◌∷◌, arith, length, length-set, Bool-cases, inl, inr, leb,
  ◌==◌, false,
}
use rucux.Memory.Buddy.{Buddy}
use rucux.Memory.Buddy.Cover.{holds, list_weight, SameArena}
use rucux.Memory.Pmm.{Pmm, pcpu_cache_size, cache_of, with_cache, cache_drain, free_page}
use rucux.Memory.Pmm.Cache.{InArena, InArena-SameArena, Moves, drain-Moves, Moves-refl}
use rucux.Memory.Pmm.Pages.{
  held, free_and_cached, IsValid, cache_of-IsCache, room_for_cache, with_cache-IsValid,
  with_cache-held, with_cache-counted,
}

-- What free_page promises of a page that it takes back; `q` is any byte.
pub record Takes (s : Pmm) (p : ℕ) (s' : Pmm) (q : ℕ) : Type 0 where
  pub valid : IsValid s'
  pub same_arena : SameArena s.buddy s'.buddy
  pub same_cpus : length s'.caches ≡ length s.caches
  pub moved : held q s' ≡ held q s + holds q p 0
  pub counted : free_and_cached s' ≡ free_and_cached s + 1

takes :
    (s : Pmm) (cpu p q : ℕ) (b : Buddy) (c : List ℕ)
    → IsValid s
    → cpu < length s.caches
    → InArena s.buddy p
    → free_and_cached s < s.buddy.total_pages
    → Moves (s.buddy, cache_of s cpu) (b, c)
    → length c < pcpu_cache_size
    → Takes s p (with_cache s cpu (b, p ∷ c)) q
unfolding list_weight
takes s cpu p q b c v here ok room m short = record {
  valid =
      with_cache-IsValid s cpu v here (b, c) (p ∷ c) m
        (
          ((InArena-SameArena s.buddy b (p ∷ []) m.same_arena (ok, tt)).0, m.pages),
          omega (arith, short),
        )
        (omega (arith, room));
  same_arena = m.same_arena;
  same_cpus = length-set s.caches cpu (p ∷ c);
  moved = omega (arith, with_cache-held s cpu v here (b, c) (p ∷ c) q m);
  counted = omega (arith, with_cache-counted s cpu v here (b, c) (p ∷ c) m);
}

-- free_page takes a page of the arena back, into a slot of its CPU's cache, which it drains first when no
-- slot is left: the bytes of the page and no others join the free blocks and the caches, and the pages
-- stay valid. They are assumed to be valid, the CPU to have a cache, and not every page to be free.
pub free_page_lem :
    (s : Pmm) (cpu p q : ℕ)
    → IsValid s
    → cpu < length s.caches
    → InArena s.buddy p
    → free_and_cached s < s.buddy.total_pages
    → Takes s p (free_page s cpu p) q
unfolding free_page
free_page_lem s cpu p q v here ok room =
    let nonzero : (p == 0) ≡ false = ground (arith, ok.above, v.buddy.arena) in
    let c : List ℕ = cache_of s cpu in
    let (inside, slots) = cache_of-IsCache s cpu v here in
    elim (Bool-cases (leb pcpu_cache_size (length c))) [
      | inl full ↦
          let (m, bound) =
            drain-Moves (length c / 2) s.buddy c v.buddy v.page inside
              (room_for_cache s cpu v here) in
          let r : Buddy × List ℕ = cache_drain s.buddy c in
          let many : pcpu_cache_size ≤ length c = ground arith in
          rw (nonzero, full)
            (takes s cpu p q r.0 r.1 v here ok room m (omega (arith, bound, many, slots)))
      | inr slot ↦
          rw (nonzero, slot)
            (takes s cpu p q s.buddy c v here ok room (Moves-refl s.buddy c v.buddy inside)
              (ground arith))
    ]
