-- ===== src/Memory/Pmm.antt =====
-- src/kernel/memory/pmm.cpp: single pages for a CPU come from a cache of its own, over the allocator of
-- page frames. A cache is the list of its pages, from the last array slot in use back to slot 0, so its
-- length is `count`; slots above that are never read. No page is address 0, the failure of the code,
-- which is `none` here. CPUs and their caches are numbered.
pub mod Cache
pub mod Pages
pub mod Take
pub mod Return
pub mod Steps
mod Tests
use rucux.Base.{
  ℕ, zero, suc, ◌+◌, ◌-◌, ◌*◌, ◌/◌, ◌%◌, ◌^◌, Bool, true, false, ◌&&◌, Option, none, some, List, [],
  ◌∷◌, ltb, leb, ◌==◌, if◌then◌else◌, length, get_or, set,
}
use rucux.Memory.Buddy.{Buddy, page_size, word, alloc, free}
use rucux.Memory.Buddy as Buddies

abbrev pub pcpu_cache_size : ℕ
pcpu_cache_size = 64

pub record Pmm : Type 0 where
  pub buddy : Buddy
  pub total_pages : ℕ
  pub caches : List (List ℕ)

-- The loop of cache_refill: `n` pages are still wanted.
unfoldable pub refill : ℕ → Buddy → List ℕ → Buddy × List ℕ
refill zero b pages = (b, pages)
refill (suc n) b pages =
    let (page, b') = alloc b 0 in
    elim page [ none ↦ (b', pages) | some p ↦ refill n b' (p ∷ pages) ]

abbrev pub cache_refill : Buddy → List ℕ → Buddy × List ℕ
cache_refill b pages = refill (pcpu_cache_size / 2) b pages

-- The loop of cache_drain: `n` pages are still to go.
unfoldable pub drain : ℕ → Buddy → List ℕ → Buddy × List ℕ
drain zero b pages = (b, pages)
drain (suc n) b [] = (b, [])
drain (suc n) b (p ∷ pages) = drain n (free b p 0) pages

abbrev pub cache_drain : Buddy → List ℕ → Buddy × List ℕ
cache_drain b pages = drain (length pages / 2) b pages

abbrev pub cache_of : Pmm → ℕ → List ℕ
cache_of s cpu = get_or s.caches cpu []

abbrev pub with_cache : Pmm → ℕ → Buddy × List ℕ → Pmm
with_cache s cpu r = record s { buddy = r.0; caches = set s.caches cpu r.1 }

abbrev pub refilled : Pmm → ℕ → Buddy × List ℕ
refilled s cpu = elim (cache_of s cpu) [
  | [] ↦ cache_refill s.buddy []
  | p ∷ pages ↦ (s.buddy, p ∷ pages)
]

unfoldable pub alloc_page : Pmm → ℕ → Option ℕ × Pmm
unfolding refill
alloc_page s cpu =
    let (b, pages) = refilled s cpu in
    elim pages [
      | [] ↦ (none, with_cache s cpu (b, []))
      | p ∷ rest ↦ (some p, with_cache s cpu (b, rest))
    ]

unfoldable pub alloc_pages : Pmm → ℕ → ℕ → Option ℕ × Pmm
unfolding alloc_page
alloc_pages s cpu count =
    let (addr, b) = Buddies.alloc_pages s.buddy count in
    if count == 0
    then (none, s)
    else if count == 1
    then alloc_page s cpu
    else (addr, record s { buddy = b })

abbrev pub drained : Pmm → ℕ → Buddy × List ℕ
drained s cpu =
    let pages = cache_of s cpu in
    if leb pcpu_cache_size (length pages) then cache_drain s.buddy pages else (s.buddy, pages)

unfoldable pub free_page : Pmm → ℕ → ℕ → Pmm
unfolding drain
free_page s cpu addr =
    let (b, pages) = drained s cpu in if addr == 0 then s else with_cache s cpu (b, addr ∷ pages)

abbrev pub get_free_pages : Pmm → ℕ
get_free_pages s = s.buddy.free_pages

abbrev pub get_used_pages : Pmm → ℕ
get_used_pages s = word (s.total_pages + 2 ^ 64 - s.buddy.free_pages)

pub record MemoryMapEntry : Type 0 where
  pub base : ℕ
  pub length : ℕ
  pub type : ℕ

-- The loop of init: the base and the length of the longest usable entry, the first of them.
unfoldable pub best : List MemoryMapEntry → ℕ × ℕ → ℕ × ℕ
best [] found = found
best (e ∷ es) found =
    best es (if e.type == 1 && ltb found.1 e.length then (e.base, e.length) else found)

-- The region from the next page boundary on; the length wraps when the region ends before it.
abbrev pub page_aligned : ℕ × ℕ → ℕ × ℕ
page_aligned region =
    let (base, length) = region in
    if base % page_size == 0 then region else (
      word (base + (page_size - base % page_size)),
      word (length + 2 ^ 64 - (page_size - base % page_size)),
    )

unfoldable pub init : Pmm → List MemoryMapEntry → Pmm
unfolding best
init s entries =
    let found = best entries (0, 0) in
    let (base, length) = page_aligned found in
    if found.1 == 0 then s else record s {
      total_pages = length / page_size;
      buddy = Buddies.init base (length / page_size);
    }
