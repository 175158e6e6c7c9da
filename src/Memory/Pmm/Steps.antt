-- ===== src/Memory/Pmm/Steps.antt =====
-- Runs of the page allocator of src/kernel/memory/pmm.cpp from its start on: the state, and the blocks that
-- were handed out and not given back.
use rucux.Base.{
  ℕ, ◌+◌, ◌-◌, ◌*◌, ◌/◌, ◌%◌, ◌^◌, ◌≤◌, ◌<◌, ◌≡◌, refl, ap, ap₂, sym, ◌∙◌, subst, false, ◌==◌,
  Option, none, some, List, [], ◌∷◌, ◌++◌, arith, length, All, Bool-cases, inl, inr,
}
use rucux.Memory.Buddy.{Buddy, page_size, word, pages_to_order}
use rucux.Memory.Buddy as Buddies
use rucux.Memory.Buddy.Cover.{Weight, holds, pages, list_weight, BlockOk, SameArena, limit}
use rucux.Memory.Buddy.Init.{Initial, init_lem, run_holds}
use rucux.Memory.Pmm.{Pmm, MemoryMapEntry, best, page_aligned, init, alloc_pages, free_page}
use rucux.Memory.Pmm.Pages.{held, free_and_cached, IsCache, IsValid, sum_of}
use rucux.Memory.Pmm.Take.{Gives, alloc_pages_lem}
use rucux.Memory.Pmm.Return.{Takes, free_page_lem}

-- A block that was handed out: its address and its order.
abbrev pub Block : Type 0
Block = ℕ × ℕ

abbrev pub Machine : Type 0
Machine = Pmm × List Block

-- A CPU asks for pages and gets a block, or none; or it gives one page back that was handed out.
pub data Step : Machine → Machine → Type 0 where
  handed_out :
      (s : Pmm) (out : List Block) (cpu count p : ℕ)
      → cpu < length s.caches
      → (alloc_pages s cpu count).0 ≡ some p
      → Step (s, out) ((alloc_pages s cpu count).1, (p, pages_to_order count) ∷ out)
  refused :
      (s : Pmm) (out : List Block) (cpu count : ℕ)
      → cpu < length s.caches
      → (alloc_pages s cpu count).0 ≡ none
      → Step (s, out) ((alloc_pages s cpu count).1, out)
  given_back :
      (s : Pmm) (before after : List Block) (cpu p : ℕ)
      → cpu < length s.caches
      → Step (s, before ++ ((p, 0) ∷ after)) (free_page s cpu p, before ++ after)

-- The longest usable entry of the memory map is a page at least, not at address 0, within 64 bits.
abbrev pub Usable : List MemoryMapEntry → Type 0
Usable entries =
    let (base, length) = best entries (0, 0) in
    (0 < base) × (page_size ≤ length) × (base + length ≤ 2 ^ 64)

-- The machines that a run from init on gets to. At the start the caches are empty.
pub data Reachable (entries : List MemoryMapEntry) : Machine → Type 0 where
  started : (s : Pmm) → All (λ c. c ≡ []) s.caches → Reachable entries (init s entries, [])
  stepped : (m m' : Machine) → Reachable entries m → Step m m' → Reachable entries m'

module _ (w : Weight) where
  abbrev pub blocks_weight : List Block → ℕ
  blocks_weight out = sum_of (λ b. w b.0 b.1) out

-- The pages are valid, the blocks that were handed out are blocks of the arena, no page is lost, and
-- every byte stands exactly once, if it is of the arena, in a free block, in a cache or in a block
-- that was handed out.
pub record Partitions (m : Machine) : Type 0 where
  pub valid : IsValid m.0
  pub blocks : All (λ b. BlockOk m.0.buddy.base (limit m.0.buddy) b.1 b.0) m.1
  pub counted : free_and_cached m.0 + blocks_weight pages m.1 ≡ m.0.buddy.total_pages
  pub once :
      (q : ℕ)
      → held q m.0 + blocks_weight (holds q) m.1 ≡ run_holds q m.0.buddy.base m.0.buddy.total_pages

blocks_weight-insert :
    (w : Weight) (before after : List Block) (b : Block)
    → blocks_weight w (before ++ (b ∷ after)) ≡ w b.0 b.1 + blocks_weight w (before ++ after)
unfolding sum_of
blocks_weight-insert w [] after b = refl
blocks_weight-insert w (x ∷ before) after b = omega (arith, blocks_weight-insert w before after b)

All-remove :
    (P : Block → Type 0) (before after : List Block) (b : Block)
    → All P (before ++ (b ∷ after))
    → P b × All P (before ++ after)
All-remove P [] after b h = h
All-remove P (x ∷ before) after b (p, h) =
    let (here, rest) = All-remove P before after b h in (here, (p, rest))

blocks-SameArena :
    (b b' : Buddy) (out : List Block)
    → SameArena b b'
    → All (λ x. BlockOk b.base (limit b) x.1 x.0) out
    → All (λ x. BlockOk b'.base (limit b') x.1 x.0) out
blocks-SameArena b b' out (base, total_pages) h =
    subst (λ (x : ℕ). All (λ y. BlockOk x (x + b'.total_pages * page_size) y.1 y.0) out) (sym base)
      (subst (λ (n : ℕ). All (λ y. BlockOk b.base (b.base + n * page_size) y.1 y.0) out)
        (sym total_pages) h)

run_holds-SameArena :
    (q : ℕ) (b b' : Buddy)
    → SameArena b b'
    → run_holds q b'.base b'.total_pages ≡ run_holds q b.base b.total_pages
run_holds-SameArena q b b' (base, total_pages) = ap₂ (run_holds q) base total_pages

step-Partitions : (m m' : Machine) → Step m m' → Partitions m → Partitions m'
unfolding sum_of
step-Partitions m m' (handed_out s out cpu count p here e) part =
    let order : ℕ = pages_to_order count in
    let s' : Pmm = (alloc_pages s cpu count).1 in
    let gives : (q : ℕ) → Gives s p order s' q = λ q.
      elim (alloc_pages_lem s cpu count q part.valid here) [
        | inl none_given ↦ absurd (cc)
        | inr (p', e', g) ↦ let same : p' ≡ p = cc in subst (λ (x : ℕ). Gives s x order s' q) same g
      ] in
    let g : Gives s p order s' 0 = gives 0 in
    record {
      valid = g.valid;
      blocks =
          blocks-SameArena s.buddy s'.buddy ((p, order) ∷ out) g.same_arena (g.inside, part.blocks);
      counted = omega (arith, g.counted, part.counted, g.same_arena.1);
      once = λ q. omega (
        arith,
        (gives q).moved,
        part.once q,
        run_holds-SameArena q s.buddy s'.buddy g.same_arena,
      );
    }
step-Partitions m m' (refused s out cpu count here e) part =
    elim (alloc_pages_lem s cpu count 0 part.valid here) [
      | inl unchanged ↦ subst (λ (r : Option ℕ × Pmm). Partitions (r.1, out)) (sym unchanged) part
      | inr (p, e', g) ↦ absurd (cc)
    ]
step-Partitions m m' (given_back s before after cpu p here) part =
    let s' : Pmm = free_page s cpu p in
    let (inside, others) =
      All-remove (λ b. BlockOk s.buddy.base (limit s.buddy) b.1 b.0) before after (p, 0)
        part.blocks in
    let room : free_and_cached s < s.buddy.total_pages =
      omega (arith, part.counted, blocks_weight-insert pages before after (p, 0)) in
    let takes : (q : ℕ) → Takes s p s' q =
      λ q. free_page_lem s cpu p q part.valid here inside room in
    let t : Takes s p s' 0 = takes 0 in
    record {
      valid = t.valid;
      blocks = blocks-SameArena s.buddy s'.buddy (before ++ after) t.same_arena others;
      counted = omega (
        arith,
        t.counted,
        part.counted,
        blocks_weight-insert pages before after (p, 0),
        t.same_arena.1,
      );
      once = λ q. omega (
        arith,
        (takes q).moved,
        part.once q,
        blocks_weight-insert (holds q) before after (p, 0),
        run_holds-SameArena q s.buddy s'.buddy t.same_arena,
      );
    }

best_found :
    (base size : ℕ)
    → 0 < base
    → page_size ≤ size
    → base + size ≤ 2 ^ 64
    → (0 < (page_aligned (base, size)).0)
      × ((page_aligned (base, size)).0 < 2 ^ 64)
      × ((page_aligned (base, size)).0 % page_size ≡ 0)
      × ((page_aligned (base, size)).0 + (page_aligned (base, size)).1 / page_size * page_size
          ≤ 2 ^ 64)
best_found base size nonzero long within = elim (Bool-cases (base % page_size == 0)) [
  | inl aligned ↦
      let result : page_aligned (base, size) ≡ (base, size) = rw aligned refl in
      rw result (nonzero, omega arith, ground arith, omega arith)
  | inr unaligned ↦
      let waste : ℕ = page_size - base % page_size in
      let result : page_aligned (base, size) ≡ (word (base + waste), word (size + 2 ^ 64 - waste)) =
        rw unaligned refl in
      let odd : 0 < base % page_size = ground arith in
      let up : word (base + waste) ≡ base + waste = omega arith in
      let down : word (size + 2 ^ 64 - waste) ≡ size - waste = omega arith in
      rw result (rw (up, down) (omega arith, omega arith, omega arith, omega arith))
]

no_pages :
    (w : Weight) (caches : List (List ℕ))
    → All (λ c. c ≡ []) caches
    → sum_of (λ c. list_weight w c 0) caches ≡ 0
unfolding sum_of list_weight
no_pages w [] h = refl
no_pages w (c ∷ caches) (e, h) = rw e (omega (arith, no_pages w caches h))

no_pages-length : (caches : List (List ℕ)) → All (λ c. c ≡ []) caches → sum_of length caches ≡ 0
unfolding sum_of
no_pages-length [] h = refl
no_pages-length (c ∷ caches) (e, h) = rw e (omega (arith, no_pages-length caches h))

no_pages-IsCache :
    (b : Buddy) (caches : List (List ℕ)) → All (λ c. c ≡ []) caches → All (IsCache b) caches
no_pages-IsCache b [] h = tt
no_pages-IsCache b (c ∷ caches) (e, h) = (rw e (tt, omega arith), no_pages-IsCache b caches h)

init-Partitions :
    (s : Pmm) (entries : List MemoryMapEntry)
    → All (λ c. c ≡ []) s.caches
    → Usable entries
    → Partitions (init s entries, [])
unfolding init sum_of
init-Partitions s entries empty (nonzero, long, within) =
    let found : ℕ × ℕ = best entries (0, 0) in
    let region : ℕ × ℕ = page_aligned found in
    let (base_ok, base_small, page, arena) = best_found found.0 found.1 nonzero long within in
    let count : ℕ = region.1 / page_size in
    let some_found : (found.1 == 0) ≡ false = ground arith in
    let s' : Pmm = record s { total_pages = count; buddy = Buddies.init region.0 count } in
    let result : init s entries ≡ s' = rw some_found refl in
    let initial : (q : ℕ) → Initial region.0 count q s'.buddy =
      λ q. init_lem region.0 count q base_ok base_small page arena in
    let i : Initial region.0 count 0 s'.buddy = initial 0 in
    subst (λ (x : Pmm). Partitions (x, [])) (sym result)
      (record {
        valid = record {
          buddy = i.valid;
          page = ap (λ (x : ℕ). x % page_size) i.same_base ∙ page;
          caches = no_pages-IsCache s'.buddy s.caches empty;
          fits = omega (arith, no_pages-length s.caches empty, i.all_free, i.same_pages);
        };
        blocks = tt;
        counted = omega (arith, no_pages-length s.caches empty, i.all_free, i.same_pages);
        once = λ q. omega (
          arith,
          (initial q).held,
          no_pages (holds q) s.caches empty,
          ap₂ (run_holds q) i.same_base i.same_pages,
        );
      })

-- Whatever CPUs ask for and give back, the pages stay valid, no page is lost, and every byte of the arena
-- is in exactly one place: in a free block, in one CPU's cache, or in one block that was handed
-- out. So no page is handed out again before it is given back. The longest usable entry of the memory map
-- is assumed to be a page at least, not at address 0 and within 64 bits, and only single pages that were
-- handed out are given back.
pub Reachable-Partitions :
    (entries : List MemoryMapEntry) (m : Machine)
    → Usable entries
    → Reachable entries m
    → Partitions m
Reachable-Partitions entries m usable (started s empty) = init-Partitions s entries empty usable
Reachable-Partitions entries m usable (stepped m' m'' before step) =
    step-Partitions m' m'' step (Reachable-Partitions entries m' usable before)
