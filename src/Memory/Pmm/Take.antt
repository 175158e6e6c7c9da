-- ===== src/Memory/Pmm/Take.antt =====
-- What pmm::alloc_page and pmm::alloc_pages of src/kernel/memory/pmm.cpp hand out.
use rucux.Base.{
  ltb, ℕ, zero, suc, ◌+◌, ◌%◌, ◌^◌, ◌≤◌, ◌<◌, ◌≡◌, refl, ap, sym, ◌∙◌, subst, Option, none, some,
  List, [], ◌∷◌, arith, length, get_or, set, length-set, Bool-cases, inl, inr, ◌⊎◌, ◌==◌,
  List-cases,
}
use rucux.Memory.Buddy.{Buddy, page_size, max_order, alloc, pages_to_order}
use rucux.Memory.Buddy.Alloc.{alloc_lem}
use rucux.Memory.Buddy.Cover.{holds, list_weight, BlockOk, SameArena, limit}
use rucux.Memory.Pmm.{
  Pmm, pcpu_cache_size, cache_of, with_cache, cache_refill, alloc_page, alloc_pages,
}
use rucux.Memory.Pmm.Cache.{
  InArena-SameArena, Moves, refill-Moves, Moves-refl, refill-failed, allocated-BlockOk,
}
use rucux.Memory.Pmm.Pages.{
  held, free_and_cached, IsCache-SameArena, IsValid, cache_of-IsCache, with_cache-IsValid,
  with_cache-held, with_cache-counted,
}

-- alloc_page takes a page out of what it looks at: the cache, filled first if it was empty.
abbrev taken_from : Pmm → ℕ → Buddy × List ℕ → Option ℕ × Pmm
taken_from s cpu r = elim r.1 [
  | [] ↦ (none, with_cache s cpu (r.0, []))
  | p ∷ rest ↦ (some p, with_cache s cpu (r.0, rest))
]

-- What an allocation promises of a block that it hands out, of 2 ^ order pages; `q` is any byte.
pub record Gives (s : Pmm) (p order : ℕ) (s' : Pmm) (q : ℕ) : Type 0 where
  pub valid : IsValid s'
  pub same_arena : SameArena s.buddy s'.buddy
  pub same_cpus : length s'.caches ≡ length s.caches
  pub inside : BlockOk s.buddy.base (limit s.buddy) order p
  pub moved : held q s ≡ held q s' + holds q p order
  pub counted : free_and_cached s ≡ free_and_cached s' + 2 ^ order

gives :
    (s : Pmm) (cpu p q : ℕ) (b : Buddy) (rest : List ℕ)
    → IsValid s
    → cpu < length s.caches
    → Moves (s.buddy, cache_of s cpu) (b, p ∷ rest)
    → length (p ∷ rest) ≤ pcpu_cache_size
    → Gives s p 0 (with_cache s cpu (b, rest)) q
unfolding list_weight
gives s cpu p q b rest v here m short = record {
  valid =
      with_cache-IsValid s cpu v here (b, p ∷ rest) rest m (m.pages.1, omega (arith, short))
        (omega (arith, v.fits));
  same_arena = m.same_arena;
  same_cpus = length-set s.caches cpu rest;
  inside =
      (InArena-SameArena b s.buddy (p ∷ []) (sym m.same_arena.0, sym m.same_arena.1)
        (m.pages.0, tt)).0;
  moved = omega (arith, with_cache-held s cpu v here (b, p ∷ rest) rest q m);
  counted = omega (arith, with_cache-counted s cpu v here (b, p ∷ rest) rest m);
}

set_same : (cs : List (List ℕ)) (i : ℕ) (c : List ℕ) → get_or cs i [] ≡ c → set cs i c ≡ cs
set_same [] i c e = refl
set_same (x ∷ cs) zero c e = ap (λ (y : List ℕ). y ∷ cs) (sym e)
set_same (x ∷ cs) (suc i) c e = ap (◌∷◌ x) (set_same cs i c e)

-- alloc_page either fails, which changes nothing and happens only when the CPU's cache is empty and no
-- page is free in the allocator of page frames, or hands out a page of the arena: the bytes of that page
-- and no others leave the free blocks and the caches, and the pages stay valid. They are assumed to be
-- valid, and the CPU to have a cache.
pub alloc_page_lem :
    (s : Pmm) (cpu q : ℕ)
    → IsValid s
    → cpu < length s.caches
    → ((alloc_page s cpu ≡ (none, s)) × (cache_of s cpu ≡ []) × (s.buddy.free_pages ≡ 0))
      ⊎ ((p : ℕ) × ((alloc_page s cpu).0 ≡ some p) × Gives s p 0 (alloc_page s cpu).1 q)
unfolding alloc_page
alloc_page_lem s cpu q v here =
    let goal : Option ℕ × Pmm → Type 0 = λ r.
      ((r ≡ (none, s)) × (cache_of s cpu ≡ []) × (s.buddy.free_pages ≡ 0))
      ⊎ ((p : ℕ) × (r.0 ≡ some p) × Gives s p 0 r.1 q) in
    let looked_at : List ℕ → Buddy × List ℕ =
      λ c. elim c [ [] ↦ cache_refill s.buddy [] | p ∷ pages ↦ (s.buddy, p ∷ pages) ] in
    elim (List-cases (cache_of s cpu)) [
      | inr (p, rest, e) ↦
          let whole : Moves (s.buddy, cache_of s cpu) (s.buddy, p ∷ rest) =
            subst (λ (c : List ℕ). Moves (s.buddy, cache_of s cpu) (s.buddy, c)) e
              (Moves-refl s.buddy (cache_of s cpu) v.buddy (cache_of-IsCache s cpu v here).0) in
          let short : length (p ∷ rest) ≤ pcpu_cache_size =
            subst (λ (c : List ℕ). length c ≤ pcpu_cache_size) e
              (cache_of-IsCache s cpu v here).1 in
          subst goal (sym (ap (λ (c : List ℕ). taken_from s cpu (looked_at c)) e))
            (inr (p, refl, gives s cpu p q s.buddy rest v here whole short))
      | inl e ↦
          let r : Buddy × List ℕ = cache_refill s.buddy [] in
          let (filled, bound) = refill-Moves 32 s.buddy [] v.buddy tt in
          let m : Moves (s.buddy, cache_of s cpu) r =
            subst (λ (c : List ℕ). Moves (s.buddy, c) r) (sym e) filled in
          subst goal (sym (ap (λ (c : List ℕ). taken_from s cpu (looked_at c)) e))
            (elim (List-cases r.1) [
              | inl none_left ↦
                  let (empty, unchanged) = refill-failed 31 s.buddy v.buddy none_left in
                  subst (λ (x : Buddy × List ℕ). goal (taken_from s cpu x)) (sym unchanged)
                    (inl (
                      ap (λ (cs : List (List ℕ)). (none, record s { caches = cs }))
                          (set_same s.caches cpu [] e),
                      e,
                      empty,
                    ))
              | inr (p, rest, listed) ↦
                  let split : r ≡ (r.0, p ∷ rest) = ap (λ (c : List ℕ). (r.0, c)) listed in
                  subst (λ (x : Buddy × List ℕ). goal (taken_from s cpu x)) (sym split)
                    (inr (
                      p,
                      refl,
                      gives s cpu p q r.0 rest v here
                          (subst (Moves (s.buddy, cache_of s cpu)) split m)
                          (omega (arith, bound, ap length listed)),
                    ))
            ])
    ]

-- A block of the allocator of page frames, past the caches.
abbrev given : Pmm → Option ℕ × Buddy → Option ℕ × Pmm
given s r = (r.0, record s { buddy = r.1 })

block_given :
    (s : Pmm) (order q : ℕ)
    → IsValid s
    → (given s (alloc s.buddy order) ≡ (none, s))
      ⊎ ((p : ℕ) × ((alloc s.buddy order).0 ≡ some p)
          × Gives s p order (record s { buddy = (alloc s.buddy order).1 }) q)
unfolding alloc
block_given s order q v = elim (Bool-cases (ltb max_order order)) [
  | inl large ↦
      let refused : alloc s.buddy order ≡ (none, s.buddy) = rw large refl in
      inl (ap (given s) refused)
  | inr small ↦ elim (alloc_lem s.buddy order max_order q v.buddy (ground arith) (omega arith)) [
    | inl (e, _) ↦ inl (ap (given s) e)
    | inr (p, e, a) ↦
        let b' : Buddy = (alloc s.buddy order).1 in
        inr (
          p,
          e,
          record {
            valid = record {
              buddy = a.valid;
              page = ap (λ (x : ℕ). x % page_size) a.same_arena.0 ∙ v.page;
              caches = IsCache-SameArena s.buddy b' s.caches a.same_arena v.caches;
              fits = omega (arith, v.fits, a.counted, a.same_arena.1);
            };
            same_arena = a.same_arena;
            same_cpus = refl;
            inside = allocated-BlockOk s.buddy b' order p q a;
            moved = omega (arith, a.moved);
            counted = omega (arith, a.counted);
          },
        )
  ]
]

-- alloc_pages either fails, which changes nothing, or hands out a block of the least order that has room
-- for the pages: the bytes of that block and no others leave the free blocks and the caches, and the
-- pages stay valid. They are assumed to be valid, and the CPU to have a cache.
pub alloc_pages_lem :
    (s : Pmm) (cpu count q : ℕ)
    → IsValid s
    → cpu < length s.caches
    → (alloc_pages s cpu count ≡ (none, s))
      ⊎ ((p : ℕ) × ((alloc_pages s cpu count).0 ≡ some p)
          × Gives s p (pages_to_order count) (alloc_pages s cpu count).1 q)
unfolding alloc_pages pages_to_order alloc rucux.Memory.Buddy.alloc_pages
alloc_pages_lem s cpu count q v here =
    let order : ℕ = pages_to_order count in
    let goal : Option ℕ × Pmm → Type 0 =
      λ r. (r ≡ (none, s)) ⊎ ((p : ℕ) × (r.0 ≡ some p) × Gives s p order r.1 q) in
    elim (Bool-cases (count == 0)) [
      | inl none_wanted ↦ inl (rw none_wanted refl)
      | inr some_wanted ↦ elim (Bool-cases (count == 1)) [
        | inl one ↦
            let single : count ≡ 1 = ground arith in
            let result : alloc_pages s cpu count ≡ alloc_page s cpu = rw (some_wanted, one) refl in
            let least : 0 ≡ order = sym (ap pages_to_order single) in
            subst goal (sym result) (elim (alloc_page_lem s cpu q v here) [
              | inl (e, _, _) ↦ inl e
              | inr (p, e, g) ↦
                  inr (p, e, subst (λ (o : ℕ). Gives s p o (alloc_page s cpu).1 q) least g)
            ])
        | inr several ↦
            let result : alloc_pages s cpu count ≡ given s (alloc s.buddy order) =
              rw (some_wanted, several) refl in
            subst goal (sym result) (block_given s order q v)
      ]
    ]
