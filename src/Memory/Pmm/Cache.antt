-- ===== src/Memory/Pmm/Cache.antt =====
-- How pages move between a cache of src/kernel/memory/pmm.cpp and the allocator of page frames.
use rucux.Base.{
  ℕ, zero, suc, ◌+◌, ◌-◌, ◌*◌, ◌/◌, ◌%◌, ◌≤◌, ◌<◌, ◌≡◌, refl, ap, ap₂, sym, ◌∙◌, subst, Option,
  none, some, List, [], ◌∷◌, arith, length, get_or, All, Option-cases, inl, inr, ◌⊎◌,
}
use native.Mathlib.Nat.{mul-mod_left, div-add-mod'}
use rucux.Memory.Buddy.{Buddy, page_size, block_size, max_order, alloc, free, free_list}
use rucux.Memory.Buddy.Cover.{
  Weight, holds, pages, list_weight, lists_weight, total, BlockOk, IsValid, SameArena, limit,
}
use rucux.Memory.Buddy.Alloc.{alloc_lem, Allocates}
use rucux.Memory.Buddy.Free.{free_lem, Frees}
use rucux.Memory.Pmm.{refill, drain}

-- A page of the memory that is managed.
abbrev pub InArena : Buddy → ℕ → Type 0
InArena b p = BlockOk b.base (limit b) 0 p

pub InArena-SameArena :
    (b b' : Buddy) (ps : List ℕ) → SameArena b b' → All (InArena b) ps → All (InArena b') ps
InArena-SameArena b b' ps (base, total_pages) h =
    subst (λ (x : ℕ). All (BlockOk x (x + b'.total_pages * page_size) 0) ps) (sym base)
      (subst (λ (n : ℕ). All (BlockOk b.base (b.base + n * page_size) 0) ps) (sym total_pages) h)

lists_weight_empty :
    (w : Weight) (ls : List (List ℕ)) (from : ℕ)
    → ((i : ℕ) → i < length ls → get_or ls i [] ≡ [])
    → lists_weight w ls from ≡ 0
unfolding lists_weight list_weight
lists_weight_empty w [] from h = refl
lists_weight_empty w (l ∷ ls) from h =
    let first : l ≡ [] = h 0 (omega arith) in
    rw first
      (omega (arith, lists_weight_empty w ls (suc from) (λ i below. h (suc i) (omega arith))))

-- alloc of one page: either nothing is free, or a page is taken out.
pub alloc_page-cases :
    (b : Buddy)
    → IsValid b
    → ((alloc b 0 ≡ (none, b)) × (b.free_pages ≡ 0))
      ⊎ ((p : ℕ) × (b' : Buddy) × (alloc b 0 ≡ (some p, b')) × ((q : ℕ) → Allocates b 0 p b' q))
unfolding total
alloc_page-cases b v = elim (Option-cases (alloc b 0).0) [
  | inl e ↦
      let failed : (i : ℕ) → i < max_order + 1 → (alloc b 0 ≡ (none, b)) × (free_list b i ≡ []) =
        λ i below. elim (alloc_lem b 0 i 0 v (omega arith) below) [
          | inl h ↦ h
          | inr (addr, given, _) ↦ absurd (cc)
        ] in
      inl (
        (failed 0 (omega arith)).0,
        v.counted
            ∙ lists_weight_empty pages b.free_lists 0
                (λ i below. (failed i (omega (arith, below, v.lists))).1),
      )
  | inr (p, e) ↦ inr (
    p,
    (alloc b 0).1,
    ap₂ (λ (x : Option ℕ) (y : Buddy). (x, y)) e refl,
    λ q. elim (alloc_lem b 0 0 q v (omega arith) (omega arith)) [
      | inl (h, _) ↦ absurd (cc)
      | inr (addr, given, allocates) ↦
          let same : addr ≡ p = cc in
          subst (λ (x : ℕ). Allocates b 0 x (alloc b 0).1 q) same allocates
    ],
  )
]

-- free of a page of the arena takes it back.
pub free_page-Frees :
    (b : Buddy) (p q : ℕ)
    → IsValid b
    → b.base % page_size ≡ 0
    → InArena b p
    → b.free_pages < b.total_pages
    → Frees b p 0 (free b p 0) q
free_page-Frees b p q v page ok room = elim (free_lem b p 0 q v page (omega arith)) [
  | inr frees ↦ frees
  | inl (_, inl e) ↦ absurd (omega arith)
  | inl (_, inr (inl e)) ↦
      absurd
        (e (ap (λ (x : ℕ). x % block_size 0) ok.aligned ∙ mul-mod_left ok.index (block_size 0)))
  | inl (_, inr (inr (inl e))) ↦ absurd (omega (arith, ok.above))
  | inl (_, inr (inr (inr e))) ↦ absurd (omega (arith, ok.below))
]

-- How often the byte `q` stands in the free blocks and a cache.
abbrev pub owned : ℕ → Buddy × List ℕ → ℕ
owned q r = total (holds q) r.0 + list_weight (holds q) r.1 0

abbrev pub owned_pages : Buddy × List ℕ → ℕ
owned_pages r = r.0.free_pages + length r.1

-- Pages change between a cache and the allocator, and none is lost or made.
pub record Moves (r r' : Buddy × List ℕ) : Type 0 where
  pub valid : IsValid r'.0
  pub same_arena : SameArena r.0 r'.0
  pub pages : All (InArena r'.0) r'.1
  pub moved : (q : ℕ) → owned q r' ≡ owned q r
  pub counted : owned_pages r' ≡ owned_pages r

pub Moves-refl : (b : Buddy) (ps : List ℕ) → IsValid b → All (InArena b) ps → Moves (b, ps) (b, ps)
Moves-refl b ps v ok = record {
  valid = v;
  same_arena = (refl, refl);
  pages = ok;
  moved = λ q. refl;
  counted = refl;
}

Moves-trans : (r r' r'' : Buddy × List ℕ) → Moves r r' → Moves r' r'' → Moves r r''
Moves-trans r r' r'' m m' = record {
  valid = m'.valid;
  same_arena = (m'.same_arena.0 ∙ m.same_arena.0, m'.same_arena.1 ∙ m.same_arena.1);
  pages = m'.pages;
  moved = λ q. m'.moved q ∙ m.moved q;
  counted = m'.counted ∙ m.counted;
}

pub allocated-BlockOk :
    (b b' : Buddy) (order p q : ℕ) → Allocates b order p b' q → BlockOk b.base (limit b) order p
allocated-BlockOk b b' order p q a = record {
  index = p / block_size order;
  aligned = omega (arith, div-add-mod' p (block_size order), a.aligned);
  above = a.inside.1;
  below = a.inside.2;
}

pub refill-Moves :
    (n : ℕ) (b : Buddy) (ps : List ℕ)
    → IsValid b
    → All (InArena b) ps
    → Moves (b, ps) (refill n b ps) × (length (refill n b ps).1 ≤ length ps + n)
unfolding refill list_weight
refill-Moves zero b ps v ok = (Moves-refl b ps v ok, omega arith)
refill-Moves (suc n) b ps v ok =
    let goal : Buddy × List ℕ → Type 0 = λ r. Moves (b, ps) r × (length r.1 ≤ length ps + suc n) in
    let next : Option ℕ × Buddy → Buddy × List ℕ =
      λ r. elim r.0 [ none ↦ (r.1, ps) | some p ↦ refill n r.1 (p ∷ ps) ] in
    elim (alloc_page-cases b v) [
      | inl (e, _) ↦ subst goal (sym (ap next e)) (Moves-refl b ps v ok, omega arith)
      | inr (p, b', e, allocates) ↦
          let a : Allocates b 0 p b' 0 = allocates 0 in
          let ok' : All (InArena b') (p ∷ ps) =
            InArena-SameArena b b' (p ∷ ps) a.same_arena (allocated-BlockOk b b' 0 p 0 a, ok) in
          let (rest, bound) = refill-Moves n b' (p ∷ ps) a.valid ok' in
          let first : Moves (b, ps) (b', p ∷ ps) = record {
            valid = a.valid;
            same_arena = a.same_arena;
            pages = ok';
            moved = λ q. omega (arith, (allocates q).moved);
            counted = omega (arith, a.counted);
          } in
          subst goal (sym (ap next e)) (
            Moves-trans (b, ps) (b', p ∷ ps) (refill n b' (p ∷ ps)) first rest,
            omega (arith, bound),
          )
    ]

length-refill : (n : ℕ) (b : Buddy) (ps : List ℕ) → length ps ≤ length (refill n b ps).1
unfolding refill
length-refill zero b ps = omega arith
length-refill (suc n) b ps = elim (Option-cases (alloc b 0).0) [
  | inl e ↦ rw (e, refill) (omega arith)
  | inr (p, e) ↦
      let longer : suc (length ps) ≤ length (refill n (alloc b 0).1 (p ∷ ps)).1 =
        length-refill n (alloc b 0).1 (p ∷ ps) in
      rw (e, refill) (omega (arith, longer))
]

-- A cache that had no page and has none after it was filled: no page was free.
pub refill-failed :
    (n : ℕ) (b : Buddy)
    → IsValid b
    → (refill (suc n) b []).1 ≡ []
    → (b.free_pages ≡ 0) × (refill (suc n) b [] ≡ (b, []))
unfolding refill
refill-failed n b v h =
    let next : Option ℕ × Buddy → Buddy × List ℕ =
      λ r. elim r.0 [ none ↦ (r.1, []) | some p ↦ refill n r.1 (p ∷ []) ] in
    elim (alloc_page-cases b v) [
      | inl (e, empty) ↦ (empty, ap next e)
      | inr (p, b', e, allocates) ↦
          let long = length-refill n b' (p ∷ []) in
          let none_left : (refill n b' (p ∷ [])).1 ≡ [] = sym (ap (λ r. (next r).1) e) ∙ h in
          absurd (omega (arith, long, ap length none_left))
    ]

pub drain-Moves :
    (n : ℕ) (b : Buddy) (ps : List ℕ)
    → IsValid b
    → b.base % page_size ≡ 0
    → All (InArena b) ps
    → owned_pages (b, ps) ≤ b.total_pages
    → Moves (b, ps) (drain n b ps) × (length (drain n b ps).1 ≡ length ps - n)
unfolding drain list_weight
drain-Moves zero b ps v page ok room = (Moves-refl b ps v ok, omega arith)
drain-Moves (suc n) b [] v page ok room = (Moves-refl b [] v ok, omega arith)
drain-Moves (suc n) b (p ∷ ps) v page (okp, ok) room =
    let frees : (q : ℕ) → Frees b p 0 (free b p 0) q =
      λ q. free_page-Frees b p q v page okp (omega arith) in
    let f : Frees b p 0 (free b p 0) 0 = frees 0 in
    let b' : Buddy = free b p 0 in
    let ok' : All (InArena b') ps = InArena-SameArena b b' ps f.same_arena ok in
    let page' : b'.base % page_size ≡ 0 = ap (λ (x : ℕ). x % page_size) f.same_arena.0 ∙ page in
    let (rest, bound) =
      drain-Moves n b' ps f.valid page' ok' (omega (arith, f.counted, f.same_arena.1)) in
    let first : Moves (b, p ∷ ps) (b', ps) = record {
      valid = f.valid;
      same_arena = f.same_arena;
      pages = ok';
      moved = λ q. omega (arith, (frees q).moved);
      counted = omega (arith, f.counted);
    } in
    (Moves-trans (b, p ∷ ps) (b', ps) (drain n b' ps) first rest, omega (arith, bound))
