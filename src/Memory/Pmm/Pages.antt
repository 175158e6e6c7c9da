-- ===== src/Memory/Pmm/Pages.antt =====
-- The pages of a machine, for src/kernel/memory/pmm.cpp: when they are valid, and what changing one
-- CPU's cache does to them.
use rucux.Base.{
  ℕ, zero, suc, ◌+◌, ◌%◌, ◌≤◌, ◌<◌, ◌≡◌, ap, ◌∙◌, List, [], ◌∷◌, arith, length, get_or, set, All,
}
use rucux.Memory.Buddy.{Buddy, page_size}
use rucux.Memory.Buddy.Cover.{holds, list_weight, total, BlockOk, SameArena, limit}
use rucux.Memory.Buddy.Cover as Buddies
use rucux.Memory.Pmm.{Pmm, pcpu_cache_size, cache_of, with_cache}
use rucux.Memory.Pmm.Cache.{InArena, InArena-SameArena, Moves, owned_pages}

module _ {A : Type 0} (f : A → ℕ) where
  unfoldable pub sum_of : List A → ℕ
  sum_of [] = 0
  sum_of (x ∷ xs) = f x + sum_of xs

  pub sum_of-set :
      (xs : List A) (i : ℕ) (v d : A)
      → i < length xs
      → sum_of (set xs i v) + f (get_or xs i d) ≡ sum_of xs + f v
  unfolding sum_of
  sum_of-set [] i v d h = absurd (omega arith)
  sum_of-set (x ∷ xs) zero v d h = omega arith
  sum_of-set (x ∷ xs) (suc i) v d h = omega (arith, sum_of-set xs i v d (omega arith))

-- How often the byte `q` stands in the free blocks and the caches.
abbrev pub held : ℕ → Pmm → ℕ
held q s = total (holds q) s.buddy + sum_of (λ c. list_weight (holds q) c 0) s.caches

-- The pages that are free, those of the caches too.
abbrev pub free_and_cached : Pmm → ℕ
free_and_cached s = s.buddy.free_pages + sum_of length s.caches

-- A cache has pages of the arena, as many as its array has slots for.
abbrev pub IsCache : Buddy → List ℕ → Type 0
IsCache b c = All (InArena b) c × (length c ≤ pcpu_cache_size)

-- The allocator of page frames is valid, so are the caches, and there are no more free pages than pages.
pub record IsValid (s : Pmm) : Type 0 where
  pub buddy : Buddies.IsValid s.buddy
  pub page : s.buddy.base % page_size ≡ 0
  pub caches : All (IsCache s.buddy) s.caches
  pub fits : free_and_cached s ≤ s.buddy.total_pages

module _ {A : Type 0} (P : A → Type 0) where
  All-get : (xs : List A) (i : ℕ) (d : A) → P d → All P xs → P (get_or xs i d)
  All-get [] i d p h = p
  All-get (x ∷ xs) zero d p h = h.0
  All-get (x ∷ xs) (suc i) d p h = All-get xs i d p h.1

  All-set : (xs : List A) (i : ℕ) (v : A) → P v → All P xs → All P (set xs i v)
  All-set [] i v p h = h
  All-set (x ∷ xs) zero v p h = (p, h.1)
  All-set (x ∷ xs) (suc i) v p h = (h.0, All-set xs i v p h.1)

pub IsCache-SameArena :
    (b b' : Buddy) (cs : List (List ℕ)) → SameArena b b' → All (IsCache b) cs → All (IsCache b') cs
IsCache-SameArena b b' [] same h = tt
IsCache-SameArena b b' (c ∷ cs) same ((ok, room), rest) =
    ((InArena-SameArena b b' c same ok, room), IsCache-SameArena b b' cs same rest)

-- A CPU's cache gets new contents, after pages moved between it and the allocator.
module _ (s : Pmm) (cpu : ℕ) (v : IsValid s) (here : cpu < length s.caches) where
  pub cache_of-IsCache : IsCache s.buddy (cache_of s cpu)
  cache_of-IsCache = All-get (IsCache s.buddy) s.caches cpu [] (tt, omega arith) v.caches

  pub room_for_cache : owned_pages (s.buddy, cache_of s cpu) ≤ s.buddy.total_pages
  room_for_cache = omega (arith, v.fits, sum_of-set length s.caches cpu [] [] here)

  pub with_cache-IsValid :
      (r : Buddy × List ℕ) (c : List ℕ)
      → Moves (s.buddy, cache_of s cpu) r
      → IsCache r.0 c
      → r.0.free_pages + length c + free_and_cached s ≤ s.buddy.total_pages + owned_pages r
      → IsValid (with_cache s cpu (r.0, c))
  with_cache-IsValid r c m ok room = record {
    buddy = m.valid;
    page = ap (λ (x : ℕ). x % page_size) m.same_arena.0 ∙ v.page;
    caches =
        All-set (IsCache r.0) s.caches cpu c ok
          (IsCache-SameArena s.buddy r.0 s.caches m.same_arena v.caches);
    fits = omega (arith, room, m.counted, m.same_arena.1, sum_of-set length s.caches cpu c [] here);
  }

  pub with_cache-held :
      (r : Buddy × List ℕ) (c : List ℕ) (q : ℕ)
      → Moves (s.buddy, cache_of s cpu) r
      → held q (with_cache s cpu (r.0, c)) + list_weight (holds q) r.1 0
        ≡ held q s + list_weight (holds q) c 0
  with_cache-held r c q m =
      omega (arith, m.moved q, sum_of-set (λ c'. list_weight (holds q) c' 0) s.caches cpu c [] here)

  pub with_cache-counted :
      (r : Buddy × List ℕ) (c : List ℕ)
      → Moves (s.buddy, cache_of s cpu) r
      → free_and_cached (with_cache s cpu (r.0, c)) + length r.1 ≡ free_and_cached s + length c
  with_cache-counted r c m = omega (arith, m.counted, sum_of-set length s.caches cpu c [] here)
