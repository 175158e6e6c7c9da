-- ===== src/Memory/Vma/Leftover.antt =====
-- One round of vma_manager::remove of src/kernel/memory/vma.cpp: what the range leaves of a region.
use rucux.Base.{
  ℕ, suc, ◌+◌, ◌-◌, ◌≤◌, ◌<◌, ◌≡◌, ◌⊎◌, inl, inr, Bool, true, ◌&&◌, none, some, List, [], ◌∷◌, ◌++◌,
  arith, ltb, leb, ◌==◌, if◌then◌else◌, Bool-cases, All, length,
}
use rucux.Memory.Vma.{Region, word, span_loop, carve}
use rucux.Memory.Vma.View.{Ordered, page_of, within, lookup, region_at}
use rucux.Memory.Vma.Replace.{Fits, replace, tree_remove-replace, update-replace}

module _ (start end : ℕ) where
  abbrev pub meets : Region → Bool
  meets r = ltb r.start end && ltb start r.end

  -- How many regions the loop has still to visit.
  unfoldable pub pending : List Region → ℕ
  pending [] = 0
  pending (x ∷ xs) = (if meets x then 1 else 0) + pending xs

  pub pending-le : (rs : List Region) → pending rs ≤ length rs
  unfolding pending
  pending-le [] = omega arith
  pending-le (x ∷ xs) = ground (arith, pending-le xs)

  pending-append : (xs ys : List Region) → pending (xs ++ ys) ≡ pending xs + pending ys
  unfolding pending
  pending-append [] ys = omega arith
  pending-append (x ∷ xs) ys = ground (arith, pending-append xs ys)

  pub pending-replace :
      (key : ℕ) (r : Region) (news rs : List Region)
      → region_at rs key ≡ some r
      → meets r ≡ true
      → pending news ≡ 0
      → suc (pending (replace key news rs)) ≡ pending rs
  unfolding pending region_at replace
  pending-replace key r news [] h m n = cc
  pending-replace key r news (x ∷ xs) h m n = elim (Bool-cases (x.start == key)) [
    | inl hit ↦ let same : x ≡ r = ground arith in ground (arith, pending-append news xs)
    | inr miss ↦ ground (arith, pending-replace key r news xs)
  ]

  -- No region reaches beyond both ends of the range.
  abbrev pub Short : Region → Type 0
  Short r = (start ≤ r.start) ⊎ (r.end ≤ end)

  All-append : (xs ys : List Region) → All Short xs → All Short ys → All Short (xs ++ ys)
  All-append [] ys p q = q
  All-append (x ∷ xs) ys p q = (p.0, All-append xs ys p.1 q)

  pub Short-replace :
      (key : ℕ) (news rs : List Region)
      → All Short news
      → All Short rs
      → All Short (replace key news rs)
  unfolding replace
  Short-replace key news [] p q = tt
  Short-replace key news (x ∷ xs) p q = elim (Bool-cases (x.start == key)) [
    | inl hit ↦ rw (hit, replace) (All-append news xs p q.1)
    | inr miss ↦ rw (miss, replace) (q.0, Short-replace key news xs p q.1)
  ]

  pub Short-region_at :
      (rs : List Region) (key : ℕ) (r : Region) → All Short rs → region_at rs key ≡ some r → Short r
  unfolding region_at
  Short-region_at [] key r p h = cc
  Short-region_at (x ∷ xs) key r p h = ground (arith, Short-region_at xs key r p.1)

  Short-above : (lo : ℕ) (rs : List Region) → start ≤ lo → Ordered lo rs → All Short rs
  Short-above lo [] le o = tt
  Short-above lo (x ∷ xs) le o = (inl (omega arith), Short-above x.end xs (omega arith) o.2)

  pub span_loop-Short :
      (lo : ℕ) (rs : List Region)
      → start ≤ end
      → Ordered lo rs
      → span_loop rs start end ≡ none
      → All Short rs
  unfolding span_loop
  span_loop-Short lo [] le o h = tt
  span_loop-Short lo (x ∷ xs) le o h = elim (Bool-cases (leb end x.start)) [
    | inl e ↦
        let above : start ≤ x.start = ground arith in
        (inl above, Short-above x.end xs (omega arith) o.2)
    | inr e ↦ (ground arith, span_loop-Short x.end xs le o.2 (ground arith))
  ]

  -- What the range leaves of a region that meets it but does not reach beyond both ends.
  pub leftover : Region → List Region
  leftover r =
      if leb start r.start && leb r.end end
      then []
      else if ltb r.start start
      then record r { end = start } ∷ []
      else record r { file_offset = word (r.file_offset + (end - r.start)); start = end } ∷ []

  module _ (r : Region) (full : r.start < r.end) (low : r.start < end) (high : start < r.end)
      (short : Short r) where
    pub leftover-Fits : Fits r.start r.end (leftover r)
    unfolding leftover
    leftover-Fits = ground arith

    pub leftover-pending : pending (leftover r) ≡ 0
    unfolding leftover pending
    leftover-pending = ground arith

    pub leftover-Short : All Short (leftover r)
    unfolding leftover
    leftover-Short = ground arith

    pub leftover-lookup :
        (a : ℕ)
        → r.start ≤ a
        → a < r.end
        → lookup (leftover r) a ≡ (if within start end a then none else some (page_of r a))
    unfolding leftover lookup
    leftover-lookup a p q = ground (arith, moved)
      where
        moved :
            end ≤ a
            → word (word (r.file_offset + (end - r.start)) + (a - end))
              ≡ word (r.file_offset + (a - r.start))
        moved h = omega arith

    pub carve-leftover :
        (rs : List Region) → carve rs none start end r ≡ (replace r.start (leftover r) rs, none)
    unfolding carve leftover
    carve-leftover rs = ground (
      arith,
      tree_remove-replace r.start rs,
      update-replace r.start (record r { end = start }) rs,
      update-replace r.start
          (record r { file_offset = word (r.file_offset + (end - r.start)); start = end }) rs,
    )
