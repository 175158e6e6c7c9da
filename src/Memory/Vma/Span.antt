-- ===== src/Memory/Vma/Span.antt =====
-- vma_manager::remove of src/kernel/memory/vma.cpp where one region reaches beyond both ends of the
-- range.
use rucux.Base.{
  ℕ, zero, suc, ◌+◌, ◌-◌, ◌≤◌, ◌<◌, ◌≡◌, refl, Option, none, some, List, [], ◌∷◌, arith,
  if◌then◌else◌,
}
use rucux.Memory.Vma.{
  Region, word, right_part, overlap_loop, first_overlap, span_loop, carve, remove_loop,
}
use rucux.Memory.Vma.View.{Ordered, page_of, within, lookup, region_at}
use rucux.Memory.Vma.Replace.{Fits, replace, replace-Ordered, lookup-replace, tree_insert-update}
use rucux.Memory.Vma.Insert.{lookup-region_at}
use rucux.Memory.Vma.Leftover.{pending, pending-replace}

module _ (start end : ℕ) (some_bytes : start < end) where
  pub span-region_at :
      (lo : ℕ) (rs : List Region) (s : Region)
      → Ordered lo rs
      → span_loop rs start end ≡ some s
      → (region_at rs s.start ≡ some s) × (lo ≤ s.start) × (s.start < start) × (end < s.end)
  unfolding span_loop region_at
  span-region_at lo [] s o h = cc
  span-region_at lo (x ∷ xs) s o h = ground (arith, span-region_at x.end xs s o.2)

  span-overlap :
      (lo : ℕ) (rs : List Region) (s : Region)
      → Ordered lo rs
      → span_loop rs start end ≡ some s
      → overlap_loop rs start end ≡ some s
  unfolding span_loop overlap_loop
  span-overlap lo [] s o h = cc
  span-overlap lo (x ∷ xs) s o h =
      ground (arith, span-overlap x.end xs s o.2, span-region_at x.end xs s o.2)

  pending_above : (lo : ℕ) (rs : List Region) → Ordered lo rs → end ≤ lo → pending start end rs ≡ 0
  unfolding pending
  pending_above lo [] o h = refl
  pending_above lo (x ∷ xs) o h = ground (arith, pending_above x.end xs o.2)

  pending-span :
      (lo : ℕ) (rs : List Region) (s : Region)
      → Ordered lo rs
      → span_loop rs start end ≡ some s
      → pending start end rs ≡ 1
  unfolding span_loop pending
  pending-span lo [] s o h = cc
  pending-span lo (x ∷ xs) s o h = ground (
    arith,
    pending-span x.end xs s o.2,
    span-region_at x.end xs s o.2,
    pending_above x.end xs o.2,
  )

  none-pending : (rs : List Region) → pending start end rs ≡ 0 → first_overlap rs start end ≡ none
  unfolding first_overlap overlap_loop pending
  none-pending [] h = ground arith
  none-pending (x ∷ xs) h = ground (arith, none-pending xs)

  loop_done :
      (fuel : ℕ) (rs : List Region) (right : Option Region)
      → first_overlap rs start end ≡ none
      → remove_loop fuel rs right start end ≡ rs
  unfolding remove_loop
  loop_done zero rs right h = refl
  loop_done (suc fuel) rs right h = ground arith

  -- What is left of the region: its part below the range and its part above.
  abbrev pub ends : Region → List Region
  ends s = record s { end = start } ∷ (right_part s end ∷ [])

  lookup-ends :
      (s : Region) (a : ℕ)
      → s.start < start
      → end < s.end
      → s.start ≤ a
      → a < s.end
      → lookup (ends s) a ≡ (if within start end a then none else some (page_of s a))
  unfolding lookup
  lookup-ends s a p q h k = ground (arith, moved)
    where
      moved :
          end ≤ a
          → word (word (s.file_offset + (end - s.start)) + (a - end))
            ≡ word (s.file_offset + (a - s.start))
      moved h = omega arith

  pub span_unmaps :
      (rs : List Region) (s : Region) (fuel a : ℕ)
      → Ordered 0 rs
      → span_loop rs start end ≡ some s
      → let rs' = remove_loop (suc fuel) rs (some (right_part s end)) start end in
        Ordered 0 rs' × (lookup rs' a ≡ (if within start end a then none else lookup rs a))
  unfolding remove_loop carve first_overlap
  span_unmaps rs s fuel a o h =
      let (here, low, p, q) = span-region_at 0 rs s o h in
      let rs' = replace s.start (ends s) rs in
      let fits : Fits s.start s.end (ends s) = omega arith in
      let count : suc (pending start end rs') ≡ pending start end rs =
        pending-replace start end s.start s (ends s) rs here (ground arith)
          (unfold pending in ground arith) in
      let quiet = none-pending rs' (omega (arith, count, pending-span 0 rs s o h)) in
      let step : remove_loop (suc fuel) rs (some (right_part s end)) start end ≡ rs' = ground (
        arith,
        span-overlap 0 rs s o h,
        tree_insert-update 0 s.start s (record s { end = start }) (right_part s end) rs o here,
        loop_done fuel rs' none quiet,
      ) in
      rw step (
        replace-Ordered s.start s (ends s) fits 0 rs o here,
        ground (
          arith,
          lookup-replace s.start s (ends s) fits 0 rs a o here,
          lookup-ends s a p q,
          lookup-region_at 0 rs s.start a s o here,
        ),
      )
