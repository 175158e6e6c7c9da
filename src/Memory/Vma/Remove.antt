-- ===== src/Memory/Vma/Remove.antt =====
-- vma_manager::remove of src/kernel/memory/vma.cpp against the address space that a tree stands for.
use rucux.Base.{
  ℕ, zero, suc, ◌+◌, ◌^◌, ◌≤◌, ◌<◌, ◌≡◌, refl, sym, subst, ◌⊎◌, inl, inr, Bool, true, false, none,
  some, List, arith, ltb, ◌==◌, if◌then◌else◌, Bool-cases, Option-cases, All, length, ltb→lt,
  ltb→le,
}
use rucux.Memory.Vma.{Region, word, right_part, first_overlap, span_loop, remove_loop, remove}
use rucux.Memory.Vma.View.{
  Ordered, within, lookup, region_at, region_at-first_overlap, first_overlap-none,
}
use rucux.Memory.Vma.Replace.{replace, replace-Ordered, lookup-replace}
use rucux.Memory.Vma.Insert.{lookup-region_at}
use rucux.Memory.Vma.Span.{span-region_at, span_unmaps}
use rucux.Memory.Vma.Leftover.{
  pending, pending-le, pending-replace, Short, Short-replace, Short-region_at, span_loop-Short,
  leftover, leftover-Fits, leftover-pending, leftover-Short, leftover-lookup, carve-leftover,
}

-- The tree `rs'` is in order and maps, at `a`, what `rs` does, less the range.
abbrev pub Unmapped : ℕ → ℕ → List Region → ℕ → List Region → Type 0
Unmapped start end rs a rs' =
    Ordered 0 rs' × (lookup rs' a ≡ (if within start end a then none else lookup rs a))

module _ (start end a : ℕ) where
  -- With enough rounds the loop ends by itself, and unmaps the range.
  loop_unmaps :
      (fuel : ℕ) (rs : List Region)
      → pending start end rs < fuel
      → Ordered 0 rs
      → All (Short start end) rs
      → Unmapped start end rs a (remove_loop fuel rs none start end)
  unfolding remove_loop
  loop_unmaps zero rs p o s = absurd (omega arith)
  loop_unmaps (suc fuel) rs p o s = elim (Option-cases (first_overlap rs start end)) [
    | inl e ↦ rw (e, remove_loop) (o, ground (arith, first_overlap-none 0 rs start end a o e))
    | inr (r, e) ↦
        let (here, low, full, b, c, d) = region_at-first_overlap 0 rs start end r o e in
        let short = Short-region_at start end rs r.start r s here in
        let news = leftover start end r in
        let fits = leftover-Fits start end r full b c short in
        let rs' = replace r.start news rs in
        let o' = replace-Ordered r.start r news fits 0 rs o here in
        let s' =
          Short-replace start end r.start news rs (leftover-Short start end r full b c short) s in
        let count =
          pending-replace start end r.start r news rs here (ground arith)
            (leftover-pending start end r full b c short) in
        let rest = loop_unmaps fuel rs' (omega (arith, count)) o' s' in
        let step : remove_loop (suc fuel) rs none start end ≡ remove_loop fuel rs' none start end =
          ground (arith, carve-leftover start end r full b c short rs) in
        rw step (
          rest.0,
          ground (
            arith,
            rest.1,
            lookup-replace r.start r news fits 0 rs a o here,
            leftover-lookup start end r full b c short a,
            lookup-region_at 0 rs r.start a r o here,
          ),
        )
  ]

-- Why remove may return false: the end of the range wraps, or a region has to be left as two and
-- memory is short.
abbrev pub RemoveRefused : Bool → List Region → ℕ → ℕ → Type 0
RemoveRefused memory rs start len =
    (2 ^ 64 ≤ start + len)
    ⊎ ((memory ≡ false)
        × ((s : Region) × (region_at rs s.start ≡ some s)
            × (s.start < start)
            × (start + len < s.end)))

abbrev pub Removal : Bool → List Region → ℕ → ℕ → ℕ → Bool × List Region → Type 0
Removal memory rs start len a result =
    ((result.0 ≡ true) × Unmapped start (start + len) rs a result.1)
    ⊎ ((result ≡ (false, rs)) × RemoveRefused memory rs start len)

known :
    (memory : Bool) (rs : List Region) (start len a : ℕ) (v w : Bool × List Region)
    → w ≡ v
    → Removal memory rs start len a v
    → Removal memory rs start len a w
known memory rs start len a v w e p = subst (Removal memory rs start len a) (sym e) p

-- remove of a 64-bit range either returns true, and then the tree is in order, no address of the
-- range is mapped and every other address maps as before; or it returns false and changes nothing,
-- and then the range wraps, or it lies inside one region and memory is short.
pub remove_refines :
    (memory : Bool) (rs : List Region) (start len a : ℕ)
    → Ordered 0 rs
    → start < 2 ^ 64
    → len < 2 ^ 64
    → Removal memory rs start len a (remove memory rs start len)
unfolding remove
remove_refines memory rs start len a o small small' = elim (Bool-cases (len == 0)) [
  | inl e ↦
      known memory rs start len a (true, rs) (remove memory rs start len) (ground arith)
        (inl (refl, (o, ground arith)))
  | inr e ↦ elim (Bool-cases (ltb (word (start + len)) start)) [
    | inl wraps ↦
        known memory rs start len a (false, rs) (remove memory rs start len) (ground arith)
          (inr (refl, inl (omega (arith, ltb→lt (word (start + len)) start wraps))))
    | inr fits ↦
        let end : ℕ = start + len in
        let whole : word (start + len) ≡ end =
          omega (arith, ltb→le (word (start + len)) start fits) in
        let rounds : ℕ = suc (length rs) in
        elim (Option-cases (span_loop rs start end)) [
          | inl none_spans ↦
              known memory rs start len a (true, remove_loop rounds rs none start end)
                (remove memory rs start len) (ground arith)
                (inl (
                  refl,
                  loop_unmaps start end a rounds rs (omega (arith, pending-le start end rs)) o
                      (span_loop-Short start end 0 rs (omega arith) o none_spans),
                ))
          | inr (s, spans) ↦
              let positive : start < end = ground arith in
              elim (Bool-cases memory) [
                | inl enough ↦
                    known memory rs start len a
                      (true, remove_loop rounds rs (some (right_part s end)) start end)
                      (remove memory rs start len) (ground arith)
                      (inl (refl, span_unmaps start end positive rs s (length rs) a o spans))
                | inr short ↦
                    let (here, low, p, q) = span-region_at start end positive 0 rs s o spans in
                    known memory rs start len a (false, rs) (remove memory rs start len)
                      (ground arith) (inr (refl, inr (short, (s, here, p, q))))
              ]
        ]
  ]
]
