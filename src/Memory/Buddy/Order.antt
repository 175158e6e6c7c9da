-- ===== src/Memory/Buddy/Order.antt =====
-- buddy_allocator::pages_to_order of src/kernel/memory/buddy.cpp.
use rucux.Base.{
  ℕ, zero, suc, ◌+◌, ◌-◌, ◌*◌, ◌^◌, ◌≤◌, ◌<◌, ◌≡◌, refl, ap, sym, ◌∙◌, ◌⊎◌, inl, inr, arith, ltb,
  leb, Bool-cases, subst, ltb→lt, ==→eq, ◌==◌,
}
use native.Mathlib.Nat.{pow-suc}
use rucux.Memory.Buddy.{order_loop, pages_to_order, max_order}

-- `order` is the least order, up to `top`, of a block that has room for `count` pages.
abbrev pub Least : ℕ → ℕ → ℕ → Type 0
Least count top order =
    (count ≤ 2 ^ order) × (order ≤ top) × ((order ≡ 0) ⊎ (2 ^ (order - 1) < count))

pow_next : (order : ℕ) → 2 ^ (order + 1) ≡ 2 ^ order * 2
pow_next order =
    let e : order + 1 ≡ suc order = omega arith in
    ap (λ (t : ℕ). 2 ^ t) e ∙ omega (arith, pow-suc 2 order)

not_top : (count order top : ℕ) → count ≤ 2 ^ top → order ≤ top → 2 ^ order < count → order < top
not_top count order top fits low more = elim (Bool-cases (order == top)) [
  | inl same ↦
      let here : count ≤ 2 ^ order =
        subst (λ (t : ℕ). count ≤ 2 ^ t) (sym (==→eq order top same)) fits in
      absurd (omega arith)
  | inr other ↦ ground arith
]

order_loop_lem :
    (fuel count order size top : ℕ)
    → size ≡ 2 ^ order
    → count ≤ 2 ^ top
    → order ≤ top
    → top < order + fuel
    → (order ≡ 0) ⊎ (2 ^ (order - 1) < count)
    → Least count top (order_loop fuel count order size)
unfolding order_loop
order_loop_lem zero count order size top e fits low enough tight = absurd (omega arith)
order_loop_lem (suc fuel) count order size top e fits low enough tight =
    elim (Bool-cases (ltb size count)) [
      | inl more ↦
          let result : order_loop (suc fuel) count order size
              ≡ order_loop fuel count (order + 1) (size * 2) =
            ground arith in
          let small : 2 ^ order < count = subst (λ (t : ℕ). t < count) e (ltb→lt size count more) in
          let grow : order < top = not_top count order top fits low small in
          subst (Least count top) (sym result) (
            order_loop_lem fuel count (order + 1) (size * 2) top (omega (arith, e, pow_next order))
              fits (omega arith) (omega arith)
              (inr (subst (λ (t : ℕ). 2 ^ t < count) (omega arith) small)))
      | inr done ↦
          let result : order_loop (suc fuel) count order size ≡ order = ground arith in
          subst (Least count top) (sym result) (ground arith, low, tight)
    ]

-- A count of up to 1024 pages gets the smallest order whose block has room for it.
pub pages_to_order_lem :
    (count : ℕ) → count ≤ 2 ^ max_order → Least count max_order (pages_to_order count)
unfolding pages_to_order
pages_to_order_lem count h = elim (Bool-cases (leb count 1)) [
  | inl small ↦
      let result : pages_to_order count ≡ 0 = ground arith in
      subst (Least count max_order) (sym result) (ground arith, omega arith, inl refl)
  | inr large ↦
      let result : pages_to_order count ≡ order_loop (max_order + 1) count 0 1 = ground arith in
      subst (Least count max_order) (sym result) (
        order_loop_lem (max_order + 1) count 0 1 max_order refl h (omega arith) (omega arith)
          (inl refl))
]
