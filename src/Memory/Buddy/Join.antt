-- ===== src/Memory/Buddy/Join.antt =====
-- The merging of a block with its buddy, for buddy_allocator::free of src/kernel/memory/buddy.cpp.
use rucux.Base.{
  ℕ, zero, suc, ◌+◌, ◌-◌, ◌*◌, ◌/◌, ◌%◌, ◌^◌, ◌≤◌, ◌≡◌, ◌≢◌, refl, ap, ap₂, sym, ◌∙◌, some, List,
  [], ◌∷◌, arith, ltb, ◌==◌, if◌then◌else◌, All, Bool-cases, Option-cases, inl, inr, subst, bit_xor,
  bit_xor_bit, ==→eq,
}
use native.Mathlib.Nat.{pow-suc, one-le-pow}
use rucux.Memory.Buddy.{block_size, buddy_of, unlink}
use rucux.Memory.Buddy.Cover.{Weight, Additive, block_size-suc, list_weight, BlockOk}

pow_block : (order k : ℕ) → k ≡ order + 12 → 2 ^ k ≡ block_size order
pow_block zero k e = ap (λ (t : ℕ). 2 ^ t) e
pow_block (suc order) zero e = absurd (omega arith)
pow_block (suc order) (suc k) e =
    omega (arith, pow-suc 2 k, pow_block order k (omega arith), block_size-suc order)

-- The buddy is the block next to it, above an even index and below an odd one.
buddy_of-index :
    (order m : ℕ)
    → buddy_of (m * block_size order) order
      ≡ (if m % 2 == 0 then (m + 1) * block_size order else (m - 1) * block_size order)
unfolding buddy_of
buddy_of-index order m =
    let e = pow_block order (order + 12) refl in
    subst (λ (s : ℕ). bit_xor (m * s) s ≡ (if m % 2 == 0 then (m + 1) * s else (m - 1) * s)) e
      (bit_xor_bit (order + 12) m)

module _ (w : Weight) where
  pub unlink-weight :
      (xs ys : List ℕ) (addr order : ℕ)
      → unlink xs addr ≡ some ys
      → list_weight w xs order ≡ w addr order + list_weight w ys order
  unfolding unlink list_weight
  unlink-weight [] ys addr order h = cc
  unlink-weight (x ∷ xs) ys addr order h = elim (Bool-cases (x == addr)) [
    | inl e ↦
        let same : x ≡ addr = ==→eq x addr e in
        let rest : xs ≡ ys = ground arith in
        ap₂ (λ (a : ℕ) (l : List ℕ). w a order + list_weight w l order) same rest
    | inr e ↦ elim (Option-cases (unlink xs addr)) [
      | inl z ↦ absurd (ground arith)
      | inr (zs, z) ↦
          let shape : x ∷ zs ≡ ys = ground arith in
          let ih = unlink-weight xs zs addr order z in
          subst
            (λ (l : List ℕ).
              w x order + list_weight w xs order ≡ w addr order + list_weight w l order)
            shape (omega (arith, ih))
    ]
  ]

pub unlink-All :
    (P : ℕ → Type 0) (xs ys : List ℕ) (addr : ℕ)
    → unlink xs addr ≡ some ys
    → All P xs
    → P addr × All P ys
unfolding unlink
unlink-All P [] ys addr h p = cc
unlink-All P (x ∷ xs) ys addr h p = elim (Bool-cases (x == addr)) [
  | inl e ↦
      let rest : xs ≡ ys = ground arith in (subst P (==→eq x addr e) p.0, subst (All P) rest p.1)
  | inr e ↦ elim (Option-cases (unlink xs addr)) [
    | inl z ↦ absurd (ground arith)
    | inr (zs, z) ↦
        let shape : x ∷ zs ≡ ys = ground arith in
        let ih = unlink-All P xs zs addr z p.1 in (ih.0, subst (All P) shape (p.0, ih.1))
  ]
]

swap_sum : (x y : ℕ) → x + y ≡ y + x
swap_sum x y = omega arith

-- Two buddies make one block of the next order, at the lower address.
abbrev pub merged : ℕ → ℕ → ℕ
merged other addr = if ltb other addr then other else addr

abbrev Merges : ℕ → ℕ → ℕ → ℕ → Type 0
Merges lo hi order addr =
    BlockOk lo hi (suc order) (merged (buddy_of addr order) addr)
    × ((w : Weight)
        → Additive w
        → w (merged (buddy_of addr order) addr) (suc order)
          ≡ w addr order + w (buddy_of addr order) order)

above_by : (a o m s : ℕ) → a ≡ m * s → o ≡ (m + 1) * s → o ≡ a + s
above_by a o m s h k = grind arith

below_by : (a o m s : ℕ) → m % 2 ≢ 0 → a ≡ m * s → o ≡ (m - 1) * s → o + s ≡ a
below_by a o zero s n h k = absurd (n refl)
below_by a o (suc m) s n h k = grind arith

halved : (a m s : ℕ) → m % 2 ≡ 0 → a ≡ m * s → a ≡ m / 2 * (2 * s)
halved a m s e h = let q : m ≡ m / 2 * 2 = omega arith in h ∙ ap (λ (t : ℕ). t * s) q ∙ grind arith

even_of-odd : (m : ℕ) → m % 2 ≢ 0 → (m - 1) % 2 ≡ 0
even_of-odd m n = omega arith

-- The lower of two adjacent blocks, at an even index, is the block of the next order.
join_halves :
    (lo hi order a m : ℕ)
    → m % 2 ≡ 0
    → a ≡ m * block_size order
    → lo ≤ a
    → a + block_size order + block_size order ≤ hi
    → BlockOk lo hi (suc order) a
join_halves lo hi order a m e h above below = record {
  index = m / 2;
  aligned =
      halved a m (block_size order) e h ∙ ap (λ (t : ℕ). m / 2 * t) (sym (block_size-suc order));
  above = above;
  below = omega (arith, below, block_size-suc order);
}

pub buddies_merge :
    (lo hi order addr : ℕ)
    → BlockOk lo hi order addr
    → BlockOk lo hi order (buddy_of addr order)
    → Merges lo hi order addr
buddies_merge lo hi order addr ok ok' =
    let place : buddy_of addr order ≡ (
        if ok.index % 2 == 0
        then (ok.index + 1) * block_size order
        else (ok.index - 1) * block_size order) =
      ap (λ (t : ℕ). buddy_of t order) ok.aligned ∙ buddy_of-index order ok.index in
    let size : 1 ≤ block_size order = omega (arith, one-le-pow order 2) in
    elim (Bool-cases (ok.index % 2 == 0)) [
      | inl even ↦
          let above : buddy_of addr order ≡ addr + block_size order =
            above_by addr (buddy_of addr order) ok.index (block_size order) ok.aligned
              (ground arith) in
          let least : merged (buddy_of addr order) addr ≡ addr = ground arith in
          let whole : BlockOk lo hi (suc order) addr =
            join_halves lo hi order addr ok.index (==→eq (ok.index % 2) 0 even) ok.aligned ok.above
              (omega (arith, above, ok'.below)) in
          (
            subst (BlockOk lo hi (suc order)) (sym least) whole,
            λ (w : Weight) (additive : Additive w).
                ap (λ (t : ℕ). w t (suc order)) least
                ∙ additive addr order
                ∙ ap (λ (t : ℕ). w addr order + w t order) (sym above),
          )
      | inr odd ↦
          let uneven : ok.index % 2 ≢ 0 = ground arith in
          let other : buddy_of addr order ≡ (ok.index - 1) * block_size order = ground arith in
          let below : buddy_of addr order + block_size order ≡ addr =
            below_by addr (buddy_of addr order) ok.index (block_size order) uneven ok.aligned
              other in
          let least : merged (buddy_of addr order) addr ≡ buddy_of addr order = ground arith in
          let whole : BlockOk lo hi (suc order) (buddy_of addr order) =
            join_halves lo hi order (buddy_of addr order) (ok.index - 1)
              (even_of-odd ok.index uneven) other ok'.above (omega (arith, below, ok.below)) in
          (
            subst (BlockOk lo hi (suc order)) (sym least) whole,
            λ (w : Weight) (additive : Additive w).
                ap (λ (t : ℕ). w t (suc order)) least
                ∙ additive (buddy_of addr order) order
                ∙ ap (λ (t : ℕ). w (buddy_of addr order) order + w t order) below
                ∙ swap_sum (w (buddy_of addr order) order) (w addr order),
          )
    ]
