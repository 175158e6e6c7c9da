-- ===== src/Libc/Strtol/Saturation.antt =====
-- The overflow check of strtoull in libc/src/strtol.cpp.
use rucux.Base.{
  ℕ, ◌+◌, ◌-◌, ◌*◌, ◌/◌, ◌%◌, ◌^◌, ◌≤◌, ◌<◌, ◌≡◌, refl, ap, ◌∙◌, min, Bool, true, false, ◌⊎◌, inl,
  inr, none, some, List, [], ◌∷◌, arith, ltb, if◌then◌else◌, Bool-cases, ltb→le, Option-cases,
}
use native.Mathlib.Nat.{div-add-mod', mod-lt}
use rucux.Libc.Strtol.{ullong_max, digit_val, scan_saturating, strtoull, sign, skip_ws, detect_base}

-- The number that a text starts with, of any size: `acc` is the part that was read.
pub numeral : List ℕ → ℕ → ℕ → ℕ
numeral [] base acc = acc
numeral (c ∷ s) base acc = elim (digit_val c base) [
  | none ↦ acc
  | some d ↦ numeral s base (acc * base + d)
]

digit_val-lt : (c base d : ℕ) → digit_val c base ≡ some d → d < base
unfolding digit_val
digit_val-lt c base d h = ground arith

mul_mono : (a b c : ℕ) → a ≤ b → a * c ≤ b * c
mul_mono a b c h = grind arith

-- One step with the check: clamped stays clamped.
step_clamps :
    (base acc d : ℕ)
    → 2 ≤ base
    → base ≤ 36
    → d < base
    → (if ltb ((ullong_max - d) / base) (min ullong_max acc)
        then ullong_max
        else (min ullong_max acc * base + d) % 2 ^ 64)
      ≡ min ullong_max (acc * base + d)
step_clamps base acc d low high small =
    let q = (ullong_max - d) / base in
    let r = min ullong_max acc in
    let whole = div-add-mod' (ullong_max - d) base in
    let last : (ullong_max - d) % base < base = mod-lt (ullong_max - d) (omega arith) in
    elim (Bool-cases (ltb q r)) [
      | inl over ↦
          let big : (q + 1) * base ≤ acc * base = mul_mono (q + 1) acc base (ground arith) in
          let next : (q + 1) * base ≡ q * base + base = grind arith in ground arith
      | inr under ↦
          let below : r ≤ q = ltb→le q r under in
          let fits : r * base ≤ q * base = mul_mono r q base below in
          let small_q : 2 * q ≤ base * q = mul_mono 2 base q low in
          let turn : base * q ≡ q * base = grind arith in
          let exact : r ≡ acc = omega arith in
          let same : r * base ≡ acc * base = ap (λ (t : ℕ). t * base) exact in ground arith
    ]

scan_saturating-numeral :
    (s : List ℕ) (base acc : ℕ) (any : Bool)
    → 2 ≤ base
    → base ≤ 36
    → (scan_saturating s base (min ullong_max acc) any).result ≡ min ullong_max (numeral s base acc)
unfolding scan_saturating numeral
scan_saturating-numeral [] base acc any low high = refl
scan_saturating-numeral (c ∷ s) base acc any low high = elim (Option-cases (digit_val c base)) [
  | inl e ↦ rw (e, scan_saturating, numeral) refl
  | inr (d, e) ↦
      rw (e, scan_saturating, numeral)
        (ap (λ (t : ℕ). (scan_saturating s base t true).result)
            (step_clamps base acc d low high (digit_val-lt c base d e))
          ∙ scan_saturating-numeral s base (acc * base + d) true low high)
]

-- The bases that detect_base gives are 8, 10, 16 and the one that was asked for.
detect_base-range :
    (s : List ℕ) (base : ℕ)
    → (base ≡ 0) ⊎ (2 ≤ base)
    → base ≤ 36
    → (2 ≤ (detect_base s base).1) × ((detect_base s base).1 ≤ 36)
unfolding detect_base
detect_base-range [] base h k = (ground arith, ground arith)
detect_base-range (c ∷ []) base h k = (ground arith, ground arith)
detect_base-range (c ∷ x ∷ s) base h k = (ground arith, ground arith)

-- strtoull gives the number that stands in the text, in the base that the text or the caller names:
-- a number that has no room in 64 bits gives the largest word, and a sign negates the word.
pub strtoull_lem :
    (nptr : List ℕ) (base : ℕ)
    → (base ≡ 0) ⊎ (2 ≤ base)
    → base ≤ 36
    → (strtoull nptr base).0 ≡ (
        let start = sign (skip_ws nptr) in
        let text = detect_base start.1 base in
        let v = min ullong_max (numeral text.0 text.1 0) in
        if start.0 then (2 ^ 64 - v) % 2 ^ 64 else v)
unfolding strtoull
strtoull_lem nptr base h k =
    let start = sign (skip_ws nptr) in
    let text = detect_base start.1 base in
    let range = detect_base-range start.1 base h k in
    ap (λ (v : ℕ). if start.0 then (2 ^ 64 - v) % 2 ^ 64 else v)
      (scan_saturating-numeral text.0 text.1 0 false range.0 range.1)
