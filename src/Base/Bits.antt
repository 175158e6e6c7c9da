-- ===== src/Base/Bits.antt =====
-- Laws of exclusive or at variables: one equation for the lowest digit, then the operation with one bit.
use Prim.Native.Nat.{
  ℕ, zero, suc, ◌+◌, ◌-◌, ◌*◌, ◌/◌, ◌%◌, ◌^◌, ◌≤◌, ◌<◌, bit_xor, digits, bit_xor-bitwise, differ,
}
use native.Mathlib.Nat.{le_refl, pow-suc}
use mathlib.Core.Path.{◌≡◌, refl, ap, ap₂, ◌∙◌, subst}
use native.Mathlib.Omega.{arith}
use rucux.Base.Tests.{◌==◌, if◌then◌else◌}

-- Exclusive or as its recursion on `n` binary digits.
abbrev xor_digits : ℕ → ℕ → ℕ → ℕ
xor_digits n a b = digits (λ y. y) differ n a b

-- A number has no more digits than its value: further digits change nothing.
one_more : (n a b : ℕ) → a ≤ n → xor_digits (suc n) a b ≡ xor_digits n a b
one_more zero zero b h = refl
one_more (suc n) zero b h = refl
one_more zero (suc a) b h = absurd (omega arith)
one_more (suc n) (suc a) b h =
    ap (λ (t : ℕ). t * 2 + differ (suc a % 2) (b % 2))
      (one_more n (suc a / 2) (b / 2) (omega arith))

many_more : (k n a b : ℕ) → a ≤ n → xor_digits (k + n) a b ≡ xor_digits n a b
many_more zero n a b h = ap (λ (t : ℕ). xor_digits t a b) {x = 0 + n} {y = n} (omega arith)
many_more (suc k) n a b h =
    ap (λ (t : ℕ). xor_digits t a b) {x = suc k + n} {y = suc (k + n)} (omega arith)
    ∙ one_more (k + n) a b (omega arith)
    ∙ many_more k n a b h

pub bit_xor_step : (a b : ℕ) → bit_xor a b ≡ bit_xor (a / 2) (b / 2) * 2 + differ (a % 2) (b % 2)
bit_xor_step zero b = simp bit_xor-bitwise (omega arith)
bit_xor_step (suc a) b =
    let half = suc a / 2 in
    let fuel : a - half + half ≡ a = omega arith in
    let enough : xor_digits a half (b / 2) ≡ xor_digits half half (b / 2) =
      subst (λ (t : ℕ). xor_digits t half (b / 2) ≡ xor_digits half half (b / 2)) fuel
        (many_more (a - half) half half (b / 2) (le_refl half)) in
    simp bit_xor-bitwise (ap (λ (t : ℕ). t * 2 + differ (suc a % 2) (b % 2)) enough)

differ-zero : (x : ℕ) → differ x 0 ≡ x
differ-zero zero = refl
differ-zero (suc x) = refl

differ-one : (x : ℕ) → x < 2 → differ x 1 ≡ 1 - x
differ-one zero h = refl
differ-one (suc zero) h = refl
differ-one (suc (suc x)) h = absurd (omega arith)

bit_xor-zero_below : (bound a : ℕ) → a < bound → bit_xor a 0 ≡ a
bit_xor-zero_below bound zero h = refl
bit_xor-zero_below zero (suc a) h = absurd (omega arith)
bit_xor-zero_below (suc bound) (suc a) h =
    let rest = bit_xor-zero_below bound (suc a / 2) (omega arith) in
    omega (arith, bit_xor_step (suc a) 0, differ-zero (suc a % 2), rest)

bit_xor-zero : (a : ℕ) → bit_xor a 0 ≡ a
bit_xor-zero a = bit_xor-zero_below (suc a) a (omega arith)

pub twice_pow : (q k : ℕ) → q * 2 ^ suc k ≡ 2 * (q * 2 ^ k)
twice_pow q k = omega (arith, ap (λ (t : ℕ). q * t) (pow-suc 2 k))

-- Exclusive or with one bit flips that bit.
pub bit_xor_bit :
    (k m : ℕ)
    → bit_xor (m * 2 ^ k) (2 ^ k) ≡ (if m % 2 == 0 then (m + 1) * 2 ^ k else (m - 1) * 2 ^ k)
bit_xor_bit zero m = ground (arith, bit_xor_step m 1, bit_xor-zero (m / 2), differ-one (m % 2))
bit_xor_bit (suc k) m =
    let whole = twice_pow m k in
    let one : 2 ^ suc k ≡ 2 * 2 ^ k = omega (arith, pow-suc 2 k) in
    let halves : bit_xor (m * 2 ^ suc k / 2) (2 ^ suc k / 2) ≡ bit_xor (m * 2 ^ k) (2 ^ k) =
      ap₂ bit_xor (omega (arith, whole)) (omega (arith, one)) in
    let even : m * 2 ^ suc k % 2 ≡ 0 = omega (arith, whole) in
    let even' : 2 ^ suc k % 2 ≡ 0 = omega (arith, one) in
    let digit : differ (m * 2 ^ suc k % 2) (2 ^ suc k % 2) ≡ 0 = rw even (rw even' refl) in
    ground (
      arith,
      bit_xor_step (m * 2 ^ suc k) (2 ^ suc k),
      halves,
      digit,
      bit_xor_bit k m,
      twice_pow (m + 1) k,
      twice_pow (m - 1) k,
    )
