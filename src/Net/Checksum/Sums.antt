-- ===== src/Net/Checksum/Sums.antt =====
-- The two loops of checksum.cpp as arithmetic: the sum of the words, and what folding leaves of it.
use rucux.Base.{
  ℕ, zero, suc, ◌+◌, ◌-◌, ◌*◌, ◌/◌, ◌%◌, ◌^◌, ◌≤◌, ◌<◌, ◌≡◌, refl, ◌∙◌, List, [], ◌∷◌, arith,
  length, All, ltb, ltb→lt, ltb→le, Bool-cases, inl, inr, if◌then◌else◌, ◌==◌,
}
use rucux.Net.Checksum.{u32, sum_words, fold, rounds, checksum}

abbrev pub IsByte : ℕ → Type 0
IsByte b = b < 2 ^ 8

-- The sum of the little-endian 16-bit words, an odd last byte counting as a word; it never wraps.
abbrev pub word_sum : List ℕ → ℕ
word_sum [] = 0
word_sum (a ∷ []) = a
word_sum (a ∷ (b ∷ rest)) = a + b * 2 ^ 8 + word_sum rest

-- One's complement addition: a residue modulo 65535, with 65535 for the zero of a nonzero sum.
abbrev pub ones_sum : ℕ → ℕ
ones_sum s = if s == 0 then 0 else (s - 1) % (2 ^ 16 - 1) + 1

pub word_sum-le :
    (bytes : List ℕ) → All IsByte bytes → 2 * word_sum bytes ≤ 2 ^ 16 * (length bytes + 1)
word_sum-le [] h = omega arith
word_sum-le (a ∷ []) h = omega arith
word_sum-le (a ∷ (b ∷ rest)) h = omega (arith, word_sum-le rest h.1.1)

-- Where the true sum fits 32 bits, the loop computes it.
pub sum_words-word_sum :
    (s : ℕ) (bytes : List ℕ) → s + word_sum bytes < 2 ^ 32 → sum_words s bytes ≡ s + word_sum bytes
unfolding sum_words
sum_words-word_sum s [] h = omega arith
sum_words-word_sum s (a ∷ []) h = omega arith
sum_words-word_sum s (a ∷ (b ∷ rest)) h =
    let wraps : u32 (s + (a + b * 2 ^ 8)) ≡ s + (a + b * 2 ^ 8) = omega arith in
    rw wraps (sum_words-word_sum (s + (a + b * 2 ^ 8)) rest (omega arith) ∙ omega arith)

fold_round : (f s : ℕ) → s < 2 ^ 32 → 2 ^ 16 ≤ s → fold (suc f) s ≡ fold f (s % 2 ^ 16 + s / 2 ^ 16)
unfolding fold
fold_round f s h big =
    let wraps : u32 (s % 2 ^ 16 + s / 2 ^ 16) ≡ s % 2 ^ 16 + s / 2 ^ 16 = omega arith in
    ground arith

ones_sum-fold : (s : ℕ) → 2 ^ 16 ≤ s → ones_sum (s % 2 ^ 16 + s / 2 ^ 16) ≡ ones_sum s
ones_sum-fold s big = ground arith

fold_small : (f s : ℕ) → s < 2 ^ 16 → fold f s ≡ s
unfolding fold
fold_small zero s h = refl
fold_small (suc f) s h = ground arith

ones_sum_small : (s : ℕ) → s < 2 ^ 16 → s ≡ ones_sum s
ones_sum_small s h = ground arith

fold-eq-ones_sum : (f s : ℕ) → s < 2 ^ 32 → fold (suc (suc f)) s ≡ ones_sum s
fold-eq-ones_sum f s h = elim (Bool-cases (ltb s (2 ^ 16))) [
  | inl small ↦ fold_small _ s (ltb→lt _ _ small) ∙ ones_sum_small s (ltb→lt _ _ small)
  | inr big ↦
      let t : ℕ = s % 2 ^ 16 + s / 2 ^ 16 in
      let big' : 2 ^ 16 ≤ s = ltb→le _ _ big in
      let first = fold_round (suc f) s h big' in
      elim (Bool-cases (ltb t (2 ^ 16))) [
        | inl small ↦
            first
            ∙ (fold_small _ t (ltb→lt _ _ small)
                ∙ (ones_sum_small t (ltb→lt _ _ small) ∙ ones_sum-fold s big'))
        | inr more ↦
            let more' : 2 ^ 16 ≤ t = ltb→le _ _ more in
            let u : ℕ = t % 2 ^ 16 + t / 2 ^ 16 in
            first
            ∙ (fold_round f t (omega arith) more'
                ∙ (fold_small f u (omega arith)
                    ∙ (ones_sum_small u (omega arith)
                        ∙ (ones_sum-fold t more' ∙ ones_sum-fold s big'))))
      ]
]

-- Folding any 32-bit sum ends by its own test within the rounds given, at the one's complement sum.
pub fold_ends : (s : ℕ) → s < 2 ^ 32 → (fold rounds s / 2 ^ 16 ≡ 0) × (fold rounds s ≡ ones_sum s)
fold_ends s h = let e = fold-eq-ones_sum 1 s h in (ground arith, e)

pub checksum_lem :
    (bytes : List ℕ)
    → All IsByte bytes
    → length bytes < 2 ^ 17 - 1
    → checksum bytes ≡ 2 ^ 16 - 1 - ones_sum (word_sum bytes)
unfolding checksum
checksum_lem bytes b len =
    let fits : 0 + word_sum bytes < 2 ^ 32 = omega (arith, word_sum-le bytes b) in
    let summed = sum_words-word_sum 0 bytes fits in
    ground (arith, summed, fold_ends (sum_words 0 bytes))
