-- ===== src/Net/Checksum/Rfc1071.antt =====
-- Packets that carry their own checksum, for src/kernel/net/checksum.cpp.
use rucux.Base.{
  ℕ, ◌+◌, ◌-◌, ◌/◌, ◌%◌, ◌^◌, ◌<◌, ◌≡◌, ◌↔◌, ap, ◌∙◌, List, [], ◌∷◌, ◌++◌, arith, length,
  length-append, All,
}
use rucux.Net.Checksum.{sum_words, checksum, pseudo_sum, checksum_pseudo}
use rucux.Net.Checksum.Sums.{
  IsByte, word_sum, ones_sum, word_sum-le, sum_words-word_sum, fold_ends, checksum_lem,
}

word_sum-append :
    (xs ys : List ℕ) → length xs % 2 ≡ 0 → word_sum (xs ++ ys) ≡ word_sum xs + word_sum ys
word_sum-append [] ys even = omega arith
word_sum-append (a ∷ []) ys even = absurd (omega arith)
word_sum-append (a ∷ (b ∷ xs)) ys even = omega (arith, word_sum-append xs ys (omega arith))

All-append : (xs ys : List ℕ) → All IsByte xs → All IsByte ys → All IsByte (xs ++ ys)
All-append [] ys p q = q
All-append (x ∷ xs) ys p q = (p.0, All-append xs ys p.1 q)

-- A packet with the 16-bit field `v` at an even place.
abbrev pub with_field : List ℕ → ℕ → List ℕ → List ℕ
with_field before v after = before ++ (v % 2 ^ 8 ∷ (v / 2 ^ 8 ∷ after))

with_field-sum :
    (before after : List ℕ) (v : ℕ)
    → length before % 2 ≡ 0
    → word_sum (with_field before v after) ≡ word_sum before + (v + word_sum after)
with_field-sum before after v even =
    word_sum-append before (v % 2 ^ 8 ∷ (v / 2 ^ 8 ∷ after)) even ∙ omega arith

with_field-IsByte :
    (before after : List ℕ) (v : ℕ)
    → v < 2 ^ 16
    → All IsByte before
    → All IsByte after
    → All IsByte (with_field before v after)
with_field-IsByte before after v small p q =
    All-append before (v % 2 ^ 8 ∷ (v / 2 ^ 8 ∷ after)) p (omega arith, (omega arith, q))

with_field-length :
    (before after : List ℕ) (v : ℕ)
    → length (with_field before v after) ≡ length before + 2 + length after
with_field-length before after v =
    length-append before (v % 2 ^ 8 ∷ (v / 2 ^ 8 ∷ after)) ∙ omega arith

ones_sum-add : (s : ℕ) → ones_sum (s + (2 ^ 16 - 1 - ones_sum s)) ≡ 2 ^ 16 - 1
ones_sum-add s = ground arith

-- Up to 131070 bytes: the checksum of a packet whose checksum field is zero, written into that
-- field at an even offset, makes the checksum of the whole packet zero.
pub checksum_verifies :
    (before after : List ℕ)
    → All IsByte before
    → All IsByte after
    → length before % 2 ≡ 0
    → length before + 2 + length after < 2 ^ 17 - 1
    → checksum (with_field before (checksum (with_field before 0 after)) after) ≡ 0
checksum_verifies before after p q even len =
    let s : ℕ = word_sum before + word_sum after in
    let blank =
      checksum_lem (with_field before 0 after) (with_field-IsByte before after 0 (omega arith) p q)
        (omega (arith, with_field-length before after 0)) in
    let c : ℕ = checksum (with_field before 0 after) in
    let c_eq : c ≡ 2 ^ 16 - 1 - ones_sum s =
      ground (arith, blank, with_field-sum before after 0 even) in
    let filled =
      checksum_lem (with_field before c after) (with_field-IsByte before after c (omega arith) p q)
        (omega (arith, with_field-length before after c)) in
    let total : word_sum (with_field before c after) ≡ s + (2 ^ 16 - 1 - ones_sum s) =
      omega (arith, with_field-sum before after c even) in
    filled ∙ rw total (omega (arith, ones_sum-add s))

-- Up to 131070 bytes, exactly the packets whose words add up to a positive multiple of 65535 have
-- checksum zero.
pub checksum-zero_iff :
    (bytes : List ℕ)
    → All IsByte bytes
    → length bytes < 2 ^ 17 - 1
    → (checksum bytes ≡ 0) ↔ ((0 < word_sum bytes) × (word_sum bytes % (2 ^ 16 - 1) ≡ 0))
checksum-zero_iff bytes b len = ground (arith, checksum_lem bytes b len)

pseudo_lem :
    (src dst proto : ℕ) (bytes : List ℕ)
    → All IsByte bytes
    → length bytes < 2 ^ 16
    → checksum_pseudo src dst proto bytes
      ≡ 2 ^ 16 - 1 - ones_sum (pseudo_sum src dst proto (length bytes) + word_sum bytes)
unfolding checksum_pseudo pseudo_sum
pseudo_lem src dst proto bytes b len =
    let p : ℕ = pseudo_sum src dst proto (length bytes) in
    let fits : p + word_sum bytes < 2 ^ 32 = omega (arith, word_sum-le bytes b) in
    ground (arith, sum_words-word_sum p bytes fits, fold_ends (sum_words p bytes))

-- Up to 65535 bytes: a TCP or UDP segment that carries the pseudo-header checksum computed with its
-- field at zero, at an even offset, has pseudo-header checksum zero.
pub checksum_pseudo_verifies :
    (src dst proto : ℕ) (before after : List ℕ)
    → All IsByte before
    → All IsByte after
    → length before % 2 ≡ 0
    → length before + 2 + length after < 2 ^ 16
    → checksum_pseudo src dst proto
        (with_field before (checksum_pseudo src dst proto (with_field before 0 after)) after)
      ≡ 0
checksum_pseudo_verifies src dst proto before after p q even len =
    let n : ℕ = length before + 2 + length after in
    let s : ℕ = pseudo_sum src dst proto n + (word_sum before + word_sum after) in
    let blank =
      pseudo_lem src dst proto (with_field before 0 after)
        (with_field-IsByte before after 0 (omega arith) p q)
        (omega (arith, with_field-length before after 0)) in
    let c : ℕ = checksum_pseudo src dst proto (with_field before 0 after) in
    let c_eq : c ≡ 2 ^ 16 - 1 - ones_sum s =
      blank
      ∙ rw (with_field-length before after 0, with_field-sum before after 0 even)
          (ap (λ (t : ℕ). 2 ^ 16 - 1 - ones_sum t) (omega arith)) in
    let filled =
      pseudo_lem src dst proto (with_field before c after)
        (with_field-IsByte before after c (omega arith) p q)
        (omega (arith, with_field-length before after c)) in
    let total : pseudo_sum src dst proto (length (with_field before c after))
          + word_sum (with_field before c after)
        ≡ s + (2 ^ 16 - 1 - ones_sum s) =
      rw (with_field-length before after c, with_field-sum before after c even) (omega arith) in
    filled ∙ rw total (omega (arith, ones_sum-add s))
