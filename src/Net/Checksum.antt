-- ===== src/Net/Checksum.antt =====
-- src/kernel/net/checksum.cpp. Data is a list of bytes; a uint32_t sum wraps at 2 ^ 32. The two
-- bytes of `p[0] | (p[1] << 8)` share no bit, so `|` is `+`.
pub mod Sums
pub mod Rfc1071
mod Tests
use rucux.Base.{
  ℕ, zero, suc, ◌+◌, ◌-◌, ◌*◌, ◌/◌, ◌%◌, ◌^◌, Bool, true, false, List, [], ◌∷◌, ltb, if◌then◌else◌,
  length,
}

abbrev pub u32 : ℕ → ℕ
u32 n = n % 2 ^ 32

-- The loop over pairs of bytes, and the odd byte at the end.
unfoldable pub sum_words : ℕ → List ℕ → ℕ
sum_words sum [] = sum
sum_words sum (a ∷ []) = u32 (sum + a)
sum_words sum (a ∷ (b ∷ rest)) = sum_words (u32 (sum + (a + b * 2 ^ 8))) rest

-- while (sum >> 16) sum = (sum & 0xFFFF) + (sum >> 16);
unfoldable pub fold : ℕ → ℕ → ℕ
fold zero sum = sum
fold (suc fuel) sum = elim (ltb sum (2 ^ 16)) [
  | true ↦ sum
  | false ↦ fold fuel (u32 (sum % 2 ^ 16 + sum / 2 ^ 16))
]

-- Two rounds end the loop at any 32-bit sum (`Sums.fold_ends`).
abbrev pub rounds : ℕ
rounds = 3

-- static_cast<uint16_t>(~sum)
abbrev pub complement16 : ℕ → ℕ
complement16 sum = 2 ^ 16 - 1 - sum % 2 ^ 16

unfoldable pub checksum : List ℕ → ℕ
unfolding sum_words fold
checksum bytes = complement16 (fold rounds (sum_words 0 bytes))

-- __builtin_bswap16
abbrev pub htons : ℕ → ℕ
htons v = v % 2 ^ 8 * 2 ^ 8 + v / 2 ^ 8 % 2 ^ 8

-- The pseudo-header's six terms.
pub pseudo_sum : ℕ → ℕ → ℕ → ℕ → ℕ
pseudo_sum src dst proto len = u32 (
    src % 2 ^ 16
    + src / 2 ^ 16 % 2 ^ 16
    + dst % 2 ^ 16
    + dst / 2 ^ 16 % 2 ^ 16
    + htons proto
    + htons (len % 2 ^ 16))

unfoldable pub checksum_pseudo : ℕ → ℕ → ℕ → List ℕ → ℕ
unfolding sum_words fold pseudo_sum
checksum_pseudo src dst proto bytes =
    complement16 (fold rounds (sum_words (pseudo_sum src dst proto (length bytes)) bytes))
