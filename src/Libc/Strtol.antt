-- ===== src/Libc/Strtol.antt =====
-- libc/src/strtol.cpp: integers from text. The end pointer is the rest of the string; a result of a
-- signed type is its word in two's complement. The base is not negative; a base below 2 other than 0
-- has no use.
pub mod Saturation
use rucux.Base.{
  ℕ, zero, suc, ◌+◌, ◌-◌, ◌*◌, ◌/◌, ◌%◌, ◌^◌, Bool, true, false, ◌&&◌, ◌||◌, Option, none, some,
  List, [], ◌∷◌, ltb, leb, ◌==◌, if◌then◌else◌, get_or,
}

abbrev pub ullong_max : ℕ
ullong_max = 2 ^ 64 - 1

abbrev pub llong_max : ℕ
llong_max = 2 ^ 63 - 1

-- LLONG_MIN, as a word
abbrev pub llong_min : ℕ
llong_min = 2 ^ 63

unfoldable pub skip_ws : List ℕ → List ℕ
skip_ws [] = []
skip_ws (c ∷ s) =
    let rest = skip_ws s in
    if c == 32 || c == 9 || c == 10 || c == 13 || c == 12 || c == 11 then rest else c ∷ s

abbrev is_x : ℕ → Bool
is_x c = c == 120 || c == 88

-- What is left of the string, and the base.
unfoldable pub detect_base : List ℕ → ℕ → List ℕ × ℕ
detect_base [] base = if base == 0 then ([], 10) else ([], base)
detect_base (c ∷ s) base =
    if base == 0
    then (if c == 48
        then elim s [ [] ↦ ([], 8) | x ∷ r ↦ if is_x x then (r, 16) else (x ∷ r, 8) ]
        else (c ∷ s, 10))
    else if base == 16 && c == 48
    then elim s [ [] ↦ (c ∷ [], base) | x ∷ r ↦ if is_x x then (r, base) else (c ∷ x ∷ r, base) ]
    else (c ∷ s, base)

-- -1 is `none`.
unfoldable pub digit_val : ℕ → ℕ → Option ℕ
digit_val c base =
    if leb 48 c && leb c 57
    then (if ltb (c - 48) base then some (c - 48) else none)
    else if leb 97 c && leb c 122
    then (if ltb (c - 97 + 10) base then some (c - 97 + 10) else none)
    else if leb 65 c && leb c 90
    then (if ltb (c - 65 + 10) base then some (c - 65 + 10) else none)
    else none

-- The sign and what follows it.
unfoldable pub sign : List ℕ → Bool × List ℕ
sign [] = (false, [])
sign (c ∷ s) = if c == 43 then (false, s) else if c == 45 then (true, s) else (false, c ∷ s)

pub record Scan : Type 0 where
  pub result : ℕ
  pub any : Bool
  pub rest : List ℕ

-- The loop of strtoull, with its overflow check.
unfoldable pub scan_saturating : List ℕ → ℕ → ℕ → Bool → Scan
unfolding digit_val
scan_saturating [] base result any = record { result = result; any = any; rest = [] }
scan_saturating (c ∷ s) base result any = elim (digit_val c base) [
  | none ↦ record { result = result; any = any; rest = c ∷ s }
  | some d ↦
      scan_saturating s base
        (if ltb ((ullong_max - d) / base) result then ullong_max else (result * base + d) % 2 ^ 64)
        true
]

-- The loop of strtoll: the result wraps.
unfoldable pub scan_wrapping : List ℕ → ℕ → ℕ → Bool → Scan
unfolding digit_val
scan_wrapping [] base result any = record { result = result; any = any; rest = [] }
scan_wrapping (c ∷ s) base result any = elim (digit_val c base) [
  | none ↦ record { result = result; any = any; rest = c ∷ s }
  | some d ↦ scan_wrapping s base ((result * base + d) % 2 ^ 64) true
]

-- -static_cast<long long>(result)
abbrev negate : ℕ → ℕ
negate v = (2 ^ 64 - v) % 2 ^ 64

-- The result and the end pointer.
unfoldable pub strtoull : List ℕ → ℕ → ℕ × List ℕ
strtoull nptr base =
    let (neg, s) = sign (skip_ws nptr) in
    let (text, b) = detect_base s base in
    let scan = scan_saturating text b 0 false in
    (if neg then negate scan.result else scan.result, if scan.any then scan.rest else nptr)

unfoldable pub strtoll : List ℕ → ℕ → ℕ × List ℕ
strtoll nptr base =
    let (neg, s) = sign (skip_ws nptr) in
    let (text, b) = detect_base s base in
    let scan = scan_wrapping text b 0 false in
    (
      if neg
          then (if ltb (llong_max + 1) scan.result then llong_min else negate scan.result)
          else if ltb llong_max scan.result
          then llong_max
          else scan.result,
      if scan.any then scan.rest else nptr,
    )

-- long is as wide as long long.
unfoldable pub strtol : List ℕ → ℕ → ℕ × List ℕ
unfolding strtoll
strtol nptr base = strtoll nptr base

unfoldable pub strtoul : List ℕ → ℕ → ℕ × List ℕ
unfolding strtoull
strtoul nptr base = strtoull nptr base
