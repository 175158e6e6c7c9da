-- ===== src/Libc/Tests.antt =====
-- Examples of the C library's parsing and printing.
use rucux.Base.{
  ℕ, ◌-◌, ◌%◌, ◌^◌, ◌≡◌, ◌<◌, refl, arith, min, inl, List, [], ◌∷◌, some, if◌then◌else◌, length,
}
use rucux.Libc.Strtol.{
  strtoull, strtoll, sign, skip_ws, detect_base, ullong_max, scan_wrapping, digit_val,
  scan_saturating,
}
use rucux.Libc.Strtol.Saturation.{strtoull_lem, numeral}
use rucux.Libc.Inet.{Bytes4, inet_ntop, inet_ntoa, inet_pton, address}
use rucux.Libc.Inet.RoundTrip.{inet_pton-inet_ntop}

-- " -0x1f,"
abbrev negative_hex : List ℕ
negative_hex = 32 ∷ 45 ∷ 48 ∷ 120 ∷ 49 ∷ 102 ∷ 44 ∷ []

strtoull-run : strtoull negative_hex 0 ≡ (2 ^ 64 - 31, 44 ∷ [])
unfolding strtoull sign skip_ws detect_base scan_saturating digit_val
strtoull-run = refl

strtoull_lem_example : (strtoull negative_hex 0).0 ≡ (
    let start = sign (skip_ws negative_hex) in
    let text = detect_base start.1 0 in
    let v = min ullong_max (numeral text.0 text.1 0) in
    if start.0 then (2 ^ 64 - v) % 2 ^ 64 else v)
strtoull_lem_example = strtoull_lem negative_hex 0 (inl refl) (omega arith)

-- "18446744073709551616", which is 2 ^ 64: strtoull clamps it, strtoll wraps to 0.
abbrev two_64 : List ℕ
two_64 =
    49 ∷ 56 ∷ 52 ∷ 52 ∷ 54 ∷ 55 ∷ 52 ∷ 52 ∷ 48 ∷ 55 ∷ 51 ∷ 55 ∷ 48 ∷ 57 ∷ 53 ∷ 53 ∷ 49 ∷ 54 ∷ 49
    ∷ 54 ∷ []

strtoull-two_64 : strtoull two_64 10 ≡ (2 ^ 64 - 1, [])
unfolding strtoull sign skip_ws detect_base scan_saturating digit_val
strtoull-two_64 = refl

strtoll-two_64 : strtoll two_64 10 ≡ (0, [])
unfolding strtoll sign skip_ws detect_base scan_wrapping digit_val
strtoll-two_64 = refl

-- 10.0.2.15
abbrev guest : Bytes4
guest = record { b0 = 10; b1 = 0; b2 = 2; b3 = 15 }

inet_pton-inet_ntop_example :
    (inet_ntop 2 guest 16 ≡ some (inet_ntoa guest))
    × (length (inet_ntoa guest) < 16)
    × (inet_pton 2 (inet_ntoa guest) ≡ address guest)
inet_pton-inet_ntop_example =
    inet_pton-inet_ntop guest 16 (omega arith, omega arith, omega arith, omega arith) (omega arith)
