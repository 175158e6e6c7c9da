-- ===== src/Libc/Inet.antt =====
-- libc/src/inet.cpp: byte order and IPv4 addresses as text. Shifts and masks are written as products,
-- quotients and remainders; a byte sequence is the four bytes in the order of their addresses, the first
-- being the low byte of a word.
pub mod RoundTrip
use rucux.Base.{
  ℕ, zero, suc, ◌+◌, ◌-◌, ◌*◌, ◌/◌, ◌%◌, ◌^◌, Bool, true, false, ◌&&◌, ◌||◌, not, Option, none,
  some, List, [], ◌∷◌, ◌++◌, ltb, leb, ◌==◌, if◌then◌else◌,
}

unfoldable pub htons : ℕ → ℕ
htons hostshort = hostshort / 2 ^ 8 % 2 ^ 8 + hostshort % 2 ^ 8 * 2 ^ 8

unfoldable pub htonl : ℕ → ℕ
htonl hostlong =
    hostlong / 2 ^ 24 % 2 ^ 8
    + hostlong / 2 ^ 16 % 2 ^ 8 * 2 ^ 8
    + hostlong / 2 ^ 8 % 2 ^ 8 * 2 ^ 16
    + hostlong % 2 ^ 8 * 2 ^ 24

unfoldable pub ntohs : ℕ → ℕ
unfolding htons
ntohs netshort = htons netshort

unfoldable pub ntohl : ℕ → ℕ
unfolding htonl
ntohl netlong = htonl netlong

pub record Bytes4 : Type 0 where
  pub b0 : ℕ
  pub b1 : ℕ
  pub b2 : ℕ
  pub b3 : ℕ

-- The bytes of a word in memory.
abbrev pub bytes_of : ℕ → Bytes4
bytes_of w = record {
  b0 = w % 2 ^ 8;
  b1 = w / 2 ^ 8 % 2 ^ 8;
  b2 = w / 2 ^ 16 % 2 ^ 8;
  b3 = w / 2 ^ 24 % 2 ^ 8;
}

-- One byte in decimal.
unfoldable pub print_byte : ℕ → List ℕ
print_byte v =
    if leb 100 v
    then (48 + v / 100) ∷ (48 + v % 100 / 10) ∷ (48 + v % 100 % 10) ∷ []
    else if leb 10 v
    then (48 + v / 10) ∷ (48 + v % 10) ∷ []
    else (48 + v) ∷ []

-- The text of inet_ntoa and inet_ntop; 46 is the dot.
unfoldable pub inet_ntoa : Bytes4 → List ℕ
unfolding print_byte
inet_ntoa b =
    print_byte b.b0 ++ 46 ∷ (print_byte b.b1 ++ 46 ∷ (print_byte b.b2 ++ 46 ∷ print_byte b.b3))

-- No null pointer is passed; AF_INET is 2.
unfoldable pub inet_ntop : ℕ → Bytes4 → ℕ → Option (List ℕ)
unfolding inet_ntoa
inet_ntop af src size = if not (af == 2) || ltb size 16 then none else some (inet_ntoa src)

-- The variables of the loop of inet_pton.
pub record Parse : Type 0 where
  pub addr : ℕ
  pub dots : ℕ
  pub val : ℕ
  pub any : Bool

-- (addr << 8) | val, in 32 bits; val is at most 255.
abbrev pub shift_in : ℕ → ℕ → ℕ
shift_in addr val = (addr * 2 ^ 8 + val) % 2 ^ 32

-- One character; `none` stands for `return 0`.
unfoldable pub parse_char : ℕ → Parse → Option Parse
parse_char c p =
    if leb 48 c && leb c 57
    then (if ltb 255 (p.val * 10 + (c - 48))
        then none
        else some (record p { val = p.val * 10 + (c - 48); any = true }))
    else if c == 46
    then (if not p.any || leb 3 p.dots
        then none
        else some
            (record { addr = shift_in p.addr p.val; dots = p.dots + 1; val = 0; any = false }))
    else none

pub parse_loop : List ℕ → Parse → Option Parse
parse_loop [] p = some p
parse_loop (c ∷ src) p = elim (parse_char c p) [ none ↦ none | some q ↦ parse_loop src q ]

pub data PtonResult : Type 0 where
  error : PtonResult
  malformed : PtonResult
  address : Bytes4 → PtonResult

-- -1 is `error`, 0 is `malformed` and 1 is `address` with the bytes that are stored.
unfoldable pub inet_pton : ℕ → List ℕ → PtonResult
unfolding parse_loop parse_char htonl
inet_pton af src =
    if not (af == 2)
    then error
    else elim (parse_loop src (record { addr = 0; dots = 0; val = 0; any = false })) [
      | none ↦ malformed
      | some p ↦
          if not p.any || not (p.dots == 3)
          then malformed
          else address (bytes_of (htonl (shift_in p.addr p.val)))
    ]
