-- ===== src/Libc/Inet/RoundTrip.antt =====
-- The text between inet_ntop and inet_pton of libc/src/inet.cpp.
use rucux.Base.{
  ℕ, ◌+◌, ◌≤◌, ◌<◌, ◌≡◌, ap, ◌∙◌, true, false, some, List, ◌∷◌, ◌++◌, arith, length, length-append,
}
use rucux.Libc.Inet.{
  htonl, Bytes4, bytes_of, print_byte, inet_ntoa, inet_ntop, shift_in, parse_char, parse_loop,
  inet_pton, address,
}

-- A decimal byte at the start of a text is read as its value.
parse-byte :
    (v addr dots : ℕ) (rest : List ℕ)
    → v < 256
    → parse_loop (print_byte v ++ rest) (record { addr = addr; dots = dots; val = 0; any = false })
      ≡ parse_loop rest (record { addr = addr; dots = dots; val = v; any = true })
unfolding parse_loop parse_char print_byte
parse-byte v addr dots rest h = ground arith

parse-last :
    (v addr dots : ℕ)
    → v < 256
    → parse_loop (print_byte v) (record { addr = addr; dots = dots; val = 0; any = false })
      ≡ some (record { addr = addr; dots = dots; val = v; any = true })
unfolding parse_loop parse_char print_byte
parse-last v addr dots h = ground arith

-- A byte and the dot behind it.
parse-part :
    (v addr dots : ℕ) (rest : List ℕ)
    → v < 256
    → dots < 3
    → parse_loop
        (print_byte v ++ 46 ∷ rest)
        (record { addr = addr; dots = dots; val = 0; any = false })
      ≡ parse_loop rest (record { addr = shift_in addr v; dots = dots + 1; val = 0; any = false })
unfolding parse_loop parse_char
parse-part v addr dots rest h few = parse-byte v addr dots (46 ∷ rest) h ∙ ground arith

abbrev gathered : Bytes4 → ℕ
gathered b = shift_in (shift_in (shift_in 0 b.b0) b.b1) b.b2

-- All four bytes are below 256.
abbrev pub Fits : Bytes4 → Type 0
Fits b = (b.b0 < 256) × (b.b1 < 256) × (b.b2 < 256) × (b.b3 < 256)

parse-inet_ntoa :
    (b : Bytes4)
    → Fits b
    → parse_loop (inet_ntoa b) (record { addr = 0; dots = 0; val = 0; any = false })
      ≡ some (record { addr = gathered b; dots = 3; val = b.b3; any = true })
unfolding inet_ntoa
parse-inet_ntoa b (h0, h1, h2, h3) =
    parse-part b.b0 0 0 _ h0 (omega arith)
    ∙ parse-part b.b1 (shift_in 0 b.b0) 1 _ h1 (omega arith)
    ∙ parse-part b.b2 (shift_in (shift_in 0 b.b0) b.b1) 2 _ h2 (omega arith)
    ∙ parse-last b.b3 (gathered b) 3 h3

-- The bytes of the number that was gathered, in network order.
bytes_of-gathered : (b : Bytes4) → Fits b → bytes_of (htonl (shift_in (gathered b) b.b3)) ≡ b
unfolding htonl
bytes_of-gathered b (h0, h1, h2, h3) =
    let c = bytes_of (htonl (shift_in (gathered b) b.b3)) in
    let e0 : c.b0 ≡ b.b0 = omega arith in
    let e1 : c.b1 ≡ b.b1 = omega arith in
    let e2 : c.b2 ≡ b.b2 = omega arith in let e3 : c.b3 ≡ b.b3 = omega arith in ground arith

print_byte-length : (v : ℕ) → length (print_byte v) ≤ 3
unfolding print_byte
print_byte-length v = ground arith

inet_ntoa-length : (b : Bytes4) → length (inet_ntoa b) < 16
unfolding inet_ntoa
inet_ntoa-length b =
    let p0 = print_byte-length b.b0 in
    let p1 = print_byte-length b.b1 in
    let p2 = print_byte-length b.b2 in
    let p3 = print_byte-length b.b3 in
    let t2 = length-append (print_byte b.b2) (46 ∷ print_byte b.b3) in
    let t1 = length-append (print_byte b.b1) (46 ∷ (print_byte b.b2 ++ 46 ∷ print_byte b.b3)) in
    let t0 =
      length-append (print_byte b.b0)
        (46 ∷ (print_byte b.b1 ++ 46 ∷ (print_byte b.b2 ++ 46 ∷ print_byte b.b3))) in
    omega arith

-- The text that inet_ntop writes for an address fits, with its terminator, in 16 bytes, and inet_pton
-- reads the address back from it.
pub inet_pton-inet_ntop :
    (b : Bytes4) (size : ℕ)
    → Fits b
    → 16 ≤ size
    → (inet_ntop 2 b size ≡ some (inet_ntoa b))
      × (length (inet_ntoa b) < 16)
      × (inet_pton 2 (inet_ntoa b) ≡ address b)
unfolding inet_ntop inet_pton
inet_pton-inet_ntop b size h room = (
  ground arith,
  inet_ntoa-length b,
  rw (parse-inet_ntoa b h) (ap address (bytes_of-gathered b h)),
)
