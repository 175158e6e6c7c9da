-- ===== src/Net/Ipv4.antt =====
-- src/kernel/net/ipv4.cpp and src/include/kernel/net/ipv4.hpp. The header is read and written as the
-- bytes of the buffer; a 32-bit address is kept as the machine word that its four bytes make,
-- lowest byte first. What a handler hands on is its result: the buffer and whom it goes to.
pub mod Header
pub mod Arrival
mod Tests
use rucux.Base.{
  ℕ, ◌+◌, ◌-◌, ◌*◌, ◌/◌, ◌%◌, ◌^◌, Bool, true, false, ◌&&◌, ◌||◌, not, Option, none, some, List, [],
  ◌∷◌, ◌++◌, ltb, ◌==◌, if◌then◌else◌, get_or, bit_and, bit_or,
}
use rucux.Net.Checksum.{checksum, u32}
use rucux.Net.Checksum.Rfc1071.{with_field}
use rucux.Net.Netbuf.{Netbuf, push, pull, set_len}
use rucux.Net.Netbuf.Window.{window, store}
use rucux.Net.Netif.{Netif, Interfaces, is_loopback, netif_default}

abbrev pub ipproto_tcp : ℕ
ipproto_tcp = 6

abbrev pub ipproto_udp : ℕ
ipproto_udp = 17

abbrev pub ipv4_header_len : ℕ
ipv4_header_len = 20

-- The byte `i` of the packet.
abbrev pub byte_at : Netbuf → ℕ → ℕ
byte_at b i = get_or b.bytes (b.start + i) 0

-- A 16-bit field in network order, and a 32-bit field as it lies in memory.
abbrev pub be16_at : Netbuf → ℕ → ℕ
be16_at b i = byte_at b i * 2 ^ 8 + byte_at b (i + 1)

abbrev pub le32_at : Netbuf → ℕ → ℕ
le32_at b i =
    byte_at b i
    + byte_at b (i + 1) * 2 ^ 8
    + byte_at b (i + 2) * 2 ^ 16
    + byte_at b (i + 3) * 2 ^ 24

-- addr | ~netmask
abbrev pub broadcast : Netif → ℕ
broadcast iface = bit_or iface.addr (2 ^ 32 - 1 - iface.netmask)

pub data Delivery : Type 0 where
  freed : Delivery
  to_tcp to_udp : Netif → Netbuf → Delivery

unfoldable pub dispatch : ℕ → Netif → Netbuf → Delivery
dispatch protocol iface b =
    if protocol == ipproto_tcp
    then to_tcp iface b
    else if protocol == ipproto_udp
    then to_udp iface b
    else freed

-- The conditions under which ipv4_input frees the packet, in the order of the code.
unfoldable pub malformed : Netbuf → Bool
malformed b =
    let hdr_len = byte_at b 0 % 2 ^ 4 * 4 in
    let total = be16_at b 2 in
    ltb hdr_len ipv4_header_len
    || ltb b.len hdr_len
    || ltb total hdr_len
    || ltb b.len total
    || not (bit_and (be16_at b 6) 0xbfff == 0)
    || byte_at b 8 == 0
    || not (checksum (window b.bytes b.start hdr_len) == 0)

unfoldable pub not_for_us : Interfaces → Netif → ℕ → Bool
unfolding is_loopback
not_for_us ifs iface dst =
    not (dst == iface.addr)
    && not (dst == 0xffffffff)
    && not (dst == broadcast iface)
    && not (is_loopback ifs iface)

unfoldable pub ipv4_input : Interfaces → Netif → Netbuf → Delivery
ipv4_input ifs iface b =
    if ltb b.len ipv4_header_len
    then freed
    else if not (byte_at b 0 / 2 ^ 4 == 4)
    then freed
    else if malformed b
    then freed
    else if not_for_us ifs iface (le32_at b 16)
    then freed
    else let trimmed = (set_len b (be16_at b 2)).1 in
      let marked : Netbuf = record trimmed {
        src_ip = le32_at b 12;
        dst_ip = le32_at b 16;
        protocol = byte_at b 9;
      } in
      dispatch (byte_at b 9) iface (pull marked (byte_at b 0 % 2 ^ 4 * 4)).1

-- The four bytes of a word, lowest first.
abbrev pub le32 : ℕ → List ℕ
le32 v = v % 2 ^ 8 ∷ v / 2 ^ 8 % 2 ^ 8 ∷ v / 2 ^ 16 % 2 ^ 8 ∷ v / 2 ^ 24 % 2 ^ 8 ∷ []

-- The header that ipv4_output writes, up to the checksum field and behind it.
abbrev pub before_checksum : ℕ → ℕ → ℕ → List ℕ
before_checksum total id protocol =
    0x45
    ∷ 0
    ∷ total / 2 ^ 8 % 2 ^ 8
    ∷ total % 2 ^ 8
    ∷ id / 2 ^ 8 % 2 ^ 8
    ∷ id % 2 ^ 8
    ∷ 0x40
    ∷ 0
    ∷ 64
    ∷ protocol
    ∷ []

abbrev pub after_checksum : ℕ → ℕ → List ℕ
after_checksum src dst = le32 src ++ le32 dst

unfoldable pub output_header : ℕ → ℕ → ℕ → ℕ → ℕ → List ℕ
output_header total id protocol src dst =
    let before = before_checksum total id protocol in
    let after = after_checksum src dst in
    with_field before (checksum (with_field before 0 after)) after

pub data Sent : Type 0 where
  dropped : Sent
  on_loopback : Netif → Netbuf → Sent
  on_ethernet : Netif → Netbuf → ℕ → Sent

-- netif_loopback() for 127.0.0.1, else netif_default().
unfoldable pub route : Interfaces → ℕ → Option Netif
unfolding netif_default
route ifs dst = if dst == 0x0100007f then ifs.loopback else netif_default ifs

unfoldable pub transmit : Interfaces → ℕ → Netbuf → Sent
unfolding route is_loopback
transmit ifs dst b = elim (route ifs dst) [
  | none ↦ dropped
  | some iface ↦
      if ltb iface.mtu b.len
      then dropped
      else if is_loopback ifs iface
      then on_loopback iface b
      else on_ethernet iface b dst
]

-- The first argument and the first result are g_ip_id, a uint16_t.
unfoldable pub ipv4_output : Interfaces → ℕ → Netbuf → ℕ → ℕ → ℕ → ℕ × Sent
unfolding push output_header transmit
ipv4_output ifs ip_id b src dst protocol =
    let (place, b') = push b ipv4_header_len in
    elim place [
      | none ↦ (ip_id, dropped)
      | some _ ↦
          let header = output_header (b'.len % 2 ^ 16) ip_id protocol src dst in
          (
            (ip_id + 1) % 2 ^ 16,
            transmit ifs dst (record b' { bytes = store b'.bytes b'.start header }),
          )
    ]
