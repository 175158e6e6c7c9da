-- ===== src/Net/Ipv4/Header.antt =====
-- The header that ipv4_output of src/kernel/net/ipv4.cpp writes, and what ipv4_input reads of it.
use rucux.Base.{
  ℕ, ◌+◌, ◌-◌, ◌*◌, ◌/◌, ◌%◌, ◌^◌, ◌≤◌, ◌<◌, ◌≡◌, refl, ap, ◌∙◌, List, arith, length, All, get_or,
}
use rucux.Net.Checksum.{checksum}
use rucux.Net.Checksum.Sums.{IsByte}
use rucux.Net.Checksum.Rfc1071.{checksum_verifies}
use rucux.Net.Netbuf.{Netbuf}
use rucux.Net.Netbuf.Laws.{IsValid}
use rucux.Net.Netbuf.Window.{window, store, window-store, window-store_after, get_or-store}
use rucux.Net.Ipv4.{
  byte_at, be16_at, le32_at, before_checksum, after_checksum, output_header, ipv4_header_len,
}

before_checksum-IsByte :
    (total id protocol : ℕ) → protocol < 2 ^ 8 → All IsByte (before_checksum total id protocol)
before_checksum-IsByte total id protocol h = omega arith

after_checksum-IsByte : (src dst : ℕ) → All IsByte (after_checksum src dst)
after_checksum-IsByte src dst = omega arith

module _ (total id protocol src dst : ℕ) where
  pub length-output_header : length (output_header total id protocol src dst) ≡ 20
  unfolding output_header
  length-output_header = refl

  pub checksum-output_header :
      protocol < 2 ^ 8 → checksum (output_header total id protocol src dst) ≡ 0
  unfolding output_header
  checksum-output_header h =
      checksum_verifies (before_checksum total id protocol) (after_checksum src dst)
        (before_checksum-IsByte total id protocol h) (after_checksum-IsByte src dst) (omega arith)
        (omega arith)

-- The packet that ipv4_output hands on.
abbrev pub with_header : Netbuf → ℕ → ℕ → ℕ → ℕ → Netbuf
with_header b id src dst protocol = record b {
  start = b.start - ipv4_header_len;
  len = b.len + ipv4_header_len;
  bytes =
      store b.bytes (b.start - ipv4_header_len)
        (output_header ((b.len + ipv4_header_len) % 2 ^ 16) id protocol src dst);
}

-- What ipv4_input reads of a packet that ipv4_output wrote.
pub record Reads (p : Netbuf) (src dst protocol : ℕ) : Type 0 where
  pub version : byte_at p 0 ≡ 0x45
  pub total : be16_at p 2 ≡ p.len
  pub flags : be16_at p 6 ≡ 0x4000
  pub ttl : byte_at p 8 ≡ 64
  pub proto : byte_at p 9 ≡ protocol
  pub source : le32_at p 12 ≡ src
  pub destination : le32_at p 16 ≡ dst
  pub header_sum : checksum (window p.bytes p.start 20) ≡ 0

le32-sum :
    (v : ℕ)
    → v < 2 ^ 32
    → v % 2 ^ 8
        + v / 2 ^ 8 % 2 ^ 8 * 2 ^ 8
        + v / 2 ^ 16 % 2 ^ 8 * 2 ^ 16
        + v / 2 ^ 24 % 2 ^ 8 * 2 ^ 24
      ≡ v
le32-sum v h = omega arith

module _ (b : Netbuf) (id src dst protocol : ℕ) (valid : IsValid b)
    (room : ipv4_header_len ≤ b.start) (short : b.len + ipv4_header_len < 2 ^ 16)
    (src_word : src < 2 ^ 32) (dst_word : dst < 2 ^ 32) (proto_byte : protocol < 2 ^ 8) where
  abbrev header : List ℕ
  header = output_header ((b.len + ipv4_header_len) % 2 ^ 16) id protocol src dst

  byte-header : (i : ℕ) → i < 20 → byte_at (with_header b id src dst protocol) i ≡ get_or header i 0
  byte-header i h =
      let n = length-output_header ((b.len + ipv4_header_len) % 2 ^ 16) id protocol src dst in
      get_or-store b.bytes (b.start - ipv4_header_len) i (b.start - ipv4_header_len + i) header
        (omega (arith, n)) (omega (arith, n)) refl

  length_lem : length header ≡ 20
  length_lem = length-output_header ((b.len + ipv4_header_len) % 2 ^ 16) id protocol src dst

  pub with_header-Reads : Reads (with_header b id src dst protocol) src dst protocol
  unfolding output_header
  with_header-Reads = record {
    version = byte-header 0 (omega arith);
    total = omega (arith, byte-header 2 (omega arith), byte-header 3 (omega arith));
    flags = omega (arith, byte-header 6 (omega arith), byte-header 7 (omega arith));
    ttl = byte-header 8 (omega arith);
    proto = byte-header 9 (omega arith);
    source = omega (
      arith,
      le32-sum src src_word,
      byte-header 12 (omega arith),
      byte-header 13 (omega arith),
      byte-header 14 (omega arith),
      byte-header 15 (omega arith),
    );
    destination = omega (
      arith,
      le32-sum dst dst_word,
      byte-header 16 (omega arith),
      byte-header 17 (omega arith),
      byte-header 18 (omega arith),
      byte-header 19 (omega arith),
    );
    header_sum =
        ap checksum
          (window-store b.bytes (b.start - ipv4_header_len) header (omega (arith, length_lem)))
        ∙ checksum-output_header ((b.len + ipv4_header_len) % 2 ^ 16) id protocol src dst
            proto_byte;
  }

  pub payload-with_header :
      window (with_header b id src dst protocol).bytes b.start b.len ≡ window b.bytes b.start b.len
  payload-with_header =
      window-store_after b.bytes (b.start - ipv4_header_len) header b.start b.len (
        omega
          (arith, length-output_header ((b.len + ipv4_header_len) % 2 ^ 16) id protocol src dst))
