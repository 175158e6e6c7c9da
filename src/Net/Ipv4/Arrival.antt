-- ===== src/Net/Ipv4/Arrival.antt =====
-- Packets between ipv4_output and ipv4_input of src/kernel/net/ipv4.cpp.
use rucux.Base.{
  ℕ, ◌+◌, ◌-◌, ◌*◌, ◌/◌, ◌%◌, ◌^◌, ◌≤◌, ◌<◌, ◌≡◌, ◌≢◌, refl, ◌⊎◌, inl, inr, false, arith, bit_and,
  ltb, ◌==◌, Bool-cases,
}
use rucux.Net.Checksum.{checksum}
use rucux.Net.Netbuf.{Netbuf, push, pull, set_len}
use rucux.Net.Netbuf.Laws.{IsValid}
use rucux.Net.Netbuf.Window.{window}
use rucux.Net.Netif.{Netif, Interfaces}
use rucux.Net.Ipv4.{
  byte_at, be16_at, le32_at, ipv4_header_len, freed, dispatch, malformed, not_for_us, ipv4_input,
  transmit, ipv4_output,
}
use rucux.Net.Ipv4.Header.{with_header, Reads, with_header-Reads, payload-with_header}

fragment_bits : bit_and 0x4000 0xbfff ≡ 0
fragment_bits = refl

Reads-not_malformed :
    (p : Netbuf) (src dst protocol : ℕ)
    → 20 ≤ p.len
    → Reads p src dst protocol
    → malformed p ≡ false
unfolding malformed
Reads-not_malformed p src dst protocol h r =
    rw (r.version, r.total, r.flags, r.ttl, r.header_sum) (ground (arith, fragment_bits))

-- The buffer that ipv4_input makes of such a packet.
abbrev pub stripped : Netbuf → ℕ → ℕ → ℕ → Netbuf
stripped p src dst protocol = record p {
  start = p.start + 20;
  len = p.len - 20;
  src_ip = src;
  dst_ip = dst;
  protocol = protocol;
}

Reads-ipv4_input :
    (ifs : Interfaces) (iface : Netif) (p : Netbuf) (src dst protocol : ℕ)
    → 20 ≤ p.len
    → p.start + p.len ≤ p.total_size
    → Reads p src dst protocol
    → not_for_us ifs iface dst ≡ false
    → ipv4_input ifs iface p ≡ dispatch protocol iface (stripped p src dst protocol)
unfolding ipv4_input set_len pull
Reads-ipv4_input ifs iface p src dst protocol h inside r ours =
    rw (r.version, r.total, r.source, r.destination, r.proto, ours)
      (ground (arith, Reads-not_malformed p src dst protocol h r))

-- What ipv4_output writes in front of a payload that has room for it is handed to the route, and if
-- it arrives so at an interface that takes its destination, ipv4_input hands it to the protocol
-- with the source, destination and protocol that were sent, and the payload at its old place. The packet
-- is assumed to be shorter than 2 ^ 16 bytes with its header, and the fields to be words of their width.
pub output-input :
    (ifs : Interfaces) (iface : Netif) (b : Netbuf) (id src dst protocol : ℕ)
    → IsValid b
    → ipv4_header_len ≤ b.start
    → b.len + ipv4_header_len < 2 ^ 16
    → src < 2 ^ 32
    → dst < 2 ^ 32
    → protocol < 2 ^ 8
    → not_for_us ifs iface dst ≡ false
    → let p = with_header b id src dst protocol in
      (ipv4_output ifs id b src dst protocol ≡ ((id + 1) % 2 ^ 16, transmit ifs dst p))
      × (ipv4_input ifs iface p ≡ dispatch protocol iface (stripped p src dst protocol))
      × ((stripped p src dst protocol).start ≡ b.start)
      × ((stripped p src dst protocol).len ≡ b.len)
      × (window p.bytes b.start b.len ≡ window b.bytes b.start b.len)
unfolding ipv4_output push
output-input ifs iface b id src dst protocol v room short s d pr ours =
    let p = with_header b id src dst protocol in
    (
      ground arith,
      Reads-ipv4_input ifs iface p src dst protocol (omega arith) (omega (arith, v.inside))
          (with_header-Reads b id src dst protocol v room short s d pr) ours,
      omega arith,
      omega arith,
      payload-with_header b id src dst protocol v room short s d pr,
    )

-- The conditions that ipv4_input promises of a packet that it hands on.
pub record Accepted (ifs : Interfaces) (iface : Netif) (p c : Netbuf) : Type 0 where
  pub version : byte_at p 0 / 2 ^ 4 ≡ 4
  pub header : 20 ≤ byte_at p 0 % 2 ^ 4 * 4
  pub within : (byte_at p 0 % 2 ^ 4 * 4 ≤ be16_at p 2) × (be16_at p 2 ≤ p.len)
  pub whole : bit_and (be16_at p 6) 0xbfff ≡ 0
  pub live : byte_at p 8 ≢ 0
  pub sum : checksum (window p.bytes p.start (byte_at p 0 % 2 ^ 4 * 4)) ≡ 0
  pub ours : not_for_us ifs iface (le32_at p 16) ≡ false
  pub payload :
      (c.start ≡ p.start + byte_at p 0 % 2 ^ 4 * 4)
      × (c.start + c.len ≡ p.start + be16_at p 2)
      × (c.bytes ≡ p.bytes)
  pub meta : (c.src_ip ≡ le32_at p 12) × (c.dst_ip ≡ le32_at p 16) × (c.protocol ≡ byte_at p 9)

Malformed-facts :
    (p : Netbuf)
    → malformed p ≡ false
    → (20 ≤ byte_at p 0 % 2 ^ 4 * 4)
      × (byte_at p 0 % 2 ^ 4 * 4 ≤ be16_at p 2)
      × (be16_at p 2 ≤ p.len)
      × (bit_and (be16_at p 6) 0xbfff ≡ 0)
      × (byte_at p 8 ≢ 0)
      × (checksum (window p.bytes p.start (byte_at p 0 % 2 ^ 4 * 4)) ≡ 0)
unfolding malformed
Malformed-facts p h = ground arith

-- The buffer that ipv4_input hands on.
abbrev pub payload_of : Netbuf → Netbuf
payload_of p =
    let hdr = byte_at p 0 % 2 ^ 4 * 4 in
    record p {
      start = p.start + hdr;
      len = be16_at p 2 - hdr;
      src_ip = le32_at p 12;
      dst_ip = le32_at p 16;
      protocol = byte_at p 9;
    }

-- A packet in a valid buffer is either freed, or it is handed to its protocol, and then it is a
-- whole IPv4 packet within the buffer, with a correct header checksum, a time to live, a destination
-- that the interface takes, and what is handed on is exactly the bytes behind its header.
pub ipv4_input-Accepted :
    (ifs : Interfaces) (iface : Netif) (p : Netbuf)
    → IsValid p
    → (ipv4_input ifs iface p ≡ freed)
      ⊎ (Accepted ifs iface p (payload_of p)
          × (ipv4_input ifs iface p ≡ dispatch (byte_at p 9) iface (payload_of p)))
unfolding ipv4_input set_len pull
ipv4_input-Accepted ifs iface p v = elim (Bool-cases (ltb p.len 20)) [
  | inl e ↦ inl (ground arith)
  | inr e0 ↦ elim (Bool-cases (byte_at p 0 / 2 ^ 4 == 4)) [
    | inr e ↦ inl (ground arith)
    | inl e1 ↦ elim (Bool-cases (malformed p)) [
      | inl e ↦ inl (ground arith)
      | inr e2 ↦ elim (Bool-cases (not_for_us ifs iface (le32_at p 16))) [
        | inl e ↦ inl (ground arith)
        | inr e3 ↦
            let f = Malformed-facts p e2 in
            inr (
              record {
                version = ground arith;
                header = f.0;
                within = (f.1, f.2);
                whole = f.3;
                live = f.4;
                sum = f.5;
                ours = e3;
                payload = (refl, omega (arith, f.1), refl);
                meta = (refl, refl, refl);
              },
              ground arith,
            )
      ]
    ]
  ]
]
