-- ===== src/Net/Ethernet/Frames.antt =====
-- Frames between ethernet_output and ethernet_input of src/kernel/net/ethernet.cpp.
use rucux.Base.{ℕ, ◌+◌, ◌-◌, ◌^◌, ◌≤◌, ◌<◌, ◌≡◌, refl, some, arith, length, ◌==◌, if◌then◌else◌}
use rucux.Net.Ipv4.{be16_at}
use rucux.Net.Netbuf.{Netbuf, push, pull}
use rucux.Net.Netbuf.Laws.{IsValid}
use rucux.Net.Netbuf.Window.{store, window, get_or-store, window-store_after}
use rucux.Net.Netif.{Netif}
use rucux.Net.Ethernet.{
  eth_type_ipv4, eth_type_arp, eth_header_len, eth_header, ethernet_input, ethernet_output,
  next_hop, freed, to_ipv4, to_arp, arp_output,
}

-- The frame around a payload, and the frame without its header.
abbrev pub framed : Netif → Netbuf → ℕ → Netbuf
framed iface b ethertype = record b {
  start = b.start - eth_header_len;
  len = b.len + eth_header_len;
  bytes = store b.bytes (b.start - eth_header_len) (eth_header iface ethertype);
}

abbrev pub unframed : Netif → Netbuf → ℕ → Netbuf
unframed iface b ethertype = record (framed iface b ethertype) {
  start = b.start - eth_header_len + eth_header_len;
  len = b.len + eth_header_len - eth_header_len;
}

type_at :
    (iface : Netif) (b : Netbuf) (ethertype : ℕ)
    → eth_header_len ≤ b.start
    → b.start ≤ length b.bytes
    → ethertype < 2 ^ 16
    → be16_at (framed iface b ethertype) 12 ≡ ethertype
type_at iface b ethertype room inside small =
    let s = b.start - eth_header_len in
    let hi =
      get_or-store b.bytes s 12 (s + 12) (eth_header iface ethertype) (omega arith) (omega arith)
        refl in
    let lo =
      get_or-store b.bytes s 13 (s + 13) (eth_header iface ethertype) (omega arith) (omega arith)
        refl in
    omega (arith, hi, lo)

-- What ethernet_output frames for a destination that it has a route to, given room for the header,
-- is handed on with the next hop, and ethernet_input hands such a frame to the protocol of its type
-- and to no other, with the payload at its old place, of its old length and with its old bytes.
pub ethernet_roundtrip :
    (iface : Netif) (b : Netbuf) (dst_ip hop ethertype : ℕ)
    → IsValid b
    → eth_header_len ≤ b.start
    → ethertype < 2 ^ 16
    → next_hop iface dst_ip ≡ some hop
    → let p = framed iface b ethertype in
      let u = unframed iface b ethertype in
      (ethernet_output iface b dst_ip ethertype ≡ arp_output p hop)
      × (ethernet_input p ≡ (
          if ethertype == eth_type_ipv4
          then to_ipv4 u
          else if ethertype == eth_type_arp
          then to_arp u
          else freed))
      × (u.start ≡ b.start)
      × (u.len ≡ b.len)
      × (window u.bytes b.start b.len ≡ window b.bytes b.start b.len)
unfolding ethernet_output ethernet_input push pull
ethernet_roundtrip iface b dst_ip hop ethertype v room small found = (
  ground (arith, found),
  ground (arith, type_at iface b ethertype room (omega (arith, v.inside, v.block)) small),
  omega arith,
  omega arith,
  window-store_after b.bytes (b.start - eth_header_len) (eth_header iface ethertype) b.start b.len
      (omega arith),
)
