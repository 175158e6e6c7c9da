-- ===== src/Net/Ethernet.antt =====
-- src/kernel/net/ethernet.cpp: frames in and out. What is handed to IPv4 and to ARP is a result; ARP fills
-- in the destination address later.
pub mod Frames
mod Tests
use rucux.Base.{
  ℕ, ◌+◌, ◌-◌, ◌*◌, ◌/◌, ◌%◌, ◌^◌, Bool, ◌&&◌, not, Option, none, some, List, [], ◌∷◌, ltb, ◌==◌,
  if◌then◌else◌, get_or, bit_and,
}
use rucux.Net.Ipv4.{be16_at}
use rucux.Net.Netbuf.{Netbuf, push, pull}
use rucux.Net.Netbuf.Window.{store}
use rucux.Net.Netif.{Netif}

abbrev pub eth_type_ipv4 : ℕ
eth_type_ipv4 = 0x0800

abbrev pub eth_type_arp : ℕ
eth_type_arp = 0x0806

abbrev pub eth_header_len : ℕ
eth_header_len = 14

pub data Received : Type 0 where
  freed : Received
  to_ipv4 : Netbuf → Received
  to_arp : Netbuf → Received

unfoldable pub ethernet_input : Netbuf → Received
ethernet_input b =
    if ltb b.len eth_header_len
    then freed
    else if be16_at b 12 == eth_type_ipv4
    then to_ipv4 (pull b eth_header_len).1
    else if be16_at b 12 == eth_type_arp
    then to_arp (pull b eth_header_len).1
    else freed

-- The gateway for a destination outside the subnet; without a gateway there is no route.
unfoldable pub next_hop : Netif → ℕ → Option ℕ
next_hop iface dst_ip =
    if not (dst_ip == 0xFFFFFFFF)
      && not (bit_and dst_ip iface.netmask == bit_and iface.addr iface.netmask)
    then (if iface.gateway == 0 then none else some iface.gateway)
    else some dst_ip

-- Six zero bytes for the destination, the interface's address and the type in network order.
abbrev pub eth_header : Netif → ℕ → List ℕ
eth_header iface ethertype =
    0
    ∷ 0
    ∷ 0
    ∷ 0
    ∷ 0
    ∷ 0
    ∷ get_or iface.mac 0 0
    ∷ get_or iface.mac 1 0
    ∷ get_or iface.mac 2 0
    ∷ get_or iface.mac 3 0
    ∷ get_or iface.mac 4 0
    ∷ get_or iface.mac 5 0
    ∷ ethertype / 2 ^ 8 % 2 ^ 8
    ∷ ethertype % 2 ^ 8
    ∷ []

pub data Framed : Type 0 where
  dropped : Framed
  arp_output : Netbuf → ℕ → Framed

unfoldable pub ethernet_output : Netif → Netbuf → ℕ → ℕ → Framed
ethernet_output iface b dst_ip ethertype = elim (next_hop iface dst_ip) [
  | none ↦ dropped
  | some hop ↦
      let (place, b') = push b eth_header_len in
      elim place [
        | none ↦ dropped
        | some _ ↦
            arp_output (record b' { bytes = store b'.bytes b'.start (eth_header iface ethertype) })
              hop
      ]
]
