-- ===== src/Net/Ethernet/Tests.antt =====
-- An example of a frame: two bytes for an address in the subnet.
use rucux.Base.{◌≡◌, refl, some, [], ◌∷◌, arith, ◌==◌, if◌then◌else◌}
use rucux.Net.Netbuf.{Netbuf}
use rucux.Net.Netbuf.Laws.{IsValid}
use rucux.Net.Netbuf.Window.{window}
use rucux.Net.Netif.{Netif}
use rucux.Net.Ethernet.{
  ethernet_input, ethernet_output, next_hop, to_ipv4, to_arp, freed, arp_output, eth_type_ipv4,
  eth_type_arp,
}
use rucux.Net.Ethernet.Frames.{framed, unframed, ethernet_roundtrip}

abbrev eth0 : Netif
eth0 = record {
  id = 1;
  addr = 0x0f02000a;
  netmask = 0x00ffffff;
  gateway = 0x0202000a;
  mtu = 1500;
  mac = 0x52 ∷ 0x54 ∷ 0 ∷ 0x12 ∷ 0x34 ∷ 0x56 ∷ [];
}

abbrev packet : Netbuf
packet = record {
  bytes = 0 ∷ 0 ∷ 0 ∷ 0 ∷ 0 ∷ 0 ∷ 0 ∷ 0 ∷ 0 ∷ 0 ∷ 0 ∷ 0 ∷ 0 ∷ 0 ∷ 7 ∷ 8 ∷ [];
  start = 14;
  len = 2;
  total_size = 16;
  src_ip = 0;
  dst_ip = 0;
  src_port = 0;
  dst_port = 0;
  protocol = 0;
}

packet-IsValid : IsValid packet
packet-IsValid = record { block = refl; inside = omega arith; sized = omega arith }

-- 8.8.8.8 is outside the subnet.
hop : next_hop eth0 0x08080808 ≡ some 0x0202000a
unfolding next_hop
hop = refl

ethernet_roundtrip_example :
    let p = framed eth0 packet 0x0800 in
    let u = unframed eth0 packet 0x0800 in
    (ethernet_output eth0 packet 0x08080808 0x0800 ≡ arp_output p 0x0202000a)
    × (ethernet_input p ≡ (
        if 0x0800 == eth_type_ipv4
        then to_ipv4 u
        else if 0x0800 == eth_type_arp
        then to_arp u
        else freed))
    × (u.start ≡ 14)
    × (u.len ≡ 2)
    × (window u.bytes 14 2 ≡ window packet.bytes 14 2)
ethernet_roundtrip_example =
    ethernet_roundtrip eth0 packet 0x08080808 0x0202000a 0x0800 packet-IsValid (omega arith)
      (omega arith) hop
