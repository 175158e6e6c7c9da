-- ===== src/Net/Ipv4/Tests.antt =====
-- The IPv4 theorems at a packet of two bytes that goes to 127.0.0.1.
use rucux.Base.{ℕ, zero, suc, ◌+◌, ◌%◌, ◌^◌, ◌≡◌, ◌⊎◌, refl, some, List, [], ◌∷◌, arith}
use rucux.Net.Netbuf.{Netbuf}
use rucux.Net.Netbuf.Window.{window}
use rucux.Net.Netif.{Netif, Interfaces}
use rucux.Net.Ipv4.{byte_at, freed, dispatch, not_for_us, ipv4_input, transmit, ipv4_output}
use rucux.Net.Ipv4.Header.{with_header}
use rucux.Net.Ipv4.Arrival.{stripped, output-input, Accepted, payload_of, ipv4_input-Accepted}

zeros : ℕ → List ℕ
zeros zero = []
zeros (suc n) = 0 ∷ zeros n

abbrev lo : Netif
lo = record {
  id = 0;
  addr = 0x0100007f;
  netmask = 0xff;
  gateway = 0;
  mtu = 65535;
  mac = 0 ∷ 0 ∷ 0 ∷ 0 ∷ 0 ∷ 0 ∷ [];
}

abbrev ifs : Interfaces
ifs = record { list = lo ∷ []; loopback = some lo }

abbrev packet : Netbuf
unfolding zeros
packet = record {
  bytes = zeros 150;
  start = 128;
  len = 2;
  total_size = 150;
  src_ip = 0;
  dst_ip = 0;
  src_port = 0;
  dst_port = 0;
  protocol = 0;
}

output-input_example :
    let p = with_header packet 7 0x0100007f 0x0100007f 17 in
    (ipv4_output ifs 7 packet 0x0100007f 0x0100007f 17
      ≡ ((7 + 1) % 2 ^ 16, transmit ifs 0x0100007f p))
    × (ipv4_input ifs lo p ≡ dispatch 17 lo (stripped p 0x0100007f 0x0100007f 17))
    × ((stripped p 0x0100007f 0x0100007f 17).start ≡ packet.start)
    × ((stripped p 0x0100007f 0x0100007f 17).len ≡ packet.len)
    × (window p.bytes packet.start packet.len ≡ window packet.bytes packet.start packet.len)
unfolding zeros not_for_us
output-input_example =
    output-input ifs lo packet 7 0x0100007f 0x0100007f 17
      (record { block = refl; inside = omega arith; sized = omega arith }) (omega arith)
      (omega arith) (omega arith) (omega arith) (omega arith) refl

ipv4_input-Accepted_example :
    (ipv4_input ifs lo packet ≡ freed)
    ⊎ (Accepted ifs lo packet (payload_of packet)
        × (ipv4_input ifs lo packet ≡ dispatch (byte_at packet 9) lo (payload_of packet)))
unfolding zeros
ipv4_input-Accepted_example =
    ipv4_input-Accepted ifs lo packet
      (record { block = refl; inside = omega arith; sized = omega arith })
