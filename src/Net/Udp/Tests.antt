-- ===== src/Net/Udp/Tests.antt =====
-- Examples of UDP: a socket sends two bytes over loopback to another.
use rucux.Base.{ℕ, zero, suc, ◌≡◌, refl, ap, true, false, some, List, [], ◌∷◌, length, arith}
use rucux.Net.Netif.{Netif, Interfaces}
use rucux.Net.Ipv4.{route, not_for_us}
use rucux.Net.Udp.{Pcb, Udp, udp_bind, block, takes, find_udp_pcb}
use rucux.Net.Udp.Ports.{AnyPort, bind_any_lem}
use rucux.Net.Udp.Steps.{Allowed, binds, step, udp_step-IsValid}
use rucux.Net.Udp.Valid.{IsValid}
use rucux.Net.Udp.Delivery.{Sends, Delivered, sendto-input}

zeros : ℕ → List ℕ
zeros zero = []
zeros (suc n) = 0 ∷ zeros n

length-zeros : (n : ℕ) → length (zeros n) ≡ n
unfolding zeros
length-zeros zero = refl
length-zeros (suc n) = ap suc (length-zeros n)

abbrev lo : Netif
lo = record { id = 0; addr = 0x0100007f; netmask = 0xff; gateway = 0; mtu = 65535; mac = [] }

abbrev ifs : Interfaces
ifs = record { list = lo ∷ []; loopback = some lo }

abbrev unbound : Pcb
unbound = record {
  id = 1;
  local_ip = 0;
  local_port = 0;
  remote_ip = 0;
  remote_port = 0;
  bound = false;
  connected = false;
  recv = [];
  recv_count = 0;
  wait_recv = some 5;
}

abbrev bound_at : ℕ → ℕ → Pcb
bound_at id port = record unbound { id = id; local_port = port; bound = true }

abbrev sockets : Udp
sockets = record { list = bound_at 2 0x3500 ∷ bound_at 3 0x0050 ∷ unbound ∷ []; ephemeral = 49152 }

sockets-IsValid : IsValid sockets
sockets-IsValid = record {
  distinct = ((λ e. omega arith, (λ e. omega arith, tt)), ((λ e. omega arith, tt), (tt, tt)));
  unshared = ((refl, (refl, tt)), ((refl, tt), (tt, tt)));
  counted = ((refl, omega arith), ((refl, omega arith), ((refl, omega arith), tt)));
  range = omega arith;
}

bind_any_lem_example : AnyPort sockets unbound 0 50000 (udp_bind sockets unbound 0 0)
bind_any_lem_example =
    bind_any_lem sockets unbound 0 50000 refl (omega arith) (omega arith) (omega arith)
      (omega arith)

udp_step-IsValid_example : IsValid (step sockets (binds unbound 0 0))
unfolding Allowed
udp_step-IsValid_example = udp_step-IsValid sockets (binds unbound 0 0) sockets-IsValid tt

sender-Sends : Sends ifs sockets (bound_at 2 0x3500) lo 2 0x0100007f 0x0100007f 0x0050
unfolding block route
sender-Sends = record {
  bound = refl;
  listed = refl;
  routed = refl;
  fits = omega arith;
  named = (λ e. omega arith, λ e. omega arith);
  source = refl;
}

sendto-input_example :
    Delivered ifs lo sockets sockets
      (bound_at 2 0x3500)
      (bound_at 3 0x0050)
      (zeros 2048)
      (104 ∷ 105 ∷ [])
      7
      0x0100007f
      0x0100007f
      0x0050
unfolding not_for_us find_udp_pcb takes
sendto-input_example =
    sendto-input ifs lo lo sockets sockets (bound_at 2 0x3500) (bound_at 3 0x0050) (zeros 2048)
      (104 ∷ 105 ∷ []) 7 0x0100007f 0x0100007f 0x0050 sender-Sends (length-zeros 2048) (omega arith)
      (omega arith) (omega arith) (omega arith) (omega arith) refl refl (omega arith)
