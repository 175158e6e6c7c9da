-- ===== src/Net/Udp/Delivery.antt =====
-- udp_sendto to udp_input of src/kernel/net/udp.cpp, with src/kernel/net/ipv4.cpp between them.
use rucux.Base.{
  ℕ, ◌+◌, ◌%◌, ◌^◌, ◌≤◌, ◌<◌, ◌≡◌, ◌≢◌, refl, sym, ap, ap₂, ◌∙◌, false, true, some, List, ◌++◌,
  arith, length, leb, ◌==◌, if◌then◌else◌,
}
use rucux.Net.Netbuf.{Netbuf, alloc, default_size, headroom}
use rucux.Net.Netbuf.Laws.{IsValid}
use rucux.Net.Netbuf.Window.{window}
use rucux.Net.Netif.{Netif, Interfaces}
use rucux.Net.Ipv4.{
  to_udp, dispatch, not_for_us, ipv4_input, ipv4_output, transmit, route, ipproto_udp, Sent,
}
use rucux.Net.Ipv4.Header.{with_header}
use rucux.Net.Ipv4.Arrival.{stripped, output-input}
use rucux.Net.Udp.{
  Pcb, Udp, update, udp_header, block, with_datagram, datagram, enqueue, find_udp_pcb, udp_input,
  udp_sendto, sent,
}
use rucux.Net.Udp.Transfer.{
  Carries, Carries-payload, Carries-ports, Carries-good, Carries-datagram, packet_of,
  with_datagram_lem, packet_of-Carries, packet_of-IsValid,
}

-- A datagram that carries a payload to a block that takes it.
module _ (u : Udp) (pcb : Pcb) (b : Netbuf) (payload : List ℕ) (src_port dst_port : ℕ)
    (c : Carries b payload src_port dst_port) (short : length payload ≤ 1472)
    (sp : src_port < 2 ^ 16) (dp : dst_port < 2 ^ 16)
    (found : find_udp_pcb u.list b.dst_ip dst_port b.src_ip src_port ≡ some pcb)
    (room : pcb.recv_count < 32) where
  input-Carries :
      udp_input u b
      ≡ (record u { list = update pcb.id (enqueue (datagram b)) u.list }, pcb.wait_recv)
  unfolding udp_input
  input-Carries =
      let ports = Carries-ports b payload src_port dst_port c short sp dp in
      let space : leb 32 pcb.recv_count ≡ false = ground arith in
      rw (Carries-good b payload src_port dst_port c short sp dp, ports.0, ports.1, found, space)
        refl

-- The memory that netbuf::alloc makes a buffer of.
abbrev fresh : List ℕ → Netbuf
fresh raw = record {
  bytes = raw;
  start = headroom;
  len = 0;
  total_size = default_size;
  src_ip = 0;
  dst_ip = 0;
  src_port = 0;
  dst_port = 0;
  protocol = 0;
}

fresh-IsValid : (raw : List ℕ) → length raw ≡ default_size → IsValid (fresh raw)
fresh-IsValid raw e = record { block = e; inside = omega arith; sized = omega arith }

-- The packet of a datagram on its way, and at the far end.
abbrev pub on_the_wire : List ℕ → ℕ → List ℕ → ℕ → ℕ → ℕ → ℕ → Netbuf
on_the_wire raw id payload src dst src_port dst_port =
    with_header (packet_of (fresh raw) payload src_port dst_port) id src dst ipproto_udp

abbrev pub at_the_end : List ℕ → ℕ → List ℕ → ℕ → ℕ → ℕ → ℕ → Netbuf
at_the_end raw id payload src dst src_port dst_port =
    stripped (on_the_wire raw id payload src dst src_port dst_port) src dst ipproto_udp

module _ (ifs : Interfaces) (raw payload : List ℕ) (id src dst src_port dst_port : ℕ)
    (memory : length raw ≡ default_size) (short : length payload ≤ 1472) (sp : src_port < 2 ^ 16)
    (dp : dst_port < 2 ^ 16) where
  packet : Netbuf
  packet = packet_of (fresh raw) payload src_port dst_port

  packet-IsValid : IsValid packet
  unfolding packet
  packet-IsValid =
      packet_of-IsValid (fresh raw) payload src_port dst_port (fresh-IsValid raw memory) refl
        (omega arith) (omega arith) short

  packet-Carries : Carries packet payload src_port dst_port
  unfolding packet
  packet-Carries =
      packet_of-Carries (fresh raw) payload src_port dst_port (fresh-IsValid raw memory) refl
        (omega arith) (omega arith) short

  end-Carries :
      (iface : Netif)
      → src < 2 ^ 32
      → dst < 2 ^ 32
      → not_for_us ifs iface dst ≡ false
      → (ipv4_output ifs id packet src dst ipproto_udp ≡ (
        (id + 1) % 2 ^ 16,
        transmit ifs dst (on_the_wire raw id payload src dst src_port dst_port),
      ))
        × (ipv4_input ifs iface (on_the_wire raw id payload src dst src_port dst_port)
            ≡ to_udp iface (at_the_end raw id payload src dst src_port dst_port))
        × Carries (at_the_end raw id payload src dst src_port dst_port) payload src_port dst_port
  unfolding packet
  end-Carries iface s d ours =
      let far =
        output-input ifs iface packet id src dst ipproto_udp packet-IsValid (omega arith)
          (omega arith) s d (omega arith) ours in
      let c = packet-Carries in
      (
        far.0,
        far.1 ∙ (unfold dispatch in refl),
        record {
          size = far.3 ∙ c.size;
          inside = omega arith;
          content =
              ap₂ (λ s n. window (on_the_wire raw id payload src dst src_port dst_port).bytes s n)
                far.2 far.3
              ∙ far.4
              ∙ c.content
              ∙ ap (λ n. udp_header src_port dst_port n ++ payload) (sym far.3);
        },
      )

-- The sender's socket, its interface and where it sends.
pub record Sends (ifs : Interfaces) (s : Udp) (sender : Pcb) (out : Netif) (n src dst dst_port : ℕ)
    : Type 0 where
  pub bound : sender.bound ≡ true
  pub listed : block sender.id s.list ≡ some sender
  pub routed : route ifs dst ≡ some out
  pub fits : n + 28 ≤ out.mtu
  pub named : (dst ≢ 0) × (dst_port ≢ 0)
  pub source : (if sender.local_ip == 0 then out.addr else sender.local_ip) ≡ src

-- What becomes of the datagram.
pub record Delivered (ifs : Interfaces) (iface : Netif) (s u : Udp) (sender pcb : Pcb)
    (raw payload : List ℕ) (id src dst dst_port : ℕ) : Type 0 where
  pub wire : Netbuf
  pub arrived : Netbuf
  pub queued : Netbuf
  pub sending :
      udp_sendto ifs s id sender payload dst dst_port (some raw)
      ≡ (sent (length payload) (transmit ifs dst wire), s, (id + 1) % 2 ^ 16)
  pub arrival : ipv4_input ifs iface wire ≡ to_udp iface arrived
  pub enqueued :
      udp_input u arrived
      ≡ (record u { list = update pcb.id (enqueue queued) u.list }, pcb.wait_recv)
  pub content : window queued.bytes queued.start queued.len ≡ payload
  pub from : (queued.src_ip ≡ src) × (queued.src_port ≡ sender.local_port)

sendto_lem :
    (ifs : Interfaces) (out : Netif) (s : Udp) (sender : Pcb) (raw payload : List ℕ)
    (id src dst dst_port : ℕ) (packet : Netbuf)
    → Sends ifs s sender out (length payload) src dst dst_port
    → length payload ≤ 1472
    → with_datagram (fresh raw) payload sender.local_port dst_port ≡ some packet
    → udp_sendto ifs s id sender payload dst dst_port (some raw) ≡ (
      sent (length payload) (ipv4_output ifs id packet src dst ipproto_udp).1,
      s,
      (ipv4_output ifs id packet src dst ipproto_udp).0,
    )
unfolding udp_sendto
sendto_lem ifs out s sender raw payload id src dst dst_port packet how short made =
    let memory : alloc default_size (some raw) ≡ some (fresh raw) = unfold alloc in refl in
    ground (arith, memory, made, how.bound, how.listed, how.routed, how.fits, how.named, how.source)

-- A payload of at most 1472 bytes that a bound socket sends is handed to the route in one packet,
-- and where that packet arrives at an interface that takes its destination, the socket that takes it
-- and has fewer than 32 packets queued gets exactly the payload, with the sender's address and port,
-- at the end of its queue, and its reader is unblocked. It is assumed that memory is given, and that
-- the packet fits the interface.
pub sendto-input :
    (ifs : Interfaces) (iface out : Netif) (s u : Udp) (sender pcb : Pcb) (raw payload : List ℕ)
    (id src dst dst_port : ℕ)
    → Sends ifs s sender out (length payload) src dst dst_port
    → length raw ≡ default_size
    → length payload ≤ 1472
    → sender.local_port < 2 ^ 16
    → dst_port < 2 ^ 16
    → src < 2 ^ 32
    → dst < 2 ^ 32
    → not_for_us ifs iface dst ≡ false
    → find_udp_pcb u.list dst dst_port src sender.local_port ≡ some pcb
    → pcb.recv_count < 32
    → Delivered ifs iface s u sender pcb raw payload id src dst dst_port
unfolding packet
sendto-input ifs iface out s u sender pcb raw payload id src dst dst_port how memory short sp dp sm
      dm ours found room =
    let far =
      end-Carries ifs raw payload id src dst sender.local_port dst_port memory short sp dp iface sm
        dm ours in
    let q : Netbuf = at_the_end raw id payload src dst sender.local_port dst_port in
    let d = Carries-datagram q payload sender.local_port dst_port far.2 short sp dp in
    record {
      wire = on_the_wire raw id payload src dst sender.local_port dst_port;
      arrived = q;
      queued = datagram q;
      sending =
          sendto_lem ifs out s sender raw payload id src dst dst_port
            (packet_of (fresh raw) payload sender.local_port dst_port) how short
            (with_datagram_lem (fresh raw) payload sender.local_port dst_port
              (fresh-IsValid raw memory) refl (omega arith) (omega arith) short)
          ∙ ap (λ (r : ℕ × Sent). (sent (length payload) r.1, s, r.0)) far.0;
      arrival = far.1;
      enqueued =
          input-Carries u pcb q payload sender.local_port dst_port far.2 short sp dp found room;
      content =
          ap (λ (b : Netbuf). window b.bytes b.start b.len) d
          ∙ Carries-payload q payload sender.local_port dst_port far.2;
      from = (ap (λ (b : Netbuf). b.src_ip) d, ap (λ (b : Netbuf). b.src_port) d);
    }
