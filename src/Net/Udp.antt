-- ===== src/Net/Udp.antt =====
-- src/kernel/net/udp.cpp and src/include/kernel/net/udp.hpp: the control blocks, their ports and their
-- queues of received packets. `id` stands for the pointer to a control block, and a thread is its
-- number. Ports and addresses are kept as they lie in memory. What is done under
-- the lock is one step: a pass of a receiver ends where it sleeps, and udp_connect and udp_sendto take the
-- lock first to bind. An error -n is the number n.
pub mod Ports
pub mod Queues
pub mod Valid
pub mod Binding
pub mod Steps
pub mod Transfer
pub mod Delivery
pub mod Receive
mod Tests
use rucux.Base.{
  ℕ, zero, suc, ◌+◌, ◌-◌, ◌*◌, ◌/◌, ◌%◌, ◌^◌, min, Bool, true, false, ◌&&◌, ◌||◌, not, Option, none,
  some, List, [], ◌∷◌, ◌++◌, length, ltb, leb, ◌==◌, if◌then◌else◌,
}
use rucux.Net.Checksum.{checksum_pseudo, htons}
use rucux.Net.Netbuf.{Netbuf, alloc, default_size, push, pull, put, set_len}
use rucux.Net.Netbuf.Window.{window, store}
use rucux.Net.Netif.{Netif, Interfaces}
use rucux.Net.Ipv4.{byte_at, be16_at, ipv4_header_len, ipproto_udp, route, ipv4_output, Sent}

abbrev pub udp_header_len : ℕ
udp_header_len = 8

-- The receive queue is its list of packets, first in front.
pub record Pcb : Type 0 where
  pub id : ℕ
  pub local_ip : ℕ
  pub local_port : ℕ
  pub remote_ip : ℕ
  pub remote_port : ℕ
  pub bound : Bool
  pub connected : Bool
  pub recv : List Netbuf
  pub recv_count : ℕ
  pub wait_recv : Option ℕ

-- g_udp_list and g_udp_ephemeral
pub record Udp : Type 0 where
  pub list : List Pcb
  pub ephemeral : ℕ

unfoldable pub udp_init : Udp → Udp
udp_init u = record u { list = [] }

-- p->field = value for the block `id`.
unfoldable pub update : ℕ → (Pcb → Pcb) → List Pcb → List Pcb
update id f [] = []
update id f (p ∷ ps) = (if p.id == id then f p else p) ∷ update id f ps

unfoldable pub block : ℕ → List Pcb → Option Pcb
block id [] = none
block id (p ∷ ps) = if p.id == id then some p else block id ps

unfoldable pub takes : Pcb → ℕ → ℕ → ℕ → ℕ → Bool
takes p addr port remote remote_port =
    p.bound
    && p.local_port == port
    && (p.local_ip == 0 || p.local_ip == addr)
    && (not p.connected || p.remote_ip == remote && p.remote_port == remote_port)

unfoldable pub find_udp_pcb : List Pcb → ℕ → ℕ → ℕ → ℕ → Option Pcb
find_udp_pcb [] addr port remote remote_port = none
find_udp_pcb (p ∷ ps) addr port remote remote_port =
    if takes p addr port remote remote_port
    then some p
    else find_udp_pcb ps addr port remote remote_port

-- A 16-bit field as it lies in memory.
abbrev pub le16_at : Netbuf → ℕ → ℕ
le16_at b i = byte_at b i + byte_at b (i + 1) * 2 ^ 8

-- The packets that udp_input frees before it looks for a control block.
unfoldable pub is_bad : Netbuf → Bool
is_bad b =
    let size = be16_at b 4 in
    ltb b.len udp_header_len
    || ltb size udp_header_len
    || ltb b.len size
    || not (le16_at b 6 == 0)
      && not (checksum_pseudo b.src_ip b.dst_ip ipproto_udp (window b.bytes b.start size) == 0)

-- The buffer that is enqueued: cut to the length in the header, its ports noted, the header stripped.
unfoldable pub datagram : Netbuf → Netbuf
datagram b =
    let trimmed = (set_len b (be16_at b 4)).1 in
    (pull (record trimmed { src_port = le16_at b 0; dst_port = le16_at b 2 }) udp_header_len).1

unfoldable pub enqueue : Netbuf → Pcb → Pcb
enqueue b p = record p { recv = p.recv ++ b ∷ []; recv_count = p.recv_count + 1; wait_recv = none }

-- The state and the receiver that is unblocked.
unfoldable pub udp_input : Udp → Netbuf → Udp × Option ℕ
udp_input u b =
    if is_bad b
    then (u, none)
    else elim (find_udp_pcb u.list b.dst_ip (le16_at b 2) b.src_ip (le16_at b 0)) [
      | none ↦ (u, none)
      | some p ↦
          if leb 32 p.recv_count
          then (u, none)
          else (record u { list = update p.id (enqueue (datagram b)) u.list }, p.wait_recv)
    ]

-- `id` is the block that the allocator gives, if it gives one.
unfoldable pub udp_new : Udp → Option ℕ → Udp
udp_new u none = u
udp_new u (some id) = record u {
  list =
      record {
        id = id;
        local_ip = 0;
        local_port = 0;
        remote_ip = 0;
        remote_port = 0;
        bound = false;
        connected = false;
        recv = [];
        recv_count = 0;
        wait_recv = none;
      }
      ∷ u.list;
}

unfoldable pub remove : ℕ → List Pcb → List Pcb
remove id [] = []
remove id (p ∷ ps) = if p.id == id then ps else p ∷ remove id ps

unfoldable pub udp_free : Udp → ℕ → Udp
udp_free u id = record u { list = remove id u.list }

-- A bound block that a port at an address would clash with.
abbrev pub clashes : Pcb → ℕ → ℕ → Bool
clashes p addr port =
    p.bound && p.local_port == port && (addr == 0 || p.local_ip == 0 || addr == p.local_ip)

unfoldable pub port_used : List Pcb → ℕ → ℕ → ℕ → Bool
port_used [] id addr port = false
port_used (p ∷ ps) id addr port =
    not (p.id == id) && clashes p addr port || port_used ps id addr port

abbrev pub first_ephemeral : ℕ
first_ephemeral = 49152

-- ++g_udp_ephemeral of 16 bits, which starts again at its first value.
unfoldable pub next_ephemeral : ℕ → ℕ
next_ephemeral e =
    if ltb ((e + 1) % 2 ^ 16) first_ephemeral then first_ephemeral else (e + 1) % 2 ^ 16

-- The port found, 0 if there is none, and the next ephemeral port.
unfoldable pub ephemeral_loop : ℕ → List Pcb → ℕ → ℕ → ℕ → ℕ × ℕ
ephemeral_loop zero ps id addr e = (0, e)
ephemeral_loop (suc n) ps id addr e =
    let rest = ephemeral_loop n ps id addr (next_ephemeral e) in
    if port_used ps id addr (htons e) then rest else (htons e, next_ephemeral e)

abbrev pub bind_to : ℕ → ℕ → Pcb → Pcb
bind_to addr port p = record p { local_ip = addr; local_port = port; bound = true }

-- The port asked for, or an ephemeral one, and the next ephemeral port.
unfoldable pub choose_port : Udp → ℕ → ℕ → ℕ → ℕ × ℕ
choose_port u id addr wanted =
    if wanted == 0 then ephemeral_loop 16384 u.list id addr u.ephemeral else (wanted, u.ephemeral)

-- 0, or the error, for a block of the list.
unfoldable pub udp_bind : Udp → Pcb → ℕ → ℕ → ℕ × Udp
udp_bind u pcb addr wanted =
    let (port, e) = choose_port u pcb.id addr wanted in
    if pcb.bound
    then (22, u)
    else if port == 0 || port_used u.list pcb.id addr port
    then (98, record u { ephemeral = e })
    else (0, record { list = update pcb.id (bind_to addr port) u.list; ephemeral = e })

abbrev pub bind_first : Udp → Pcb → ℕ × Udp
bind_first u pcb = if pcb.bound then (0, u) else udp_bind u pcb pcb.local_ip 0

-- udp_connect up to its own lock: an error, or 0 to go on.
unfoldable pub connect_begin : Udp → Pcb → ℕ → ℕ → ℕ × Udp
unfolding udp_bind
connect_begin u pcb addr port = if addr == 0 || port == 0 then (22, u) else bind_first u pcb

abbrev pub connect_to : ℕ → ℕ → Pcb → Pcb
connect_to addr port p = record p { remote_ip = addr; remote_port = port; connected = true }

-- The part under its lock.
unfoldable pub connect_end : Udp → Pcb → ℕ → ℕ → Udp
connect_end u pcb addr port = record u { list = update pcb.id (connect_to addr port) u.list }

-- The header that udp_sendto writes; the checksum is optional.
abbrev pub udp_header : ℕ → ℕ → ℕ → List ℕ
udp_header src_port dst_port size =
    src_port % 2 ^ 8
    ∷ src_port / 2 ^ 8 % 2 ^ 8
    ∷ dst_port % 2 ^ 8
    ∷ dst_port / 2 ^ 8 % 2 ^ 8
    ∷ size / 2 ^ 8 % 2 ^ 8
    ∷ size % 2 ^ 8
    ∷ 0
    ∷ 0
    ∷ []

-- The buffer with the payload and the header; `none` where put or push gives a null pointer.
unfoldable pub with_datagram : Netbuf → List ℕ → ℕ → ℕ → Option Netbuf
with_datagram b payload src_port dst_port =
    let (at, full) = put b (length payload) in
    elim at [
      | none ↦ none
      | some offset ↦
          let (front, framed) =
            push (record full { bytes = store full.bytes offset payload }) udp_header_len in
          elim front [
            | none ↦ none
            | some start ↦ some (record framed {
              bytes =
                  store framed.bytes start
                    (udp_header src_port dst_port ((udp_header_len + length payload) % 2 ^ 16));
            })
          ]
    ]

-- An error, a null pointer that is written through, or the length sent with what IPv4 made of it.
pub data Sending : Type 0 where
  failed : ℕ → Sending
  fault : Sending
  sent : ℕ → Sent → Sending

-- `raw` is the memory that netbuf::alloc gets, and `ip_id` is g_ip_id.
unfoldable pub udp_sendto :
    Interfaces → Udp → ℕ → Pcb → List ℕ → ℕ → ℕ → Option (List ℕ) → Sending × Udp × ℕ
unfolding udp_bind
udp_sendto ifs u ip_id pcb payload dst_ip dst_port raw =
    if dst_ip == 0 || dst_port == 0 then (failed 89, u, ip_id) else elim (route ifs dst_ip) [
      | none ↦ (failed 101, u, ip_id)
      | some iface ↦
          let len = length payload in
          let (result, u') = bind_first u pcb in
          let port : ℕ = elim (block pcb.id u'.list) [ none ↦ 0 | some p ↦ p.local_port ] in
          let src = if pcb.local_ip == 0 then iface.addr else pcb.local_ip in
          if ltb 1472 len || ltb iface.mtu (len + udp_header_len + ipv4_header_len)
          then (failed 90, u, ip_id)
          else if not (result == 0)
          then (failed result, u', ip_id)
          else elim (alloc default_size raw) [
            | none ↦ (failed 12, u', ip_id)
            | some b ↦ elim (with_datagram b payload port dst_port) [
              | none ↦ (fault, u', ip_id)
              | some packet ↦
                  let (ip_id', how) = ipv4_output ifs ip_id packet src dst_ip ipproto_udp in
                  (sent len how, u', ip_id')
            ]
          ]
    ]

-- The payload, as much of it as is asked for, with its source; an error; or asleep.
pub data Receiving : Type 0 where
  received : List ℕ → ℕ → ℕ → Receiving
  refused : ℕ → Receiving
  sleeps : Receiving

abbrev pub not_waiting : ℕ → Pcb → Pcb
not_waiting t p = elim p.wait_recv [
  | none ↦ p
  | some w ↦ if w == t then record p { wait_recv = none } else p
]

-- What a pass does after its first look at the signals; a fatal one may come before the wait begins.
unfoldable pub recv_or_sleep : ℕ → Bool → Pcb → ℕ → Receiving × Pcb
recv_or_sleep current late p len = elim p.recv [
  | b ∷ rest ↦ (
    received (window b.bytes b.start (min len b.len)) b.src_ip b.src_port,
    record p { recv = rest; recv_count = p.recv_count - 1 },
  )
  | [] ↦ elim p.wait_recv [
    | some _ ↦ (refused 16, p)
    | none ↦ if late then (refused 4, p) else (sleeps, record p { wait_recv = some current })
  ]
]

-- One pass of udp_recvfrom by a thread that has a fatal signal pending or not, at first and when the
-- wait is to begin; the block afterwards.
unfoldable pub recv_pass : ℕ → Bool → Bool → Pcb → ℕ → Receiving × Pcb
recv_pass current fatal late p len =
    if fatal
    then (refused 4, not_waiting current p)
    else recv_or_sleep current late (not_waiting current p) len

-- The operations on a block get what the block holds, and change it where it stands in the list.
unfoldable pub udp_recvfrom : Udp → ℕ → Bool → Bool → Pcb → ℕ → Receiving × Udp
unfolding recv_pass
udp_recvfrom u current fatal late pcb len = (
  (recv_pass current fatal late pcb len).0,
  record u { list = update pcb.id (λ p. (recv_pass current fatal late p len).1) u.list },
)

-- POLLIN; POLLOUT always holds.
unfoldable pub udp_poll_in : Pcb → Bool
udp_poll_in p = elim p.recv [ [] ↦ false | _ ∷ _ ↦ true ]
