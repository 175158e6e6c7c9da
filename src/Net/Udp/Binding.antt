-- ===== src/Net/Udp/Binding.antt =====
-- The control blocks under udp_bind, udp_connect and udp_sendto of src/kernel/net/udp.cpp.
use rucux.Base.{
  ℕ, zero, suc, ◌+◌, ◌^◌, ◌≤◌, ◌<◌, ◌≡◌, inl, inr, refl, sym, subst, false, ◌||◌, not, List, arith,
  ◌==◌, Bool-cases, Option, none, some, Option-cases, length, ltb,
}
use rucux.Net.Udp.{
  Pcb, Udp, update, port_used, first_ephemeral, next_ephemeral, ephemeral_loop, bind_to,
  choose_port, bind_first, udp_bind, connect_begin, connect_end, connect_to, udp_sendto,
  with_datagram, block, udp_header_len,
}
use rucux.Net.Netbuf.{alloc, default_size}
use rucux.Net.Netif.{Interfaces}
use rucux.Net.Ipv4.{route, ipv4_header_len}
use rucux.Net.Udp.Receive.{Counted}
use rucux.Net.Udp.Queues.{update-All, update-Distinct, bound-Unshared}
use rucux.Net.Udp.Valid.{IsValid, update-IsValid, Counted-keep}

loop_range :
    (n : ℕ) (ps : List Pcb) (id addr e : ℕ)
    → first_ephemeral ≤ e
    → e < 2 ^ 16
    → (first_ephemeral ≤ (ephemeral_loop n ps id addr e).1)
      × ((ephemeral_loop n ps id addr e).1 < 2 ^ 16)
unfolding ephemeral_loop next_ephemeral
loop_range zero ps id addr e low high = (low, high)
loop_range (suc n) ps id addr e low high =
    ground (arith, loop_range n ps id addr (next_ephemeral e))

choose_range :
    (u : Udp) (id addr wanted : ℕ)
    → IsValid u
    → (first_ephemeral ≤ (choose_port u id addr wanted).1)
      × ((choose_port u id addr wanted).1 < 2 ^ 16)
unfolding choose_port
choose_range u id addr wanted v =
    ground (arith, v.range, loop_range 16384 u.list id addr u.ephemeral)

bound-IsValid :
    (u : Udp) (p : Pcb) (addr port e : ℕ)
    → (first_ephemeral ≤ e) × (e < 2 ^ 16)
    → port_used u.list p.id addr port ≡ false
    → IsValid u
    → IsValid (record { list = update p.id (bind_to addr port) u.list; ephemeral = e })
bound-IsValid u p addr port e range free v = record {
  distinct = update-Distinct p.id (bind_to addr port) (λ q. refl) u.list v.distinct;
  unshared = bound-Unshared u.list p.id addr port v.distinct v.unshared free;
  counted =
      update-All p.id (bind_to addr port) Counted u.list
        (Counted-keep (bind_to addr port) p.id (λ q c. c) u.list v.counted) v.counted;
  range = range;
}

pub bind-IsValid :
    (u : Udp) (p : Pcb) (addr wanted : ℕ) → IsValid u → IsValid (udp_bind u p addr wanted).1
unfolding udp_bind
bind-IsValid u p addr wanted v =
    let port : ℕ = (choose_port u p.id addr wanted).0 in
    let e : ℕ = (choose_port u p.id addr wanted).1 in
    let range = choose_range u p.id addr wanted v in
    elim (Bool-cases p.bound) [
      | inl bound ↦ rw bound v
      | inr unbound ↦ elim (Bool-cases (port == 0 || port_used u.list p.id addr port)) [
        | inl taken ↦
            rw (unbound, taken)
              (record {
                distinct = v.distinct;
                unshared = v.unshared;
                counted = v.counted;
                range = range;
              })
        | inr open_port ↦
            rw (unbound, open_port) (bound-IsValid u p addr port e range (ground arith) v)
      ]
    ]

bind_first-IsValid : (u : Udp) (p : Pcb) → IsValid u → IsValid (bind_first u p).1
bind_first-IsValid u p v = elim (Bool-cases p.bound) [
  | inl bound ↦ rw bound v
  | inr unbound ↦
      (let result : bind_first u p ≡ udp_bind u p p.local_ip 0 = ground arith in
        subst (λ (r : ℕ × Udp). IsValid r.1) (sym result) (bind-IsValid u p p.local_ip 0 v))
]

pub connect_begin-IsValid :
    (u : Udp) (p : Pcb) (addr port : ℕ) → IsValid u → IsValid (connect_begin u p addr port).1
unfolding connect_begin
connect_begin-IsValid u p addr port v = elim (Bool-cases (addr == 0 || port == 0)) [
  | inl bad ↦ rw bad v
  | inr good ↦ rw good (bind_first-IsValid u p v)
]

pub connect_end-IsValid :
    (u : Udp) (p : Pcb) (addr port : ℕ) → IsValid u → IsValid (connect_end u p addr port)
unfolding connect_end
connect_end-IsValid u p addr port v =
    update-IsValid u p.id (connect_to addr port) (λ q. refl) (λ q r. (refl, refl))
      (Counted-keep (connect_to addr port) p.id (λ q c. c) u.list v.counted) v

-- Sending leaves the control blocks as they are, or binds the block first.
pub sendto-IsValid :
    (ifs : Interfaces) (u : Udp) (ip_id : ℕ) (p : Pcb) (payload : List ℕ) (dst_ip dst_port : ℕ)
    (raw : Option (List ℕ))
    → IsValid u
    → IsValid (udp_sendto ifs u ip_id p payload dst_ip dst_port raw).1
unfolding udp_sendto
sendto-IsValid ifs u ip_id p payload dst_ip dst_port raw v =
    let first : ℕ × Udp = bind_first u p in
    let w : IsValid first.1 = bind_first-IsValid u p v in
    elim (Bool-cases (dst_ip == 0 || dst_port == 0)) [
      | inl bad ↦ rw bad v
      | inr named ↦ elim (Option-cases (route ifs dst_ip)) [
        | inl e ↦ rw (named, e) v
        | inr (iface, e) ↦
            elim (Bool-cases (
              ltb 1472 (length payload)
              || ltb iface.mtu (length payload + udp_header_len + ipv4_header_len))) [
                | inl long ↦ rw (named, e, long) v
                | inr short ↦ elim (Bool-cases (not (first.0 == 0))) [
                  | inl failed ↦ rw (named, e, short, failed) w
                  | inr bound ↦ elim (Option-cases (alloc default_size raw)) [
                    | inl f ↦ rw (named, e, short, bound, f) w
                    | inr (b, f) ↦
                        let port : ℕ = elim (block p.id first.1.list) [
                          | none ↦ 0
                          | some q ↦ q.local_port
                        ] in
                        elim (Option-cases (with_datagram b payload port dst_port)) [
                          | inl g ↦ rw (named, e, short, bound, f, g) w
                          | inr (packet, g) ↦ rw (named, e, short, bound, f, g) w
                        ]
                  ]
                ]
              ]
      ]
    ]
