-- ===== src/Net/Udp/Steps.antt =====
-- The operations of src/kernel/net/udp.cpp in any order.
use rucux.Base.{
  ℕ, ◌+◌, ◌≤◌, ◌<◌, ◌≡◌, ◌≢◌, inl, inr, refl, sym, subst, Bool, false, List, [], ◌∷◌, ◌++◌, arith,
  Bool-cases, leb, All, Option, none, some, Option-cases, length, length-append,
}
use rucux.Net.Udp.{
  Pcb, Udp, udp_bind, connect_begin, connect_end, udp_sendto, udp_new, udp_free, udp_input, is_bad,
  datagram, udp_recvfrom, recv_pass, find_udp_pcb, enqueue, le16_at,
}
use rucux.Net.Netbuf.{Netbuf}
use rucux.Net.Netif.{Interfaces}
use rucux.Net.Udp.Receive.{Counted, Received, recv_pass-Received}
use rucux.Net.Udp.Queues.{find-All, found_only, remove-All, remove-Distinct, remove-Unshared}
use rucux.Net.Udp.Valid.{IsValid, update-IsValid, Counted-keep}
use rucux.Net.Udp.Binding.{bind-IsValid, connect_begin-IsValid, connect_end-IsValid, sendto-IsValid}

pub data Op : Type 0 where
  creates : Option ℕ → Op
  frees : ℕ → Op
  binds : Pcb → ℕ → ℕ → Op
  begins_connect : Pcb → ℕ → ℕ → Op
  ends_connect : Pcb → ℕ → ℕ → Op
  sends : Interfaces → ℕ → Pcb → List ℕ → ℕ → ℕ → Option (List ℕ) → Op
  arrives : Netbuf → Op
  receives : ℕ → Bool → Bool → Pcb → ℕ → Op

unfoldable pub step : Udp → Op → Udp
step u (creates id) = udp_new u id
step u (frees id) = udp_free u id
step u (binds p addr port) = (udp_bind u p addr port).1
step u (begins_connect p addr port) = (connect_begin u p addr port).1
step u (ends_connect p addr port) = connect_end u p addr port
step u (sends ifs ip_id p payload dst_ip dst_port raw) =
    (udp_sendto ifs u ip_id p payload dst_ip dst_port raw).1
step u (arrives b) = (udp_input u b).0
step u (receives current fatal late p len) = (udp_recvfrom u current fatal late p len).1

-- The allocator gives no block that is in use.
unfoldable pub Allowed : Udp → Op → Type 0
Allowed u (creates (some id)) = All (λ q. q.id ≢ id) u.list
Allowed u (creates none) = Unit
Allowed u (frees id) = Unit
Allowed u (binds p addr port) = Unit
Allowed u (begins_connect p addr port) = Unit
Allowed u (ends_connect p addr port) = Unit
Allowed u (sends ifs ip_id p payload dst_ip dst_port raw) = Unit
Allowed u (arrives b) = Unit
Allowed u (receives current fatal late p len) = Unit

every {κ} : (P : Pcb → Type κ) (h : (p : Pcb) → P p) (ps : List Pcb) → All P ps
every P h [] = tt
every P h (p ∷ ps) = (h p, every P h ps)

new-IsValid :
    (u : Udp) (id : Option ℕ) → IsValid u → Allowed u (creates id) → IsValid (udp_new u id)
unfolding udp_new Allowed
new-IsValid u none v fresh = v
new-IsValid u (some id) v fresh = record {
  distinct = (fresh, v.distinct);
  unshared = (every (λ q. false ≡ false) (λ q. refl) u.list, v.unshared);
  counted = ((refl, omega arith), v.counted);
  range = v.range;
}

free-IsValid : (u : Udp) (id : ℕ) → IsValid u → IsValid (udp_free u id)
unfolding udp_free
free-IsValid u id v = record {
  distinct = remove-Distinct u.list id v.distinct;
  unshared = remove-Unshared u.list id v.unshared;
  counted = remove-All Counted u.list id v.counted;
  range = v.range;
}

enqueued-Counted :
    (b : Netbuf) (p : Pcb)
    → Counted p
    → p.recv_count < 32
    → (ps : List Pcb) → All (λ q. q.id ≡ p.id → q ≡ p) ps
    → All (λ q. q.id ≡ p.id → Counted (enqueue b q)) ps
unfolding enqueue
enqueued-Counted b p c room [] h = tt
enqueued-Counted b p c room (q ∷ ps) (h, hs) = (
  λ e.
      subst (λ (x : Pcb). (x.recv_count + 1 ≡ length (x.recv ++ b ∷ [])) × (x.recv_count + 1 ≤ 32))
        (sym (h e)) (omega (arith, c.0, length-append p.recv (b ∷ [])), omega arith),
  enqueued-Counted b p c room ps hs,
)

input-IsValid : (u : Udp) (b : Netbuf) → IsValid u → IsValid (udp_input u b).0
unfolding udp_input
input-IsValid u b v =
    let found : Option Pcb = find_udp_pcb u.list b.dst_ip (le16_at b 2) b.src_ip (le16_at b 0) in
    elim (Bool-cases (is_bad b)) [
      | inl bad ↦ rw bad v
      | inr good ↦ elim (Option-cases found) [
        | inl e ↦ rw (good, e) v
        | inr (p, e) ↦ elim (Bool-cases (leb 32 p.recv_count)) [
          | inl full ↦ rw (good, e, full) v
          | inr room ↦
              rw (good, e, room)
                (update-IsValid u p.id (enqueue (datagram b)) (unfold enqueue in λ q. refl)
                  (unfold enqueue in λ q r. (refl, refl))
                  (enqueued-Counted (datagram b) p
                    (find-All Counted u.list p b.dst_ip (le16_at b 2) b.src_ip (le16_at b 0) e
                      v.counted)
                    (ground arith) u.list
                    (found_only u.list p b.dst_ip (le16_at b 2) b.src_ip (le16_at b 0) v.distinct
                      e))
                  v)
        ]
      ]
    ]

recv-IsValid :
    (u : Udp) (current : ℕ) (fatal late : Bool) (p : Pcb) (len : ℕ)
    → IsValid u
    → IsValid (udp_recvfrom u current fatal late p len).1
unfolding udp_recvfrom
recv-IsValid u current fatal late p len v =
    let f : Pcb → Pcb = λ q. (recv_pass current fatal late q len).1 in
    let r : (q : Pcb) → Received q (f q) = λ q. recv_pass-Received current fatal late q len in
    update-IsValid u p.id f (λ q. (r q).same_id) (λ q x. ground (arith, (r q).same_port))
      (Counted-keep f p.id (λ q c. (r q).counted c) u.list v.counted) v

-- Every UDP operation on control blocks (creating, freeing, binding, both parts of connecting, sending,
-- the arrival of a packet and a pass of receiving) keeps them in order: none stands twice in the list,
-- no two bound blocks share a port at an address that both take, every receive queue is as long as
-- its count and holds 32 packets at most, and the next ephemeral port is one. A new block is assumed
-- to be none of the list.
pub udp_step-IsValid : (u : Udp) (o : Op) → IsValid u → Allowed u o → IsValid (step u o)
unfolding step
udp_step-IsValid u (creates id) v h = new-IsValid u id v h
udp_step-IsValid u (frees id) v h = free-IsValid u id v
udp_step-IsValid u (binds p addr port) v h = bind-IsValid u p addr port v
udp_step-IsValid u (begins_connect p addr port) v h = connect_begin-IsValid u p addr port v
udp_step-IsValid u (ends_connect p addr port) v h = connect_end-IsValid u p addr port v
udp_step-IsValid u (sends ifs ip_id p payload dst_ip dst_port raw) v h =
    sendto-IsValid ifs u ip_id p payload dst_ip dst_port raw v
udp_step-IsValid u (arrives b) v h = input-IsValid u b v
udp_step-IsValid u (receives current fatal late p len) v h =
    recv-IsValid u current fatal late p len v
