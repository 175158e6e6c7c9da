-- ===== src/Net/Udp/Receive.antt =====
-- What a pass of udp_recvfrom of src/kernel/net/udp.cpp changes of a control block.
use rucux.Base.{
  ℕ, ◌-◌, ◌≤◌, ◌≡◌, refl, sym, subst, ◌∙◌, Bool, true, false, arith, ◌==◌, Bool-cases, none, some,
  Option-cases, List-cases, length, inl, inr,
}
use rucux.Net.Udp.{Pcb, recv_or_sleep, recv_pass, not_waiting}

-- A receive queue is counted and holds 32 packets at most.
abbrev pub Counted : Pcb → Type 0
Counted p = (p.recv_count ≡ length p.recv) × (p.recv_count ≤ 32)

-- What a receiver changes of a block.
pub record Received (p p' : Pcb) : Type 0 where
  pub same_id : p'.id ≡ p.id
  pub same_port : (p'.bound ≡ p.bound) × (p'.local_ip ≡ p.local_ip) × (p'.local_port ≡ p.local_port)
  pub counted : Counted p → Counted p'

Received-refl : (p : Pcb) → Received p p
Received-refl p = record { same_id = refl; same_port = (refl, refl, refl); counted = λ c. c }

Received-trans : {p q r : Pcb} → Received p q → Received q r → Received p r
Received-trans a b = record {
  same_id = b.same_id ∙ a.same_id;
  same_port =
      (b.same_port.0 ∙ a.same_port.0, b.same_port.1 ∙ a.same_port.1, b.same_port.2 ∙ a.same_port.2);
  counted = λ c. b.counted (a.counted c);
}

not_waiting-Received : (t : ℕ) (p : Pcb) → Received p (not_waiting t p)
not_waiting-Received t p = elim (Option-cases p.wait_recv) [
  | inl e ↦
      (let result : not_waiting t p ≡ p = ground arith in
        subst (Received p) (sym result) (Received-refl p))
  | inr (w, e) ↦ elim (Bool-cases (w == t)) [
    | inl same ↦
        (let result : not_waiting t p ≡ record p { wait_recv = none } = ground arith in
          subst (Received p) (sym result)
            (record { same_id = refl; same_port = (refl, refl, refl); counted = λ c. c }))
    | inr other ↦
        (let result : not_waiting t p ≡ p = ground arith in
          subst (Received p) (sym result) (Received-refl p))
  ]
]

recv_or_sleep-Received :
    (current : ℕ) (late : Bool) (p : Pcb) (len : ℕ)
    → Received p (recv_or_sleep current late p len).1
unfolding recv_or_sleep
recv_or_sleep-Received current late p len = elim (List-cases p.recv) [
  | inr (b, rest, e) ↦
      (let result : (recv_or_sleep current late p len).1
            ≡ record p { recv = rest; recv_count = p.recv_count - 1 } =
          ground arith in
        subst (Received p) (sym result)
          (record { same_id = refl; same_port = (refl, refl, refl); counted = λ c. ground arith }))
  | inl e ↦ elim (Option-cases p.wait_recv) [
    | inr (w, f) ↦
        (let result : (recv_or_sleep current late p len).1 ≡ p = ground arith in
          subst (Received p) (sym result) (Received-refl p))
    | inl f ↦ elim (Bool-cases late) [
      | inl l ↦
          (let result : (recv_or_sleep current late p len).1 ≡ p = ground arith in
            subst (Received p) (sym result) (Received-refl p))
      | inr l ↦
          (let result : (recv_or_sleep current late p len).1
                ≡ record p { wait_recv = some current } =
              ground arith in
            subst (Received p) (sym result)
              (record { same_id = refl; same_port = (refl, refl, refl); counted = λ c. c }))
    ]
  ]
]

pub recv_pass-Received :
    (current : ℕ) (fatal late : Bool) (p : Pcb) (len : ℕ)
    → Received p (recv_pass current fatal late p len).1
unfolding recv_pass
recv_pass-Received current true late p len = not_waiting-Received current p
recv_pass-Received current false late p len =
    Received-trans (not_waiting-Received current p)
      (recv_or_sleep-Received current late (not_waiting current p) len)
