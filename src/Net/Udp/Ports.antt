-- ===== src/Net/Udp/Ports.antt =====
-- The local ports of the control blocks of src/kernel/net/udp.cpp.
use rucux.Base.{
  ℕ, zero, suc, ◌+◌, ◌-◌, ◌%◌, ◌^◌, ◌≤◌, ◌<◌, ◌≡◌, ◌≢◌, ◌⊎◌, inl, inr, refl, sym, subst, ap, ◌∙◌,
  Bool, true, false, ◌&&◌, List, [], ◌∷◌, arith, ◌==◌, Bool-cases, All,
}
use rucux.Net.Checksum.{htons}
use rucux.Net.Udp.{
  Pcb, Udp, update, clashes, port_used, first_ephemeral, next_ephemeral, ephemeral_loop, bind_to,
  choose_port, udp_bind,
}

-- No two of the blocks are the same.
abbrev pub Distinct : List Pcb → Type 0
Distinct [] = Unit
Distinct (p ∷ ps) = All (λ q. q.id ≢ p.id) ps × Distinct ps

abbrev pub collide : Pcb → Pcb → Bool
collide p q = p.bound && clashes q p.local_ip p.local_port

-- No two bound blocks share a port at an address that both take.
abbrev pub Unshared : List Pcb → Type 0
Unshared [] = Unit
Unshared (p ∷ ps) = All (λ q. collide p q ≡ false) ps × Unshared ps

-- The ports that the loop tries, from `e` on.
abbrev pub nth_ephemeral : ℕ → ℕ → ℕ
nth_ephemeral e i = first_ephemeral + (e - first_ephemeral + i) % 16384

next_nth :
    (e i : ℕ)
    → first_ephemeral ≤ e
    → e < 2 ^ 16
    → nth_ephemeral (next_ephemeral e) i ≡ nth_ephemeral e (suc i)
unfolding next_ephemeral
next_nth e i low high = ground arith

next_range :
    (e : ℕ) → e < 2 ^ 16 → (first_ephemeral ≤ next_ephemeral e) × (next_ephemeral e < 2 ^ 16)
unfolding next_ephemeral
next_range e high = ground arith

all_used :
    (n : ℕ) (ps : List Pcb) (id addr e : ℕ)
    → first_ephemeral ≤ e
    → e < 2 ^ 16
    → port_used ps id addr (htons e) ≡ true
    → ((i : ℕ) → i < n → port_used ps id addr (htons (nth_ephemeral (next_ephemeral e) i)) ≡ true)
    → (i : ℕ) → i < suc n
    → port_used ps id addr (htons (nth_ephemeral e i)) ≡ true
all_used n ps id addr e low high used all zero h =
    let first : nth_ephemeral e 0 ≡ e = omega arith in
    subst (λ p. port_used ps id addr (htons p) ≡ true) (sym first) used
all_used n ps id addr e low high used all (suc i) h =
    subst (λ p. port_used ps id addr (htons p) ≡ true) (next_nth e i low high) (all i (omega arith))

-- The loop finds a port that is free, or all those that it tried are used.
ephemeral_loop_lem :
    (n : ℕ) (ps : List Pcb) (id addr e : ℕ)
    → first_ephemeral ≤ e
    → e < 2 ^ 16
    → ((i : ℕ) × ((ephemeral_loop n ps id addr e).0 ≡ htons (nth_ephemeral e i))
        × (port_used ps id addr (htons (nth_ephemeral e i)) ≡ false))
      ⊎ (((ephemeral_loop n ps id addr e).0 ≡ 0)
          × ((i : ℕ) → i < n → port_used ps id addr (htons (nth_ephemeral e i)) ≡ true))
unfolding ephemeral_loop
ephemeral_loop_lem zero ps id addr e low high = inr (refl, λ i h. absurd (omega arith))
ephemeral_loop_lem (suc n) ps id addr e low high =
    let first : nth_ephemeral e 0 ≡ e = omega arith in
    elim (Bool-cases (port_used ps id addr (htons e))) [
      | inl used ↦
          (let range = next_range e high in
            elim (ephemeral_loop_lem n ps id addr (next_ephemeral e) range.0 range.1) [
              | inl (i, found, free) ↦ inl (
                suc i,
                rw used (found ∙ ap (λ p. htons p) (next_nth e i low high)),
                subst (λ p. port_used ps id addr (htons p) ≡ false) (next_nth e i low high) free,
              )
              | inr (failed, all) ↦ inr (rw used failed, all_used n ps id addr e low high used all)
            ])
      | inr free ↦ inl (0, ground arith, ground arith)
    ]

-- A bind to any port: it fails, and then the port `q` is used; or it binds to a free one.
pub data AnyPort (u : Udp) (p : Pcb) (addr q : ℕ) (r : ℕ × Udp) : Type 0 where
  exhausted :
      r.0 ≡ 98
      → r.1.list ≡ u.list
      → port_used u.list p.id addr (htons q) ≡ true
      → AnyPort u p addr q r
  assigned :
      (port : ℕ)
      → first_ephemeral ≤ port
      → port < 2 ^ 16
      → r.0 ≡ 0
      → r.1.list ≡ update p.id (bind_to addr (htons port)) u.list
      → port_used u.list p.id addr (htons port) ≡ false
      → AnyPort u p addr q r

-- A bind of an unbound control block to port 0 gives it an unused ephemeral port, and fails, with
-- error 98, only if every ephemeral port `q` is used: the loop misses none. It is assumed that the
-- next ephemeral port is one.
pub bind_any_lem :
    (u : Udp) (p : Pcb) (addr q : ℕ)
    → p.bound ≡ false
    → first_ephemeral ≤ u.ephemeral
    → u.ephemeral < 2 ^ 16
    → first_ephemeral ≤ q
    → q < 2 ^ 16
    → AnyPort u p addr q (udp_bind u p addr 0)
unfolding udp_bind choose_port
bind_any_lem u p addr q unbound low high above below =
    elim (ephemeral_loop_lem 16384 u.list p.id addr u.ephemeral low high) [
      | inl (i, found, free) ↦
          (let port : ℕ = nth_ephemeral u.ephemeral i in
            let nonzero : htons port ≢ 0 = λ z. omega arith in
            let test : (htons port == 0) ≡ false = ground arith in
            assigned port (omega arith) (omega arith) (rw (unbound, found, test, free) refl)
              (rw (unbound, found, test, free) refl) free)
      | inr (failed, all) ↦
          (let i : ℕ = (q - first_ephemeral + 16384 - (u.ephemeral - first_ephemeral)) % 16384 in
            let hit : nth_ephemeral u.ephemeral i ≡ q = omega arith in
            exhausted (rw (unbound, failed) refl) (rw (unbound, failed) refl)
              (subst (λ x. port_used u.list p.id addr (htons x) ≡ true) hit (all i (omega arith))))
    ]
