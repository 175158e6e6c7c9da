-- ===== src/Net/Udp/Queues.antt =====
-- The list of control blocks of src/kernel/net/udp.cpp under its changes.
use rucux.Base.{
  ℕ, ◌≡◌, ◌≢◌, inl, inr, refl, sym, subst, ◌∙◌, false, List, [], ◌∷◌, arith, ◌==◌, Bool-cases, All,
  some,
}
use rucux.Net.Udp.{Pcb, update, clashes, port_used, bind_to, takes, find_udp_pcb, remove}
use rucux.Net.Udp.Ports.{Distinct, Unshared, collide}

module _ (id : ℕ) (f : Pcb → Pcb) where
  update_absent : (ps : List Pcb) → All (λ q. q.id ≢ id) ps → update id f ps ≡ ps
  unfolding update
  update_absent [] h = refl
  update_absent (p ∷ ps) (apart, h) = ground (arith, update_absent ps h)

  -- A predicate that the change keeps.
  pub update-All {κ} :
      (P : Pcb → Type κ) (ps : List Pcb)
      → All (λ q. q.id ≡ id → P (f q)) ps
      → All P ps
      → All P (update id f ps)
  unfolding update
  update-All P [] h a = tt
  update-All P (p ∷ ps) (h, hs) (a, rest) = elim (Bool-cases (p.id == id)) [
    | inl hit ↦ rw hit (h (ground arith), update-All P ps hs rest)
    | inr miss ↦ rw miss (a, update-All P ps hs rest)
  ]

  kept :
      (keeps : (p : Pcb) → (f p).id ≡ p.id) (n : ℕ) (ps : List Pcb)
      → All (λ q. q.id ≢ n) ps
      → All (λ q. q.id ≡ id → (f q).id ≢ n) ps
  kept keeps n [] h = tt
  kept keeps n (p ∷ ps) (h, hs) = (λ e z. h (sym (keeps p) ∙ z), kept keeps n ps hs)

  others :
      (same : (p q : Pcb) → (collide (f p) q ≡ collide p q) × (collide q (f p) ≡ collide q p))
      (p : Pcb) (ps : List Pcb)
      → All (λ q. collide p q ≡ false) ps
      → All (λ q. q.id ≡ id → collide p (f q) ≡ false) ps
  others same p [] h = tt
  others same p (q ∷ ps) (h, hs) = (λ e. (same q p).1 ∙ h, others same p ps hs)

  also :
      (same : (p q : Pcb) → (collide (f p) q ≡ collide p q) × (collide q (f p) ≡ collide q p))
      (p : Pcb) (ps : List Pcb)
      → All (λ q. collide p q ≡ false) ps
      → All (λ q. collide (f p) q ≡ false) ps
  also same p [] h = tt
  also same p (q ∷ ps) (h, hs) = ((same p q).0 ∙ h, also same p ps hs)

  pub update-Unshared :
      (same : (p q : Pcb) → (collide (f p) q ≡ collide p q) × (collide q (f p) ≡ collide q p))
      (ps : List Pcb)
      → Unshared ps
      → Unshared (update id f ps)
  unfolding update
  update-Unshared same [] u = tt
  update-Unshared same (p ∷ ps) (h, u) =
      let rest : Unshared (update id f ps) = update-Unshared same ps u in
      let apart : All (λ q. collide p q ≡ false) (update id f ps) =
        update-All (λ q. collide p q ≡ false) ps (others same p ps h) h in
      elim (Bool-cases (p.id == id)) [
        | inl hit ↦ rw hit (also same p (update id f ps) apart, rest)
        | inr miss ↦ rw miss (apart, rest)
      ]

  pub update-Distinct :
      (keeps : (p : Pcb) → (f p).id ≡ p.id) (ps : List Pcb)
      → Distinct ps
      → Distinct (update id f ps)
  unfolding update
  update-Distinct keeps [] d = tt
  update-Distinct keeps (p ∷ ps) (h, d) =
      let rest : Distinct (update id f ps) = update-Distinct keeps ps d in
      let apart : All (λ q. q.id ≢ p.id) (update id f ps) =
        update-All (λ q. q.id ≢ p.id) ps (kept keeps p.id ps h) h in
      elim (Bool-cases (p.id == id)) [
        | inl hit ↦ rw (hit, keeps p) (apart, rest)
        | inr miss ↦ rw miss (apart, rest)
      ]

free_all :
    (ps : List Pcb) (id addr port : ℕ)
    → All (λ q. q.id ≢ id) ps
    → port_used ps id addr port ≡ false
    → All (λ q. clashes q addr port ≡ false) ps
unfolding port_used
free_all [] id addr port h e = tt
free_all (p ∷ ps) id addr port (apart, h) e =
    (ground arith, free_all ps id addr port h (ground arith))

against :
    (ps : List Pcb) (p : Pcb) (id addr port : ℕ)
    → clashes p addr port ≡ false
    → All (λ q. q.id ≡ id → collide p (bind_to addr port q) ≡ false) ps
against [] p id addr port free = tt
against (q ∷ ps) p id addr port free = (λ e. ground arith, against ps p id addr port free)

pub bound-Unshared :
    (ps : List Pcb) (id addr port : ℕ)
    → Distinct ps
    → Unshared ps
    → port_used ps id addr port ≡ false
    → Unshared (update id (bind_to addr port) ps)
unfolding update port_used
bound-Unshared [] id addr port d u e = tt
bound-Unshared (p ∷ ps) id addr port (apart, d) (h, u) e =
    let rest : Unshared (update id (bind_to addr port) ps) =
      bound-Unshared ps id addr port d u (ground arith) in
    elim (Bool-cases (p.id == id)) [
      | inl hit ↦
          (let here : p.id ≡ id = ground arith in
            rw hit (
              subst (All (λ q. collide (bind_to addr port p) q ≡ false))
                  (sym (
                    update_absent id (bind_to addr port) ps
                      (subst (λ i. All (λ q. q.id ≢ i) ps) here apart)))
                  (free_all ps id addr port (subst (λ i. All (λ q. q.id ≢ i) ps) here apart)
                    (ground arith)),
              rest,
            ))
      | inr miss ↦
          (let free : clashes p addr port ≡ false = ground arith in
            rw miss (
              update-All id (bind_to addr port) (λ q. collide p q ≡ false) ps
                  (against ps p id addr port free) h,
              rest,
            ))
    ]

pub find-All {κ} :
    (P : Pcb → Type κ) (ps : List Pcb) (p : Pcb) (addr port remote remote_port : ℕ)
    → find_udp_pcb ps addr port remote remote_port ≡ some p
    → All P ps
    → P p
unfolding find_udp_pcb
find-All P [] p addr port remote remote_port e h = absurd (cc)
find-All P (q ∷ ps) p addr port remote remote_port e (h, hs) =
    elim (Bool-cases (takes q addr port remote remote_port)) [
      | inl hit ↦ subst P (ground arith) h
      | inr miss ↦ find-All P ps p addr port remote remote_port (ground arith) hs
    ]

no_other : (ps : List Pcb) (p : Pcb) → All (λ q. q.id ≢ p.id) ps → All (λ q. q.id ≡ p.id → q ≡ p) ps
no_other [] p h = tt
no_other (q ∷ ps) p (h, hs) = (λ z. absurd (h z), no_other ps p hs)

-- Only the block that is found has its number.
pub found_only :
    (ps : List Pcb) (p : Pcb) (addr port remote remote_port : ℕ)
    → Distinct ps
    → find_udp_pcb ps addr port remote remote_port ≡ some p
    → All (λ q. q.id ≡ p.id → q ≡ p) ps
unfolding find_udp_pcb
found_only [] p addr port remote remote_port d e = tt
found_only (q ∷ ps) p addr port remote remote_port (apart, d) e =
    elim (Bool-cases (takes q addr port remote remote_port)) [
      | inl hit ↦
          (let here : q ≡ p = ground arith in
            (λ _. here, no_other ps p (subst (λ (x : Pcb). All (λ q. q.id ≢ x.id) ps) here apart)))
      | inr miss ↦
          (let found : find_udp_pcb ps addr port remote remote_port ≡ some p = ground arith in
            (
              λ z. absurd (
                  find-All (λ x. x.id ≢ q.id) ps p addr port remote remote_port found apart
                    (sym z)),
              found_only ps p addr port remote remote_port d found,
            ))
    ]

pub remove-All {κ} : (P : Pcb → Type κ) (ps : List Pcb) (id : ℕ) → All P ps → All P (remove id ps)
unfolding remove
remove-All P [] id h = tt
remove-All P (p ∷ ps) id (h, hs) = elim (Bool-cases (p.id == id)) [
  | inl hit ↦ rw hit hs
  | inr miss ↦ rw miss (h, remove-All P ps id hs)
]

pub remove-Distinct : (ps : List Pcb) (id : ℕ) → Distinct ps → Distinct (remove id ps)
unfolding remove
remove-Distinct [] id d = tt
remove-Distinct (p ∷ ps) id (h, d) = elim (Bool-cases (p.id == id)) [
  | inl hit ↦ rw hit d
  | inr miss ↦ rw miss (remove-All (λ q. q.id ≢ p.id) ps id h, remove-Distinct ps id d)
]

pub remove-Unshared : (ps : List Pcb) (id : ℕ) → Unshared ps → Unshared (remove id ps)
unfolding remove
remove-Unshared [] id u = tt
remove-Unshared (p ∷ ps) id (h, u) = elim (Bool-cases (p.id == id)) [
  | inl hit ↦ rw hit u
  | inr miss ↦ rw miss (remove-All (λ q. collide p q ≡ false) ps id h, remove-Unshared ps id u)
]
