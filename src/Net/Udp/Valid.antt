-- ===== src/Net/Udp/Valid.antt =====
-- The invariant of the control blocks of src/kernel/net/udp.cpp, and a change of one block.
use rucux.Base.{ℕ, ◌^◌, ◌≤◌, ◌<◌, ◌≡◌, List, [], ◌∷◌, All}
use rucux.Net.Udp.{Pcb, Udp, update, first_ephemeral}
use rucux.Net.Udp.Ports.{Distinct, Unshared, collide}
use rucux.Net.Udp.Receive.{Counted}
use rucux.Net.Udp.Queues.{update-All, update-Distinct, update-Unshared}

pub record IsValid (u : Udp) : Type 0 where
  pub distinct : Distinct u.list
  pub unshared : Unshared u.list
  pub counted : All Counted u.list
  pub range : (first_ephemeral ≤ u.ephemeral) × (u.ephemeral < 2 ^ 16)

-- A change of one block that leaves its number and its port alone and keeps it counted.
pub update-IsValid :
    (u : Udp) (id : ℕ) (f : Pcb → Pcb)
    → ((p : Pcb) → (f p).id ≡ p.id)
    → ((p q : Pcb) → (collide (f p) q ≡ collide p q) × (collide q (f p) ≡ collide q p))
    → All (λ q. q.id ≡ id → Counted (f q)) u.list
    → IsValid u
    → IsValid (record u { list = update id f u.list })
update-IsValid u id f keeps same counts v = record {
  distinct = update-Distinct id f keeps u.list v.distinct;
  unshared = update-Unshared id f same u.list v.unshared;
  counted = update-All id f Counted u.list counts v.counted;
  range = v.range;
}

pub Counted-keep :
    (f : Pcb → Pcb) (id : ℕ)
    → ((p : Pcb) → Counted p → Counted (f p))
    → (ps : List Pcb) → All Counted ps
    → All (λ q. q.id ≡ id → Counted (f q)) ps
Counted-keep f id keeps [] c = tt
Counted-keep f id keeps (p ∷ ps) (c, cs) = (λ _. keeps p c, Counted-keep f id keeps ps cs)
