-- ===== src/Ipc/Owned.antt =====
-- Who waits for whom in src/kernel/ipc/ipc.cpp, and what complete does to it.
use rucux.Base.{
  ℕ, ◌+◌, ◌≤◌, ◌<◌, ◌≡◌, ◌⊎◌, inl, inr, refl, ap, subst, Bool, true, false, ◌||◌, none, List, [],
  ◌∷◌, ◌==◌, if◌then◌else◌, length, arith, Bool-cases, Option-cases, ==→eq,
}
use rucux.Ipc.{
  Kind, legacy_send, call, Endpoint, Threads, is, same_kind, without, has, unlink_request, release,
}

abbrev pub count : ℕ → List ℕ → ℕ
count t [] = 0
count t (x ∷ xs) = (if x == t then 1 else 0) + count t xs

-- How often an endpoint refers to a thread that waits for it, in its queue or as its caller.
abbrev pub refs : Endpoint → ℕ → ℕ
refs e t = count t e.send_queue + (if is e.ipc_caller t then 1 else 0)

-- Whether a thread waits for endpoint `p`.
abbrev pub points : Endpoint → ℕ → ℕ
points e p = if is e.ipc_peer p then 1 else 0

abbrev pub is_sending : Kind → Bool
is_sending kind = same_kind kind legacy_send || same_kind kind call

abbrev pub Sending : Endpoint → Type 0
Sending e = (e.ipc_peer ≡ none) ⊎ ((is_sending e.ipc_kind ≡ true) × (e.ipc_result ≡ none))

-- A thread that waits for a peer is in that peer's queue, once, or it is its caller, and in no other;
-- its result is pending. A queue is counted and holds 64 requests at most.
pub record IsValid (s : Threads) : Type 0 where
  pub owned : (p t : ℕ) → refs (s p) t ≡ points (s t) p
  pub counted :
      (p : ℕ) → ((s p).ipc_queue_count ≡ length (s p).send_queue) × ((s p).ipc_queue_count ≤ 64)
  pub sending : (t : ℕ) → Sending (s t)

pub count-has : (t : ℕ) (xs : List ℕ) → has t xs ≡ true → 0 < count t xs
count-has t [] h = absurd (cc)
count-has t (x ∷ xs) h = ground (arith, count-has t xs)

pub count-absent : (t : ℕ) (xs : List ℕ) → has t xs ≡ false → count t xs ≡ 0
count-absent t [] h = refl
count-absent t (x ∷ xs) h = ground (arith, count-absent t xs)

pub count-without :
    (t u : ℕ) (xs : List ℕ)
    → has t xs ≡ true
    → count u (without t xs) + (if t == u then 1 else 0) ≡ count u xs
count-without t u [] h = absurd (cc)
count-without t u (x ∷ xs) h = ground (arith, count-without t u xs)

pub length-without : (t : ℕ) (xs : List ℕ) → has t xs ≡ true → length (without t xs) + 1 ≡ length xs
length-without t [] h = absurd (cc)
length-without t (x ∷ xs) h = ground (arith, length-without t xs)

module _ (x t : ℕ) (c : Bool) (e : Endpoint) (one : refs e x ≡ 1) where
  release-refs_caller :
      is e.ipc_caller x ≡ true → refs (release x c e) t ≡ (if x == t then 0 else refs e t)
  unfolding release
  release-refs_caller mine = elim (Option-cases e.ipc_caller) [
    | inl n ↦ absurd (ground arith)
    | inr (y, f) ↦ elim (Bool-cases (x == t)) [
      | inl same ↦
          (let none_left : count t e.send_queue ≡ 0 =
              ground (arith, ap (λ i. count i e.send_queue) (==→eq x t same)) in
            ground arith)
      | inr other ↦ ground arith
    ]
  ]

  release-refs_queued :
      is e.ipc_caller x ≡ false → refs (release x c e) t ≡ (if x == t then 0 else refs e t)
  unfolding release unlink_request
  release-refs_queued queued = elim (Bool-cases (has x e.send_queue)) [
    | inr absent ↦ absurd (ground (arith, count-absent x e.send_queue))
    | inl present ↦ elim (Bool-cases (x == t)) [
      | inl same ↦
          (let mine : count t e.send_queue ≡ 1 =
              ground (arith, ap (λ i. count i e.send_queue) (==→eq x t same)) in
            let not_caller : is e.ipc_caller t ≡ false =
              subst (λ i. is e.ipc_caller i ≡ false) (==→eq x t same) queued in
            ground (arith, count-without x t e.send_queue present))
      | inr other ↦ ground (arith, count-without x t e.send_queue present)
    ]
  ]

  pub release-refs : refs (release x c e) t ≡ (if x == t then 0 else refs e t)
  release-refs = elim (Bool-cases (is e.ipc_caller x)) [
    | inl mine ↦ release-refs_caller mine
    | inr queued ↦ release-refs_queued queued
  ]

pub release-counted :
    (x : ℕ) (c : Bool) (e : Endpoint)
    → (e.ipc_queue_count ≡ length e.send_queue) × (e.ipc_queue_count ≤ 64)
    → ((release x c e).ipc_queue_count ≡ length (release x c e).send_queue)
      × ((release x c e).ipc_queue_count ≤ 64)
unfolding release unlink_request
release-counted x c e k = elim (Bool-cases (is e.ipc_caller x)) [
  | inl mine ↦ rw mine k
  | inr queued ↦ elim (Bool-cases (has x e.send_queue)) [
    | inl present ↦
        rw (queued, present)
          (omega (arith, k.0, length-without x e.send_queue present), omega (arith, k.1))
    | inr absent ↦ rw (queued, absent) k
  ]
]
