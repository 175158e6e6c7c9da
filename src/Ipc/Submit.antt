-- ===== src/Ipc/Submit.antt =====
-- A request of src/kernel/ipc/ipc.cpp joins the queue of its peer.
use rucux.Base.{
  ℕ, ◌+◌, ◌≤◌, ◌<◌, ◌≡◌, inl, inr, refl, sym, ap, ◌∙◌, subst, true, none, some, List, [], ◌∷◌, ◌++◌,
  ◌==◌, if◌then◌else◌, length, length-append, arith, Bool-cases, ==→eq,
}
use rucux.Ipc.{Kind, Endpoint, Threads, at, is, unblock, same_kind}
use rucux.Ipc.Calls.{Payload, legacy, fixed, offer, queue_up}
use rucux.Ipc.Owned.{count, refs, points, is_sending, Sending, IsValid}
use rucux.Ipc.Complete.{at-elim}

count-snoc :
    (t x : ℕ) (xs : List ℕ) → count t (xs ++ x ∷ []) ≡ count t xs + (if x == t then 1 else 0)
count-snoc t x [] = omega arith
count-snoc t x (y ∷ xs) = omega (arith, count-snoc t x xs)

offer-fields :
    (kind : Kind) (payload : Payload) (x q : ℕ) (e : Endpoint)
    → let e' = offer kind payload x q e in
      (e'.send_queue ≡ e.send_queue)
      × (e'.ipc_caller ≡ e.ipc_caller)
      × (e'.ipc_queue_count ≡ e.ipc_queue_count)
      × (e'.ipc_peer ≡ some q)
      × (e'.ipc_result ≡ none)
      × (e'.ipc_kind ≡ kind)
unfolding offer
offer-fields kind (legacy m) x q e = (refl, refl, refl, refl, refl, refl)
offer-fields kind (fixed w) x q e = (refl, refl, refl, refl, refl, refl)

queue_up-fields :
    (wanted : Kind) (x : ℕ) (e : Endpoint)
    → let e' = queue_up wanted x e in
      (e'.send_queue ≡ e.send_queue ++ x ∷ [])
      × (e'.ipc_caller ≡ e.ipc_caller)
      × (e'.ipc_queue_count ≡ e.ipc_queue_count + 1)
      × (e'.ipc_peer ≡ e.ipc_peer)
      × (e'.ipc_result ≡ e.ipc_result)
      × (e'.ipc_kind ≡ e.ipc_kind)
unfolding queue_up unblock
queue_up-fields wanted x e = elim (Bool-cases (same_kind e.ipc_kind wanted)) [
  | inr other ↦ rw other (refl, refl, refl, refl, refl, refl)
  | inl waits ↦ elim (Bool-cases e.is_terminated) [
    | inl ended ↦ rw (waits, ended) (refl, refl, refl, refl, refl, refl)
    | inr live ↦ rw (waits, live) (refl, refl, refl, refl, refl, refl)
  ]
]

module _ (kind wanted : Kind) (payload : Payload) (x q : ℕ) (s : Threads) (v : IsValid s)
    (sends : is_sending kind ≡ true) (free : (s x).ipc_peer ≡ none)
    (room : (s q).ipc_queue_count < 64) where
  abbrev offered : Threads
  offered = at x (offer kind payload x q) s

  abbrev queued : Threads
  queued = at q (queue_up wanted x) offered

  offered-Same :
      (p : ℕ)
      → ((offered p).send_queue ≡ (s p).send_queue)
        × ((offered p).ipc_caller ≡ (s p).ipc_caller)
        × ((offered p).ipc_queue_count ≡ (s p).ipc_queue_count)
  offered-Same p =
      at-elim
        (λ e.
          (e.send_queue ≡ (s p).send_queue)
          × (e.ipc_caller ≡ (s p).ipc_caller)
          × (e.ipc_queue_count ≡ (s p).ipc_queue_count))
        x (offer kind payload x q) s p
        (λ here. let f = offer-fields kind payload x q (s p) in (f.0, f.1, f.2))
        (λ there. (refl, refl, refl))

  queued-refs :
      (p t : ℕ)
      → refs (queued p) t ≡ refs (s p) t + (if p == q then (if x == t then 1 else 0) else 0)
  queued-refs p t =
      let m = offered-Same p in
      at-elim (λ e. refs e t ≡ refs (s p) t + (if p == q then (if x == t then 1 else 0) else 0)) q
        (queue_up wanted x) offered p
        (λ here.
          let f = queue_up-fields wanted x (offered p) in
          ground (arith, f.0, f.1, m.0, m.1, count-snoc t x (s p).send_queue))
        (λ there. ground (arith, m.0, m.1))

  queued-points :
      (p t : ℕ)
      → points (queued t) p ≡ (if t == x then (if q == p then 1 else 0) else points (s t) p)
  queued-points p t =
      let mid : points (offered t) p
          ≡ (if t == x then (if q == p then 1 else 0) else points (s t) p) =
        at-elim (λ e. points e p ≡ (if t == x then (if q == p then 1 else 0) else points (s t) p)) x
          (offer kind payload x q) s t
          (λ here.
            rw here (ap (λ o. if is o p then 1 else 0) (offer-fields kind payload x q (s t)).3))
          (λ there. rw there refl) in
      at-elim (λ e. points e p ≡ (if t == x then (if q == p then 1 else 0) else points (s t) p)) q
        (queue_up wanted x) offered t
        (λ here. ap (λ o. if is o p then 1 else 0) (queue_up-fields wanted x (offered t)).3 ∙ mid)
        (λ there. mid)

  pub queued-IsValid : IsValid queued
  queued-IsValid = record {
    owned = λ p t.
        let a = queued-refs p t in
        let b = queued-points p t in
        let o = v.owned p t in
        let none_yet : refs (s p) x ≡ 0 = v.owned p x ∙ ground arith in
        elim (Bool-cases (t == x)) [
          | inl mine ↦
              (let none_here : refs (s p) t ≡ 0 =
                  ap (λ i. refs (s p) i) (==→eq t x mine) ∙ none_yet in
                ground (arith, a, b, none_here))
          | inr other ↦ ground (arith, a, b, o)
        ];
    counted = λ p.
        let m = offered-Same p in
        let k = v.counted p in
        at-elim (λ e. (e.ipc_queue_count ≡ length e.send_queue) × (e.ipc_queue_count ≤ 64)) q
          (queue_up wanted x) offered p
          (λ here.
            let f = queue_up-fields wanted x (offered p) in
            let small : (s p).ipc_queue_count < 64 =
              subst (λ i. (s i).ipc_queue_count < 64) (sym (==→eq p q here)) room in
            ground (arith, f.0, f.2, m.0, m.2, k, length-append (s p).send_queue (x ∷ [])))
          (λ there. ground (arith, m.0, m.2, k));
    sending = λ t.
        let mid : Sending (offered t) =
          at-elim (λ e. Sending e) x (offer kind payload x q) s t
            (λ here.
              let f = offer-fields kind payload x q (s t) in
              inr (ap (λ i. is_sending i) f.5 ∙ sends, f.4))
            (λ there. v.sending t) in
        at-elim (λ e. Sending e) q (queue_up wanted x) offered t
          (λ here.
            let f = queue_up-fields wanted x (offered t) in
            elim mid [
              | inl n ↦ inl (f.3 ∙ n)
              | inr (k, pending) ↦ inr (ap (λ i. is_sending i) f.5 ∙ k, f.4 ∙ pending)
            ])
          (λ there. mid);
  }
