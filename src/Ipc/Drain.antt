-- ===== src/Ipc/Drain.antt =====
-- The loop of detach_thread in src/kernel/ipc/ipc.cpp: the requests to a thread are completed one by one.
use rucux.Base.{
  ℕ, zero, suc, ◌≤◌, ◌<◌, ◌≡◌, inl, inr, refl, sym, ap, ◌∙◌, Bool, true, false, none, some, List,
  [], ◌∷◌, ◌==◌, length, arith, Bool-cases, Option-cases, List-cases, ==→eq, ==_self,
}
use rucux.Ipc.{Endpoint, Threads, is, unlink_request, unpin, release, complete}
use rucux.Ipc.Calls.{detach_loop, complete_all}
use rucux.Ipc.Owned.{count, refs, points, IsValid}
use rucux.Ipc.Complete.{
  complete-IsValid, complete-peer, release-fields, completed, complete-completed,
}

completed-peer_end :
    (x o result : ℕ) (c : Bool) (s : Threads)
    → (o == x) ≡ false
    → completed x o result c s o ≡ unpin (release x c (s o))
completed-peer_end x o result c s apart = rw (apart, ==_self o) refl

pub points-peer : (e : Endpoint) (o : ℕ) → points e o ≡ 1 → e.ipc_peer ≡ some o
points-peer e o h = elim (Option-cases e.ipc_peer) [
  | inl n ↦ absurd (ground arith)
  | inr (q, f) ↦ ground arith
]

release-head :
    (x : ℕ) (r : List ℕ) (c : Bool) (e : Endpoint)
    → refs e x ≡ 1
    → e.send_queue ≡ x ∷ r
    → (release x c e).send_queue ≡ r
unfolding release unlink_request
release-head x r c e one front = elim (Bool-cases (is e.ipc_caller x)) [
  | inl mine ↦ absurd (ground (arith, ap (count x) front))
  | inr queued ↦ ground arith
]

-- An endpoint that waits for no one, when a request of its queue or its call is completed.
module _ (o x : ℕ) (c : Bool) (result : ℕ) (s : Threads) (v : IsValid s)
    (free : (s o).ipc_peer ≡ none) (here : 0 < refs (s o) x) where
  waits_for_us : (s x).ipc_peer ≡ some o
  waits_for_us = points-peer (s x) o (ground (arith, v.owned o x))

  apart : (o == x) ≡ false
  apart = elim (Bool-cases (o == x)) [
    | inl same ↦
        absurd (ground (arith, waits_for_us, free, ap (λ i. (s i).ipc_peer) (==→eq o x same)))
    | inr other ↦ other
  ]

  at_our_end : complete x result c s o ≡ unpin (release x c (s o))
  at_our_end =
      ap (λ (z : Threads). z o) (complete-completed x o result c s waits_for_us)
      ∙ completed-peer_end x o result c s apart

  one_ref : refs (s o) x ≡ 1
  one_ref = ground (arith, v.owned o x, waits_for_us)

  still_free : (complete x result c s o).ipc_peer ≡ none
  still_free = ap (λ (e : Endpoint). e.ipc_peer) at_our_end ∙ (release-fields x c (s o)).0 ∙ free

-- The state in which the queue is empty.
pub record IsDrained (s : Threads) (o : ℕ) : Type 0 where
  pub valid : IsValid s
  pub queue : (s o).send_queue ≡ []
  pub peer : (s o).ipc_peer ≡ none

detach_loop-IsDrained :
    (fuel o : ℕ) (s : Threads)
    → IsValid s
    → (s o).ipc_peer ≡ none
    → length (s o).send_queue ≤ fuel
    → IsDrained (detach_loop fuel o s) o
unfolding detach_loop
detach_loop-IsDrained zero o s v free enough = elim (List-cases (s o).send_queue) [
  | inl e ↦ record { valid = v; queue = e; peer = free }
  | inr (x, r, e) ↦ absurd (ground arith)
]
detach_loop-IsDrained (suc fuel) o s v free enough = elim (List-cases (s o).send_queue) [
  | inl e ↦ rw (e, detach_loop) (record { valid = v; queue = e; peer = free })
  | inr (x, r, e) ↦
      (let here : 0 < refs (s o) x = ground (arith, ap (count x) e) in
        let t : Threads = complete x 32 false s in
        let left : (t o).send_queue ≡ r =
          ap (λ (y : Endpoint). y.send_queue) (at_our_end o x false 32 s v free here)
          ∙ release-head x r false (s o) (one_ref o x false 32 s v free here) e in
        rw (e, detach_loop)
          (detach_loop-IsDrained fuel o t (complete-IsValid x 32 false s v)
            (still_free o x false 32 s v free here)
            (ground
              (arith, ap (λ (xs : List ℕ). length xs) left, ap (λ (xs : List ℕ). length xs) e))))
]

pub unreferenced_lem :
    (s : Threads) (o : ℕ)
    → IsDrained s o
    → (s o).ipc_caller ≡ none
    → (t : ℕ) → (refs (s t) o ≡ 0) × (points (s t) o ≡ 0)
unreferenced_lem s o d free t =
    let out : points (s o) t ≡ 0 = ground (arith, d.peer) in
    let in_queue : refs (s o) t ≡ 0 = ground (arith, free, ap (count t) d.queue) in
    (d.valid.owned t o ∙ out, sym (d.valid.owned o t) ∙ in_queue)

last_call-IsDrained :
    (s : Threads) (o y : ℕ)
    → IsDrained s o
    → (s o).ipc_caller ≡ some y
    → IsDrained (complete y 32 false s) o × ((complete y 32 false s o).ipc_caller ≡ none)
unfolding release
last_call-IsDrained s o y d e =
    let here : 0 < refs (s o) y = ground arith in
    let mine : is (s o).ipc_caller y ≡ true = ground arith in
    let us = at_our_end o y false 32 s d.valid d.peer here in
    let freed : release y false (s o) ≡ record (s o) { ipc_caller = none } =
      rw (mine, release) refl in
    (
      record {
        valid = complete-IsValid y 32 false s d.valid;
        queue =
            ap (λ (z : Endpoint). z.send_queue) us
            ∙ ap (λ (z : Endpoint). z.send_queue) freed
            ∙ d.queue;
        peer = still_free o y false 32 s d.valid d.peer here;
      },
      ap (λ (z : Endpoint). z.ipc_caller) us ∙ ap (λ (z : Endpoint). z.ipc_caller) freed,
    )

pub complete_all-IsDrained :
    (s : Threads) (o : ℕ)
    → IsValid s
    → IsDrained (complete_all o s) o × ((complete_all o s o).ipc_caller ≡ none)
complete_all-IsDrained s o v =
    let s1 : Threads = complete o 4 true s in
    let s2 : Threads = detach_loop (length (s1 o).send_queue) o s1 in
    let d : IsDrained s2 o =
      detach_loop-IsDrained (length (s1 o).send_queue) o s1 (complete-IsValid o 4 true s v)
        (complete-peer o 4 true s) (omega arith) in
    elim (Option-cases (s2 o).ipc_caller) [
      | inl e ↦ rw (e, complete_all) (d, e)
      | inr (y, e) ↦ rw (e, complete_all) (last_call-IsDrained s2 o y d e)
    ]

-- What each request to the thread keeps when it is completed, all of them keep.
module _ (o : ℕ) (P : Threads → Type 0)
    (keep : (z : Threads) (x : ℕ) → (z x).ipc_peer ≡ some o → P z → P (complete x 32 false z)) where
  detach_loop-keeps :
      (fuel : ℕ) (s : Threads) → IsValid s → (s o).ipc_peer ≡ none → P s → P (detach_loop fuel o s)
  unfolding detach_loop
  detach_loop-keeps zero s v free p = p
  detach_loop-keeps (suc fuel) s v free p = elim (List-cases (s o).send_queue) [
    | inl e ↦ rw (e, detach_loop) p
    | inr (x, r, e) ↦
        (let here : 0 < refs (s o) x = ground (arith, ap (count x) e) in
          rw (e, detach_loop)
            (detach_loop-keeps fuel (complete x 32 false s) (complete-IsValid x 32 false s v)
              (still_free o x false 32 s v free here)
              (keep s x (waits_for_us o x false 32 s v free here) p)))
  ]

  pub complete_all-keeps :
      (s : Threads) → IsValid s → P (complete o 4 true s) → P (complete_all o s)
  complete_all-keeps s v p =
      let s1 : Threads = complete o 4 true s in
      let v1 : IsValid s1 = complete-IsValid o 4 true s v in
      let fuel : ℕ = length (s1 o).send_queue in
      let s2 : Threads = detach_loop fuel o s1 in
      let d : IsDrained s2 o =
        detach_loop-IsDrained fuel o s1 v1 (complete-peer o 4 true s) (omega arith) in
      let p2 : P s2 = detach_loop-keeps fuel s1 v1 (complete-peer o 4 true s) p in
      elim (Option-cases (s2 o).ipc_caller) [
        | inl e ↦ rw (e, complete_all) p2
        | inr (y, e) ↦
            (let here : 0 < refs (s2 o) y = ground arith in
              rw (e, complete_all)
                (keep s2 y (waits_for_us o y false 32 s2 d.valid d.peer here) p2))
      ]
