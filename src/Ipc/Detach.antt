-- ===== src/Ipc/Detach.antt =====
-- detach_thread of src/kernel/ipc/ipc.cpp, for a thread that ends.
use rucux.Base.{
  ℕ, ◌≡◌, ◌⊎◌, inl, inr, refl, sym, ap, ◌∙◌, subst, true, false, ◌||◌, none, some, [], ◌==◌, arith,
  Bool-cases, Option-cases, ==→eq, ==_self,
}
use rucux.Ipc.{
  legacy_receive, receive_call, Endpoint, Threads, at, is, unblock, same_kind, complete,
}
use rucux.Ipc.Calls.{complete_all, close_up, mark_closed, detach_thread}
use rucux.Ipc.Owned.{refs, points, Sending, IsValid}
use rucux.Ipc.Complete.{complete-Kept}
use rucux.Ipc.Mild.{Mild, at-IsValid}
use rucux.Ipc.Finished.{
  Finished, Finished-same, complete-keeps_Finished, complete-Finished, complete-waiting,
}
use rucux.Ipc.Drain.{
  points-peer, IsDrained, unreferenced_lem, complete_all-IsDrained, complete_all-keeps,
}

-- A thread that no other refers to, after `s`: `s'`. Its own request, if it had one, has ended with 4
-- (EINTR), and the requests that others had made to it with 32 (EPIPE).
pub record IsDetached (s s' : Threads) (o : ℕ) : Type 0 where
  pub valid : IsValid s'
  pub shut : (s' o).ipc_closed ≡ true
  pub queue : (s' o).send_queue ≡ []
  pub caller : (s' o).ipc_caller ≡ none
  pub peer : (s' o).ipc_peer ≡ none
  pub unreferenced : (t : ℕ) → (refs (s' t) o ≡ 0) × (points (s' t) o ≡ 0)
  pub interrupted : ((s o).ipc_peer ≡ none) ⊎ Finished 4 (s' o)
  pub answered : (t : ℕ) → ((t == o) ≡ true) ⊎ (points (s t) o ≡ 0) ⊎ Finished 32 (s' t)

close_up-Mild : (e : Endpoint) → Sending e → Mild e (close_up e)
unfolding close_up unblock
close_up-Mild e ok =
    elim (Bool-cases (same_kind e.ipc_kind legacy_receive || same_kind e.ipc_kind receive_call)) [
      | inr other ↦
          rw other
            (record { queue = refl; caller = refl; counter = refl; peer = refl; sending = ok })
      | inl waits ↦ elim (Bool-cases e.is_terminated) [
        | inl ended ↦
            rw (waits, ended)
              (record { queue = refl; caller = refl; counter = refl; peer = refl; sending = ok })
        | inr live ↦
            rw (waits, live)
              (record { queue = refl; caller = refl; counter = refl; peer = refl; sending = ok })
      ]
    ]

IsDrained-Mild :
    (s : Threads) (o : ℕ) (f : Endpoint → Endpoint)
    → Mild (s o) (f (s o))
    → IsDrained s o
    → (s o).ipc_caller ≡ none
    → IsDrained (at o f s) o × ((at o f s o).ipc_caller ≡ none)
IsDrained-Mild s o f m d free =
    let same : at o f s o ≡ f (s o) = rw (==_self o) refl in
    (
      record {
        valid = at-IsValid o f s m d.valid;
        queue = ap (λ (z : Endpoint). z.send_queue) same ∙ m.queue ∙ d.queue;
        peer = ap (λ (z : Endpoint). z.ipc_peer) same ∙ m.peer ∙ d.peer;
      },
      ap (λ (z : Endpoint). z.ipc_caller) same ∙ m.caller ∙ free,
    )

marked-IsValid : (s : Threads) (o : ℕ) → IsValid s → IsValid (at o mark_closed s)
marked-IsValid s o v =
    at-IsValid o mark_closed s
      (record { queue = refl; caller = refl; counter = refl; peer = refl; sending = v.sending o }) v

-- The request of another thread to the one that detaches.
Answering : ℕ → ℕ → Threads → Type 0
Answering o t z = ((z t).ipc_peer ≡ some o) ⊎ Finished 32 (z t)

Answering-complete :
    (o t : ℕ) (z : Threads) (x : ℕ)
    → (z x).ipc_peer ≡ some o
    → Answering o t z
    → Answering o t (complete x 32 false z)
unfolding Answering
Answering-complete o t z x ours (inr f) = inr (complete-keeps_Finished x 32 false z 32 t f)
Answering-complete o t z x ours (inl waits) = elim (Bool-cases (t == x)) [
  | inl same ↦ inr (
      subst (λ (i : ℕ). Finished 32 (complete x 32 false z i)) (sym (==→eq t x same))
        (complete-Finished x o 32 false z ours))
  | inr other ↦ inl (complete-waiting x 32 false z o t other waits)
]

marked_other : (s : Threads) (o t : ℕ) → (t == o) ≡ false → at o mark_closed s t ≡ s t
marked_other s o t other = rw other refl

-- Every other thread that waited for the one that detaches gets 32.
answered_lem :
    (s : Threads) (o t : ℕ)
    → IsValid s
    → (t == o) ≡ false
    → (s t).ipc_peer ≡ some o
    → Answering o t (complete_all o (at o mark_closed s))
unfolding Answering
answered_lem s o t v other waits =
    let marked : Threads = at o mark_closed s in
    let still : (marked t).ipc_peer ≡ some o =
      ap (λ (e : Endpoint). e.ipc_peer) (marked_other s o t other) ∙ waits in
    complete_all-keeps o (Answering o t) (Answering-complete o t) marked (marked-IsValid s o v)
      (inl (complete-waiting o 4 true marked o t other still))

interrupted_lem :
    (s : Threads) (o q : ℕ)
    → IsValid s
    → (s o).ipc_peer ≡ some q
    → Finished 4 (complete_all o (at o mark_closed s) o)
interrupted_lem s o q v waits =
    let marked : Threads = at o mark_closed s in
    let still : (marked o).ipc_peer ≡ some q = rw (==_self o) waits in
    complete_all-keeps o (λ z. Finished 4 (z o))
      (λ z x ours f. complete-keeps_Finished x 32 false z 4 o f) marked (marked-IsValid s o v)
      (complete-Finished o q 4 true marked still)

shut_lem :
    (s : Threads) (o : ℕ) → IsValid s → (complete_all o (at o mark_closed s) o).ipc_closed ≡ true
shut_lem s o v =
    let marked : Threads = at o mark_closed s in
    let shut : (marked o).ipc_closed ≡ true = rw (==_self o) refl in
    complete_all-keeps o (λ z. (z o).ipc_closed ≡ true)
      (λ z x ours e. (complete-Kept x 32 false z o).flag ∙ e) marked (marked-IsValid s o v)
      ((complete-Kept o 4 true marked o).flag ∙ shut)

close_up-Finished : (e : Endpoint) → Finished 4 e → Finished 4 (close_up e)
unfolding close_up unblock
close_up-Finished e f =
    elim (Bool-cases (same_kind e.ipc_kind legacy_receive || same_kind e.ipc_kind receive_call)) [
      | inr other ↦ rw other (Finished-same 4 e _ refl refl refl refl refl f)
      | inl waits ↦ elim (Bool-cases e.is_terminated) [
        | inl ended ↦ rw (waits, ended) (Finished-same 4 e _ refl refl refl (sym ended) refl f)
        | inr live ↦
            rw (waits, live)
              (record { peer = f.peer; result = f.result; message = f.message; awake = inr refl })
      ]
    ]

close_up-closed : (e : Endpoint) → (close_up e).ipc_closed ≡ e.ipc_closed
unfolding close_up unblock
close_up-closed e = ground arith

answered_end :
    (s : Threads) (o t : ℕ)
    → IsValid s
    → points (at o close_up (complete_all o (at o mark_closed s)) t) o ≡ 0
    → ((t == o) ≡ true)
      ⊎ (points (s t) o ≡ 0)
      ⊎ Finished 32 (at o close_up (complete_all o (at o mark_closed s)) t)
unfolding Answering
answered_end s o t v gone =
    let z : Threads = complete_all o (at o mark_closed s) in
    elim (Bool-cases (t == o)) [
      | inl same ↦ inl same
      | inr other ↦ elim (Bool-cases (is (s t).ipc_peer o)) [
        | inr no_peer ↦ inr (inl (rw no_peer refl))
        | inl asked ↦
            let waits : (s t).ipc_peer ≡ some o = points-peer (s t) o (rw asked refl) in
            let apart : at o close_up z t ≡ z t = rw other refl in
            let gone_too : points (z t) o ≡ 0 =
              ap (λ (y : Endpoint). points y o) (sym apart) ∙ gone in
            inr (
              inr (
                subst (Finished 32) (sym apart) (elim (answered_lem s o t v other waits) [
                  | inr f ↦ f
                  | inl still ↦ absurd (ground arith)
                ])))
      ]
    ]

-- When a thread that is open detaches, every request to it, its accepted call and its own request end:
-- each other thread that waited for it gets the result 32 (EPIPE), and its own request, if it had one, 4
-- (EINTR); whoever gets a result waits for no peer, has its message taken back and is not blocked unless it
-- has terminated. The loop over the queue ends with the queue empty, no endpoint refers to the thread any
-- more, neither as one that waits nor as one that is waited for, and it is closed. The endpoints are
-- assumed to be in order, and stay so.
pub detach-IsDetached :
    (s : Threads) (owner : ℕ)
    → IsValid s
    → (s owner).ipc_closed ≡ false
    → IsDetached s (detach_thread s owner) owner
unfolding detach_thread Answering
detach-IsDetached s owner v is_open =
    let marked : Threads = at owner mark_closed s in
    let (d, free) = complete_all-IsDrained marked owner (marked-IsValid s owner v) in
    let t : Threads = complete_all owner marked in
    let (e, gone) =
      IsDrained-Mild t owner close_up (close_up-Mild (t owner) (d.valid.sending owner)) d free in
    let none_left = unreferenced_lem (at owner close_up t) owner e gone in
    let here : at owner close_up t owner ≡ close_up (t owner) = rw (==_self owner) refl in
    let result : detach_thread s owner ≡ at owner close_up t = rw (is_open, detach_thread) refl in
    subst (λ (z : Threads). IsDetached s z owner) (sym result)
      (record {
        valid = e.valid;
        shut =
            ap (λ (y : Endpoint). y.ipc_closed) here
            ∙ close_up-closed (t owner)
            ∙ shut_lem s owner v;
        queue = e.queue;
        caller = gone;
        peer = e.peer;
        unreferenced = none_left;
        interrupted = elim (Option-cases (s owner).ipc_peer) [
          | inl n ↦ inl n
          | inr (q, w) ↦ inr (
              subst (Finished 4) (sym here)
                (close_up-Finished (t owner) (interrupted_lem s owner q v w)))
        ];
        answered = λ i. answered_end s owner i v (none_left i).1;
      })

pub detach-IsValid : (s : Threads) (owner : ℕ) → IsValid s → IsValid (detach_thread s owner)
unfolding detach_thread
detach-IsValid s owner v = elim (Bool-cases (s owner).ipc_closed) [
  | inl shut ↦ rw (shut, detach_thread) v
  | inr is_open ↦ (detach-IsDetached s owner v is_open).valid
]
