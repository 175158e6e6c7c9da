-- ===== src/Ipc/Finished.antt =====
-- What complete of src/kernel/ipc/ipc.cpp gives the thread whose request it ends.
use rucux.Base.{
  ℕ, ◌≡◌, refl, ◌⊎◌, inl, inr, sym, ap, ◌∙◌, subst, Bool, true, false, none, some, ◌==◌, Bool-cases,
  Option-cases, ==→eq, ==_self, arith,
}
use rucux.Ipc.{
  Endpoint, Threads, at, is, has, unpin, unblock, unlink_request, release, finish, complete,
}
use rucux.Ipc.Complete.{at-elim, complete-completed, complete_nothing, release-fields}

-- The request of the thread has ended with a result: it waits for no peer, its message is taken back, and
-- it is not blocked unless it has terminated.
pub record Finished (answer : ℕ) (e : Endpoint) : Type 0 where
  pub peer : e.ipc_peer ≡ none
  pub result : e.ipc_result ≡ some answer
  pub message : e.has_queued_msg ≡ false
  pub awake : (e.is_terminated ≡ true) ⊎ (e.is_blocked ≡ false)

Finished-unpin : (r : ℕ) (e : Endpoint) → Finished r e → Finished r (unpin e)
Finished-unpin r e f = record {
  peer = f.peer;
  result = f.result;
  message = f.message;
  awake = f.awake;
}

finish-Finished : (r : ℕ) (e : Endpoint) → Finished r (finish r e)
unfolding finish unblock
finish-Finished r e = elim (Bool-cases e.is_terminated) [
  | inl ended ↦ rw ended (record { peer = refl; result = refl; message = refl; awake = inl refl })
  | inr live ↦ rw live (record { peer = refl; result = refl; message = refl; awake = inr refl })
]

pub Finished-same :
    (r : ℕ) (e e' : Endpoint)
    → e'.ipc_peer ≡ e.ipc_peer
    → e'.ipc_result ≡ e.ipc_result
    → e'.has_queued_msg ≡ e.has_queued_msg
    → e'.is_terminated ≡ e.is_terminated
    → e'.is_blocked ≡ e.is_blocked
    → Finished r e
    → Finished r e'
Finished-same r e e' p q m t b f = record {
  peer = p ∙ f.peer;
  result = q ∙ f.result;
  message = m ∙ f.message;
  awake = elim f.awake [ inl ended ↦ inl (t ∙ ended) | inr up ↦ inr (b ∙ up) ];
}

release-Finished : (r x : ℕ) (c : Bool) (e : Endpoint) → Finished r e → Finished r (release x c e)
unfolding release unlink_request
release-Finished r x c e f = elim (Bool-cases (is e.ipc_caller x)) [
  | inl mine ↦ rw mine (Finished-same r e _ refl refl refl refl refl f)
  | inr queued ↦ elim (Bool-cases (has x e.send_queue)) [
    | inl present ↦ rw (queued, present) (Finished-same r e _ refl refl refl refl refl f)
    | inr absent ↦ rw (queued, absent) f
  ]
]

-- A thread whose request has ended is left so by what is done to others' requests.
pub complete-keeps_Finished :
    (x result : ℕ) (c : Bool) (s : Threads) (r t : ℕ)
    → Finished r (s t)
    → Finished r (complete x result c s t)
complete-keeps_Finished x result c s r t f = elim (Option-cases (s x).ipc_peer) [
  | inl e ↦ subst (λ (z : Threads). Finished r (z t)) (sym (complete_nothing x result c s e)) f
  | inr (q, e) ↦
      subst (λ (z : Threads). Finished r (z t)) (sym (complete-completed x q result c s e))
        (at-elim (Finished r) x (λ y. unpin (finish result y)) (at q (λ y. unpin (release x c y)) s)
          t
          (λ here.
            let mine : (s x).ipc_peer ≡ none =
              subst (λ (i : ℕ). (s i).ipc_peer ≡ none) (==→eq t x here) f.peer in
            absurd (cc))
          (λ there.
            at-elim (Finished r) q (λ y. unpin (release x c y)) s t
              (λ here. Finished-unpin r (release x c (s t)) (release-Finished r x c (s t) f))
              (λ other. f)))
]

-- The thread whose request it is gets the result.
pub complete-Finished :
    (x q result : ℕ) (c : Bool) (s : Threads)
    → (s x).ipc_peer ≡ some q
    → Finished result (complete x result c s x)
complete-Finished x q result c s e =
    subst (λ (z : Threads). Finished result (z x)) (sym (complete-completed x q result c s e))
      (at-elim (Finished result) x (λ y. unpin (finish result y))
        (at q (λ y. unpin (release x c y)) s) x
        (λ here.
          let before : Endpoint = at q (λ y. unpin (release x c y)) s x in
          Finished-unpin result (finish result before) (finish-Finished result before))
        (λ there. absurd (ground (arith, ==_self x))))

-- Another thread goes on waiting.
pub complete-waiting :
    (x result : ℕ) (c : Bool) (s : Threads) (o t : ℕ)
    → (t == x) ≡ false
    → (s t).ipc_peer ≡ some o
    → (complete x result c s t).ipc_peer ≡ some o
complete-waiting x result c s o t apart waits = elim (Option-cases (s x).ipc_peer) [
  | inl e ↦ ap (λ (z : Threads). (z t).ipc_peer) (complete_nothing x result c s e) ∙ waits
  | inr (q, e) ↦
      ap (λ (z : Threads). (z t).ipc_peer) (complete-completed x q result c s e)
      ∙ at-elim (λ y. y.ipc_peer ≡ some o) x (λ y. unpin (finish result y))
          (at q (λ y. unpin (release x c y)) s) t (λ here. absurd (cc))
          (λ there.
            at-elim (λ y. y.ipc_peer ≡ some o) q (λ y. unpin (release x c y)) s t
              (λ here. (release-fields x c (s t)).0 ∙ waits) (λ other. waits))
]
