-- ===== src/Ipc/Messages.antt =====
-- send_async and receive_sync of src/kernel/ipc/ipc.cpp among the requests.
use rucux.Base.{
  ℕ, zero, suc, ◌≡◌, inl, inr, refl, ap, ◌∙◌, subst, sym, Bool, true, false, Option, none, some,
  ◌==◌, length, Bool-cases, Option-cases, arith,
}
use rucux.Ipc.{
  Kind, idle, legacy_send, legacy_receive, Message, Endpoint, Threads, at, same_kind, closed,
  unblock, complete, find_kind, first_loop, first_request,
}
use rucux.Ipc.Calls.{Got, got, waits_for}
use rucux.Ipc.Async.{async_check, deposit, send_async, take_async, take_message, receive}
use rucux.Ipc.Owned.{Sending, IsValid}
use rucux.Ipc.Complete.{Kept, Kept-refl, Kept-trans, complete-IsValid, complete-Kept}
use rucux.Ipc.Mild.{Mild, at-IsValid, idle_free}
use rucux.Ipc.Accept.{first_loop_end, first_loop_found}

deposit-Mild : (x : ℕ) (msg : Message) (e : Endpoint) → Sending e → Mild e (deposit x msg e)
unfolding deposit unblock
deposit-Mild x msg e ok = elim (Bool-cases (same_kind e.ipc_kind legacy_receive)) [
  | inr other ↦
      rw other (record { queue = refl; caller = refl; counter = refl; peer = refl; sending = ok })
  | inl waits ↦ elim (Bool-cases e.is_terminated) [
    | inl ended ↦
        rw (waits, ended)
          (record { queue = refl; caller = refl; counter = refl; peer = refl; sending = ok })
    | inr live ↦
        rw (waits, live)
          (record { queue = refl; caller = refl; counter = refl; peer = refl; sending = ok })
  ]
]

pub send_async-IsValid :
    (s : Threads) (x : ℕ) (found : Option ℕ) (msg : Message)
    → IsValid s
    → IsValid (send_async s x found msg).1
unfolding send_async
send_async-IsValid s x none msg v = v
send_async-IsValid s x (some q) msg v = elim (Bool-cases (async_check s x q == 0)) [
  | inr bad ↦ rw bad v
  | inl good ↦ rw good (at-IsValid q (deposit x msg) s (deposit-Mild x msg (s q) (v.sending q)) v)
]

-- A search ends the requests of senders with a fatal signal, whatever the receiver has accepted.
searched-IsValid :
    (fuel r : ℕ) (kind : Kind) (s : Threads)
    → IsValid s
    → IsValid (first_loop fuel r kind s).1 × Kept (s r) ((first_loop fuel r kind s).1 r)
searched-IsValid zero r kind s v = unfold first_loop in (v, Kept-refl (s r))
searched-IsValid (suc fuel) r kind s v =
    let goal : Option ℕ × Threads → Type 0 = λ z. IsValid z.1 × Kept (s r) (z.1 r) in
    elim (Option-cases (find_kind s kind (s r).send_queue)) [
      | inl e ↦ subst goal (sym (first_loop_end fuel r kind s e)) (v, Kept-refl (s r))
      | inr (x, e) ↦
          let next : Threads = complete x 4 true s in
          let (w, k) = searched-IsValid fuel r kind next (complete-IsValid x 4 true s v) in
          subst goal (sym (first_loop_found fuel r x kind s e))
            (elim (Bool-cases (s x).fatal_signal_pending) [
              | inl dying ↦ rw dying (w, Kept-trans (complete-Kept x 4 true s r) k)
              | inr fit ↦ rw fit (v, Kept-refl (s r))
            ])
    ]

taken-IsValid :
    (r : ℕ) (late : Bool) (z : Option ℕ × Threads)
    → IsValid z.1
    → same_kind (z.1 r).ipc_kind idle ≡ true
    → IsValid (take_message r late z).1
unfolding take_message
taken-IsValid r late (some x, t) v is_idle = complete-IsValid x 0 false t v
taken-IsValid r true (none, t) v is_idle = v
taken-IsValid r false (none, t) v is_idle =
    at-IsValid r (waits_for legacy_receive false) t
      (record {
        queue = refl;
        caller = refl;
        counter = refl;
        peer = refl;
        sending = inl (idle_free (t r) (v.sending r) is_idle);
      })
      v

take_async-Mild : (e : Endpoint) → Sending e → Mild e (take_async e).1
unfolding take_async
take_async-Mild e ok = record {
  queue = refl;
  caller = refl;
  counter = refl;
  peer = refl;
  sending = ok;
}

pub receive-IsValid : (s : Threads) (r : ℕ) (late : Bool) → IsValid s → IsValid (receive s r late).1
unfolding receive first_request
receive-IsValid s r late v =
    let e : Endpoint = s r in
    elim (Bool-cases (closed e)) [
      | inl c ↦ rw (c, receive) v
      | inr c ↦ elim (Bool-cases e.fatal_signal_pending) [
        | inl d ↦ rw (c, d, receive) v
        | inr d ↦ elim (Bool-cases (same_kind e.ipc_kind idle)) [
          | inr b ↦ rw (c, d, b, receive) v
          | inl b ↦ elim (Bool-cases (e.async_head == e.async_tail)) [
            | inr some_message ↦
                let one : Got Message × Threads =
                  (got (take_async e).0, at r (λ _. (take_async e).1) s) in
                let result : receive s r late ≡ one = ground arith in
                subst (λ (z : Got Message × Threads). IsValid z.1) (sym result)
                  (at-IsValid r (λ _. (take_async e).1) s (take_async-Mild e (v.sending r)) v)
            | inl empty ↦
                let search : Option ℕ × Threads =
                  first_loop (suc (length e.send_queue)) r legacy_send s in
                let (w, k) = searched-IsValid (suc (length e.send_queue)) r legacy_send s v in
                let result : receive s r late ≡ take_message r late search =
                  rw (c, d, b, empty, receive) refl in
                subst (λ (z : Got Message × Threads). IsValid z.1) (sym result)
                  (taken-IsValid r late search w (ap (λ i. same_kind i idle) k.kind ∙ b))
          ]
        ]
      ]
    ]
