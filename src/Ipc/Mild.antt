-- ===== src/Ipc/Mild.antt =====
-- Changes of an endpoint of src/kernel/ipc/ipc.cpp that leave the requests alone.
use rucux.Base.{
  ℕ, ◌≤◌, ◌≡◌, inl, inr, refl, sym, ap, ◌∙◌, subst, true, false, none, some, ◌==◌, if◌then◌else◌,
  length, arith, ==→eq,
}
use rucux.Ipc.{
  Kind, idle, legacy_send, legacy_receive, call, receive_call, Endpoint, Threads, at, is, same_kind,
  clear_wait,
}
use rucux.Ipc.Owned.{refs, points, is_sending, Sending, IsValid}
use rucux.Ipc.Complete.{at-elim}

-- A change of an endpoint that leaves its queue, its caller and its peer.
pub record Mild (e e' : Endpoint) : Type 0 where
  pub queue : e'.send_queue ≡ e.send_queue
  pub caller : e'.ipc_caller ≡ e.ipc_caller
  pub counter : e'.ipc_queue_count ≡ e.ipc_queue_count
  pub peer : e'.ipc_peer ≡ e.ipc_peer
  pub sending : Sending e'

pub at-IsValid :
    (t : ℕ) (f : Endpoint → Endpoint) (s : Threads)
    → Mild (s t) (f (s t))
    → IsValid s
    → IsValid (at t f s)
at-IsValid t f s m v =
    let here : (p : ℕ) → (p == t) ≡ true → Mild (s p) (f (s p)) =
      λ p e. subst (λ i. Mild (s i) (f (s i))) (sym (==→eq p t e)) m in
    record {
      owned = λ p u.
          let a : refs (at t f s p) u ≡ refs (s p) u =
            at-elim (λ e. refs e u ≡ refs (s p) u) t f s p
              (λ e. ground (arith, (here p e).queue, (here p e).caller)) (λ e. refl) in
          let b : points (at t f s u) p ≡ points (s u) p =
            at-elim (λ e. points e p ≡ points (s u) p) t f s u
              (λ e. ap (λ o. if is o p then 1 else 0) (here u e).peer) (λ e. refl) in
          a ∙ v.owned p u ∙ sym b;
      counted = λ p.
          at-elim (λ e. (e.ipc_queue_count ≡ length e.send_queue) × (e.ipc_queue_count ≤ 64)) t f s
            p (λ e. ground (arith, (here p e).queue, (here p e).counter, v.counted p))
            (λ e. v.counted p);
      sending = λ u. at-elim (λ e. Sending e) t f s u (λ e. (here u e).sending) (λ e. v.sending u);
    }

-- A thread whose result has come, or that is no sender, waits for no one.
pub free_of_result :
    (e : Endpoint) (result : ℕ) → Sending e → e.ipc_result ≡ some result → e.ipc_peer ≡ none
free_of_result e result (inl n) h = n
free_of_result e result (inr (kind, pending)) h = absurd (cc)

pub free_of_kind : (e : Endpoint) → Sending e → is_sending e.ipc_kind ≡ false → e.ipc_peer ≡ none
free_of_kind e (inl n) h = n
free_of_kind e (inr (kind, pending)) h = absurd (cc)

pub idle_kind : (k : Kind) → same_kind k idle ≡ true → is_sending k ≡ false
idle_kind idle h = refl
idle_kind legacy_send h = absurd (cc)
idle_kind legacy_receive h = absurd (cc)
idle_kind call h = absurd (cc)
idle_kind receive_call h = absurd (cc)

pub idle_free : (e : Endpoint) → Sending e → same_kind e.ipc_kind idle ≡ true → e.ipc_peer ≡ none
idle_free e s h = free_of_kind e s (idle_kind e.ipc_kind h)

pub wake_up-IsValid :
    (t : ℕ) (s : Threads) → (s t).ipc_peer ≡ none → IsValid s → IsValid (at t clear_wait s)
wake_up-IsValid t s free v =
    at-IsValid t clear_wait s
      (unfold clear_wait in
        record { queue = refl; caller = refl; counter = refl; peer = refl; sending = inl free })
      v
