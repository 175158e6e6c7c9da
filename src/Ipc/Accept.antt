-- ===== src/Ipc/Accept.antt =====
-- A server of src/kernel/ipc/ipc.cpp takes a request out of its queue.
use rucux.Base.{
  ℕ, zero, suc, ◌≤◌, ◌≡◌, ◌⊎◌, inl, inr, refl, sym, ap, ◌∙◌, subst, true, Option, none, some, List,
  [], ◌∷◌, ◌==◌, if◌then◌else◌, length, arith, Bool-cases, Option-cases, ==→eq,
}
use rucux.Ipc.{
  Kind, Endpoint, Threads, at, is, has, unlink_request, same_kind, complete, find_kind, first_loop,
}
use rucux.Ipc.Calls.{accept}
use rucux.Ipc.Owned.{refs, points, Sending, IsValid, count-without, length-without}
use rucux.Ipc.Complete.{
  Kept, Kept-refl, Kept-trans, at-elim, complete-IsValid, complete-Kept, complete-caller,
}

pub first_loop_end :
    (fuel r : ℕ) (kind : Kind) (s : Threads)
    → find_kind s kind (s r).send_queue ≡ none
    → first_loop (suc fuel) r kind s ≡ (none, s)
unfolding first_loop
first_loop_end fuel r kind s e = rw (e, first_loop) refl

pub first_loop_found :
    (fuel r x : ℕ) (kind : Kind) (s : Threads)
    → find_kind s kind (s r).send_queue ≡ some x
    → first_loop (suc fuel) r kind s ≡ (
        if (s x).fatal_signal_pending
        then first_loop fuel r kind (complete x 4 true s)
        else (some x, s))
unfolding first_loop
first_loop_found fuel r x kind s e = rw (e, first_loop) refl

-- What a search for a request keeps, and what it finds.
pub record Searched (r : ℕ) (kind : Kind) (s : Threads) (found : Option ℕ × Threads) : Type 0 where
  pub valid : IsValid found.1
  pub kept : Kept (s r) (found.1 r)
  pub caller : (found.1 r).ipc_caller ≡ none
  pub hit :
      (found.0 ≡ none)
      ⊎ ((x : ℕ) × (found.0 ≡ some x)
          × (has x (found.1 r).send_queue ≡ true)
          × (same_kind (found.1 x).ipc_kind kind ≡ true))

find_kind-has :
    (s : Threads) (kind : Kind) (xs : List ℕ) (x : ℕ)
    → find_kind s kind xs ≡ some x
    → (has x xs ≡ true) × (same_kind (s x).ipc_kind kind ≡ true)
unfolding find_kind
find_kind-has s kind [] x e = absurd (cc)
find_kind-has s kind (y ∷ ys) x e = elim (Bool-cases (same_kind (s y).ipc_kind kind)) [
  | inl hit ↦
      (let here : y ≡ x = ground arith in
        (ground arith, subst (λ i. same_kind (s i).ipc_kind kind ≡ true) here hit))
  | inr miss ↦
      (let rest = find_kind-has s kind ys x (ground arith) in (ground (arith, rest.0), rest.1))
]

pub first_loop-Searched :
    (fuel r : ℕ) (kind : Kind) (s : Threads)
    → IsValid s
    → (s r).ipc_caller ≡ none
    → Searched r kind s (first_loop fuel r kind s)
first_loop-Searched zero r kind s v c =
    unfold first_loop in record { valid = v; kept = Kept-refl (s r); caller = c; hit = inl refl }
first_loop-Searched (suc fuel) r kind s v c =
    elim (Option-cases (find_kind s kind (s r).send_queue)) [
      | inl e ↦
          subst (Searched r kind s) (sym (first_loop_end fuel r kind s e))
            (record { valid = v; kept = Kept-refl (s r); caller = c; hit = inl refl })
      | inr (x, e) ↦
          (let next : Threads = complete x 4 true s in
            let answer = first_loop_found fuel r x kind s e in
            let found = find_kind-has s kind (s r).send_queue x e in
            elim (Bool-cases (s x).fatal_signal_pending) [
              | inl dying ↦
                  (let rest : Searched r kind next (first_loop fuel r kind next) =
                      first_loop-Searched fuel r kind next (complete-IsValid x 4 true s v)
                        (complete-caller x 4 true s r c) in
                    let result : first_loop (suc fuel) r kind s ≡ first_loop fuel r kind next =
                      answer ∙ ground arith in
                    subst (Searched r kind s) (sym result) (record {
                      valid = rest.valid;
                      kept = Kept-trans (complete-Kept x 4 true s r) rest.kept;
                      caller = rest.caller;
                      hit = rest.hit;
                    }))
              | inr live ↦
                  (let result : first_loop (suc fuel) r kind s ≡ (some x, s) =
                      answer ∙ ground arith in
                    subst (Searched r kind s) (sym result) (record {
                      valid = v;
                      kept = Kept-refl (s r);
                      caller = c;
                      hit = inr (x, refl, found.0, found.1);
                    }))
            ])
    ]

accept-refs :
    (x t : ℕ) (e : Endpoint)
    → has x e.send_queue ≡ true
    → e.ipc_caller ≡ none
    → refs (accept x e) t ≡ refs e t
unfolding unlink_request
accept-refs x t e present free = rw present (ground (arith, count-without x t e.send_queue present))

accept-fields :
    (x : ℕ) (e : Endpoint)
    → has x e.send_queue ≡ true
    → (e.ipc_queue_count ≡ length e.send_queue) × (e.ipc_queue_count ≤ 64)
    → let e' = accept x e in
      (e'.ipc_peer ≡ e.ipc_peer)
      × (Sending e → Sending e')
      × ((e'.ipc_queue_count ≡ length e'.send_queue) × (e'.ipc_queue_count ≤ 64))
unfolding unlink_request
accept-fields x e present k = rw present (
  refl,
  (λ z. z),
  (omega (arith, k.0, length-without x e.send_queue present), omega (arith, k.1)),
)

pub accept-IsValid :
    (x r : ℕ) (s : Threads)
    → IsValid s
    → has x (s r).send_queue ≡ true
    → (s r).ipc_caller ≡ none
    → IsValid (at r (accept x) s)
accept-IsValid x r s v present free =
    let here : (p : ℕ)
        → (p == r) ≡ true
        → (has x (s p).send_queue ≡ true) × ((s p).ipc_caller ≡ none) =
      λ p e.
        subst (λ i. (has x (s i).send_queue ≡ true) × ((s i).ipc_caller ≡ none)) (sym (==→eq p r e))
          (present, free) in
    record {
      owned = λ p t.
          let a : refs (at r (accept x) s p) t ≡ refs (s p) t =
            at-elim (λ e. refs e t ≡ refs (s p) t) r (accept x) s p
              (λ e. let h = here p e in accept-refs x t (s p) h.0 h.1) (λ e. refl) in
          let b : points (at r (accept x) s t) p ≡ points (s t) p =
            at-elim (λ e. points e p ≡ points (s t) p) r (accept x) s t
              (λ e.
                ap (λ o. if is o p then 1 else 0)
                  (accept-fields x (s t) (here t e).0 (v.counted t)).0)
              (λ e. refl) in
          a ∙ v.owned p t ∙ sym b;
      counted = λ p.
          at-elim (λ e. (e.ipc_queue_count ≡ length e.send_queue) × (e.ipc_queue_count ≤ 64)) r
            (accept x) s p (λ e. (accept-fields x (s p) (here p e).0 (v.counted p)).2)
            (λ e. v.counted p);
      sending = λ t.
          at-elim (λ e. Sending e) r (accept x) s t
            (λ e. (accept-fields x (s t) (here t e).0 (v.counted t)).1 (v.sending t))
            (λ e. v.sending t);
    }
