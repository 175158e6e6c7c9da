-- ===== src/Ipc/Complete.antt =====
-- The endpoints after complete of src/kernel/ipc/ipc.cpp.
use rucux.Base.{
  ℕ, ◌≤◌, ◌≡◌, inl, inr, refl, sym, ap, ◌∙◌, subst, Bool, true, false, none, some, ◌==◌,
  if◌then◌else◌, length, arith, Bool-cases, Option-cases, ==→eq,
}
use rucux.Ipc.{
  Endpoint, Threads, at, is, has, unpin, unblock, unlink_request, release, finish, complete,
}
use rucux.Ipc.Owned.{refs, points, is_sending, Sending, IsValid, release-refs, release-counted}

-- What complete leaves alone.
pub record Kept (e e' : Endpoint) : Type 0 where
  pub kind : e'.ipc_kind ≡ e.ipc_kind
  pub creds : e'.creds ≡ e.creds
  pub flag : e'.ipc_closed ≡ e.ipc_closed
  pub fatal : e'.fatal_signal_pending ≡ e.fatal_signal_pending
  pub regs : e'.ipc_regs ≡ e.ipc_regs

pub Kept-refl : (e : Endpoint) → Kept e e
Kept-refl e = record { kind = refl; creds = refl; flag = refl; fatal = refl; regs = refl }

Kept-unpin : {e e' : Endpoint} → Kept e e' → Kept e (unpin e')
Kept-unpin k = record {
  kind = k.kind;
  creds = k.creds;
  flag = k.flag;
  fatal = k.fatal;
  regs = k.regs;
}

pub Kept-trans : {e f g : Endpoint} → Kept e f → Kept f g → Kept e g
Kept-trans a b = record {
  kind = b.kind ∙ a.kind;
  creds = b.creds ∙ a.creds;
  flag = b.flag ∙ a.flag;
  fatal = b.fatal ∙ a.fatal;
  regs = b.regs ∙ a.regs;
}

-- The endpoints after the request of `x` to `q` is completed.
abbrev pub completed : ℕ → ℕ → ℕ → Bool → Threads → Threads
completed x q result c s = at x (λ e. unpin (finish result e)) (at q (λ e. unpin (release x c e)) s)

pub complete-completed :
    (x q result : ℕ) (c : Bool) (s : Threads)
    → (s x).ipc_peer ≡ some q
    → complete x result c s ≡ completed x q result c s
unfolding complete
complete-completed x q result c s e = rw (e, complete) refl

pub complete_nothing :
    (x result : ℕ) (c : Bool) (s : Threads) → (s x).ipc_peer ≡ none → complete x result c s ≡ s
unfolding complete
complete_nothing x result c s e = rw (e, complete) refl

finish-fields :
    (result : ℕ) (e : Endpoint)
    → ((finish result e).send_queue ≡ e.send_queue)
      × ((finish result e).ipc_caller ≡ e.ipc_caller)
      × ((finish result e).ipc_queue_count ≡ e.ipc_queue_count)
      × ((finish result e).ipc_peer ≡ none)
      × ((finish result e).ipc_result ≡ some result)
      × Kept e (finish result e)
unfolding finish unblock
finish-fields result e = elim (Bool-cases e.is_terminated) [
  | inl ended ↦ rw ended (
    refl,
    refl,
    refl,
    refl,
    refl,
    record { kind = refl; creds = refl; flag = refl; fatal = refl; regs = refl },
  )
  | inr live ↦ rw live (
    refl,
    refl,
    refl,
    refl,
    refl,
    record { kind = refl; creds = refl; flag = refl; fatal = refl; regs = refl },
  )
]

pub release-fields :
    (x : ℕ) (c : Bool) (e : Endpoint)
    → ((release x c e).ipc_peer ≡ e.ipc_peer)
      × ((release x c e).ipc_result ≡ e.ipc_result)
      × Kept e (release x c e)
unfolding release unlink_request
release-fields x c e = elim (Bool-cases (is e.ipc_caller x)) [
  | inl mine ↦
      rw mine
        (refl, refl, record { kind = refl; creds = refl; flag = refl; fatal = refl; regs = refl })
  | inr queued ↦ elim (Bool-cases (has x e.send_queue)) [
    | inl present ↦
        rw (queued, present)
          (refl, refl, record { kind = refl; creds = refl; flag = refl; fatal = refl; regs = refl })
    | inr absent ↦
        rw (queued, absent)
          (refl, refl, record { kind = refl; creds = refl; flag = refl; fatal = refl; regs = refl })
  ]
]

-- A property of an endpoint after a change of endpoint `t`.
pub at-elim {κ} :
    (P : Endpoint → Type κ) (t : ℕ) (f : Endpoint → Endpoint) (s : Threads) (p : ℕ)
    → ((p == t) ≡ true → P (f (s p)))
    → ((p == t) ≡ false → P (s p))
    → P (at t f s p)
at-elim P t f s p here there = elim (Bool-cases (p == t)) [
  | inl e ↦ rw e (here e)
  | inr e ↦ rw e (there e)
]

module _ (x q result : ℕ) (c : Bool) (s : Threads) where
  -- The endpoint before the sender's own change.
  abbrev middle : Threads
  middle = at q (λ e. unpin (release x c e)) s

  completed-refs :
      (p t : ℕ)
      → refs (completed x q result c s p) t
        ≡ (if p == q then refs (release x c (s p)) t else refs (s p) t)
  completed-refs p t =
      let mid : refs (middle p) t ≡ (if p == q then refs (release x c (s p)) t else refs (s p) t) =
        elim (Bool-cases (p == q)) [ inl e ↦ rw e refl | inr e ↦ rw e refl ] in
      at-elim (λ e. refs e t ≡ (if p == q then refs (release x c (s p)) t else refs (s p) t)) x
        (λ e. unpin (finish result e)) middle p
        (λ here. let f = finish-fields result (middle p) in ground (arith, mid, f.0, f.1))
        (λ there. mid)

  completed-points :
      (p t : ℕ) → points (completed x q result c s t) p ≡ (if t == x then 0 else points (s t) p)
  completed-points p t =
      let mid : points (middle t) p ≡ points (s t) p =
        at-elim (λ e. points e p ≡ points (s t) p) q (λ e. unpin (release x c e)) s t
          (λ here. ap (λ o. if is o p then 1 else 0) (release-fields x c (s t)).0)
          (λ there. refl) in
      at-elim (λ e. points e p ≡ (if t == x then 0 else points (s t) p)) x
        (λ e. unpin (finish result e)) middle t
        (λ here. rw here (ap (λ o. if is o p then 1 else 0) (finish-fields result (middle t)).3))
        (λ there. rw there mid)

  completed-Kept : (p : ℕ) → Kept (s p) (completed x q result c s p)
  completed-Kept p =
      let mid : Kept (s p) (middle p) =
        at-elim (λ e. Kept (s p) e) q (λ e. unpin (release x c e)) s p
          (λ here. Kept-unpin (release-fields x c (s p)).2) (λ there. Kept-refl (s p)) in
      at-elim (λ e. Kept (s p) e) x (λ e. unpin (finish result e)) middle p
        (λ here. Kept-unpin (Kept-trans mid (finish-fields result (middle p)).5)) (λ there. mid)

  completed-counted :
      (p : ℕ)
      → ((s p).ipc_queue_count ≡ length (s p).send_queue) × ((s p).ipc_queue_count ≤ 64)
      → ((completed x q result c s p).ipc_queue_count
          ≡ length (completed x q result c s p).send_queue)
        × ((completed x q result c s p).ipc_queue_count ≤ 64)
  completed-counted p k =
      let mid : ((middle p).ipc_queue_count ≡ length (middle p).send_queue)
          × ((middle p).ipc_queue_count ≤ 64) =
        at-elim (λ e. (e.ipc_queue_count ≡ length e.send_queue) × (e.ipc_queue_count ≤ 64)) q
          (λ e. unpin (release x c e)) s p (λ here. release-counted x c (s p) k) (λ there. k) in
      at-elim (λ e. (e.ipc_queue_count ≡ length e.send_queue) × (e.ipc_queue_count ≤ 64)) x
        (λ e. unpin (finish result e)) middle p
        (λ here. let f = finish-fields result (middle p) in ground (arith, mid, f.0, f.2))
        (λ there. mid)

  completed-sending : (t : ℕ) → Sending (s t) → Sending (completed x q result c s t)
  completed-sending t k =
      at-elim (λ e. Sending e) x (λ e. unpin (finish result e)) middle t
        (λ here. inl (finish-fields result (middle t)).3)
        (λ there.
          at-elim (λ e. Sending e) q (λ e. unpin (release x c e)) s t
            (λ here.
              let f = release-fields x c (s t) in
              elim k [
                | inl n ↦ inl (f.0 ∙ n)
                | inr (kind, pending) ↦ inr (ap (λ i. is_sending i) f.2.kind ∙ kind, f.1 ∙ pending)
              ])
            (λ there. k))

  completed-owned :
      IsValid s
      → (s x).ipc_peer ≡ some q
      → (p t : ℕ) → refs (completed x q result c s p) t ≡ points (completed x q result c s t) p
  completed-owned v e p t =
      let a = completed-refs p t in
      let b = completed-points p t in
      let o = v.owned p t in
      elim (Bool-cases (p == q)) [
        | inl here ↦
            (let one : refs (s p) x ≡ 1 = v.owned p x ∙ ground arith in
              ground (arith, a, b, o, release-refs x t c (s p) one))
        | inr there ↦ elim (Bool-cases (t == x)) [
          | inl mine ↦
              (let none_here : points (s t) p ≡ 0 =
                  ap (λ i. points (s i) p) (==→eq t x mine) ∙ ground arith in
                ground (arith, a, b, o, none_here))
          | inr other ↦ ground (arith, a, b, o)
        ]
      ]

-- Completing a request, or nothing, keeps the endpoints in order.
pub complete-IsValid :
    (x result : ℕ) (c : Bool) (s : Threads) → IsValid s → IsValid (complete x result c s)
complete-IsValid x result c s v = elim (Option-cases (s x).ipc_peer) [
  | inl e ↦ subst IsValid (sym (complete_nothing x result c s e)) v
  | inr (q, e) ↦ subst IsValid (sym (complete-completed x q result c s e)) (record {
    owned = completed-owned x q result c s v e;
    counted = λ p. completed-counted x q result c s p (v.counted p);
    sending = λ t. completed-sending x q result c s t (v.sending t);
  })
]

pub complete-Kept :
    (x result : ℕ) (c : Bool) (s : Threads) (p : ℕ) → Kept (s p) (complete x result c s p)
complete-Kept x result c s p = elim (Option-cases (s x).ipc_peer) [
  | inl e ↦
      subst (λ (z : Threads). Kept (s p) (z p)) (sym (complete_nothing x result c s e))
        (Kept-refl (s p))
  | inr (q, e) ↦
      subst (λ (z : Threads). Kept (s p) (z p)) (sym (complete-completed x q result c s e))
        (completed-Kept x q result c s p)
]

-- Afterwards the sender waits for no one.
pub complete-peer :
    (x result : ℕ) (c : Bool) (s : Threads) → (complete x result c s x).ipc_peer ≡ none
complete-peer x result c s = elim (Option-cases (s x).ipc_peer) [
  | inl e ↦ ap (λ (z : Threads). (z x).ipc_peer) (complete_nothing x result c s e) ∙ e
  | inr (q, e) ↦
      ap (λ (z : Threads). (z x).ipc_peer) (complete-completed x q result c s e)
      ∙ at-elim (λ y. y.ipc_peer ≡ none) x (λ y. unpin (finish result y)) (middle x q result c s) x
          (λ here. (finish-fields result (middle x q result c s x)).3)
          (λ there. absurd (ground arith))
]

release_no_caller :
    (x : ℕ) (c : Bool) (e : Endpoint) → e.ipc_caller ≡ none → (release x c e).ipc_caller ≡ none
unfolding release unlink_request
release_no_caller x c e free = elim (Bool-cases (has x e.send_queue)) [
  | inl present ↦ ground arith
  | inr absent ↦ ground arith
]

completed-caller :
    (x q result : ℕ) (c : Bool) (s : Threads) (p : ℕ)
    → (s p).ipc_caller ≡ none
    → (completed x q result c s p).ipc_caller ≡ none
completed-caller x q result c s p free =
    let mid : (middle x q result c s p).ipc_caller ≡ none =
      at-elim (λ e. e.ipc_caller ≡ none) q (λ e. unpin (release x c e)) s p
        (λ here. release_no_caller x c (s p) free) (λ there. free) in
    at-elim (λ e. e.ipc_caller ≡ none) x (λ e. unpin (finish result e)) (middle x q result c s) p
      (λ here. (finish-fields result (middle x q result c s p)).1 ∙ mid) (λ there. mid)

pub complete-caller :
    (x result : ℕ) (c : Bool) (s : Threads) (p : ℕ)
    → (s p).ipc_caller ≡ none
    → (complete x result c s p).ipc_caller ≡ none
complete-caller x result c s p free = elim (Option-cases (s x).ipc_peer) [
  | inl e ↦ ap (λ (z : Threads). (z p).ipc_caller) (complete_nothing x result c s e) ∙ free
  | inr (q, e) ↦
      ap (λ (z : Threads). (z p).ipc_caller) (complete-completed x q result c s e)
      ∙ completed-caller x q result c s p free
]
