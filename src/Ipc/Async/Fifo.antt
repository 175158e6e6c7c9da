-- ===== src/Ipc/Async/Fifo.antt =====
-- The ring of messages of src/kernel/ipc/ipc.cpp as a queue.
use rucux.Base.{
  ℕ, zero, suc, ◌+◌, ◌-◌, ◌%◌, ◌<◌, ◌≡◌, ◌≢◌, inl, inr, refl, sym, ap, ◌∙◌, subst, Bool, true,
  false, some, List, [], ◌∷◌, ◌++◌, ◌==◌, if◌then◌else◌, length, arith, Bool-cases, ==_self, ap₂,
  ==→eq,
}
use rucux.Base.Ring.{slot, elements, elements-suc, elements-write}
use rucux.Ipc.{idle, legacy_receive, Message, Endpoint, Threads, at, same_kind, closed, unblock}
use rucux.Ipc.Calls.{async_queue_size, Got, got}
use rucux.Ipc.Complete.{at-elim}
use rucux.Ipc.Async.{next_slot, async_check, deposit, send_async, take_async, receive}

-- The messages in the ring, oldest first.
unfoldable pub waiting : Endpoint → List Message
waiting e =
    elements next_slot e.async_queue e.async_head
      ((e.async_tail + async_queue_size - e.async_head) % async_queue_size)

abbrev pub InRing : Endpoint → Type 0
InRing e = (e.async_head < async_queue_size) × (e.async_tail < async_queue_size)

slot_place : (at k : ℕ) → at < async_queue_size → slot next_slot at k ≡ (at + k) % async_queue_size
slot_place at zero h = omega arith
slot_place at (suc k) h = omega (arith, slot_place (next_slot at) k (omega arith))

-- What is in the ring, from its two ends.
waiting_of :
    (e : Endpoint) (k : ℕ)
    → InRing e
    → k < async_queue_size
    → e.async_tail ≡ (e.async_head + k) % async_queue_size
    → waiting e ≡ elements next_slot e.async_queue e.async_head k
unfolding waiting
waiting_of e k ring small place =
    let same : (e.async_tail + async_queue_size - e.async_head) % async_queue_size ≡ k =
      omega (arith, ring) in
    ap (elements next_slot e.async_queue e.async_head) same

count_of : Endpoint → ℕ
count_of e = (e.async_tail + async_queue_size - e.async_head) % async_queue_size

length-elements : (slots : ℕ → Message) (at k : ℕ) → length (elements next_slot slots at k) ≡ k
length-elements slots at zero = refl
length-elements slots at (suc k) = ap suc (length-elements slots (next_slot at) k)

-- A message of a sender, as it is received.
abbrev pub stamped : ℕ → Message → Message
stamped sender msg = record { sender = sender; kind = msg.kind; bytes = msg.bytes }

deposit-fields :
    (sender : ℕ) (msg : Message) (e : Endpoint)
    → let e' = deposit sender msg e in
      (e'.async_queue ≡ (λ i. if i == e.async_tail then stamped sender msg else e.async_queue i))
      × (e'.async_head ≡ e.async_head)
      × (e'.async_tail ≡ next_slot e.async_tail)
unfolding deposit unblock
deposit-fields sender msg e = elim (Bool-cases (same_kind e.ipc_kind legacy_receive)) [
  | inr other ↦ rw other (refl, refl, refl)
  | inl waits ↦ elim (Bool-cases e.is_terminated) [
    | inl ended ↦ rw (waits, ended) (refl, refl, refl)
    | inr live ↦ rw (waits, live) (refl, refl, refl)
  ]
]

deposit_lem :
    (sender : ℕ) (msg : Message) (e : Endpoint)
    → InRing e
    → next_slot e.async_tail ≢ e.async_head
    → (waiting (deposit sender msg e) ≡ waiting e ++ stamped sender msg ∷ [])
      × InRing (deposit sender msg e)
      × (length (waiting e) < 15)
unfolding count_of
deposit_lem sender msg e ring room =
    let f = deposit-fields sender msg e in
    let e' : Endpoint = deposit sender msg e in
    let h : ℕ = e.async_head in
    let k : ℕ = count_of e in
    let short : k < 15 = omega (arith, ring) in
    let place : e.async_tail ≡ (h + k) % async_queue_size = omega (arith, ring) in
    let old : waiting e ≡ elements next_slot e.async_queue h k =
      waiting_of e k ring (omega arith) place in
    let ring' : InRing e' = omega (arith, ring, f.1, f.2) in
    let slots : ℕ → Message =
      λ i. if i == e.async_tail then stamped sender msg else e.async_queue i in
    let now : waiting e' ≡ elements next_slot slots h (suc k) =
      waiting_of e' (suc k) ring' (omega arith) (omega (arith, f.1, f.2, place))
      ∙ ap₂ (λ q i. elements next_slot q i (suc k)) f.0 f.1 in
    let kept : elements next_slot slots h k ≡ elements next_slot e.async_queue h k =
      elements-write next_slot e.async_queue h k e.async_tail (stamped sender msg)
        (λ j below same. absurd (omega (arith, slot_place h j ring.0, place))) in
    let last : slots (slot next_slot h k) ≡ stamped sender msg =
      ap slots (slot_place h k ring.0 ∙ sym place) ∙ rw (==_self e.async_tail) refl in
    (
      now ∙ elements-suc next_slot slots h k ∙ ap₂ (λ xs x. xs ++ x ∷ []) (kept ∙ sym old) last,
      ring',
      omega (arith, ap (λ (xs : List Message). length xs) old, length-elements e.async_queue h k),
    )

-- What send_async does to the ring of a thread `t`.
pub data Sent (s : Threads) (sender peer t : ℕ) (msg : Message) (r : ℕ × Threads) : Type 0 where
  rejected : r.0 ≢ 0 → r.1 ≡ s → Sent s sender peer t msg r
  joined :
      r.0 ≡ 0
      → length (waiting (s peer)) < 15
      → waiting (r.1 t)
        ≡ (if t == peer then waiting (s t) ++ stamped sender msg ∷ [] else waiting (s t))
      → InRing (r.1 t)
      → Sent s sender peer t msg r

-- A message that is not waited for either is rejected and changes nothing, or it joins the receiver's
-- queue behind all others, stamped with its sender, where fewer than 15 wait; the queues of all other
-- threads stay as they are. It is assumed that the ends of the rings are slots.
pub send_async_refines :
    (s : Threads) (sender peer t : ℕ) (msg : Message)
    → InRing (s peer)
    → InRing (s t)
    → Sent s sender peer t msg (send_async s sender (some peer) msg)
unfolding send_async
send_async_refines s sender peer t msg ring ring' =
    elim (Bool-cases (async_check s sender peer == 0)) [
      | inr bad ↦ rejected (ground arith) (rw (bad, send_async) refl)
      | inl good ↦
          (let room : next_slot (s peer).async_tail ≢ (s peer).async_head =
              unfold async_check in λ e. absurd (ground arith) in
            let d = deposit_lem sender msg (s peer) ring room in
            joined (rw (good, send_async) refl) d.2
              (rw (good, send_async)
                (at-elim
                  (λ e. waiting e ≡ (
                    if t == peer then waiting (s t) ++ stamped sender msg ∷ [] else waiting (s t)))
                  peer (deposit sender msg) s t
                  (λ here. rw here (
                    subst
                      (λ i.
                        waiting (deposit sender msg (s i))
                        ≡ waiting (s i) ++ stamped sender msg ∷ [])
                      (sym (==→eq t peer here)) d.0))
                  (λ there. rw there refl)))
              (rw (good, send_async)
                (at-elim InRing peer (deposit sender msg) s t
                  (λ here.
                    subst (λ i. InRing (deposit sender msg (s i))) (sym (==→eq t peer here)) d.1)
                  (λ there. ring'))))
    ]

-- What taking a message leaves.
abbrev Takes : Endpoint → Message → List Message → Type 0
Takes e m rest =
    ((e.async_head == e.async_tail) ≡ false)
    × ((take_async e).0 ≡ m)
    × (waiting (take_async e).1 ≡ rest)
    × InRing (take_async e).1

take_from :
    (e : Endpoint) (m : Message) (rest : List Message) (k : ℕ)
    → InRing e
    → k < async_queue_size
    → e.async_tail ≡ (e.async_head + k) % async_queue_size
    → elements next_slot e.async_queue e.async_head k ≡ m ∷ rest
    → Takes e m rest
unfolding take_async
take_from e m rest zero ring small place full = absurd (cc)
take_from e m rest (suc k) ring small place full =
    let e' : Endpoint = record e { async_head = next_slot e.async_head } in
    let ring' : InRing e' = (omega arith, ring.1) in
    let left : elements next_slot e.async_queue (next_slot e.async_head) k ≡ rest = ground arith in
    (
      ground (arith, ring),
      ground arith,
      waiting_of e' k ring' (omega arith) (omega (arith, place, ring)) ∙ left,
      ring',
    )

-- A receiver that may receive and for which messages wait takes the oldest, and leaves the others.
pub receive_refines :
    (s : Threads) (receiver : ℕ) (late : Bool) (m : Message) (rest : List Message)
    → closed (s receiver) ≡ false
    → (s receiver).fatal_signal_pending ≡ false
    → same_kind (s receiver).ipc_kind idle ≡ true
    → InRing (s receiver)
    → waiting (s receiver) ≡ m ∷ rest
    → ((receive s receiver late).0 ≡ got m)
      × (waiting ((receive s receiver late).1 receiver) ≡ rest)
      × InRing ((receive s receiver late).1 receiver)
unfolding receive
receive_refines s receiver late m rest live safe is_idle ring full =
    let e : Endpoint = s receiver in
    let k : ℕ = (e.async_tail + async_queue_size - e.async_head) % async_queue_size in
    let place : e.async_tail ≡ (e.async_head + k) % async_queue_size = omega (arith, ring) in
    let t : Takes e m rest =
      take_from e m rest k ring (omega arith) place
        (sym (waiting_of e k ring (omega arith) place) ∙ full) in
    let result : receive s receiver late
        ≡ (got (take_async e).0, at receiver (λ _. (take_async e).1) s) =
      rw (live, safe, is_idle, t.0, receive) refl in
    let here : at receiver (λ _. (take_async e).1) s receiver ≡ (take_async e).1 =
      rw (==_self receiver) refl in
    subst
      (λ (r : Got Message × Threads).
        (r.0 ≡ got m) × (waiting (r.1 receiver) ≡ rest) × InRing (r.1 receiver))
      (sym result)
      (ap (λ (x : Message). got x) t.1, ap waiting here ∙ t.2, subst InRing (sym here) t.3)
