-- ===== src/Scheduler/RunQueue/Refines.antt =====
-- The list that the linked queue of src/kernel/scheduler/dispatch.cpp represents.
use rucux.Base.{
  ℕ, ◌+◌, ◌-◌, ◌≡◌, ◌≢◌, refl, ap, sym, ◌∙◌, ◌⊎◌, inl, inr, Option, none, some, List, [], ◌∷◌, ◌++◌,
  arith, length, length-append, All, subst,
}
use rucux.Scheduler.RunQueue.{RunQueue, Links, link, enqueue, dequeue}
use rucux.Scheduler.Dispatch.Valid.{NoDup, NoDup-append}

-- The links lead from `h` through the threads of the list and end there.
abbrev pub Chain : Links → Option ℕ → List ℕ → Type 0
Chain next h [] = h ≡ none
Chain next h (x ∷ xs) = (h ≡ some x) × Chain next (next x) xs

abbrev pub last : List ℕ → Option ℕ
last [] = none
last (x ∷ xs) = elim xs [ [] ↦ some x | _ ∷ _ ↦ last xs ]

pub record Represents (next : Links) (q : RunQueue) (xs : List ℕ) : Type 0 where
  pub chain : Chain next q.head xs
  pub ends : q.tail ≡ last xs
  pub once : NoDup xs
  pub counted : q.count ≡ length xs

Chain-link :
    (next : Links) (h v : Option ℕ) (t : ℕ) (xs : List ℕ)
    → All (λ x. x ≢ t) xs
    → Chain next h xs
    → Chain (link next t v) h xs
Chain-link next h v t [] out c = c
Chain-link next h v t (x ∷ xs) out c =
    let same : next x ≡ link next t v x = ground (arith, out.0) in
    (
      c.0,
      Chain-link next (link next t v x) v t xs out.1
          (subst (λ (o : Option ℕ). Chain next o xs) same c.1),
    )

last-All : (P : ℕ → Type 0) (xs : List ℕ) (l : ℕ) → All P xs → last xs ≡ some l → P l
last-All P [] l h e = cc
last-All P (x ∷ []) l h e = let same : x ≡ l = ground arith in subst P same h.0
last-All P (x ∷ y ∷ r) l h e = last-All P (y ∷ r) l h.1 e

Chain-append :
    (next : Links) (h : Option ℕ) (t l : ℕ) (xs : List ℕ)
    → Chain next h xs
    → NoDup xs
    → All (λ x. x ≢ t) xs
    → next t ≡ none
    → last xs ≡ some l
    → Chain (link next l (some t)) h (xs ++ t ∷ [])
Chain-append next h t l [] c d out z e = cc
Chain-append next h t l (x ∷ []) c d out z e =
    let same : x ≡ l = ground arith in (c.0, (ground (arith, same), ground (arith, same, out.0)))
Chain-append next h t l (x ∷ y ∷ r) c d out z e =
    let other : x ≢ l = last-All (λ w. x ≢ w) (y ∷ r) l d.0 e in
    let keep : next x ≡ link next l (some t) x = ground (arith, other) in
    (
      c.0,
      subst (λ (o : Option ℕ). Chain (link next l (some t)) o (y ∷ r ++ t ∷ [])) keep
          (Chain-append next (next x) t l (y ∷ r) c.1 d.1 out.1 z e),
    )

last-append : (xs : List ℕ) (t : ℕ) → last (xs ++ t ∷ []) ≡ some t
last-append [] t = refl
last-append (x ∷ []) t = refl
last-append (x ∷ y ∷ r) t = last-append (y ∷ r) t

last-some : (x : ℕ) (xs : List ℕ) → (l : ℕ) × (last (x ∷ xs) ≡ some l)
last-some x [] = (x, refl)
last-some x (y ∷ r) = last-some y r

length_more : (xs : List ℕ) (t n : ℕ) → n ≡ length xs → n + 1 ≡ length (xs ++ t ∷ [])
length_more xs t n h = omega (arith, length-append xs (t ∷ []))

-- enqueue puts a thread that is not in the queue at its end.
enqueue_refines :
    (next : Links) (q : RunQueue) (t : ℕ) (xs : List ℕ)
    → Represents next q xs
    → All (λ x. x ≢ t) xs
    → Represents (enqueue next q t).0 (enqueue next q t).1 (xs ++ t ∷ [])
unfolding enqueue
enqueue_refines next q t [] r out =
    let result : enqueue next q t
        ≡ (link next t none, record { head = some t; tail = some t; count = q.count + 1 }) =
      ground (arith, r.ends) in
    subst (λ (p : Links × RunQueue). Represents p.0 p.1 (t ∷ [])) (sym result)
      (record {
        chain = (refl, ground arith);
        ends = refl;
        once = (tt, tt);
        counted = omega (arith, r.counted);
      })
enqueue_refines next q t (x ∷ xs) r out =
    let (l, e) = last-some x xs in
    let tail_at : q.tail ≡ some l = r.ends ∙ e in
    let result : enqueue next q t ≡ (
      link (link next t none) l (some t),
      record { head = q.head; tail = some t; count = q.count + 1 },
    ) =
      ground (arith, tail_at) in
    subst (λ (p : Links × RunQueue). Represents p.0 p.1 (x ∷ xs ++ t ∷ [])) (sym result)
      (record {
        chain =
            Chain-append (link next t none) q.head t l (x ∷ xs)
              (Chain-link next q.head none t (x ∷ xs) out r.chain) r.once out (ground arith) e;
        ends = sym (last-append (x ∷ xs) t);
        once = NoDup-append (x ∷ xs) t r.once out;
        counted = length_more (x ∷ xs) t q.count r.counted;
      })

flip-All : (x : ℕ) (xs : List ℕ) → All (λ y. x ≢ y) xs → All (λ y. y ≢ x) xs
flip-All x [] h = tt
flip-All x (y ∷ r) h = ((λ e. h.0 (sym e)), flip-All x r h.1)

tail_left :
    (next : Links) (q : RunQueue) (x : ℕ) (r : List ℕ)
    → Chain next (next x) r
    → q.tail ≡ last (x ∷ r)
    → elim (next x) [ none ↦ none | some _ ↦ q.tail ] ≡ last r
tail_left next q x [] c e = ground arith
tail_left next q x (y ∷ r) c e = ground (arith, c.0)

-- dequeue gives nothing exactly from an empty queue, and else takes the first thread.
pub dequeue_refines :
    (next : Links) (q : RunQueue) (xs : List ℕ)
    → Represents next q xs
    → ((xs ≡ []) × (dequeue next q ≡ (none, next, q)))
      ⊎ ((t : ℕ) × (r : List ℕ) × (xs ≡ t ∷ r)
          × ((dequeue next q).0 ≡ some t)
          × Represents (dequeue next q).1 (dequeue next q).2 r)
unfolding dequeue
dequeue_refines next q [] rep = inl (refl, ground (arith, rep.chain))
dequeue_refines next q (t ∷ r) rep =
    let front : q.head ≡ some t = rep.chain.0 in
    let q' : RunQueue = record {
      head = next t;
      tail = elim (next t) [ none ↦ none | some _ ↦ q.tail ];
      count = q.count - 1;
    } in
    let result : dequeue next q ≡ (some t, link next t none, q') = ground (arith, front) in
    inr (
      t,
      r,
      refl,
      ap (λ p. p.0) result,
      subst (λ (p : Option ℕ × Links × RunQueue). Represents p.1 p.2 r) (sym result)
          (record {
            chain = Chain-link next (next t) none t r (flip-All t r rep.once.0) rep.chain.1;
            ends = tail_left next q t r rep.chain.1 rep.ends;
            once = rep.once.1;
            counted = omega (arith, rep.counted);
          }),
    )
