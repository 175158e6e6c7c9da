-- ===== src/Bytes/Fills.antt =====
-- memset of lib/string.cpp: every byte of the store afterwards.
use rucux.Base.{
  ℕ, zero, suc, ◌+◌, ◌-◌, ◌%◌, ◌≡◌, refl, ap, sym, ◌∙◌, ◌&&◌, inl, inr, arith, ltb, leb, ◌==◌,
  if◌then◌else◌, Bool-cases, subst,
}
use rucux.Bytes.{Store, write, store_word, Fill, fill_align, fill_words, fill_bytes, memset}

-- The byte at `x` once the `n` bytes at `p` were filled.
abbrev filled : Store → ℕ → ℕ → ℕ → ℕ → ℕ
filled m p v n x = if leb p x && ltb x (p + n) then v else m x

filled_again :
    (m m' : Store) (p v k n x : ℕ)
    → ((y : ℕ) → m' y ≡ filled m p v k y)
    → filled m' (p + k) v n x ≡ filled m p v (k + n) x
filled_again m m' p v k n x h = ground (arith, h x)

-- Filling on its way: `k` bytes are filled, and the pointer and the count stand behind them.
record Partly (m : Store) (p v n : ℕ) (c : Fill) : Type 0 where
  k : ℕ
  at_p : c.p ≡ p + k
  left : k + c.n ≡ n
  bytes : (y : ℕ) → c.mem y ≡ filled m p v k y

untouched : (m : Store) (p v n : ℕ) → Partly m p v n (record { mem = m; p = p; n = n })
untouched m p v n = record {
  k = 0;
  at_p = omega arith;
  left = omega arith;
  bytes = λ y. ground arith;
}

further :
    (m m' : Store) (p v j n r : ℕ) (c : Fill)
    → ((y : ℕ) → m' y ≡ filled m p v j y)
    → j + r ≡ n
    → Partly m' (p + j) v r c
    → Partly m p v n c
further m m' p v j n r c h e q = record {
  k = j + q.k;
  at_p = omega (arith, q.at_p);
  left = omega (arith, q.left);
  bytes = λ y. q.bytes y ∙ filled_again m m' p v j q.k y h;
}

write-filled : (m : Store) (p v y : ℕ) → write m p v y ≡ filled m p v 1 y
write-filled m p v y = ground arith

fill_align-Partly : (m : Store) (p v n : ℕ) → Partly m p v n (fill_align m p v n)
unfolding fill_align
fill_align-Partly m p v zero = untouched m p v 0
fill_align-Partly m p v (suc n) = elim (Bool-cases (p % 8 == 0)) [
  | inl e ↦
      let result : fill_align m p v (suc n) ≡ record { mem = m; p = p; n = suc n } = ground arith in
      subst (Partly m p v (suc n)) (sym result) (untouched m p v (suc n))
  | inr e ↦
      let result : fill_align m p v (suc n) ≡ fill_align (write m p v) (p + 1) v n = ground arith in
      subst (Partly m p v (suc n)) (sym result) (
        further m (write m p v) p v 1 (suc n) n _ (write-filled m p v) (omega arith)
          (fill_align-Partly (write m p v) (p + 1) v n))
]

fill_words-Partly : (fuel : ℕ) (m : Store) (p v n : ℕ) → Partly m p v n (fill_words fuel m p v n)
unfolding fill_words
fill_words-Partly zero m p v n = untouched m p v n
fill_words-Partly (suc fuel) m p v n =
    let m' = store_word m p (λ i. v) in
    elim (Bool-cases (ltb n 8)) [
      | inl e ↦
          let result : fill_words (suc fuel) m p v n ≡ record { mem = m; p = p; n = n } =
            ground arith in
          subst (Partly m p v n) (sym result) (untouched m p v n)
      | inr e ↦
          let result : fill_words (suc fuel) m p v n ≡ fill_words fuel m' (p + 8) v (n - 8) =
            ground arith in
          subst (Partly m p v n) (sym result) (
            further m m' p v 8 n (n - 8) _ (λ y. refl) (ground arith)
              (fill_words-Partly fuel m' (p + 8) v (n - 8)))
    ]

fill_bytes_lem : (m : Store) (p v n x : ℕ) → fill_bytes m p v n x ≡ filled m p v n x
unfolding fill_bytes
fill_bytes_lem m p v zero x = ground arith
fill_bytes_lem m p v (suc n) x =
    fill_bytes_lem (write m p v) (p + 1) v n x
    ∙ filled_again m (write m p v) p v 1 n x (write-filled m p v)
    ∙ ap (λ (k : ℕ). filled m p v k x) (omega arith)

finish :
    (m : Store) (p v n x : ℕ) (c : Fill)
    → Partly m p v n c
    → fill_bytes c.mem c.p v c.n x ≡ filled m p v n x
finish m p v n x c q =
    fill_bytes_lem c.mem c.p v c.n x
    ∙ ap (λ (a : ℕ). filled c.mem a v c.n x) q.at_p
    ∙ filled_again m c.mem p v q.k c.n x q.bytes
    ∙ ap (λ (k : ℕ). filled m p v k x) q.left

both :
    (m : Store) (p v n : ℕ) (a c : Fill)
    → Partly m p v n a
    → Partly a.mem a.p v a.n c
    → Partly m p v n c
both m p v n a c f q =
    further m a.mem p v f.k n a.n c f.bytes f.left
      (subst (λ (t : ℕ). Partly a.mem t v a.n c) f.at_p q)

-- memset gives each of the `n` bytes from `s` on the low byte of `c`, and leaves every other byte.
pub memset_lem :
    (m : Store) (s c n x : ℕ)
    → memset m s c n x ≡ (if leb s x && ltb x (s + n) then c % 256 else m x)
unfolding memset
memset_lem m s c n x = elim (Bool-cases (leb 16 n)) [
  | inl e ↦
      let v = c % 256 in
      let a = fill_align m s v n in
      let w = fill_words a.n a.mem a.p v a.n in
      let result : memset m s c n ≡ fill_bytes w.mem w.p v w.n = ground arith in
      ap (λ (f : Store). f x) result
      ∙ finish m s v n x w
          (both m s v n a w (fill_align-Partly m s v n) (fill_words-Partly a.n a.mem a.p v a.n))
  | inr e ↦
      let v = c % 256 in
      let result : memset m s c n ≡ fill_bytes m s v n = ground arith in
      ap (λ (f : Store). f x) result ∙ fill_bytes_lem m s v n x
]
