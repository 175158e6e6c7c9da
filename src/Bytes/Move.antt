-- ===== src/Bytes/Move.antt =====
-- memcpy and memmove of lib/string.cpp: every byte of the store afterwards.
use rucux.Base.{
  ℕ, zero, suc, ◌+◌, ◌-◌, ◌%◌, ◌≤◌, ◌<◌, ◌≡◌, refl, ap, sym, ◌∙◌, ◌&&◌, inl, inr, arith, ltb, leb,
  ◌==◌, if◌then◌else◌, Bool-cases, subst, ap₂,
}
use rucux.Bytes.{
  Store, write, load_word, store_word, Copy, copy_align, copy_words, copy_bytes, memcpy, copy_down,
  memmove,
}

-- The byte at `x` once `n` bytes at `s` were moved to `d`.
abbrev pub moved : Store → ℕ → ℕ → ℕ → ℕ → ℕ
moved m d s n x = if leb d x && ltb x (d + n) then m (s + (x - d)) else m x

-- Moving a first part of `k` bytes to a lower address leaves the rest of the source.
pub moved_again :
    (m m' : Store) (d s k n x : ℕ)
    → ((y : ℕ) → m' y ≡ moved m d s k y)
    → d ≤ s
    → moved m' (d + k) (s + k) n x ≡ moved m d s (k + n) x
moved_again m m' d s k n x h low =
    let source : d + k ≤ x → s + k + (x - (d + k)) ≡ s + (x - d) = λ p. omega arith in
    let later = h (s + k + (x - (d + k))) in
    let kept : d + k ≤ x → m' (s + k + (x - (d + k))) ≡ m (s + (x - d)) =
      λ p. ground (arith, later, ap m (source p)) in
    ground (arith, h x, kept)

-- A copy on its way: `k` bytes are moved, and the pointers and the count stand behind them.
record Partly (m : Store) (d s n : ℕ) (c : Copy) : Type 0 where
  k : ℕ
  at_d : c.d ≡ d + k
  at_s : c.s ≡ s + k
  left : k + c.n ≡ n
  bytes : (y : ℕ) → c.mem y ≡ moved m d s k y

unmoved : (m : Store) (d s n : ℕ) → Partly m d s n (record { mem = m; d = d; s = s; n = n })
unmoved m d s n = record {
  k = 0;
  at_d = omega arith;
  at_s = omega arith;
  left = omega arith;
  bytes = λ y. ground arith;
}

-- A first move of `j` bytes, then a copy on its way from there.
further :
    (m m' : Store) (d s j n r : ℕ) (c : Copy)
    → ((y : ℕ) → m' y ≡ moved m d s j y)
    → d ≤ s
    → j + r ≡ n
    → Partly m' (d + j) (s + j) r c
    → Partly m d s n c
further m m' d s j n r c h low e q = record {
  k = j + q.k;
  at_d = omega (arith, q.at_d);
  at_s = omega (arith, q.at_s);
  left = omega (arith, q.left);
  bytes = λ y. q.bytes y ∙ moved_again m m' d s j q.k y h low;
}

pub write-moved : (m : Store) (d s y : ℕ) → write m d (m s) y ≡ moved m d s 1 y
write-moved m d s y =
    let same : y ≡ d → s + (y - d) ≡ s = λ e. omega arith in
    let source : y ≡ d → m (s + (y - d)) ≡ m s = λ e. ap m (same e) in ground (arith, source)

copy_align-Partly : (m : Store) (d s n : ℕ) → d ≤ s → Partly m d s n (copy_align m d s n)
unfolding copy_align
copy_align-Partly m d s zero low = unmoved m d s 0
copy_align-Partly m d s (suc n) low = elim (Bool-cases (d % 8 == 0)) [
  | inl e ↦
      let result : copy_align m d s (suc n) ≡ record { mem = m; d = d; s = s; n = suc n } =
        ground arith in
      subst (Partly m d s (suc n)) (sym result) (unmoved m d s (suc n))
  | inr e ↦
      let result : copy_align m d s (suc n) ≡ copy_align (write m d (m s)) (d + 1) (s + 1) n =
        ground arith in
      subst (Partly m d s (suc n)) (sym result) (
        further m (write m d (m s)) d s 1 (suc n) n _ (write-moved m d s) low (omega arith)
          (copy_align-Partly (write m d (m s)) (d + 1) (s + 1) n (omega arith)))
]

copy_words-Partly :
    (fuel : ℕ) (m : Store) (d s n : ℕ) → d ≤ s → Partly m d s n (copy_words fuel m d s n)
unfolding copy_words
copy_words-Partly zero m d s n low = unmoved m d s n
copy_words-Partly (suc fuel) m d s n low =
    let m' = store_word m d (load_word m s) in
    elim (Bool-cases (ltb n 8)) [
      | inl e ↦
          let result : copy_words (suc fuel) m d s n ≡ record { mem = m; d = d; s = s; n = n } =
            ground arith in
          subst (Partly m d s n) (sym result) (unmoved m d s n)
      | inr e ↦
          let result : copy_words (suc fuel) m d s n ≡ copy_words fuel m' (d + 8) (s + 8) (n - 8) =
            ground arith in
          subst (Partly m d s n) (sym result) (
            further m m' d s 8 n (n - 8) _ (λ y. refl) low (ground arith)
              (copy_words-Partly fuel m' (d + 8) (s + 8) (n - 8) (omega arith)))
    ]

copy_bytes_lem : (m : Store) (d s n x : ℕ) → d ≤ s → copy_bytes m d s n x ≡ moved m d s n x
unfolding copy_bytes
copy_bytes_lem m d s zero x low = ground arith
copy_bytes_lem m d s (suc n) x low =
    copy_bytes_lem (write m d (m s)) (d + 1) (s + 1) n x (omega arith)
    ∙ moved_again m (write m d (m s)) d s 1 n x (write-moved m d s) low
    ∙ ap (λ (k : ℕ). moved m d s k x) (omega arith)

-- The bytes that are left finish a copy on its way.
finish :
    (m : Store) (d s n x : ℕ) (c : Copy)
    → d ≤ s
    → Partly m d s n c
    → copy_bytes c.mem c.d c.s c.n x ≡ moved m d s n x
finish m d s n x c low q =
    copy_bytes_lem c.mem c.d c.s c.n x (omega (arith, q.at_d, q.at_s))
    ∙ ap₂ (λ (a b : ℕ). moved c.mem a b c.n x) q.at_d q.at_s
    ∙ moved_again m c.mem d s q.k c.n x q.bytes low
    ∙ ap (λ (k : ℕ). moved m d s k x) q.left

-- Two parts of a copy on its way, one after the other.
both :
    (m : Store) (d s n : ℕ) (a c : Copy)
    → d ≤ s
    → Partly m d s n a
    → Partly a.mem a.d a.s a.n c
    → Partly m d s n c
both m d s n a c low p q = further m a.mem d s p.k n a.n c p.bytes low p.left (
    subst (λ (t : ℕ). Partly a.mem t (s + p.k) a.n c) p.at_d
      (subst (λ (t : ℕ). Partly a.mem a.d t a.n c) p.at_s q))

-- memcpy is right also on overlapping ranges when it copies downwards.
memcpy_lem : (m : Store) (d s n x : ℕ) → d ≤ s → memcpy m d s n x ≡ moved m d s n x
unfolding memcpy
memcpy_lem m d s n x low = elim (Bool-cases (leb 16 n)) [
  | inl e ↦
      let a = copy_align m d s n in
      let w = copy_words a.n a.mem a.d a.s a.n in
      let result : memcpy m d s n ≡ copy_bytes w.mem w.d w.s w.n = ground arith in
      let first = copy_align-Partly m d s n low in
      let second =
        copy_words-Partly a.n a.mem a.d a.s a.n (omega (arith, first.at_d, first.at_s)) in
      ap (λ (f : Store). f x) result ∙ finish m d s n x w low (both m d s n a w low first second)
  | inr e ↦
      let result : memcpy m d s n ≡ copy_bytes m d s n = ground arith in
      ap (λ (f : Store). f x) result ∙ copy_bytes_lem m d s n x low
]

copy_down_lem : (m : Store) (d s n x : ℕ) → s ≤ d → copy_down m d s n x ≡ moved m d s n x
unfolding copy_down
copy_down_lem m d s zero x low = ground arith
copy_down_lem m d s (suc n) x low =
    let m' = write m (d + n) (m (s + n)) in
    let ih = copy_down_lem m' d s n x low in
    let below : x < d + n → m' (s + (x - d)) ≡ m (s + (x - d)) = λ p. ground arith in
    let top : x ≡ d + n → m (s + (x - d)) ≡ m (s + n) = λ p. ap m (omega arith) in
    ground (arith, ih, below, top)

-- memmove gives each of the `n` bytes at `dest` the byte that stood at its place from `src` on, and
-- leaves every other byte, however the two ranges overlap.
pub memmove_lem :
    (m : Store) (dest src n x : ℕ)
    → memmove m dest src n x
      ≡ (if leb dest x && ltb x (dest + n) then m (src + (x - dest)) else m x)
unfolding memmove
memmove_lem m dest src n x = elim (Bool-cases (ltb dest src)) [
  | inl e ↦ ground (arith, memcpy_lem m dest src n x)
  | inr e ↦ elim (Bool-cases (ltb src dest)) [
    | inl e' ↦ ground (arith, copy_down_lem m dest src n x)
    | inr e' ↦
        let here : dest ≤ x → m (src + (x - dest)) ≡ m x = λ p. ap m (ground arith) in
        ground (arith, here)
  ]
]
