-- ===== src/Bytes/Strings/Terminated.antt =====
-- memcmp, strlen and strcpy of lib/string.cpp on ranges and terminated strings.
use rucux.Base.{
  ℕ, zero, suc, ◌+◌, ◌≤◌, ◌<◌, ◌≡◌, ◌≢◌, refl, ap, sym, ◌∙◌, ◌⊎◌, inl, inr, arith, ◌==◌, Bool-cases,
  ==→eq, ap₂,
}
use rucux.Bytes.{Store, write}
use rucux.Bytes.Move.{moved, moved_again, write-moved}
use rucux.Bytes.Strings.{minus, memcmp, strlen, strcpy}

-- The first `n` bytes at both places are the same.
abbrev pub Same : Store → ℕ → ℕ → ℕ → Type 0
Same m p q zero = Unit {0}
Same m p q (suc n) = (m p ≡ m q) × Same m (p + 1) (q + 1) n

-- A string of `k` bytes and its terminator.
abbrev pub Str : Store → ℕ → ℕ → Type 0
Str m p zero = m p ≡ 0
Str m p (suc k) = (m p ≢ 0) × Str m (p + 1) k

-- The first difference of two ranges.
pub record Differs (m : Store) (p q n : ℕ) : Type 0 where
  pub k : ℕ
  pub within : k < n
  pub same_before : Same m p q k
  pub differ : m (p + k) ≢ m (q + k)
  pub result : memcmp m p q n ≡ minus (m (p + k)) (m (q + k))

-- memcmp gives 0 where the two ranges have the same bytes, and otherwise the difference of the first
-- two bytes that differ.
pub memcmp_lem : (m : Store) (p q n : ℕ) → ((memcmp m p q n ≡ 0) × Same m p q n) ⊎ Differs m p q n
unfolding memcmp
memcmp_lem m p q zero = inl (refl, tt)
memcmp_lem m p q (suc n) = elim (Bool-cases (m p == m q)) [
  | inr e ↦
      let at_p : m (p + 0) ≡ m p = ap m {x = p + 0} {y = p} (omega arith) in
      let at_q : m (q + 0) ≡ m q = ap m {x = q + 0} {y = q} (omega arith) in
      inr (record {
        k = 0;
        within = omega arith;
        same_before = tt;
        differ = ground (arith, at_p, at_q);
        result = ground (arith, sym (ap₂ minus at_p at_q));
      })
  | inl e ↦ elim (memcmp_lem m (p + 1) (q + 1) n) [
    | inl (z, same) ↦ inl (ground arith, (==→eq (m p) (m q) e, same))
    | inr d ↦
        let at_p : m (p + suc d.k) ≡ m (p + 1 + d.k) =
          ap m {x = p + suc d.k} {y = p + 1 + d.k} (omega arith) in
        let at_q : m (q + suc d.k) ≡ m (q + 1 + d.k) =
          ap m {x = q + suc d.k} {y = q + 1 + d.k} (omega arith) in
        let rest : memcmp m p q (suc n) ≡ memcmp m (p + 1) (q + 1) n = ground arith in
        inr (record {
          k = suc d.k;
          within = omega (arith, d.within);
          same_before = (==→eq (m p) (m q) e, d.same_before);
          differ = λ z. d.differ (sym at_p ∙ z ∙ at_q);
          result = rest ∙ d.result ∙ sym (ap₂ minus at_p at_q);
        })
  ]
]

-- strlen counts the bytes before the terminator.
strlen_lem : (fuel : ℕ) (m : Store) (p k : ℕ) → Str m p k → k < fuel → strlen fuel m p ≡ k
unfolding strlen
strlen_lem zero m p k s h = absurd (omega arith)
strlen_lem (suc fuel) m p zero s h = ground arith
strlen_lem (suc fuel) m p (suc k) s h =
    ground (arith, s.0, strlen_lem fuel m (p + 1) k s.1 (omega arith))

-- A write below a string leaves the string.
Str-write : (m : Store) (d v p k : ℕ) → d < p → Str m p k → Str (write m d v) p k
Str-write m d v p zero h s = ground arith
Str-write m d v p (suc k) h s = (ground (arith, s.0), Str-write m d v (p + 1) k (omega arith) s.1)

strcpy-moved :
    (fuel : ℕ) (m : Store) (d s k x : ℕ)
    → Str m s k
    → k < fuel
    → d ≤ s
    → strcpy fuel m d s x ≡ moved m d s (suc k) x
unfolding strcpy
strcpy-moved zero m d s k x str h low = absurd (omega arith)
strcpy-moved (suc fuel) m d s zero x str h low =
    let result : strcpy (suc fuel) m d s ≡ write m d (m s) = ground arith in
    ap (λ (f : Store). f x) result ∙ write-moved m d s x
strcpy-moved (suc fuel) m d s (suc k) x str h low =
    let m' = write m d (m s) in
    let result : strcpy (suc fuel) m d s ≡ strcpy fuel m' (d + 1) (s + 1) = ground (arith, str.0) in
    ap (λ (f : Store). f x) result
    ∙ strcpy-moved fuel m' (d + 1) (s + 1) k x (Str-write m d (m s) (s + 1) k (omega arith) str.1)
        (omega arith) (omega arith)
    ∙ moved_again m m' d s 1 (suc k) x (write-moved m d s) low
    ∙ ap (λ (n : ℕ). moved m d s n x) {x = 1 + suc k} {y = suc (suc k)} (omega arith)

-- strcpy moves a string of `k` bytes with its terminator, as many as strlen counts and one more, and
-- leaves every other byte, where the destination is not behind the source.
pub strcpy_lem :
    (fuel : ℕ) (m : Store) (d s k x : ℕ)
    → Str m s k
    → k < fuel
    → d ≤ s
    → strcpy fuel m d s x ≡ moved m d s (strlen fuel m s + 1) x
strcpy_lem fuel m d s k x str h low =
    let count : suc k ≡ strlen fuel m s + 1 = omega (arith, strlen_lem fuel m s k str h) in
    strcpy-moved fuel m d s k x str h low ∙ ap (λ (n : ℕ). moved m d s n x) count
