-- ===== src/Net/Netbuf/Window.antt =====
-- Bytes at an offset of a packet buffer (src/kernel/net/netbuf.cpp).
use rucux.Base.{
  ℕ, zero, suc, ◌+◌, ◌≤◌, ◌<◌, ◌≡◌, refl, ap, List, [], ◌∷◌, arith, length, get_or, ◌++◌, ap₂, sym,
  ◌∙◌,
}

-- `n` bytes from offset `s` on.
abbrev pub window : List ℕ → ℕ → ℕ → List ℕ
window bs s zero = []
window [] s (suc n) = []
window (b ∷ bs) zero (suc n) = b ∷ window bs zero n
window (b ∷ bs) (suc s) (suc n) = window bs s (suc n)

-- The bytes `vs` written over those at offset `s`.
abbrev pub store : List ℕ → ℕ → List ℕ → List ℕ
store bs zero [] = bs
store bs (suc s) [] = bs
store [] zero (v ∷ vs) = []
store [] (suc s) (v ∷ vs) = []
store (b ∷ bs) zero (v ∷ vs) = v ∷ store bs zero vs
store (b ∷ bs) (suc s) (v ∷ vs) = b ∷ store bs s (v ∷ vs)

pub length-store : (bs : List ℕ) (s : ℕ) (vs : List ℕ) → length (store bs s vs) ≡ length bs
length-store bs zero [] = refl
length-store bs (suc s) [] = refl
length-store [] zero (v ∷ vs) = refl
length-store [] (suc s) (v ∷ vs) = refl
length-store (b ∷ bs) zero (v ∷ vs) = ap suc (length-store bs zero vs)
length-store (b ∷ bs) (suc s) (v ∷ vs) = ap suc (length-store bs s (v ∷ vs))

pub window-store :
    (bs : List ℕ) (s : ℕ) (vs : List ℕ)
    → s + length vs ≤ length bs
    → window (store bs s vs) s (length vs) ≡ vs
window-store bs s [] h = refl
window-store [] zero (v ∷ vs) h = absurd (omega arith)
window-store [] (suc s) (v ∷ vs) h = absurd (omega arith)
window-store (b ∷ bs) zero (v ∷ vs) h = ap (◌∷◌ v) (window-store bs zero vs (omega arith))
window-store (b ∷ bs) (suc s) (v ∷ vs) h = window-store bs s (v ∷ vs) (omega arith)

-- The place `t` is given by an equation, since `s + length vs` does not compute.
pub window-store_after :
    (bs : List ℕ) (s : ℕ) (vs : List ℕ) (t n : ℕ)
    → t ≡ s + length vs
    → window (store bs s vs) t n ≡ window bs t n
window-store_after bs s vs t zero e = refl
window-store_after bs zero [] t (suc n) e = refl
window-store_after bs (suc s) [] t (suc n) e = refl
window-store_after [] zero (v ∷ vs) t (suc n) e = refl
window-store_after [] (suc s) (v ∷ vs) t (suc n) e = refl
window-store_after (b ∷ bs) zero (v ∷ vs) zero (suc n) e = absurd (omega arith)
window-store_after (b ∷ bs) zero (v ∷ vs) (suc t) (suc n) e =
    window-store_after bs zero vs t (suc n) (omega arith)
window-store_after (b ∷ bs) (suc s) (v ∷ vs) zero (suc n) e = absurd (omega arith)
window-store_after (b ∷ bs) (suc s) (v ∷ vs) (suc t) (suc n) e =
    window-store_after bs s (v ∷ vs) t (suc n) (omega arith)

pub get_or-store :
    (bs : List ℕ) (s i t : ℕ) (vs : List ℕ)
    → s + length vs ≤ length bs
    → i < length vs
    → t ≡ s + i
    → get_or (store bs s vs) t 0 ≡ get_or vs i 0
get_or-store bs s i t [] h k e = absurd (omega arith)
get_or-store [] s i t (v ∷ vs) h k e = absurd (omega arith)
get_or-store (b ∷ bs) zero zero zero (v ∷ vs) h k e = refl
get_or-store (b ∷ bs) zero zero (suc t) (v ∷ vs) h k e = absurd (omega arith)
get_or-store (b ∷ bs) zero (suc i) zero (v ∷ vs) h k e = absurd (omega arith)
get_or-store (b ∷ bs) zero (suc i) (suc t) (v ∷ vs) h k e =
    get_or-store bs zero i t vs (omega arith) (omega arith) (omega arith)
get_or-store (b ∷ bs) (suc s) i zero (v ∷ vs) h k e = absurd (omega arith)
get_or-store (b ∷ bs) (suc s) i (suc t) (v ∷ vs) h k e =
    get_or-store bs s i t (v ∷ vs) (omega arith) k (omega arith)

pub window-window :
    (bs : List ℕ) (s m i n : ℕ)
    → i + n ≤ m
    → (t : ℕ) → t ≡ s + i
    → window (window bs s m) i n ≡ window bs t n
window-window bs s m i zero h t e = refl
window-window bs s zero i (suc n) h t e = absurd (omega arith)
window-window [] s (suc m) zero (suc n) h t e = refl
window-window [] s (suc m) (suc i) (suc n) h t e = refl
window-window (b ∷ bs) zero (suc m) zero (suc n) h zero e =
    ap (◌∷◌ b) (window-window bs zero m zero n (omega arith) zero (omega arith))
window-window (b ∷ bs) zero (suc m) zero (suc n) h (suc t) e = absurd (omega arith)
window-window (b ∷ bs) zero (suc m) (suc i) (suc n) h zero e = absurd (omega arith)
window-window (b ∷ bs) zero (suc m) (suc i) (suc n) h (suc t) e =
    window-window bs zero m i (suc n) (omega arith) t (omega arith)
window-window (b ∷ bs) (suc s) (suc m) i (suc n) h zero e = absurd (omega arith)
window-window (b ∷ bs) (suc s) (suc m) i (suc n) h (suc t) e =
    window-window bs s (suc m) i (suc n) h t (omega arith)

pub get_or-window :
    (bs : List ℕ) (s m i t : ℕ) → i < m → t ≡ s + i → get_or bs t 0 ≡ get_or (window bs s m) i 0
get_or-window bs s zero i t h e = absurd (omega arith)
get_or-window [] s (suc m) i t h e = refl
get_or-window (b ∷ bs) zero (suc m) zero zero h e = refl
get_or-window (b ∷ bs) zero (suc m) zero (suc t) h e = absurd (omega arith)
get_or-window (b ∷ bs) zero (suc m) (suc i) zero h e = absurd (omega arith)
get_or-window (b ∷ bs) zero (suc m) (suc i) (suc t) h e =
    get_or-window bs zero m i t (omega arith) (omega arith)
get_or-window (b ∷ bs) (suc s) (suc m) i zero h e = absurd (omega arith)
get_or-window (b ∷ bs) (suc s) (suc m) i (suc t) h e =
    get_or-window bs s (suc m) i t h (omega arith)

pub window_whole : (bs : List ℕ) → window bs 0 (length bs) ≡ bs
window_whole [] = refl
window_whole (b ∷ bs) = ap (◌∷◌ b) (window_whole bs)

window-nil : (t m : ℕ) → window [] t m ≡ []
window-nil t zero = refl
window-nil t (suc m) = refl

window-cons : (b : ℕ) (bs : List ℕ) (t m : ℕ) → window (b ∷ bs) (suc t) m ≡ window bs t m
window-cons b bs t zero = refl
window-cons b bs t (suc m) = refl

-- A window is the window of its first `n` bytes and that of the `m` bytes behind them.
pub window-append :
    (bs : List ℕ) (s n m t k : ℕ)
    → t ≡ s + n
    → k ≡ n + m
    → window bs s k ≡ window bs s n ++ window bs t m
window-append bs s zero m t k e f = ap₂ (λ a b. window bs a b) (omega arith) (omega arith)
window-append bs s (suc n) m t zero e f = absurd (omega arith)
window-append [] s (suc n) m t (suc k) e f = sym (window-nil t m)
window-append (b ∷ bs) zero (suc n) m zero (suc k) e f = absurd (omega arith)
window-append (b ∷ bs) zero (suc n) m (suc t) (suc k) e f = ap (◌∷◌ b) (
    window-append bs zero n m t k (omega arith) (omega arith)
    ∙ ap (λ w. window bs zero n ++ w) (sym (window-cons b bs t m)))
window-append (b ∷ bs) (suc s) (suc n) m zero (suc k) e f = absurd (omega arith)
window-append (b ∷ bs) (suc s) (suc n) m (suc t) (suc k) e f =
    window-append bs s (suc n) m t (suc k) (omega arith) (omega arith)
    ∙ ap (λ w. window bs s (suc n) ++ w) (sym (window-cons b bs t m))

pub window_behind : (xs ys : List ℕ) (n : ℕ) → window (xs ++ ys) (length xs) n ≡ window ys 0 n
window_behind [] ys n = refl
window_behind (x ∷ xs) ys n = window-cons x (xs ++ ys) (length xs) n ∙ window_behind xs ys n
