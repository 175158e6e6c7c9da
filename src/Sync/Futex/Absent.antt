-- ===== src/Sync/Futex/Absent.antt =====
-- The waiters of one thread in a bucket of src/kernel/sync/futex.cpp.
use rucux.Base.{
  ℕ, zero, suc, ◌≢◌, List, [], ◌∷◌, ◌==◌, if◌then◌else◌, arith, Bool-cases, All, inl, inr,
}
use rucux.Sync.Futex.{Waiter, unlink, matches, wake_loop}

-- No waiter of the thread.
abbrev pub Absent : ℕ → List Waiter → Type 0
Absent t ws = All (λ w. w.thread ≢ t) ws

-- One waiter of the thread at most.
abbrev pub Once : ℕ → List Waiter → Type 0
Once t [] = Unit
Once t (w ∷ ws) = if w.thread == t then Absent t ws else Once t ws

pub Absent-Once : (t : ℕ) (ws : List Waiter) → Absent t ws → Once t ws
Absent-Once t [] h = tt
Absent-Once t (w ∷ ws) (apart, h) = elim (Bool-cases (w.thread == t)) [
  | inl same ↦ absurd (apart (ground arith))
  | inr other ↦ rw other (Absent-Once t ws h)
]

pub unlink-Absent : (t u : ℕ) (ws : List Waiter) → Absent t ws → Absent t (unlink u ws)
unfolding unlink
unlink-Absent t u [] h = tt
unlink-Absent t u (w ∷ ws) (apart, h) = elim (Bool-cases (w.thread == u)) [
  | inl same ↦ rw same h
  | inr other ↦ rw other (apart, unlink-Absent t u ws h)
]

pub unlink-Once : (t u : ℕ) (ws : List Waiter) → Once t ws → Once t (unlink u ws)
unfolding unlink
unlink-Once t u [] h = tt
unlink-Once t u (w ∷ ws) h = elim (Bool-cases (w.thread == u)) [
  | inl same ↦ rw same (elim (Bool-cases (w.thread == t)) [
    | inl mine ↦ Absent-Once t ws (rw mine at h)
    | inr other ↦ rw other at h
  ])
  | inr apart ↦ rw apart (elim (Bool-cases (w.thread == t)) [
    | inl mine ↦ rw mine (unlink-Absent t u ws (rw mine at h))
    | inr other ↦ rw other (unlink-Once t u ws (rw other at h))
  ])
]

pub unlink_gone : (t : ℕ) (ws : List Waiter) → Once t ws → Absent t (unlink t ws)
unfolding unlink
unlink_gone t [] h = tt
unlink_gone t (w ∷ ws) h = elim (Bool-cases (w.thread == t)) [
  | inl mine ↦ rw mine (rw mine at h)
  | inr other ↦ rw other ((λ e. absurd (ground arith)), unlink_gone t ws (rw other at h))
]

pub kept-Absent :
    (t s a : ℕ) (ws : List Waiter) (count : ℕ) → Absent t ws → Absent t (wake_loop s a ws count).1
unfolding wake_loop
kept-Absent t s a [] count h = tt
kept-Absent t s a (w ∷ ws) zero h = h
kept-Absent t s a (w ∷ ws) (suc count) (apart, h) = elim (Bool-cases (matches s a w)) [
  | inl hit ↦ rw hit (kept-Absent t s a ws count h)
  | inr miss ↦ rw miss (apart, kept-Absent t s a ws (suc count) h)
]

pub kept-Once :
    (t s a : ℕ) (ws : List Waiter) (count : ℕ) → Once t ws → Once t (wake_loop s a ws count).1
unfolding wake_loop
kept-Once t s a [] count h = tt
kept-Once t s a (w ∷ ws) zero h = h
kept-Once t s a (w ∷ ws) (suc count) h = elim (Bool-cases (w.thread == t)) [
  | inl mine ↦ elim (Bool-cases (matches s a w)) [
    | inl hit ↦
        rw hit
          (Absent-Once t (wake_loop s a ws count).1 (kept-Absent t s a ws count (rw mine at h)))
    | inr miss ↦ rw (miss, mine) (kept-Absent t s a ws (suc count) (rw mine at h))
  ]
  | inr other ↦ elim (Bool-cases (matches s a w)) [
    | inl hit ↦ rw hit (kept-Once t s a ws count (rw other at h))
    | inr miss ↦ rw (miss, other) (kept-Once t s a ws (suc count) (rw other at h))
  ]
]
