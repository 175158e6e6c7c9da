-- ===== src/Base/Ring.antt =====
-- A ring of slots: the elements from a slot on, where `next` gives the slot behind a slot.
use Prim.Native.Nat.{ℕ, zero, suc, ◌<◌}
use mathlib.Core.Path.{◌≡◌, refl, ap}
use mathlib.Core.Logic.{◌≢◌}
use mathlib.Core.List.{List, [], ◌∷◌, ◌++◌}
use native.Mathlib.Omega.{arith}
use rucux.Base.Tests.{◌==◌, if◌then◌else◌}

-- The slot `k` places behind a slot.
abbrev pub slot : (ℕ → ℕ) → ℕ → ℕ → ℕ
slot next at zero = at
slot next at (suc k) = slot next (next at) k

module _ {ℓ} {A : Type ℓ} (next : ℕ → ℕ) where
  abbrev pub elements : (ℕ → A) → ℕ → ℕ → List A
  elements slots at zero = []
  elements slots at (suc k) = slots at ∷ elements slots (next at) k

  pub elements-suc :
      (slots : ℕ → A) (at k : ℕ)
      → elements slots at (suc k) ≡ elements slots at k ++ slots (slot next at k) ∷ []
  elements-suc slots at zero = refl
  elements-suc slots at (suc k) = ap (◌∷◌ (slots at)) (elements-suc slots (next at) k)

  -- A write to a slot that is none of the `k` changes none of them.
  pub elements-write :
      (slots : ℕ → A) (at k i : ℕ) (v : A)
      → ((j : ℕ) → j < k → slot next at j ≢ i)
      → elements (λ x. if x == i then v else slots x) at k ≡ elements slots at k
  elements-write slots at zero i v apart = refl
  elements-write slots at (suc k) i v apart =
      let here : at ≢ i = apart 0 (omega arith) in
      ground (arith, elements-write slots (next at) k i v (λ j h. apart (suc j) (omega arith)))
