-- ===== src/Vfs/Tty/Ring.antt =====
-- The queue that the ring of src/kernel/vfs/tty.cpp holds.
use rucux.Base.{
  ℕ, zero, suc, ◌+◌, ◌-◌, ◌%◌, ◌<◌, ◌≡◌, ◌≢◌, refl, ap, ◌∙◌, true, List, [], ◌∷◌, ◌++◌, arith, ◌==◌,
  if◌then◌else◌, length,
}
use rucux.Vfs.Tty.{buf_size, next, Tty, buf_count, canonical}
use rucux.Vfs.Tty.Queue.{lines}

-- `k` characters from the tail on, oldest first.
unfoldable pub from : (ℕ → ℕ) → ℕ → ℕ → List ℕ
from rx_buf tail zero = []
from rx_buf tail (suc k) = rx_buf tail ∷ from rx_buf (next tail) k

unfoldable pub contents : Tty → List ℕ
contents s = from s.rx_buf s.rx_tail (buf_count s)

pub length-from : (rx_buf : ℕ → ℕ) (tail k : ℕ) → length (from rx_buf tail k) ≡ k
unfolding from
length-from rx_buf tail zero = refl
length-from rx_buf tail (suc k) = ap suc (length-from rx_buf (next tail) k)

pub from-suc :
    (rx_buf : ℕ → ℕ) (tail k : ℕ)
    → tail < buf_size
    → from rx_buf tail (suc k) ≡ from rx_buf tail k ++ rx_buf ((tail + k) % buf_size) ∷ []
unfolding from
from-suc rx_buf tail zero small = ground arith
from-suc rx_buf tail (suc k) small =
    let place : (next tail + k) % buf_size ≡ (tail + suc k) % buf_size = omega arith in
    ap (λ r. rx_buf tail ∷ r)
      (from-suc rx_buf (next tail) k (omega arith)
        ∙ ap (λ i. from rx_buf (next tail) k ++ rx_buf i ∷ []) place)

-- A write at a place that is not among the `k` changes none of them.
pub from-write :
    (rx_buf : ℕ → ℕ) (tail k p c : ℕ)
    → tail < buf_size
    → (j : ℕ) → k + j < buf_size
    → p ≡ (tail + k + j) % buf_size
    → from (λ i. if i == p then c else rx_buf i) tail k ≡ from rx_buf tail k
unfolding from
from-write rx_buf tail zero p c small j room place = refl
from-write rx_buf tail (suc k) p c small j room place =
    let apart : tail ≢ p = λ e. omega arith in
    ground (arith, from-write rx_buf (next tail) k p c (omega arith) j (omega arith) (omega arith))

-- A terminal that was in canonical mode all the time: the lines available are the delimiters in the
-- ring.
pub record IsValid (s : Tty) : Type 0 where
  pub canon : canonical s ≡ true
  pub head_small : s.rx_head < buf_size
  pub tail_small : s.rx_tail < buf_size
  pub counted : s.lines_available ≡ lines (contents s)

pub contents_of :
    (s : Tty) (k : ℕ)
    → s.rx_tail < buf_size
    → k < buf_size
    → s.rx_head ≡ (s.rx_tail + k) % buf_size
    → contents s ≡ from s.rx_buf s.rx_tail k
unfolding contents buf_count
contents_of s k small room place =
    let count : (s.rx_head + buf_size - s.rx_tail) % buf_size ≡ k = omega arith in
    ap (from s.rx_buf s.rx_tail) count

pub head_of :
    (s : Tty)
    → s.rx_head < buf_size
    → s.rx_tail < buf_size
    → (buf_count s < buf_size) × (s.rx_head ≡ (s.rx_tail + buf_count s) % buf_size)
unfolding buf_count
head_of s head_small tail_small = omega arith
