-- ===== src/Net/Netbuf/Laws.antt =====
-- The invariant of a packet buffer of src/kernel/net/netbuf.cpp, and sequences of its operations.
use rucux.Base.{ℕ, ◌+◌, ◌≤◌, ◌≡◌, ◌⊎◌, none, some, List, [], ◌∷◌, arith, length}
use rucux.Net.Netbuf.{Netbuf, headroom, max_size, alloc, push, pull, put, set_len, capacity}

-- [start, start + len) lies in the block of `total_size` bytes that was allocated.
pub record IsValid (b : Netbuf) : Type 0 where
  pub block : length b.bytes ≡ b.total_size
  pub inside : b.start + b.len ≤ b.total_size
  pub sized : b.total_size ≤ max_size

-- A buffer that is allocated in a block of the size asked for is valid and empty, with all its
-- capacity behind the headroom.
pub alloc-IsValid :
    (n : ℕ) (raw : List ℕ) (b : Netbuf)
    → length raw ≡ n
    → alloc n (some raw) ≡ some b
    → IsValid b × (b.len ≡ 0) × (b.start ≡ headroom) × (capacity b + headroom ≡ n)
unfolding alloc capacity
alloc-IsValid n raw b h e = ground arith

pub push-IsValid : (b : Netbuf) (n : ℕ) → IsValid b → IsValid (push b n).1
unfolding push
push-IsValid b n v = ground arith

pub pull-IsValid : (b : Netbuf) (n : ℕ) → IsValid b → IsValid (pull b n).1
unfolding pull
pull-IsValid b n v = ground arith

pub put-IsValid : (b : Netbuf) (n : ℕ) → IsValid b → IsValid (put b n).1
unfolding put
put-IsValid b n v = ground arith

pub set_len-IsValid : (b : Netbuf) (n : ℕ) → IsValid b → IsValid (set_len b n).1
unfolding set_len
set_len-IsValid b n v = ground arith

-- The operations on a buffer.
pub data Op : Type 0 where
  pushes pulls puts sets : ℕ → Op

unfoldable pub step : Netbuf → Op → Netbuf
step b (pushes n) = (push b n).1
step b (pulls n) = (pull b n).1
step b (puts n) = (put b n).1
step b (sets n) = (set_len b n).1

unfoldable pub run : Netbuf → List Op → Netbuf
run b [] = b
run b (o ∷ os) = run (step b o) os

step-IsValid : (b : Netbuf) (o : Op) → IsValid b → IsValid (step b o)
unfolding step
step-IsValid b (pushes n) v = push-IsValid b n v
step-IsValid b (pulls n) v = pull-IsValid b n v
step-IsValid b (puts n) v = put-IsValid b n v
step-IsValid b (sets n) v = set_len-IsValid b n v

-- No sequence of push, pull, put and set_len takes the data of a valid buffer out of its block.
pub run-IsValid : (b : Netbuf) (os : List Op) → IsValid b → IsValid (run b os)
unfolding run
run-IsValid b [] v = v
run-IsValid b (o ∷ os) v = run-IsValid (step b o) os (step-IsValid b o v)

-- A header that was pushed is pulled again to give the buffer back, and the other way round; what
-- does not fit is refused and changes nothing.
pub push-pull :
    (b : Netbuf) (n : ℕ)
    → ((push b n ≡ (none, b)) ⊎ ((pull (push b n).1 n ≡ (some b.start, b))))
      × ((pull b n ≡ (none, b)) ⊎ ((push (pull b n).1 n ≡ (some b.start, b))))
unfolding push pull
push-pull b n = ground arith
