-- ===== src/Net/Netbuf.antt =====
-- src/kernel/net/netbuf.cpp and src/include/kernel/net/netbuf.hpp: a packet in one block of memory
-- with headroom in front. `start` is data_ - buf_, `bytes` is the memory from buf_ on. kmalloc is
-- given: `none` where it fails, else the memory as it is found.
pub mod Laws
pub mod Window
mod Tests
use rucux.Base.{
  ℕ, zero, suc, ◌+◌, ◌-◌, ◌^◌, ◌≤◌, ◌≡◌, Bool, true, false, ◌||◌, Option, none, some, List, [], ◌∷◌,
  ltb, if◌then◌else◌, length,
}

pub record Netbuf : Type 0 where
  pub bytes : List ℕ
  pub start : ℕ
  pub len : ℕ
  pub total_size : ℕ
  pub src_ip : ℕ
  pub dst_ip : ℕ
  pub src_port : ℕ
  pub dst_port : ℕ
  pub protocol : ℕ

abbrev pub default_size : ℕ
default_size = 2048

abbrev pub headroom : ℕ
headroom = 128

-- SIZE_MAX - sizeof(netbuf) on a 64-bit target, where the struct has 64 bytes.
abbrev pub max_size : ℕ
max_size = 2 ^ 64 - 1 - 64

unfoldable pub alloc : ℕ → Option (List ℕ) → Option Netbuf
alloc total_size raw =
    if ltb total_size headroom || ltb max_size total_size then none else elim raw [
      | none ↦ none
      | some bytes ↦ some (record {
        bytes = bytes;
        start = headroom;
        len = 0;
        total_size = total_size;
        src_ip = 0;
        dst_ip = 0;
        src_port = 0;
        dst_port = 0;
        protocol = 0;
      })
    ]

-- A pointer that comes back is its offset from buf_; a null pointer is `none`.
unfoldable pub push : Netbuf → ℕ → Option ℕ × Netbuf
push b size =
    if ltb b.start size
    then (none, b)
    else (some (b.start - size), record b { start = b.start - size; len = b.len + size })

unfoldable pub pull : Netbuf → ℕ → Option ℕ × Netbuf
pull b size =
    if ltb b.len size
    then (none, b)
    else (some (b.start + size), record b { start = b.start + size; len = b.len - size })

unfoldable pub put : Netbuf → ℕ → Option ℕ × Netbuf
put b size =
    if ltb (b.total_size - b.start - b.len) size
    then (none, b)
    else (some (b.start + b.len), record b { len = b.len + size })

unfoldable pub set_len : Netbuf → ℕ → Bool × Netbuf
set_len b len =
    if ltb (b.total_size - b.start) len then (false, b) else (true, record b { len = len })

unfoldable pub capacity : Netbuf → ℕ
capacity b = b.total_size - headroom
