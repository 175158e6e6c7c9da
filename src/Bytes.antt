-- ===== src/Bytes.antt =====
-- lib/string.cpp: the routines on memory and on C strings. A store gives each address its byte. A word
-- of 64 bits is given by its eight bytes in the order of their addresses; a C string is the list of its
-- bytes before the terminating 0. Ranges do not run past the end of the address space.
pub mod Move
pub mod Fills
pub mod Strings
mod Tests
use rucux.Base.{
  ℕ, zero, suc, ◌+◌, ◌-◌, ◌%◌, Bool, true, false, ◌&&◌, ◌||◌, not, List, [], ◌∷◌, ltb, leb, ◌==◌,
  if◌then◌else◌, get_or,
}

abbrev pub Store : Type 0
Store = ℕ → ℕ

abbrev pub write : Store → ℕ → ℕ → Store
write m a v = λ x. if x == a then v else m x

-- Eight bytes at once: all are read before one is written.
abbrev pub load_word : Store → ℕ → ℕ → ℕ
load_word m a = λ i. m (a + i)

abbrev pub store_word : Store → ℕ → (ℕ → ℕ) → Store
store_word m a w = λ x. if leb a x && ltb x (a + 8) then w (x - a) else m x

-- The state of a copy: the store, both pointers and the bytes that are left.
pub record Copy : Type 0 where
  pub mem : Store
  pub d : ℕ
  pub s : ℕ
  pub n : ℕ

-- while (d % 8 != 0 && n > 0)
pub copy_align : Store → ℕ → ℕ → ℕ → Copy
copy_align m d s zero = record { mem = m; d = d; s = s; n = 0 }
copy_align m d s (suc n) = elim (d % 8 == 0) [
  | true ↦ record { mem = m; d = d; s = s; n = suc n }
  | false ↦ copy_align (write m d (m s)) (d + 1) (s + 1) n
]

-- while (n >= 8), with fuel
pub copy_words : ℕ → Store → ℕ → ℕ → ℕ → Copy
copy_words zero m d s n = record { mem = m; d = d; s = s; n = n }
copy_words (suc fuel) m d s n = elim (ltb n 8) [
  | true ↦ record { mem = m; d = d; s = s; n = n }
  | false ↦ copy_words fuel (store_word m d (load_word m s)) (d + 8) (s + 8) (n - 8)
]

-- while (n--)
pub copy_bytes : Store → ℕ → ℕ → ℕ → Store
copy_bytes m d s zero = m
copy_bytes m d s (suc n) = copy_bytes (write m d (m s)) (d + 1) (s + 1) n

unfoldable pub memcpy : Store → ℕ → ℕ → ℕ → Store
memcpy m dest src n =
    if leb 16 n
    then (let a = copy_align m dest src n in
        let w = copy_words (a.n) a.mem a.d a.s a.n in copy_bytes w.mem w.d w.s w.n)
    else copy_bytes m dest src n

-- while (n--) of memmove, downwards from the ends of both ranges.
pub copy_down : Store → ℕ → ℕ → ℕ → Store
copy_down m dest src zero = m
copy_down m dest src (suc n) = copy_down (write m (dest + n) (m (src + n))) dest src n

unfoldable pub memmove : Store → ℕ → ℕ → ℕ → Store
memmove m dest src n =
    if ltb dest src then memcpy m dest src n else if ltb src dest then copy_down m dest src n else m

pub record Fill : Type 0 where
  pub mem : Store
  pub p : ℕ
  pub n : ℕ

pub fill_align : Store → ℕ → ℕ → ℕ → Fill
fill_align m p val zero = record { mem = m; p = p; n = 0 }
fill_align m p val (suc n) = elim (p % 8 == 0) [
  | true ↦ record { mem = m; p = p; n = suc n }
  | false ↦ fill_align (write m p val) (p + 1) val n
]

-- The word val_64 has `val` in each of its bytes.
pub fill_words : ℕ → Store → ℕ → ℕ → ℕ → Fill
fill_words zero m p val n = record { mem = m; p = p; n = n }
fill_words (suc fuel) m p val n = elim (ltb n 8) [
  | true ↦ record { mem = m; p = p; n = n }
  | false ↦ fill_words fuel (store_word m p (λ i. val)) (p + 8) val (n - 8)
]

pub fill_bytes : Store → ℕ → ℕ → ℕ → Store
fill_bytes m p val zero = m
fill_bytes m p val (suc n) = fill_bytes (write m p val) (p + 1) val n

-- `c` is an int that is not negative.
unfoldable pub memset : Store → ℕ → ℕ → ℕ → Store
memset m s c n =
    let val = c % 256 in
    if leb 16 n
    then (let a = fill_align m s val n in
        let w = fill_words (a.n) a.mem a.p val a.n in fill_bytes w.mem w.p val w.n)
    else fill_bytes m s val n
