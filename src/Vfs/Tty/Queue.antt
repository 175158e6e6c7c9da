-- ===== src/Vfs/Tty/Queue.antt =====
-- What a terminal in canonical mode promises (src/kernel/vfs/tty.cpp): a queue of characters, oldest
-- first, that is edited behind its last delimiter and read in front.
use rucux.Base.{
  ℕ, zero, suc, ◌+◌, ◌≡◌, refl, false, ◌||◌, List, [], ◌∷◌, ◌++◌, arith, ltb, ◌==◌, if◌then◌else◌,
  length,
}
use rucux.Vfs.Tty.{is_delimiter}

unfoldable pub erase_last : List ℕ → List ℕ
erase_last [] = []
erase_last (x ∷ []) = if is_delimiter x then x ∷ [] else []
erase_last (x ∷ y ∷ r) = x ∷ erase_last (y ∷ r)

abbrev pub cons_line : ℕ → List ℕ → List ℕ
cons_line x [] = []
cons_line x (y ∷ r) = x ∷ y ∷ r

-- Up to the last delimiter.
unfoldable pub complete : List ℕ → List ℕ
complete [] = []
complete (x ∷ r) = let rest = complete r in if is_delimiter x then x ∷ rest else cons_line x rest

unfoldable pub lines : List ℕ → ℕ
lines [] = 0
lines (x ∷ r) = (if is_delimiter x then 1 else 0) + lines r

-- A line holds 1022 characters and its delimiter.
unfoldable pub type_char : List ℕ → ℕ → List ℕ
type_char q c =
    if c == 21
    then complete q
    else if c == 127 || c == 8
    then erase_last q
    else if ltb (length q) (if is_delimiter c then 1023 else 1022)
    then q ++ c ∷ []
    else q

-- The characters that a read of `size` takes from the first line, and what it leaves. An end of
-- transmission is taken and not given.
unfoldable pub read_line : ℕ → List ℕ → List ℕ × List ℕ
read_line zero q = ([], q)
read_line (suc size) [] = ([], [])
read_line (suc size) (x ∷ r) =
    let (out, rest) = read_line size r in
    if x == 4 then ([], r) else if x == 10 then (x ∷ [], r) else (x ∷ out, rest)

pub erase_last-snoc :
    (q : List ℕ) (c : ℕ) → erase_last (q ++ c ∷ []) ≡ (if is_delimiter c then q ++ c ∷ [] else q)
unfolding erase_last
erase_last-snoc [] c = refl
erase_last-snoc (x ∷ []) c = ground arith
erase_last-snoc (x ∷ y ∷ r) c = ground (arith, erase_last-snoc (y ∷ r) c)

cons_line-snoc : (x : ℕ) (q : List ℕ) (c : ℕ) → cons_line x (q ++ c ∷ []) ≡ x ∷ q ++ c ∷ []
cons_line-snoc x [] c = refl
cons_line-snoc x (y ∷ r) c = refl

pub complete-snoc :
    (q : List ℕ) (c : ℕ)
    → complete (q ++ c ∷ []) ≡ (if is_delimiter c then q ++ c ∷ [] else complete q)
unfolding complete
complete-snoc [] c = ground arith
complete-snoc (x ∷ r) c = ground (arith, complete-snoc r c, cons_line-snoc x r c)

pub lines-snoc :
    (q : List ℕ) (c : ℕ) → lines (q ++ c ∷ []) ≡ lines q + (if is_delimiter c then 1 else 0)
unfolding lines
lines-snoc [] c = ground arith
lines-snoc (x ∷ r) c = ground (arith, lines-snoc r c)

lines-cons_line : (x : ℕ) (q : List ℕ) → is_delimiter x ≡ false → lines (cons_line x q) ≡ lines q
unfolding lines
lines-cons_line x [] e = refl
lines-cons_line x (y ∷ r) e = ground arith

pub lines-complete : (q : List ℕ) → lines (complete q) ≡ lines q
unfolding lines complete
lines-complete [] = refl
lines-complete (x ∷ r) = ground (arith, lines-complete r, lines-cons_line x (complete r))

pub lines-erase_last : (q : List ℕ) → lines (erase_last q) ≡ lines q
unfolding lines erase_last
lines-erase_last [] = refl
lines-erase_last (x ∷ []) = ground arith
lines-erase_last (x ∷ y ∷ r) = ground (arith, lines-erase_last (y ∷ r))
