-- ===== src/Libc/Ctype/Classes.antt =====
-- How the character classes of libc/src/ctype.cpp partition the characters.
use rucux.Base.{ℕ, ◌+◌, ◌≡◌, false, ◌==◌, if◌then◌else◌, arith}
use rucux.Libc.Ctype.{
  isalpha, isdigit, isupper, islower, isascii, iscntrl, ispunct, toupper, tolower,
}

-- Every ASCII character is exactly one of a letter, a digit, a punctuation mark, the space and a
-- control character, and no other character is any of them.
pub classes_partition :
    (c : ℕ)
    → (if isalpha c then 1 else 0)
        + (if isdigit c then 1 else 0)
        + (if ispunct c then 1 else 0)
        + (if c == 32 then 1 else 0)
        + (if iscntrl c then 1 else 0)
      ≡ (if isascii c then 1 else 0)
unfolding isalpha isdigit ispunct iscntrl isascii
classes_partition c = ground arith

-- The two case maps undo each other: each keeps the letters, leaves none of the other case, and does
-- not depend on the case that it is given.
pub case_maps :
    (c : ℕ)
    → (toupper (tolower c) ≡ toupper c)
      × (tolower (toupper c) ≡ tolower c)
      × (islower (toupper c) ≡ false)
      × (isupper (tolower c) ≡ false)
      × (isalpha (toupper c) ≡ isalpha c)
      × (isalpha (tolower c) ≡ isalpha c)
unfolding toupper tolower islower isupper isalpha
case_maps c = (ground arith, ground arith, ground arith, ground arith, ground arith, ground arith)
