-- ===== src/Libc/Ctype.antt =====
-- libc/src/ctype.cpp: the character classes. The int results, 0 or 1, are Booleans.
pub mod Classes
use rucux.Base.{ℕ, ◌+◌, ◌-◌, Bool, true, false, ◌&&◌, ◌||◌, not, ltb, leb, ◌==◌, if◌then◌else◌}

unfoldable pub isalpha : ℕ → Bool
isalpha c = leb 65 c && leb c 90 || leb 97 c && leb c 122

unfoldable pub isdigit : ℕ → Bool
isdigit c = leb 48 c && leb c 57

unfoldable pub isalnum : ℕ → Bool
unfolding isalpha isdigit
isalnum c = isalpha c || isdigit c

-- ' ', '\t', '\n', '\r', '\v', '\f'
unfoldable pub isspace : ℕ → Bool
isspace c = c == 32 || c == 9 || c == 10 || c == 13 || c == 11 || c == 12

unfoldable pub isupper : ℕ → Bool
isupper c = leb 65 c && leb c 90

unfoldable pub islower : ℕ → Bool
islower c = leb 97 c && leb c 122

unfoldable pub isxdigit : ℕ → Bool
unfolding isdigit
isxdigit c = isdigit c || leb 65 c && leb c 70 || leb 97 c && leb c 102

unfoldable pub isascii : ℕ → Bool
isascii c = leb c 127

unfoldable pub isprint : ℕ → Bool
isprint c = leb 0x20 c && leb c 0x7E

unfoldable pub iscntrl : ℕ → Bool
iscntrl c = leb c 0x1F || c == 0x7F

unfoldable pub ispunct : ℕ → Bool
unfolding isprint isalnum isspace
ispunct c = isprint c && not (isalnum c) && not (isspace c)

unfoldable pub isgraph : ℕ → Bool
unfolding isprint
isgraph c = isprint c && not (c == 32)

unfoldable pub isblank : ℕ → Bool
isblank c = c == 32 || c == 9

unfoldable pub toupper : ℕ → ℕ
unfolding islower
toupper c = if islower c then c - 97 + 65 else c

unfoldable pub tolower : ℕ → ℕ
unfolding isupper
tolower c = if isupper c then c - 65 + 97 else c
