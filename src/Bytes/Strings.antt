-- ===== src/Bytes/Strings.antt =====
-- The comparisons and the str routines of lib/string.cpp on a store of bytes. A loop that looks for the
-- terminator has fuel, for which more than the string's length is meant. An int is its word in two's
-- complement.
pub mod Terminated
use rucux.Base.{ℕ, zero, suc, ◌+◌, ◌-◌, ◌%◌, ◌^◌, Bool, ltb, leb, ◌==◌, if◌then◌else◌}
use rucux.Bytes.{Store, write}

abbrev pub minus : ℕ → ℕ → ℕ
minus a b = (a + 2 ^ 32 - b) % 2 ^ 32

unfoldable pub memcmp : Store → ℕ → ℕ → ℕ → ℕ
memcmp m p1 p2 zero = 0
memcmp m p1 p2 (suc n) =
    let rest = memcmp m (p1 + 1) (p2 + 1) n in if m p1 == m p2 then rest else minus (m p1) (m p2)

unfoldable pub strlen : ℕ → Store → ℕ → ℕ
strlen zero m s = 0
strlen (suc fuel) m s = let rest = strlen fuel m (s + 1) in if m s == 0 then 0 else suc rest

unfoldable pub strcmp : ℕ → Store → ℕ → ℕ → ℕ
strcmp zero m s1 s2 = 0
strcmp (suc fuel) m s1 s2 =
    let rest = strcmp fuel m (s1 + 1) (s2 + 1) in
    if m s1 == 0 then minus (m s1) (m s2) else if m s1 == m s2 then rest else minus (m s1) (m s2)

unfoldable pub strcpy : ℕ → Store → ℕ → ℕ → Store
strcpy zero m d s = m
strcpy (suc fuel) m d s =
    let m' = write m d (m s) in
    let rest = strcpy fuel m' (d + 1) (s + 1) in if m s == 0 then m' else rest

-- The second loop of strncpy.
unfoldable pub pad : Store → ℕ → ℕ → Store
pad m d zero = m
pad m d (suc n) = pad (write m d 0) (d + 1) n

unfoldable pub strncpy : Store → ℕ → ℕ → ℕ → Store
unfolding pad
strncpy m d s zero = m
strncpy m d s (suc n) =
    let rest = strncpy (write m d (m s)) (d + 1) (s + 1) n in
    if m s == 0 then pad m d (suc n) else rest

unfoldable pub strcat : ℕ → Store → ℕ → ℕ → Store
unfolding strlen strcpy
strcat fuel m dest src = strcpy fuel m (dest + strlen fuel m dest) src

-- The second loop of strncat and the write behind it.
unfoldable pub append_n : Store → ℕ → ℕ → ℕ → Store
append_n m d s zero = write m d 0
append_n m d s (suc n) =
    let m' = write m d (m s) in
    let rest = append_n m' (d + 1) (s + 1) n in if m s == 0 then write m' (d + 1) 0 else rest

unfoldable pub strncat : ℕ → Store → ℕ → ℕ → ℕ → Store
unfolding strlen append_n
strncat fuel m dest src n = append_n m (dest + strlen fuel m dest) src n
