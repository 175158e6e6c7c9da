-- ===== src/Bytes/Tests.antt =====
-- Examples of the routines on memory: overlapping ranges that start off a word boundary.
use rucux.Base.{arith, ◌==◌, ◌+◌, ◌-◌, ◌*◌, ◌%◌, ◌≡◌, refl, ◌&&◌, ltb, leb, if◌then◌else◌}
use rucux.Bytes.{Store, memmove, memset, fill_align, fill_words, fill_bytes}
use rucux.Bytes.Move.{memmove_lem}
use rucux.Bytes.Strings.{strlen, strncat, append_n}
use rucux.Bytes.Strings.Terminated.{Str}

abbrev numbered : Store
numbered = λ x. x * 7 % 256

memmove_lem_example : memmove numbered 1003 1006 40 1010 ≡ (
    if leb 1003 1010 && ltb 1010 (1003 + 40)
    then numbered (1006 + (1010 - 1003))
    else numbered 1010)
memmove_lem_example = memmove_lem numbered 1003 1006 40 1010

memset-run : memset numbered 1003 0x141 40 1042 ≡ 0x41
unfolding memset fill_align fill_words fill_bytes
memset-run = refl

-- The string "AB" at 200; 103 is not part of the empty string at 100.
abbrev text : Store
text = λ x. if x == 200 then 65 else if x == 201 then 66 else if x == 103 then 9 else 0

text-Str : Str text 200 2
text-Str = ((λ e. omega arith), ((λ e. omega arith), refl))

-- strncat of "AB" to the empty string at 100 writes 100 to 102, and 103 too.
strncat-past_end : strncat 3 text 100 200 5 103 ≡ 0
unfolding strncat strlen append_n
strncat-past_end = refl
