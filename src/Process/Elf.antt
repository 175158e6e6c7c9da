-- ===== src/Process/Elf.antt =====
-- elf::validate of src/kernel/process/elf_validate.cpp, on the headers of src/include/kernel/process/elf.hpp
-- as they are decoded from the file. The ends of the user's addresses (user_access.hpp), which depend on
-- the architecture, are arguments. Words have 64 bits.
pub mod Sound
mod Tests
use rucux.Base.{
  ℕ, zero, suc, ◌+◌, ◌-◌, ◌*◌, ◌/◌, ◌%◌, ◌^◌, Bool, true, false, ◌&&◌, ◌||◌, not, Option, none,
  some, List, [], ◌∷◌, ltb, leb, ◌==◌, if◌then◌else◌, bit_and,
}

-- `e_ident` gives the bytes by index.
pub record Ehdr : Type 0 where
  pub e_ident : ℕ → ℕ
  pub e_type : ℕ
  pub e_machine : ℕ
  pub e_version : ℕ
  pub e_entry : ℕ
  pub e_phoff : ℕ
  pub e_ehsize : ℕ
  pub e_phentsize : ℕ
  pub e_phnum : ℕ

pub record Phdr : Type 0 where
  pub p_type : ℕ
  pub p_flags : ℕ
  pub p_offset : ℕ
  pub p_vaddr : ℕ
  pub p_filesz : ℕ
  pub p_memsz : ℕ
  pub p_align : ℕ

abbrev pub pt_load : ℕ
pt_load = 1

-- sizeof(elf64_ehdr) and sizeof(elf64_phdr)
abbrev pub ehdr_size : ℕ
ehdr_size = 64

abbrev pub phdr_size : ℕ
phdr_size = 56

unfoldable pub header_bad : Ehdr → ℕ → ℕ → Bool
header_bad h size machine =
    not (h.e_ident 0 == 0x7F)
    || not (h.e_ident 1 == 69)
    || not (h.e_ident 2 == 76)
    || not (h.e_ident 3 == 70)
    || not (h.e_ident 4 == 2)
    || not (h.e_ident 5 == 1)
    || not (h.e_ident 6 == 1)
    || not (h.e_version == 1)
    || not (h.e_type == 2)
    || not (h.e_machine == machine)
    || not (h.e_ehsize == ehdr_size)
    || not (h.e_phentsize == phdr_size)
    || h.e_phnum == 0
    || ltb 128 h.e_phnum
    || ltb size h.e_phoff
    || ltb ((size - h.e_phoff) / phdr_size) h.e_phnum

-- A subtraction whose left side may be smaller is not reached then.
unfoldable pub segment_bad : ℕ → ℕ → ℕ → Phdr → Bool
segment_bad user_begin user_end size p =
    ltb p.p_memsz p.p_filesz
    || ltb size p.p_offset
    || ltb (size - p.p_offset) p.p_filesz
    || ltb p.p_vaddr user_begin
    || leb user_end p.p_vaddr
    || ltb (user_end - p.p_vaddr) p.p_memsz
    || not (p.p_flags / 8 == 0)
    || p.p_flags % 4 == 3

unfoldable pub align_bad : Phdr → Bool
align_bad p =
    ltb 1 p.p_align
    && (not (bit_and p.p_align (p.p_align - 1) == 0)
        || not (p.p_vaddr % p.p_align == p.p_offset % p.p_align))

-- p_flags & 1
unfoldable pub has_entry : Ehdr → Phdr → Bool
has_entry h p =
    not (p.p_flags % 2 == 0) && leb p.p_vaddr h.e_entry && ltb (h.e_entry - p.p_vaddr) p.p_filesz

-- & ~4095
abbrev pub page_of : ℕ → ℕ
page_of a = a - a % 4096

unfoldable pub page_begin : Phdr → ℕ
page_begin p = page_of p.p_vaddr

unfoldable pub page_end : Phdr → ℕ
page_end p = page_of ((p.p_vaddr + p.p_memsz + 4095) % 2 ^ 64)

abbrev pub is_loaded : Phdr → Bool
is_loaded p = p.p_type == pt_load && not (p.p_memsz == 0)

unfoldable pub overlaps : Phdr → Phdr → Bool
overlaps p prev =
    is_loaded prev && ltb (page_begin p) (page_end prev) && ltb (page_begin prev) (page_end p)

-- The inner loop, over the headers before the current one; the last comes first.
unfoldable pub any_overlaps : Phdr → List Phdr → Bool
any_overlaps p [] = false
any_overlaps p (prev ∷ prevs) = overlaps p prev || any_overlaps p prevs

-- The loop over the headers: `none` is `return false`, and a result tells executable_entry.
unfoldable pub scan : ℕ → ℕ → ℕ → Ehdr → List Phdr → List Phdr → Bool → Option Bool
scan user_begin user_end size h prevs [] entry = some entry
scan user_begin user_end size h prevs (p ∷ ps) entry =
    let skip = scan user_begin user_end size h (p ∷ prevs) ps entry in
    let next = scan user_begin user_end size h (p ∷ prevs) ps (entry || has_entry h p) in
    if not (p.p_type == pt_load)
    then skip
    else if p.p_memsz == 0
    then (if p.p_filesz == 0 then skip else none)
    else if segment_bad user_begin user_end size p
    then none
    else if align_bad p
    then none
    else if any_overlaps p prevs
    then none
    else next

-- `table` has the first e_phnum program headers.
unfoldable pub validate : ℕ → ℕ → ℕ → ℕ → Ehdr → List Phdr → Bool
unfolding scan
validate user_begin user_end size machine h table =
    if ltb size ehdr_size
    then false
    else if header_bad h size machine
    then false
    else elim (scan user_begin user_end size h [] table false) [ none ↦ false | some entry ↦ entry ]
