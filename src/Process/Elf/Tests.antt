-- ===== src/Process/Elf/Tests.antt =====
-- Examples of program headers: a text and a data segment.
use rucux.Base.{◌≡◌, refl, true, List, [], ◌∷◌, ◌==◌, if◌then◌else◌, All}
use rucux.Process.Elf.{
  Ehdr, Phdr, validate, header_bad, scan, segment_bad, align_bad, has_entry, any_overlaps, overlaps,
  page_begin, page_end,
}
use rucux.Process.Elf.Sound.{Good, Pairwise, Enters, validate_sound}

abbrev header : Ehdr
header = record {
  e_ident = λ i.
      if i == 0
      then 0x7F
      else if i == 1
      then 69
      else if i == 2
      then 76
      else if i == 3
      then 70
      else if i == 4
      then 2
      else 1;
  e_type = 2;
  e_machine = 62;
  e_version = 1;
  e_entry = 0x8000001010;
  e_phoff = 64;
  e_ehsize = 64;
  e_phentsize = 56;
  e_phnum = 2;
}

abbrev text : Phdr
text = record {
  p_type = 1;
  p_flags = 5;
  p_offset = 0x1000;
  p_vaddr = 0x8000001000;
  p_filesz = 0x800;
  p_memsz = 0x800;
  p_align = 0x1000;
}

abbrev data_segment : Phdr
data_segment = record {
  p_type = 1;
  p_flags = 6;
  p_offset = 0x2000;
  p_vaddr = 0x8000002000;
  p_filesz = 0x100;
  p_memsz = 0x400;
  p_align = 0x1000;
}

abbrev table : List Phdr
table = text ∷ data_segment ∷ []

table-accepted : validate 0x8000000000 0x800000000000 0x3000 62 header table ≡ true
unfolding validate header_bad scan segment_bad align_bad has_entry any_overlaps overlaps page_begin
    page_end
table-accepted = refl

validate_sound_example :
    All (Good 0x8000000000 0x800000000000 0x3000) table × Pairwise table × Enters header table
validate_sound_example =
    validate_sound 0x8000000000 0x800000000000 0x3000 62 header table table-accepted
