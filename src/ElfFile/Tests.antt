-- ===== src/ElfFile/Tests.antt =====
-- A file with one section of four bytes.
use ca.Base.{
  ℕ, zero, suc, ◌+◌, ◌*◌, ◌≡◌, refl, ap, arith, Option, some, Result, ok, throw, invalid_argument,
  Gives, ◌<◌,
}
use ca.Memory.Bytes.{load}
use ca.ElfFile.{
  SectionHeader, field, section_header, is_elf, is_target, load_file, create_memories,
  get_entrypoint,
}
use ca.ElfFile.Example.{zeros, program, file}
use ca.ElfFile.Segments.{Segments, IsLoadable, InFile, Allocates, create_memories-Segments}

file_loads : load_file (ok program) ≡ ok file
unfolding load_file is_elf is_target field load
file_loads = refl

other_file : load_file (ok (zeros 64)) ≡ throw (invalid_argument "File is not a RISC-V ELF file.")
unfolding load_file is_elf is_target field load
other_file = refl

entrypoint : get_entrypoint file ≡ ok 4096
unfolding get_entrypoint field load
entrypoint = refl

abbrev at_zero : ℕ → ℕ → Option ℕ
at_zero size align = some 0

allocates : Allocates at_zero
allocates size align = (0, refl, ground arith)

abbrev text_section : SectionHeader
text_section = record {
  sh_type = 1;
  sh_flags = 7;
  sh_addr = 4096;
  sh_offset = 128;
  sh_size = 4;
  sh_addralign = 4;
}

abbrev end_of : Result SectionHeader → ℕ
end_of (ok h) = h.sh_offset + h.sh_size
end_of _ = 0

only_section :
    (i : ℕ) (h : SectionHeader)
    → i < 1
    → section_header program (64 + i * 64) ≡ ok h
    → InFile program h
unfolding section_header field load
only_section zero h p e a t = omega (arith, ap end_of e)
only_section (suc i) h p e a t = absurd (omega arith)

loadable : IsLoadable program
unfolding field load
loadable = record {
  shoff = 64;
  shnum = 1;
  table = refl;
  count = refl;
  table_in_file = omega arith;
  sections_in_file = only_section;
}

create_memories-Segments_example : Gives (Segments program 64 0 1) (create_memories at_zero file)
unfolding loadable
create_memories-Segments_example = create_memories-Segments at_zero file allocates loadable
