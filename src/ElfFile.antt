-- ===== src/ElfFile.antt =====
-- src/elf-file.h, src/elf-file.cc and the structures of src/elf.h: programs in ELF files. A file
-- that is mapped is its bytes; a read outside them is undefined. `open`, `fstat` and `mmap` are the
-- system's: what they give is an argument. The allocator is a parameter.
pub mod Segments
pub mod Example
mod Tests
use ca.Base.{
  ℕ, zero, suc, ◌+◌, ◌-◌, ◌*◌, ◌^◌, bit_and, Bool, true, false, not, ◌&&◌, ◌||◌, List, [], ◌∷◌,
  ◌++◌, Option, none, some, Result, ok, throw, bind, runtime_error, invalid_argument, ◌==◌, leb,
  if◌then◌else◌, u64, length, replicate, take, drop, String,
}
use ca.Base
use ca.Memory.{Memory, loaded, set_may_write}
use ca.Memory.Bytes.{load}

-- The fields of `Elf64_Ehdr` that are read, and those of `Elf64_Shdr`, at their offsets.
unfoldable pub field : ℕ → List ℕ → ℕ → Result ℕ
field width bytes offset = loaded (load width bytes offset)

abbrev pub e_ident : List ℕ → ℕ → Result ℕ
e_ident bytes i = field 1 bytes i

abbrev pub e_type : List ℕ → Result ℕ
e_type bytes = field 2 bytes 16

abbrev pub e_machine : List ℕ → Result ℕ
e_machine bytes = field 2 bytes 18

abbrev pub e_version : List ℕ → Result ℕ
e_version bytes = field 4 bytes 20

abbrev pub e_entry : List ℕ → Result ℕ
e_entry bytes = field 8 bytes 24

abbrev pub e_phoff : List ℕ → Result ℕ
e_phoff bytes = field 8 bytes 32

abbrev pub e_shoff : List ℕ → Result ℕ
e_shoff bytes = field 8 bytes 40

abbrev pub e_shnum : List ℕ → Result ℕ
e_shnum bytes = field 2 bytes 60

pub record SectionHeader : Type 0 where
  pub sh_type : ℕ
  pub sh_flags : ℕ
  pub sh_addr : ℕ
  pub sh_offset : ℕ
  pub sh_size : ℕ
  pub sh_addralign : ℕ

-- The header that stands at an offset.
unfoldable pub section_header : List ℕ → ℕ → Result SectionHeader
section_header bytes at = bind (field 4 bytes (at + 4)) λ type.
    bind (field 8 bytes (at + 8)) λ flags. bind (field 8 bytes (at + 16)) λ addr.
      bind (field 8 bytes (at + 24)) λ offset. bind (field 8 bytes (at + 32)) λ size.
        bind (field 8 bytes (at + 48)) λ addralign. ok (record {
          sh_type = type;
          sh_flags = flags;
          sh_addr = addr;
          sh_offset = offset;
          sh_size = size;
          sh_addralign = addralign;
        })

-- `&&`, which does not evaluate its second operand if the first is false.
abbrev pub and_also : Result Bool → Result Bool → Result Bool
and_also (ok true) r = r
and_also (ok false) r = ok false
and_also (throw e) r = throw e
and_also Base.Result.undefined r = Base.Result.undefined

abbrev pub equals : Result ℕ → ℕ → Result Bool
equals r v = bind r λ n. ok (n == v)

unfoldable pub is_elf : List ℕ → Result Bool
is_elf bytes = and_also (equals (e_ident bytes 0) 0x7F) (
    and_also (equals (e_ident bytes 1) b'E') (
      and_also (equals (e_ident bytes 2) b'L')
        (and_also (equals (e_ident bytes 3) b'F') (equals (e_ident bytes 6) 1))))

unfoldable pub is_target : ℕ → ℕ → ℕ → List ℕ → Result Bool
is_target elf_class endianness machine bytes = and_also (equals (e_ident bytes 4) elf_class) (
    and_also (equals (e_ident bytes 5) endianness) (
      and_also
        (bind (e_type bytes) λ type.
          if type == 2 || type == 3
          then and_also (equals (e_machine bytes) machine) (equals (e_version bytes) 1)
          else ok true)
        (bind (e_phoff bytes) λ phoff. ok (not (phoff == 0)))))

pub record ElfFile : Type 0 where
  pub mapped : List ℕ
  pub is_bad : Bool

-- The constructor, for what the system gives: the bytes of the file, or an error.
unfoldable pub load_file : Result (List ℕ) → Result ElfFile
load_file opened = bind opened λ bytes. bind (is_elf bytes) λ elf.
    bind (if elf then is_target 2 1 243 bytes else ok false) λ target.
      if target
      then ok (record { mapped = bytes; is_bad = false })
      else throw (invalid_argument "File is not a RISC-V ELF file.")

abbrev pub has_flag : ℕ → ℕ → Bool
has_flag flags flag = bit_and flags flag == flag

abbrev pub shf_write : ℕ
shf_write = 1

abbrev pub shf_alloc : ℕ
shf_alloc = 2

abbrev pub shf_execinstr : ℕ
shf_execinstr = 4

-- The loop from section `i`, of which `remaining` are left.
unfoldable pub foreach_from :
    {S : Type 0} → List ℕ → (SectionHeader → S → Result S) → ℕ → ℕ → ℕ → S → Result S
foreach_from bytes func shoff zero i s = ok s
foreach_from bytes func shoff (suc remaining) i s =
    bind (section_header bytes (shoff + i * 64)) λ header.
      bind (if has_flag header.sh_flags shf_alloc then func header s else ok s)
        λ s'. foreach_from bytes func shoff remaining (i + 1) s'

unfoldable pub foreach_segment :
    {S : Type 0} → List ℕ → (SectionHeader → S → Result S) → S → Result S
foreach_segment bytes func s =
    bind (e_shoff bytes)
      λ shoff. bind (e_shnum bytes) λ shnum. foreach_from bytes func shoff shnum 0 s

-- `std::copy_n` from the mapped file.
unfoldable pub copy_n : List ℕ → ℕ → ℕ → Result (List ℕ)
copy_n bytes offset size =
    if leb (offset + size) (length bytes)
    then ok (take size (drop offset bytes))
    else Base.Result.undefined

abbrev pub segment_data : List ℕ → SectionHeader → Result (List ℕ)
segment_data bytes h =
    if h.sh_type == 1 then copy_n bytes h.sh_offset h.sh_size else ok (replicate h.sh_size 0)

-- The mask is 0 or 1, since `!=` binds before `&`.
abbrev pub misaligned : ℕ → ℕ → Bool
misaligned address align = not (bit_and address (if align == 1 then 0 else 1) == 0)

abbrev pub memory_of : SectionHeader → List ℕ → Memory
memory_of h segment =
    let memory : Memory = record {
      name = if has_flag h.sh_flags shf_execinstr then "text" else "data";
      may_write = false;
      base = h.sh_addr;
      size = h.sh_size;
      align = h.sh_addralign;
      bytes = segment;
    } in
    if has_flag h.sh_flags shf_write then set_may_write true memory else memory

-- Where the allocator puts an array of a size, at an alignment.
module _ (aligned_new : ℕ → ℕ → Option ℕ) where
  -- The body of the loop in `createMemories`.
  unfoldable pub create_memory : List ℕ → SectionHeader → List Memory → Result (List Memory)
  create_memory bytes h memories = elim (aligned_new h.sh_size h.sh_addralign) [
    | none ↦ throw (runtime_error "Could not allocate aligned memory.")
    | some address ↦
        if misaligned address h.sh_addralign
        then throw (runtime_error "Allocated pointer for segment is not aligned.")
        else bind (segment_data bytes h) λ segment. ok (memories ++ memory_of h segment ∷ [])
  ]

  unfoldable pub create_memories : ElfFile → Result (List Memory)
  create_memories f = foreach_segment f.mapped (create_memory f.mapped) []

-- The variables that the loop of `getTextSegment` writes.
pub record TextSegment : Type 0 where
  pub bytes : List ℕ
  pub base : ℕ
  pub size : ℕ
  pub found : Bool

unfoldable pub take_text : List ℕ → SectionHeader → TextSegment → Result TextSegment
take_text bytes h t =
    if has_flag h.sh_flags shf_execinstr
    then (bind (copy_n bytes h.sh_offset h.sh_size) λ segment.
        ok (record { bytes = segment; base = h.sh_addr; size = h.sh_size; found = true }))
    else ok t

-- For the values that the caller's base and size have.
unfoldable pub get_text_segment : ℕ → ℕ → ElfFile → Result TextSegment
get_text_segment base size f =
    foreach_segment f.mapped (take_text f.mapped)
      (record { bytes = []; base = base; size = size; found = false })

unfoldable pub get_entrypoint : ElfFile → Result ℕ
get_entrypoint f = e_entry f.mapped
