-- ===== src/ElfFile/Segments.antt =====
-- The memories that are made for the sections of a file whose sections lie within it.
use ca.Base.{
  ==_cases, ℕ, zero, suc, ◌+◌, ◌*◌, ◌<◌, ◌≤◌, ◌≡◌, refl, sym, ap, ◌∙◌, arith, true, false, ◌==◌,
  if◌then◌else◌, List, [], ◌∷◌, ◌++◌, Option, some, ok, Gives, Gives-bind, Gives-mono, length, drop,
  get_elem?, leb, inl, inr, Bool-cases,
}
use ca.Base.Slices.{
  length-take, length-drop, get_elem?-take, get_elem?-drop, length-replicate, get_elem?-replicate,
  append_assoc, append_nil,
}
use ca.Memory.{Memory, loaded, set_may_write}
use ca.Memory.Bytes.{load_total}
use ca.ElfFile.{
  SectionHeader, ElfFile, field, section_header, e_shoff, e_shnum, has_flag, shf_alloc, shf_write,
  foreach_from, foreach_segment, copy_n, segment_data, misaligned, memory_of, create_memory,
  create_memories,
}

field_total :
    (width : ℕ) (bytes : List ℕ) (offset : ℕ)
    → offset + width ≤ length bytes
    → (v : ℕ) × (field width bytes offset ≡ ok v)
unfolding field
field_total width bytes offset h = let (v, e) = load_total width bytes offset h in (v, ap loaded e)

section_header_total :
    (bytes : List ℕ) (at : ℕ)
    → at + 64 ≤ length bytes
    → (h : SectionHeader) × (section_header bytes at ≡ ok h)
unfolding section_header
section_header_total bytes at h =
    let (type, e0) = field_total 4 bytes (at + 4) (omega arith) in
    let (flags, e1) = field_total 8 bytes (at + 8) (omega arith) in
    let (addr, e2) = field_total 8 bytes (at + 16) (omega arith) in
    let (offset, e3) = field_total 8 bytes (at + 24) (omega arith) in
    let (size, e4) = field_total 8 bytes (at + 32) (omega arith) in
    let (addralign, e5) = field_total 8 bytes (at + 48) (omega arith) in
    (
      record {
        sh_type = type;
        sh_flags = flags;
        sh_addr = addr;
        sh_offset = offset;
        sh_size = size;
        sh_addralign = addralign;
      },
      rw (e0, e1, e2, e3, e4, e5) refl,
    )

-- The section's bytes, if it is loaded and has any in the file, lie within the file.
abbrev pub InFile : List ℕ → SectionHeader → Type 0
InFile bytes h =
    has_flag h.sh_flags shf_alloc ≡ true → h.sh_type ≡ 1 → h.sh_offset + h.sh_size ≤ length bytes

-- The section table lies within the file, and so does each section that is loaded.
pub record IsLoadable (bytes : List ℕ) : Type 0 where
  pub shoff : ℕ
  pub shnum : ℕ
  pub table : e_shoff bytes ≡ ok shoff
  pub count : e_shnum bytes ≡ ok shnum
  pub table_in_file : shoff + shnum * 64 ≤ length bytes
  pub sections_in_file :
      (i : ℕ) (h : SectionHeader)
      → i < shnum
      → section_header bytes (shoff + i * 64) ≡ ok h
      → InFile bytes h

-- The byte at `j` of a section: from the file, or zero.
abbrev pub section_byte : List ℕ → SectionHeader → ℕ → Option ℕ
section_byte bytes h j = if h.sh_type == 1 then get_elem? bytes (h.sh_offset + j) else some 0

pub record IsSegment (bytes : List ℕ) (h : SectionHeader) (m : Memory) : Type 0 where
  pub base : m.base ≡ h.sh_addr
  pub size : m.size ≡ h.sh_size
  pub align : m.align ≡ h.sh_addralign
  pub may_write : m.may_write ≡ has_flag h.sh_flags shf_write
  pub allocated : length m.bytes ≡ m.size
  pub contents : (j : ℕ) → j < m.size → get_elem? m.bytes j ≡ section_byte bytes h j

-- One memory for each section that is marked for loading, in the order of the table, from section
-- `i` on, for a number of sections.
pub data Segments (bytes : List ℕ) (shoff : ℕ) : ℕ → ℕ → List Memory → Type 0 where
  no_more : {i : ℕ} → Segments bytes shoff i 0 []
  skipped :
      {i n : ℕ} {ms : List Memory} (h : SectionHeader)
      → section_header bytes (shoff + i * 64) ≡ ok h
      → has_flag h.sh_flags shf_alloc ≡ false
      → Segments bytes shoff (i + 1) n ms
      → Segments bytes shoff i (suc n) ms
  loaded_segment :
      {i n : ℕ} {m : Memory} {ms : List Memory} (h : SectionHeader)
      → section_header bytes (shoff + i * 64) ≡ ok h
      → has_flag h.sh_flags shf_alloc ≡ true
      → IsSegment bytes h m
      → Segments bytes shoff (i + 1) n ms
      → Segments bytes shoff i (suc n) (m ∷ ms)

-- The allocator succeeds, at an address whose lowest bit is free unless the alignment is one.
abbrev pub Allocates : (ℕ → ℕ → Option ℕ) → Type 0
Allocates aligned_new =
    (size align : ℕ)
    → (address : ℕ) × (aligned_new size align ≡ some address) × (misaligned address align ≡ false)

-- What is known of a section's new array.
abbrev HasContents : List ℕ → SectionHeader → List ℕ → Type 0
HasContents bytes h segment =
    (length segment ≡ h.sh_size)
    × ((j : ℕ) → j < h.sh_size → get_elem? segment j ≡ section_byte bytes h j)

fits : {a b : ℕ} → a ≤ b → leb a b ≡ true
fits h = ground arith

section_byte_zero :
    (bytes : List ℕ) (h : SectionHeader) (j : ℕ)
    → (h.sh_type == 1) ≡ false
    → section_byte bytes h j ≡ some 0
section_byte_zero bytes h j e = rw e refl

segment_data-HasContents :
    (bytes : List ℕ) (h : SectionHeader)
    → (h.sh_type ≡ 1 → h.sh_offset + h.sh_size ≤ length bytes)
    → Gives (HasContents bytes h) (segment_data bytes h)
unfolding copy_n
segment_data-HasContents bytes h r = elim (==_cases h.sh_type 1) [
  | inl file ↦
      rw (file, fits (r file))
        (
          length-take h.sh_size (drop h.sh_offset bytes)
              (omega (arith, r file, length-drop h.sh_offset bytes (omega (arith, r file)))),
          λ j p.
              get_elem?-take h.sh_size (drop h.sh_offset bytes) j p
              ∙ get_elem?-drop h.sh_offset bytes j,
        )
  | inr zeros ↦ rw zeros (
    length-replicate h.sh_size 0,
    λ j p. get_elem?-replicate h.sh_size 0 j p ∙ sym (section_byte_zero bytes h j zeros),
  )
]

memory_of-IsSegment :
    (bytes : List ℕ) (h : SectionHeader) (segment : List ℕ)
    → HasContents bytes h segment
    → IsSegment bytes h (memory_of h segment)
unfolding set_may_write
memory_of-IsSegment bytes h segment c = elim (Bool-cases (has_flag h.sh_flags shf_write)) [
  | inl w ↦ rw w (record {
    base = refl;
    size = refl;
    align = refl;
    may_write = sym w;
    allocated = c.0;
    contents = c.1;
  })
  | inr w ↦ rw w (record {
    base = refl;
    size = refl;
    align = refl;
    may_write = sym w;
    allocated = c.0;
    contents = c.1;
  })
]

-- The list that the loop has made, and one memory more.
abbrev Appended : List ℕ → SectionHeader → List Memory → List Memory → Type 0
Appended bytes h ms ms' = (m : Memory) × IsSegment bytes h m × (ms' ≡ ms ++ m ∷ [])

-- The list with what the rest of the loop adds.
abbrev Extended : List ℕ → ℕ → ℕ → ℕ → List Memory → List Memory → Type 0
Extended bytes shoff i n ms ms' =
    (new : List Memory) × Segments bytes shoff i n new × (ms' ≡ ms ++ new)

-- The sections of a range lie within the file.
abbrev AreInFile : List ℕ → ℕ → ℕ → ℕ → Type 0
AreInFile bytes shoff i n =
    (j : ℕ) (h : SectionHeader)
    → i ≤ j
    → j < i + n
    → section_header bytes (shoff + j * 64) ≡ ok h
    → InFile bytes h

-- One memory more in front of those of the later sections.
one_more :
    (bytes : List ℕ) (shoff i n : ℕ) (h : SectionHeader) (ms ms' : List Memory)
    → section_header bytes (shoff + i * 64) ≡ ok h
    → has_flag h.sh_flags shf_alloc ≡ true
    → Appended bytes h ms ms'
    → (out : List Memory) → Extended bytes shoff (i + 1) n ms' out
    → Extended bytes shoff i (suc n) ms out
one_more bytes shoff i n h ms ms' e a (m, segment, same) out (new, rest, same') = (
  m ∷ new,
  loaded_segment h e a segment rest,
  same' ∙ (ap (λ l. l ++ new) same ∙ append_assoc ms m new),
)

module _ (aligned_new : ℕ → ℕ → Option ℕ) (allocates : Allocates aligned_new) where
  create_memory-Appended :
      (bytes : List ℕ) (h : SectionHeader) (ms : List Memory)
      → (h.sh_type ≡ 1 → h.sh_offset + h.sh_size ≤ length bytes)
      → Gives (Appended bytes h ms) (create_memory aligned_new bytes h ms)
  unfolding create_memory
  create_memory-Appended bytes h ms r =
      let (address, e, aligned) = allocates h.sh_size h.sh_addralign in
      rw (create_memory, e, aligned)
        (Gives-bind (HasContents bytes h) (Appended bytes h ms) (segment_data bytes h) _
          (segment_data-HasContents bytes h r)
          λ segment c. (memory_of h segment, memory_of-IsSegment bytes h segment c, refl))

  foreach_from-Extended :
      (bytes : List ℕ) (shoff n i : ℕ) (ms : List Memory)
      → shoff + (i + n) * 64 ≤ length bytes
      → AreInFile bytes shoff i n
      → Gives
          (Extended bytes shoff i n ms)
          (foreach_from bytes (create_memory aligned_new bytes) shoff n i ms)
  unfolding foreach_from
  foreach_from-Extended bytes shoff zero i ms r s = ([], no_more, sym (append_nil ms))
  foreach_from-Extended bytes shoff (suc n) i ms r s =
      let (h, e) = section_header_total bytes (shoff + i * 64) (omega arith) in
      let rest : (ms' : List Memory)
          → Gives (Extended bytes shoff (i + 1) n ms')
              (foreach_from bytes (create_memory aligned_new bytes) shoff n (i + 1) ms') =
        λ ms'.
          foreach_from-Extended bytes shoff n (i + 1) ms' (omega arith)
            λ j h' p q. s j h' (omega arith) (omega arith) in
      rw e (elim (Bool-cases (has_flag h.sh_flags shf_alloc)) [
        | inl a ↦ rw a (
            Gives-bind (Appended bytes h ms) (Extended bytes shoff i (suc n) ms)
              (create_memory aligned_new bytes h ms) _
              (create_memory-Appended bytes h ms (s i h (omega arith) (omega arith) e a))
              λ ms' p.
                Gives-mono (Extended bytes shoff (i + 1) n ms') (Extended bytes shoff i (suc n) ms)
                  _ (rest ms') (one_more bytes shoff i n h ms ms' e a p))
        | inr a ↦ rw a (
            Gives-mono (Extended bytes shoff (i + 1) n ms) (Extended bytes shoff i (suc n) ms) _
              (rest ms) λ out (new, more, same). (new, skipped h e a more, same))
      ])

-- For an allocator that succeeds with aligned addresses and a file whose section table and loaded
-- sections lie within it, making the memories returns exactly one memory for each section marked
-- for loading, in the order of the table, with the section's address, size and alignment, an array
-- of that size with the file's bytes or zeros, and writable exactly if the section is.
pub create_memories-Segments :
    (aligned_new : ℕ → ℕ → Option ℕ) (f : ElfFile)
    → Allocates aligned_new
    → (l : IsLoadable f.mapped)
    → Gives (Segments f.mapped l.shoff 0 l.shnum) (create_memories aligned_new f)
unfolding create_memories foreach_segment
create_memories-Segments aligned_new f allocates l =
    rw (l.table, l.count)
      (Gives-mono (Extended f.mapped l.shoff 0 l.shnum []) (Segments f.mapped l.shoff 0 l.shnum) _
        (foreach_from-Extended aligned_new allocates f.mapped l.shoff l.shnum 0 []
          (omega (arith, l.table_in_file)) λ j h p q. l.sections_in_file j h (omega arith))
        λ out (new, segments, same). rw same segments)
