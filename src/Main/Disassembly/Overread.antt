-- ===== src/Main/Disassembly/Overread.antt =====
-- The last instruction of a text segment in src/main.cc.
use ca.Base.{
  ℕ, zero, suc, ◌+◌, ◌-◌, ◌*◌, ◌/◌, ◌<◌, ◌≤◌, ◌≡◌, refl, sym, ap, ◌∙◌, arith, Bool, true, false,
  List, [], ◌∷◌, Option, none, some, Result, ok, throw, bind, illegal_instruction, length,
  if◌then◌else◌, u32, u64, take, drop, leb,
}
use ca.Base
use ca.Base.Text.{Text}
use ca.Base.Slices.{length-take, length-drop}
use ca.Decoder.{InstructionDecoder}
use ca.ElfFile.{
  ElfFile, SectionHeader, TextSegment, e_shoff, e_shnum, section_header, has_flag, shf_alloc,
  foreach_from, foreach_segment, copy_n, take_text, get_text_segment,
}
use ca.InstFormatter.{format, format_instruction, caught}
use ca.InstFormatter.Cases.{succeeds}
use ca.InstFormatter.Errors.{format-cases}
use ca.Main.Disassembly.{
  Disassembled, format_disassembly, disasm_from, disasm_segment, disasm_elf_file,
}
use ca.Memory.{loaded}
use ca.Memory.Bytes.{load, load_outside}
use ca.Base.{IfGives, IfGives-bind, IfGives-Unit, ◌==◌, Bool-cases, inl, inr, if_elim}
use ca.ElfFile.{shf_execinstr}

succeeds_if :
    (r e : Result Text) (other : Text)
    → e ≡ (if succeeds r then r else ok other)
    → (text : Text) × (e ≡ ok text)
succeeds_if (ok a) e other h = (a, h)
succeeds_if (throw x) e other h = (other, h)
succeeds_if Base.Result.undefined e other h = (other, h)

format_disassembly_total : (word pc : ℕ) → (l : Disassembled) × (format_disassembly word pc ≡ ok l)
unfolding format_disassembly caught
format_disassembly_total word pc =
    let d : InstructionDecoder = record { instruction_word = word } in
    let (text, e) = succeeds_if (format_instruction d) (format d) _ (format-cases d) in
    (record { address = if pc == 0 then none else some pc; word = word; text = text }, rw e refl)

-- One round before rounds that are undefined.
round_undefined :
    (read : Option ℕ) (pc : ℕ) (rest : Result (List Disassembled))
    → rest ≡ Base.Result.undefined
    → bind (loaded read) (λ instr.
      bind (format_disassembly (u32 instr) pc) λ line. bind rest λ lines. ok (line ∷ lines))
      ≡ Base.Result.undefined
round_undefined none pc rest h = refl
round_undefined (some v) pc rest h =
    let (line, e) = format_disassembly_total (u32 v) pc in rw (e, h) refl

-- The last round reads past the end, whatever came before.
disasm_from_undefined :
    (segment : List ℕ) (base remaining i : ℕ)
    → length segment < i + 4 * remaining + 8
    → disasm_from segment base (suc remaining) i ≡ Base.Result.undefined
unfolding disasm_from
disasm_from_undefined segment base zero i h =
    rw (load_outside 8 segment i (omega arith) (omega arith)) refl
disasm_from_undefined segment base (suc remaining) i h =
    round_undefined (load 8 segment i) (u64 (base + i))
      (disasm_from segment base (suc remaining) (i + 4))
      (disasm_from_undefined segment base remaining (i + 4) (omega arith))

-- The bytes of a text segment that was found are as many as its size says.
abbrev HasItsSize : TextSegment → Type 0
HasItsSize t = t.found ≡ true → length t.bytes ≡ t.size

copy_n-length :
    (bytes : List ℕ) (offset size : ℕ)
    → IfGives (λ out. length out ≡ size) (copy_n bytes offset size)
unfolding copy_n
copy_n-length bytes offset size = elim (Bool-cases (leb (offset + size) (length bytes))) [
  | inl h ↦ rw h (length-take size (drop offset bytes) (ground (arith, length-drop offset bytes)))
  | inr h ↦ rw h tt
]

take_text-HasItsSize :
    (bytes : List ℕ) (h : SectionHeader) (t : TextSegment)
    → HasItsSize t
    → IfGives HasItsSize (take_text bytes h t)
unfolding take_text
take_text-HasItsSize bytes h t s =
    if_elim (IfGives HasItsSize) (has_flag h.sh_flags shf_execinstr) _ _
      (IfGives-bind (λ out. length out ≡ h.sh_size) HasItsSize (copy_n bytes h.sh_offset h.sh_size)
        _ (copy_n-length bytes h.sh_offset h.sh_size) λ out e found. e)
      s

foreach_from-HasItsSize :
    (bytes : List ℕ) (shoff n i : ℕ) (t : TextSegment)
    → HasItsSize t
    → IfGives HasItsSize (foreach_from bytes (take_text bytes) shoff n i t)
unfolding foreach_from
foreach_from-HasItsSize bytes shoff zero i t s = s
foreach_from-HasItsSize bytes shoff (suc n) i t s =
    IfGives-bind (λ _. Unit) HasItsSize (section_header bytes (shoff + i * 64)) _ (IfGives-Unit _)
      λ h _.
        IfGives-bind HasItsSize HasItsSize
          (if has_flag h.sh_flags shf_alloc then take_text bytes h t else ok t) _
          (if_elim (IfGives HasItsSize) (has_flag h.sh_flags shf_alloc) _ _
            (take_text-HasItsSize bytes h t s) s)
          λ t' s'. foreach_from-HasItsSize bytes shoff n (i + 1) t' s'

get_text_segment-HasItsSize :
    (base size : ℕ) (f : ElfFile) → IfGives HasItsSize (get_text_segment base size f)
unfolding get_text_segment foreach_segment
get_text_segment-HasItsSize base size f =
    IfGives-bind (λ _. Unit) HasItsSize (e_shoff f.mapped) _ (IfGives-Unit _)
      λ shoff _.
        IfGives-bind (λ _. Unit) HasItsSize (e_shnum f.mapped) _ (IfGives-Unit _)
          λ shnum _. foreach_from-HasItsSize f.mapped shoff shnum 0 _ (λ e. ground arith)

-- For every ELF file in which a text segment is found that is not empty, the disassembly has
-- undefined behaviour: its last round reads eight bytes where at most four are left.
pub disasm_elf_file-undefined :
    (f : ElfFile) (t : TextSegment)
    → get_text_segment 0 0 f ≡ ok t
    → t.found ≡ true
    → 0 < t.size
    → disasm_elf_file f ≡ Base.Result.undefined
unfolding disasm_elf_file disasm_segment
disasm_elf_file-undefined f t e found h =
    let sized : HasItsSize t = rw e at (get_text_segment-HasItsSize 0 0 f) in
    let rounds : (t.size + 3) / 4 ≡ suc ((t.size - 1) / 4) = omega arith in
    rw
      (
        e,
        found,
        rounds,
        disasm_from_undefined t.bytes t.base ((t.size - 1) / 4) 0 (omega (arith, sized found)),
      )
      refl
