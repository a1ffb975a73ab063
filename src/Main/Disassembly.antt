-- ===== src/Main/Disassembly.antt =====
-- The disassembly of src/main.cc.
pub mod Overread
use ca.Base.{
  ℕ, zero, suc, ◌+◌, ◌/◌, Bool, true, false, not, ◌||◌, List, [], ◌∷◌, Option, none, some, Result,
  ok, throw, bind, invalid_argument, ◌==◌, if◌then◌else◌, u32, u64,
}
use ca.Base
use ca.Base.Text.{Text}
use ca.Base.Decimal.{stoul_hex}
use ca.ConfigFile.{get_lines}
use ca.Decoder.{InstructionDecoder, set_instruction_word}
use ca.ElfFile.{ElfFile, TextSegment, load_file, get_text_segment}
use ca.InstFormatter.{format, caught}
use ca.Main.{System}
use ca.Main.ExitCodes
use ca.Memory.{loaded}
use ca.Memory.Bytes.{load}

-- A line that is printed; the address 0 is left out.
pub record Disassembled : Type 0 where
  pub address : Option ℕ
  pub word : ℕ
  pub text : Text

unfoldable pub format_disassembly : ℕ → ℕ → Result Disassembled
format_disassembly word pc =
    bind (caught (format (record { instruction_word = word })))
      λ text. ok (record { address = if pc == 0 then none else some pc; word = word; text = text })

-- The lines printed, and the exit code.
abbrev pub Printed : Type 0
Printed = List Disassembled × ℕ

-- The loop from the offset `i`, of which `remaining` rounds are left. Eight bytes are read, and the
-- decoder's parameter keeps four of them.
unfoldable pub disasm_from : List ℕ → ℕ → ℕ → ℕ → Result (List Disassembled)
disasm_from segment base zero i = ok []
disasm_from segment base (suc remaining) i = bind (loaded (load 8 segment i)) λ instr.
    bind (format_disassembly (u32 instr) (u64 (base + i)))
      λ line. bind (disasm_from segment base remaining (i + 4)) λ rest. ok (line ∷ rest)

unfoldable pub disasm_segment : TextSegment → Result Printed
disasm_segment t =
    if t.found
    then (bind (disasm_from t.bytes t.base ((t.size + 3) / 4) 0)
        λ lines. ok (lines, ExitCodes.success))
    else ok ([], ExitCodes.initialization_error)

unfoldable pub disasm_elf_file : ElfFile → Result Printed
disasm_elf_file program = bind (get_text_segment 0 0 program) disasm_segment

abbrev printed_before : Disassembled → Printed → Printed
printed_before line printed = (line ∷ printed.0, printed.1)

-- The lines up to the first that is no number.
unfoldable pub disasm_lines : List Text → Result Printed
disasm_lines [] = ok ([], ExitCodes.success)
disasm_lines (line ∷ lines) =
    let rest = disasm_lines lines in
    elim (stoul_hex line) [
      | ok word ↦
          bind (format_disassembly (u32 word) 0)
            λ printed. bind rest λ more. ok (printed_before printed more)
      | throw e ↦ ok ([], ExitCodes.invalid_argument)
      | Base.Result.undefined ↦ Base.Result.undefined
    ]

abbrev lines_of : Option Text → List Text
lines_of none = []
lines_of (some file) = get_lines file

unfoldable pub disasm_ascii_file : System → Text → Result Printed
disasm_ascii_file sys name = disasm_lines (lines_of (sys.read_file name))

-- The `try` block and its `catch` clauses, for what loading the file gives.
unfoldable pub disasm_loaded : System → Text → Result ElfFile → Result Printed
disasm_loaded sys name (ok program) = disasm_elf_file program
disasm_loaded sys name (throw (invalid_argument what)) = disasm_ascii_file sys name
disasm_loaded sys name (throw e) = ok ([], ExitCodes.initialization_error)
disasm_loaded sys name Base.Result.undefined = Base.Result.undefined

unfoldable pub disasm_file : System → Text → Result Printed
disasm_file sys name =
    if not (sys.exists name) || sys.is_directory name
    then ok ([], ExitCodes.invalid_argument)
    else disasm_loaded sys name (load_file (sys.map_file name))

unfoldable pub disasm_single : Text → Result Printed
disasm_single arg = elim (stoul_hex arg) [
  | ok word ↦ bind (format_disassembly (u32 word) 0) λ printed. ok (printed ∷ [], ExitCodes.success)
  | throw e ↦ ok ([], ExitCodes.invalid_argument)
  | Base.Result.undefined ↦ Base.Result.undefined
]
