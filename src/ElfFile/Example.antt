-- ===== src/ElfFile/Example.antt =====
-- A file with one section of four bytes.
use ca.Base.{ℕ, ◌≡◌, refl, true, false, List, [], ◌∷◌, ◌++◌, ok, replicate}
use ca.Memory.Bytes.{load}
use ca.ElfFile.{
  ElfFile, TextSegment, field, section_header, foreach_from, foreach_segment, copy_n, take_text,
  get_text_segment,
}

abbrev pub zeros : ℕ → List ℕ
zeros n = replicate n 0

abbrev file_header : List ℕ
file_header =
    0x7F ∷ b'E' ∷ b'L' ∷ b'F' ∷ 2 ∷ 1 ∷ 1 ∷ zeros 9
    ++ 2 ∷ 0 ∷ 243 ∷ 0 ∷ 1 ∷ 0 ∷ 0 ∷ 0 ∷ 0 ∷ 16 ∷ zeros 6
    ++ 64 ∷ zeros 7
    ++ 64 ∷ zeros 7
    ++ zeros 12
    ++ 1 ∷ 0 ∷ 0 ∷ 0 ∷ []

abbrev text_header : List ℕ
text_header =
    zeros 4
    ++ 1 ∷ zeros 3
    ++ 7 ∷ zeros 7
    ++ 0 ∷ 16 ∷ zeros 6
    ++ 128 ∷ zeros 7
    ++ 4 ∷ zeros 7
    ++ zeros 8
    ++ 4 ∷ zeros 7
    ++ zeros 8

abbrev pub program : List ℕ
program = file_header ++ text_header ++ 0x93 ∷ 0 ∷ 0 ∷ 0 ∷ []

abbrev pub file : ElfFile
file = record { mapped = program; is_bad = false }

abbrev pub text : TextSegment
text = record { bytes = 0x93 ∷ 0 ∷ 0 ∷ 0 ∷ []; base = 4096; size = 4; found = true }

pub text_is_found : get_text_segment 0 0 file ≡ ok text
unfolding get_text_segment foreach_segment foreach_from take_text copy_n section_header field load
text_is_found = refl
