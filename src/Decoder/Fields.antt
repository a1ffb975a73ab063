-- ===== src/Decoder/Fields.antt =====
-- src/inst-decoder.cc: the masks and shifts of the decoder as arithmetic.
use ca.Base.{
  ℕ, suc, ◌+◌, ◌-◌, ◌*◌, ◌/◌, ◌%◌, ◌^◌, ◌<◌, bit_or, bit_xor, ◌≡◌, arith, if◌then◌else◌, ltb, ap,
}
use native.Mathlib.Nat.{pow-suc, one-le-pow}
use ca.Base.Int.{pos, signed}
use ca.Base.Bits.{
  bit_and_mask, bit_or_fields, bit_or_between, bit_xor_split, bit_xor-zero, bit_and_split,
  bit_and-zero,
}
use ca.Decoder.{
  InstructionDecoder, get_rs1, get_rs2, get_rd, get_opcode, to_opcode, get_funct3, get_funct7,
  sign_extend, get_immediate_i, get_immediate_s, get_immediate_b, get_immediate_u, get_immediate_j,
}

xor_top_bit :
    (k x : ℕ) → x < 2 ^ suc k → bit_xor x (2 ^ k) ≡ (if ltb x (2 ^ k) then x + 2 ^ k else x - 2 ^ k)
xor_top_bit k x h = ground (
  arith,
  pow-suc 2 k,
  one-le-pow k 2,
  bit_xor_split k 0 x 1 0,
  bit_xor_split k 1 (x - 2 ^ k) 1 0,
  bit_xor-zero x,
  bit_xor-zero (x - 2 ^ k),
)

-- Sign extension gives the integer that the low bits stand for, at each width in use.
sign_extend-12 : (x : ℕ) → x < 2 ^ 12 → sign_extend x 12 ≡ signed 12 x
unfolding sign_extend
sign_extend-12 x h = ground (arith, xor_top_bit 11 x)

sign_extend-13 : (x : ℕ) → x < 2 ^ 13 → sign_extend x 13 ≡ signed 13 x
unfolding sign_extend
sign_extend-13 x h = ground (arith, xor_top_bit 12 x)

sign_extend-21 : (x : ℕ) → x < 2 ^ 21 → sign_extend x 21 ≡ signed 21 x
unfolding sign_extend
sign_extend-21 x h = ground (arith, xor_top_bit 20 x)

abbrev pub decoder : ℕ → InstructionDecoder
decoder w = record { instruction_word = w }

-- The fields as quotients and remainders.
pub opcode_as_mod : (w : ℕ) → get_opcode (decoder w) ≡ to_opcode (w % 2 ^ 7)
unfolding get_opcode
opcode_as_mod w = ap to_opcode (bit_and_mask 7 w)

pub register_fields :
    (w : ℕ)
    → (get_rd (decoder w) ≡ w / 2 ^ 7 % 2 ^ 5)
      × (get_rs1 (decoder w) ≡ w / 2 ^ 15 % 2 ^ 5)
      × (get_rs2 (decoder w) ≡ w / 2 ^ 20 % 2 ^ 5)
unfolding get_rd get_rs1 get_rs2
register_fields w =
    (bit_and_mask 5 (w / 2 ^ 7), bit_and_mask 5 (w / 2 ^ 15), bit_and_mask 5 (w / 2 ^ 20))

pub function_fields :
    (w : ℕ)
    → (get_funct3 (decoder w) ≡ w / 2 ^ 12 % 2 ^ 3) × (get_funct7 (decoder w) ≡ w / 2 ^ 25 % 2 ^ 7)
unfolding get_funct3 get_funct7
function_fields w = (bit_and_mask 3 (w / 2 ^ 12), bit_and_mask 7 (w / 2 ^ 25))

pub immediate_i_as_mod : (w : ℕ) → get_immediate_i (decoder w) ≡ signed 12 (w / 2 ^ 20 % 2 ^ 12)
unfolding get_immediate_i
immediate_i_as_mod w =
    rw (bit_and_mask 12 (w / 2 ^ 20)) (sign_extend-12 (w / 2 ^ 20 % 2 ^ 12) (omega arith))

pub immediate_s_as_sum :
    (w : ℕ)
    → get_immediate_s (decoder w) ≡ signed 12 (w / 2 ^ 25 % 2 ^ 7 * 2 ^ 5 + w / 2 ^ 7 % 2 ^ 5)
unfolding get_immediate_s
immediate_s_as_sum w =
    rw
      (
        bit_and_mask 7 (w / 2 ^ 25),
        bit_and_mask 5 (w / 2 ^ 7),
        bit_or_fields 5 (w / 2 ^ 25 % 2 ^ 7) (w / 2 ^ 7 % 2 ^ 5) (omega arith),
      )
      (sign_extend-12 _ (omega arith))

join_b :
    (a b c d : ℕ)
    → b < 2
    → c < 2 ^ 6
    → d < 2 ^ 4
    → bit_or (bit_or (bit_or (a * 2 ^ 12) (b * 2 ^ 11)) (c * 2 ^ 5)) (d * 2 ^ 1)
      ≡ a * 2 ^ 12 + b * 2 ^ 11 + c * 2 ^ 5 + d * 2
join_b a b c d hb hc hd = ground (
  arith,
  bit_or_fields 12 a (b * 2 ^ 11),
  bit_or_fields 11 (a * 2 + b) (c * 2 ^ 5),
  bit_or_fields 5 (a * 2 ^ 7 + b * 2 ^ 6 + c) (d * 2 ^ 1),
)

pub immediate_b_as_sum :
    (w : ℕ)
    → get_immediate_b (decoder w)
      ≡ signed 13 (
          w / 2 ^ 31 % 2 * 2 ^ 12
          + w / 2 ^ 7 % 2 * 2 ^ 11
          + w / 2 ^ 25 % 2 ^ 6 * 2 ^ 5
          + w / 2 ^ 8 % 2 ^ 4 * 2)
unfolding get_immediate_b
immediate_b_as_sum w =
    rw
      (
        bit_and_mask 1 (w / 2 ^ 31),
        bit_and_mask 1 (w / 2 ^ 7),
        bit_and_mask 6 (w / 2 ^ 25),
        bit_and_mask 4 (w / 2 ^ 8),
        join_b (w / 2 ^ 31 % 2) (w / 2 ^ 7 % 2) (w / 2 ^ 25 % 2 ^ 6) (w / 2 ^ 8 % 2 ^ 4)
            (omega arith) (omega arith) (omega arith),
      )
      (sign_extend-13 _ (omega arith))

join_j :
    (a b c d : ℕ)
    → b < 2 ^ 10
    → c < 2
    → d < 2 ^ 8
    → bit_or (bit_or (bit_or (a * 2 ^ 20) (b * 2 ^ 1)) (c * 2 ^ 11)) (d * 2 ^ 12)
      ≡ a * 2 ^ 20 + d * 2 ^ 12 + c * 2 ^ 11 + b * 2
join_j a b c d hb hc hd = ground (
  arith,
  bit_or_fields 20 a (b * 2 ^ 1),
  bit_or_between 11 9 a c (b * 2),
  bit_or_between 12 8 a d (c * 2 ^ 11 + b * 2),
)

pub immediate_j_as_sum :
    (w : ℕ)
    → get_immediate_j (decoder w)
      ≡ signed 21 (
          w / 2 ^ 31 % 2 * 2 ^ 20
          + w / 2 ^ 12 % 2 ^ 8 * 2 ^ 12
          + w / 2 ^ 20 % 2 * 2 ^ 11
          + w / 2 ^ 21 % 2 ^ 10 * 2)
unfolding get_immediate_j
immediate_j_as_sum w =
    rw
      (
        bit_and_mask 1 (w / 2 ^ 31),
        bit_and_mask 10 (w / 2 ^ 21),
        bit_and_mask 1 (w / 2 ^ 20),
        bit_and_mask 8 (w / 2 ^ 12),
        join_j (w / 2 ^ 31 % 2) (w / 2 ^ 21 % 2 ^ 10) (w / 2 ^ 20 % 2) (w / 2 ^ 12 % 2 ^ 8)
            (omega arith) (omega arith) (omega arith),
      )
      (sign_extend-21 _ (omega arith))

pub immediate_u_as_mul :
    (w : ℕ) → w < 2 ^ 32 → get_immediate_u (decoder w) ≡ pos (w / 2 ^ 12 * 2 ^ 12)
unfolding get_immediate_u
immediate_u_as_mul w h = ground (
  arith,
  bit_and_split 12 (w / 2 ^ 12) (w % 2 ^ 12) 0xFFFFF 0,
  bit_and_mask 20 (w / 2 ^ 12),
  bit_and-zero (w % 2 ^ 12),
)
