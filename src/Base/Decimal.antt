-- ===== src/Base/Decimal.antt =====
-- `std::to_string`, and the conversions `std::stoul`, `std::stoull` and `std::stoi`.
pub mod RoundTrip
use ca.Base.{
  String, ℕ, zero, suc, ◌+◌, ◌-◌, ◌*◌, ◌/◌, ◌%◌, ◌^◌, Bool, true, false, ◌&&◌, ◌||◌, Option, none,
  some, List, [], ◌∷◌, ◌++◌, ◌==◌, ltb, leb, if◌then◌else◌, Result, ok, throw, bind,
  invalid_argument, out_of_range_error,
}
use ca.Base.Int.{ℤ, pos, negsuc}
use ca.Base.Text.{Text, is_digit, is_space}
use ca.Base.Regex.{or_else}

-- The digits of `n`, for fuel above `n`.
unfoldable pub digits : ℕ → ℕ → Text
digits zero n = []
digits (suc fuel) n =
    let more = digits fuel (n / 10) ++ (b'0' + n % 10) ∷ [] in
    if ltb n 10 then (b'0' + n) ∷ [] else more

unfoldable pub to_string : ℕ → Text
unfolding digits
to_string n = digits (suc n) n

unfoldable pub to_string_ℤ : ℤ → Text
to_string_ℤ (pos n) = to_string n
to_string_ℤ (negsuc n) = b'-' ∷ to_string (suc n)

-- A byte that is no digit in any base gives 36.
abbrev pub digit_value : ℕ → ℕ
digit_value c =
    if leb b'0' c && leb c b'9'
    then c - b'0'
    else if leb b'a' c && leb c b'z'
    then c - b'a' + 10
    else if leb b'A' c && leb c b'Z'
    then c - b'A' + 10
    else 36

-- The value of the digits that come first, after those that made `value`.
unfoldable pub accumulate : ℕ → ℕ → Text → ℕ
accumulate base value [] = value
accumulate base value (c ∷ s) =
    let more = accumulate base (value * base + digit_value c) s in
    if ltb (digit_value c) base then more else value

unfoldable pub magnitude : ℕ → Text → Option ℕ
magnitude base [] = none
magnitude base (c ∷ s) = if ltb (digit_value c) base then some (accumulate base 0 (c ∷ s)) else none

-- The base that the text itself names, which is base 0.
unfoldable pub magnitude_any : Text → Option ℕ
magnitude_any (c ∷ d ∷ s) =
    if c == b'0' && (d == b'x' || d == b'X')
    then or_else (magnitude 16 s) (some 0)
    else if c == b'0'
    then magnitude 8 (c ∷ d ∷ s)
    else magnitude 10 (c ∷ d ∷ s)
magnitude_any s = magnitude 10 s

abbrev pub skip_spaces : Text → Text
skip_spaces [] = []
skip_spaces (c ∷ s) = let rest = skip_spaces s in if is_space c then rest else c ∷ s

-- Whether there is a minus sign, and what follows the sign.
unfoldable pub split_sign : Text → Bool × Text
split_sign [] = (false, [])
split_sign (c ∷ s) =
    if c == b'-' then (true, s) else if c == b'+' then (false, s) else (false, c ∷ s)

-- A minus sign wraps around.
unfoldable pub to_unsigned : String → Bool → Option ℕ → Result ℕ
to_unsigned name negative none = throw (invalid_argument name)
to_unsigned name negative (some m) =
    if leb (2 ^ 64) m
    then throw (out_of_range_error name)
    else ok (if negative then (2 ^ 64 - m) % 2 ^ 64 else m)

unfoldable pub stoull_any : Text → Result ℕ
stoull_any s =
    let (negative, rest) = split_sign (skip_spaces s) in
    to_unsigned "stoull" negative (magnitude_any rest)

unfoldable pub stoul : Text → Result ℕ
stoul s =
    let (negative, rest) = split_sign (skip_spaces s) in
    to_unsigned "stoul" negative (magnitude 10 rest)

-- A prefix 0x is allowed in base 16.
unfoldable pub magnitude_hex : Text → Option ℕ
magnitude_hex (c ∷ d ∷ s) =
    if c == b'0' && (d == b'x' || d == b'X')
    then or_else (magnitude 16 s) (some 0)
    else magnitude 16 (c ∷ d ∷ s)
magnitude_hex s = magnitude 16 s

unfoldable pub stoul_hex : Text → Result ℕ
stoul_hex s =
    let (negative, rest) = split_sign (skip_spaces s) in
    to_unsigned "stoul" negative (magnitude_hex rest)

-- To an `int`; a result outside it is an error.
unfoldable pub to_int : Bool → Option ℕ → Result ℤ
to_int negative none = throw (invalid_argument "stoi")
to_int false (some m) = if ltb m (2 ^ 31) then ok (pos m) else throw (out_of_range_error "stoi")
to_int true (some zero) = ok (pos 0)
to_int true (some (suc m)) =
    if ltb m (2 ^ 31) then ok (negsuc m) else throw (out_of_range_error "stoi")

unfoldable pub stoi : Text → Result ℤ
stoi s = let (negative, rest) = split_sign (skip_spaces s) in to_int negative (magnitude 10 rest)
