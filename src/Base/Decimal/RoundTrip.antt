-- ===== src/Base/Decimal/RoundTrip.antt =====
-- Reading the digits of a number.
use ca.Base.{
  ℕ, zero, suc, ◌+◌, ◌*◌, ◌/◌, ◌%◌, ◌^◌, ◌≤◌, ◌<◌, ◌≡◌, refl, ap, ◌∙◌, arith, true, false, some, [],
  ◌∷◌, ◌++◌, ltb, ok,
}
use native.Mathlib.Decide.{dec_lt}
use ca.Base.Int.{pos}
use ca.Base.Text.{Text, is_digit}
use ca.Base.Regex.Laws.{AllIn, AllIn-append}
use ca.Base.Decimal.{
  digits, to_string, digit_value, accumulate, magnitude, magnitude_any, skip_spaces, split_sign,
  to_unsigned, stoull_any, stoul, to_int, stoi,
}

-- A number's digits, the first of them apart.
pub record HasDigits (n : ℕ) (s : Text) : Type 0 where
  pub first : ℕ
  pub rest : Text
  pub parts : s ≡ first ∷ rest
  pub first_digit : (b'0' ≤ first) × (first ≤ b'9')
  pub rest_digits : AllIn is_digit rest
  pub no_leading_zero : 0 < n → b'0' < first

digits-HasDigits : (fuel n : ℕ) → n < fuel → HasDigits n (digits fuel n)
unfolding digits
digits-HasDigits zero n h = absurd (omega arith)
digits-HasDigits (suc fuel) n h = elim (dec_lt n 10) [
  | yes small ↦ record {
    first = b'0' + n;
    rest = [];
    parts = ground arith;
    first_digit = (omega arith, omega arith);
    rest_digits = tt;
    no_leading_zero = λ p. omega arith;
  }
  | no large ↦
      let h' = digits-HasDigits fuel (n / 10) (omega arith) in
      record {
        first = h'.first;
        rest = h'.rest ++ (b'0' + n % 10) ∷ [];
        parts = ground (arith, h'.parts);
        first_digit = h'.first_digit;
        rest_digits = AllIn-append is_digit h'.rest _ h'.rest_digits (ground arith, tt);
        no_leading_zero = λ p. h'.no_leading_zero (omega arith);
      }
]

pub to_string-HasDigits : (n : ℕ) → HasDigits n (to_string n)
unfolding to_string
to_string-HasDigits n = digits-HasDigits (suc n) n (omega arith)

HasDigits-AllIn : {n : ℕ} (s : Text) → HasDigits n s → AllIn is_digit s
HasDigits-AllIn s h = rw h.parts (ground (arith, h.first_digit), h.rest_digits)

accumulate-append :
    (value : ℕ) (s t : Text)
    → AllIn is_digit s
    → accumulate 10 value (s ++ t) ≡ accumulate 10 (accumulate 10 value s) t
unfolding accumulate
accumulate-append value [] t h = refl
accumulate-append value (c ∷ s) t h =
    ground (arith, h.0, accumulate-append (value * 10 + digit_value c) s t (h.1))

pub digits-small : (fuel n : ℕ) → n < 10 → digits (suc fuel) n ≡ (b'0' + n) ∷ []
unfolding digits
digits-small fuel n h = ground arith

pub digits-large :
    (fuel n : ℕ) → 10 ≤ n → digits (suc fuel) n ≡ digits fuel (n / 10) ++ (b'0' + n % 10) ∷ []
unfolding digits
digits-large fuel n h = ground arith

accumulate-digit : (value d : ℕ) → d < 10 → accumulate 10 value ((b'0' + d) ∷ []) ≡ value * 10 + d
unfolding accumulate
accumulate-digit value d h = ground arith

accumulate-digits : (fuel n : ℕ) → n < fuel → accumulate 10 0 (digits fuel n) ≡ n
accumulate-digits zero n h = absurd (omega arith)
accumulate-digits (suc fuel) n h = elim (dec_lt n 10) [
  | yes small ↦ rw (digits-small fuel n small, accumulate-digit 0 n small) (omega arith)
  | no large ↦
      rw
        (
          digits-large fuel n (omega arith),
          accumulate-append 0 (digits fuel (n / 10)) ((b'0' + n % 10) ∷ []) (
              HasDigits-AllIn (digits fuel (n / 10))
                (digits-HasDigits fuel (n / 10) (omega arith))),
          accumulate-digits fuel (n / 10) (omega arith),
          accumulate-digit (n / 10) (n % 10) (omega arith),
        )
        (omega arith)
]

pub accumulate-to_string : (n : ℕ) → accumulate 10 0 (to_string n) ≡ n
unfolding to_string
accumulate-to_string n = accumulate-digits (suc n) n (omega arith)

digit-decimal : (c : ℕ) → b'0' ≤ c → c ≤ b'9' → ltb (digit_value c) 10 ≡ true
digit-decimal c h k = ground arith

magnitude-first :
    (c : ℕ) (s : Text) → b'0' ≤ c → c ≤ b'9' → magnitude 10 (c ∷ s) ≡ some (accumulate 10 0 (c ∷ s))
unfolding magnitude
magnitude-first c s h k = rw (digit-decimal c h k) refl

magnitude-to_string : (n : ℕ) → magnitude 10 (to_string n) ≡ some n
magnitude-to_string n =
    let h = to_string-HasDigits n in
    rw h.parts (magnitude-first h.first h.rest (h.first_digit.0) (h.first_digit.1))
    ∙ ap some (accumulate-to_string n)

no_sign :
    (c : ℕ) (s : Text) → b'0' ≤ c → c ≤ b'9' → split_sign (skip_spaces (c ∷ s)) ≡ (false, c ∷ s)
unfolding split_sign
no_sign c s h k = ground arith

split_sign-to_string : (n : ℕ) → split_sign (skip_spaces (to_string n)) ≡ (false, to_string n)
split_sign-to_string n =
    let h = to_string-HasDigits n in
    rw h.parts (no_sign h.first h.rest (h.first_digit.0) (h.first_digit.1))

pub stoul-to_string : (n : ℕ) → n < 2 ^ 64 → stoul (to_string n) ≡ ok n
unfolding stoul to_unsigned
stoul-to_string n h = rw (split_sign-to_string n, magnitude-to_string n) (ground arith)

pub stoi-to_string : (n : ℕ) → n < 2 ^ 31 → stoi (to_string n) ≡ ok (pos n)
unfolding stoi to_int
stoi-to_string n h = rw (split_sign-to_string n, magnitude-to_string n) (ground arith)

-- Without a leading zero the base is ten.
magnitude_any-nonzero : (c : ℕ) (s : Text) → b'0' < c → magnitude_any (c ∷ s) ≡ magnitude 10 (c ∷ s)
unfolding magnitude_any
magnitude_any-nonzero c [] h = refl
magnitude_any-nonzero c (d ∷ s) h = ground arith

zero_text : magnitude_any (to_string 0) ≡ some 0
unfolding magnitude_any magnitude accumulate to_string digits
zero_text = refl

magnitude_any-to_string : (n : ℕ) → magnitude_any (to_string n) ≡ some n
magnitude_any-to_string zero = zero_text
magnitude_any-to_string (suc n) =
    let h = to_string-HasDigits (suc n) in
    rw h.parts (magnitude_any-nonzero h.first h.rest (h.no_leading_zero (omega arith)))
    ∙ magnitude-to_string (suc n)

pub stoull_any-to_string : (n : ℕ) → n < 2 ^ 64 → stoull_any (to_string n) ≡ ok n
unfolding stoull_any to_unsigned
stoull_any-to_string n h = rw (split_sign-to_string n, magnitude_any-to_string n) (ground arith)
