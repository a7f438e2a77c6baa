-- ===== src/Runtime/Numbers.antt =====
-- `int`, and std::stoi at base ten.
use dinner_is_servered.Prelude.{
  ℕ, zero, suc, ◌+◌, ◌-◌, ◌*◌, ◌^◌, ◌%◌, ◌/◌, Bool, true, false, ◌&&◌, ◌||◌, [], ◌∷◌, Bytes, Option,
  none, some, ◌==◌, leb, ltb, if◌then◌else◌,
}

-- `negsuc n` is -(n + 1).
pub data ℤ : Type 0 where
  pos : ℕ → ℤ
  negsuc : ℕ → ℤ

abbrev pub is_digit : ℕ → Bool
is_digit c = leb b'0' c && leb c b'9'

-- `isspace` in the C locale
abbrev pub is_blank : ℕ → Bool
is_blank c = c == b' ' || (leb 9 c && leb c 13)

-- The digits at the front of a text, as a number; `none` where there are none.
unfoldable pub digits_from : ℕ → Bytes → ℕ
digits_from acc [] = acc
digits_from acc (c ∷ s) = elim (is_digit c) [
  | true ↦ digits_from (acc * 10 + (c - 48)) s
  | false ↦ acc
]

unfoldable pub leading_digits : Bytes → Option ℕ
unfolding digits_from
leading_digits [] = none
leading_digits (c ∷ s) = if is_digit c then some (digits_from 0 (c ∷ s)) else none

pub data Parsed : Type 0 where
  parsed : ℤ → Parsed
  invalid : Parsed
  too_large : Parsed

-- a magnitude and its sign, as a 32-bit `int`
unfoldable pub signed : Bool → Option ℕ → Parsed
signed negative none = invalid
signed false (some n) = if ltb n (2 ^ 31) then parsed (pos n) else too_large
signed true (some zero) = parsed (pos 0)
signed true (some (suc n)) = if ltb n (2 ^ 31) then parsed (negsuc n) else too_large

unfoldable pub unblank : Bytes → Bytes
unblank [] = []
unblank (c ∷ s) = let rest = unblank s in if is_blank c then rest else c ∷ s

unfoldable pub with_sign : Bytes → Parsed
with_sign [] = invalid
with_sign (c ∷ s) =
    if c == b'-'
    then signed true (leading_digits s)
    else if c == b'+'
    then signed false (leading_digits s)
    else signed false (leading_digits (c ∷ s))

unfoldable pub stoi : Bytes → Parsed
unfolding unblank with_sign signed leading_digits
stoi s = with_sign (unblank s)

-- The digits of a number in front of those that are there. Every round takes a digit, so the number
-- itself, and one more, is enough fuel.
unfoldable pub digits : ℕ → ℕ → Bytes → Bytes
digits zero n acc = acc
digits (suc fuel) n acc =
    let d = 48 + n % 10 in
    elim (ltb n 10) [ true ↦ d ∷ acc | false ↦ digits fuel (n / 10) (d ∷ acc) ]

-- `std::to_string` of an unsigned number
unfoldable pub to_string : ℕ → Bytes
unfolding digits
to_string n = digits (suc n) n []

-- A size as an `int`.
unfoldable pub int_of_size : ℕ → ℤ
int_of_size n = let m = n % 2 ^ 32 in if ltb m (2 ^ 31) then pos m else negsuc (2 ^ 32 - 1 - m)

-- `std::to_string` of an `int`
unfoldable pub to_string_int : ℤ → Bytes
to_string_int (pos n) = to_string n
to_string_int (negsuc n) = b'-' ∷ to_string (suc n)
