-- ===== src/Runtime/Decimal.antt =====
-- std::stoull and std::stoi on what std::to_string writes.
use dinner_is_servered.Prelude.{
  ℕ, zero, suc, ◌+◌, ◌*◌, ◌/◌, ◌%◌, ◌^◌, ◌<◌, ◌≡◌, inl, inr, refl, sym, ap, ◌∙◌, true, false, [],
  ◌∷◌, some, Bytes, ltb, arith, Bool-cases,
}
use dinner_is_servered.Runtime.Numbers.{
  is_digit, digits, digits_from, leading_digits, to_string, unblank, with_sign, signed, stoi, pos,
}
use dinner_is_servered.Runtime.Numbers
use dinner_is_servered.Runtime.Words.{parsed, unsigned, unsigned_of, stoull}

digit-is_digit : (n : ℕ) → is_digit (48 + n % 10) ≡ true
digit-is_digit n = ground arith

digits_from-digit :
    (k n : ℕ) (s : Bytes) → digits_from k ((48 + n % 10) ∷ s) ≡ digits_from (k * 10 + n % 10) s
unfolding digits_from
digits_from-digit k n s =
    rw (digit-is_digit n, digits_from) (ap (λ m. digits_from m s) (omega arith))

digits_from-digits :
    (fuel n : ℕ) (s : Bytes) → n < fuel → digits_from 0 (digits fuel n s) ≡ digits_from n s
unfolding digits
digits_from-digits zero n s h = absurd (omega arith)
digits_from-digits (suc fuel) n s h = elim (Bool-cases (ltb n 10)) [
  | inl e ↦ rw (e, digits) (digits_from-digit 0 n s ∙ ap (λ m. digits_from m s) (ground arith))
  | inr e ↦
      rw (e, digits)
        (digits_from-digits fuel (n / 10) ((48 + n % 10) ∷ s) (ground arith)
          ∙ digits_from-digit (n / 10) n s
          ∙ ap (λ m. digits_from m s) (omega arith))
]

-- The digits begin with a digit.
digits-first :
    (fuel n : ℕ) (s : Bytes)
    → n < fuel
    → (c : ℕ) × (cs : Bytes) × (digits fuel n s ≡ c ∷ cs) × (is_digit c ≡ true)
unfolding digits
digits-first zero n s h = absurd (omega arith)
digits-first (suc fuel) n s h = elim (Bool-cases (ltb n 10)) [
  | inl e ↦ (48 + n % 10, s, rw (e, digits) refl, digit-is_digit n)
  | inr e ↦
      let (c, cs, f, g) = digits-first fuel (n / 10) ((48 + n % 10) ∷ s) (ground arith) in
      (c, cs, rw (e, digits) f, g)
]

unblank-digit : (c : ℕ) (cs : Bytes) → is_digit c ≡ true → unblank (c ∷ cs) ≡ c ∷ cs
unfolding unblank
unblank-digit c cs h = ground arith

unsigned_of-digit :
    (c : ℕ) (cs : Bytes)
    → is_digit c ≡ true
    → unsigned_of (c ∷ cs) ≡ unsigned false (leading_digits (c ∷ cs))
unfolding unsigned_of
unsigned_of-digit c cs h = ground arith

leading_digits-digit :
    (c : ℕ) (cs : Bytes)
    → is_digit c ≡ true
    → leading_digits (c ∷ cs) ≡ some (digits_from 0 (c ∷ cs))
unfolding leading_digits
leading_digits-digit c cs h = rw h refl

unsigned-small : (n : ℕ) → n < 2 ^ 64 → unsigned false (some n) ≡ parsed n
unfolding unsigned
unsigned-small n h = ground arith

digits_from-nil : (n : ℕ) → digits_from n [] ≡ n
unfolding digits_from
digits_from-nil n = refl

-- A 64-bit number.
pub stoull-to_string : (n : ℕ) → n < 2 ^ 64 → stoull (to_string n) ≡ parsed n
unfolding stoull to_string
stoull-to_string n h =
    let (c, cs, e, d) = digits-first (suc n) n [] (omega arith) in
    let value =
      sym (ap (digits_from 0) e)
      ∙ digits_from-digits (suc n) n [] (omega arith)
      ∙ digits_from-nil n in
    ap (λ s. unsigned_of (unblank s)) e
    ∙ ap unsigned_of (unblank-digit c cs d)
    ∙ unsigned_of-digit c cs d
    ∙ ap (unsigned false) (leading_digits-digit c cs d ∙ ap some value)
    ∙ unsigned-small n h

with_sign-digit :
    (c : ℕ) (cs : Bytes)
    → is_digit c ≡ true
    → with_sign (c ∷ cs) ≡ signed false (leading_digits (c ∷ cs))
unfolding with_sign
with_sign-digit c cs h = ground arith

signed-small : (n : ℕ) → n < 2 ^ 31 → signed false (some n) ≡ Numbers.parsed (pos n)
unfolding signed
signed-small n h = ground arith

-- A number that is an `int`.
pub stoi-to_string : (n : ℕ) → n < 2 ^ 31 → stoi (to_string n) ≡ Numbers.parsed (pos n)
unfolding stoi to_string
stoi-to_string n h =
    let (c, cs, e, d) = digits-first (suc n) n [] (omega arith) in
    let value =
      sym (ap (digits_from 0) e)
      ∙ digits_from-digits (suc n) n [] (omega arith)
      ∙ digits_from-nil n in
    ap (λ s. with_sign (unblank s)) e
    ∙ ap with_sign (unblank-digit c cs d)
    ∙ with_sign-digit c cs d
    ∙ ap (signed false) (leading_digits-digit c cs d ∙ ap some value)
    ∙ signed-small n h
