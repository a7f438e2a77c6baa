-- ===== src/Runtime/Search.antt =====
-- std::string::find and std::string::substr, and the conversions between `size_t` and `int`. A
-- string is shorter than 2 ^ 64 bytes.
use dinner_is_servered.Prelude.{
  ℕ, suc, ◌+◌, ◌-◌, ◌%◌, ◌^◌, [], ◌∷◌, Bytes, ltb, if◌then◌else◌, begins_with, length, take, drop,
  ◌≤◌, ◌<◌, ◌≡◌, ◌++◌, refl, ap, false, arith, length-append, drop-append,
}
use dinner_is_servered.Runtime.{Outcome, returns, throws, out_of_range}
use dinner_is_servered.Runtime.Numbers.{ℤ, pos, negsuc, int_of_size}

-- `std::string::npos`
abbrev pub npos : ℕ
npos = 2 ^ 64 - 1

-- The first place at which the target stands, where the string itself begins at `n`.
unfoldable pub find_at : ℕ → Bytes → Bytes → ℕ
find_at n [] target = if begins_with [] target then n else npos
find_at n (c ∷ s) target =
    let rest = find_at (suc n) s target in if begins_with (c ∷ s) target then n else rest

-- `s.find(target, from)`
unfoldable pub find_sub : Bytes → Bytes → ℕ → ℕ
find_sub s target from = if ltb (length s) from then npos else find_at from (drop from s) target

-- `s.substr(from, count)`
unfoldable pub substr : Bytes → ℕ → ℕ → Outcome Bytes
substr s from count =
    if ltb (length s) from then throws out_of_range else returns (take count (drop from s))

-- sums and differences of `size_t`
unfoldable pub size_add : ℕ → ℕ → ℕ
size_add a b = (a + b) % 2 ^ 64

unfoldable pub size_sub : ℕ → ℕ → ℕ
size_sub a b = (a + (2 ^ 64 - b)) % 2 ^ 64

-- An `int` as a `size_t`.
unfoldable pub size_of_int : ℤ → ℕ
size_of_int (pos n) = n
size_of_int (negsuc n) = 2 ^ 64 - 1 - n

not_before : (a b : ℕ) → b ≤ a → ltb a b ≡ false
not_before a b h = ground arith

pub find_sub-start : (body t : Bytes) → find_sub body t 0 ≡ find_at 0 body t
unfolding find_sub
find_sub-start body t = rw (not_before (length body) 0 (omega arith), find_sub) refl

pub find_sub-append :
    (before s t : Bytes) → find_sub (before ++ s) t (length before) ≡ find_at (length before) s t
unfolding find_sub
find_sub-append before s t =
    rw
      (
        not_before (length (before ++ s)) (length before) (omega (arith, length-append before s)),
        find_sub,
      )
      (ap (λ x. find_at (length before) x t) (drop-append before s))

pub substr-append :
    (before s : Bytes) (count : ℕ)
    → substr (before ++ s) (length before) count ≡ returns (take count s)
unfolding substr
substr-append before s count =
    rw
      (
        not_before (length (before ++ s)) (length before) (omega (arith, length-append before s)),
        substr,
      )
      (ap (λ x. returns (take count x)) (drop-append before s))

pub size_add-small : (a b : ℕ) → a + b < 2 ^ 64 → size_add a b ≡ a + b
unfolding size_add
size_add-small a b h = ground (arith, h)

pub size_sub-small : (a b : ℕ) → a + b < 2 ^ 64 → size_sub (a + b) a ≡ b
unfolding size_sub
size_sub-small a b h = ground (arith, h)

pub int_of_size-small : (n : ℕ) → n < 2 ^ 31 → size_of_int (int_of_size n) ≡ n
unfolding int_of_size size_of_int
int_of_size-small n h = ground (arith, h)
