-- ===== src/Prelude/Strings.antt =====
-- `std::string` as a list of bytes.
use Prim.Native.Nat.{ℕ}
use Prim.Native.Char.{code}
use Prim.Native.String.{String}
use mathlib.Core.Path.{◌≡◌, refl}
use mathlib.Core.Bool.{Bool, true, false, ◌&&◌}
use mathlib.Core.Logic.{◌↔◌}
use mathlib.Core.List.{List, [], ◌∷◌, ◌++◌}
use native.Mathlib.Omega.{arith}
use dinner_is_servered.Prelude.Tests.{◌==◌}
use dinner_is_servered.Prelude.Lists.{length, drop}

abbrev pub Bytes : Type 0
Bytes = List ℕ

abbrev codes : String → Bytes
codes String.[] = []
codes (String.◌∷◌ c s) = code c ∷ codes s

-- A literal of the source; every literal is ASCII. It stays shut, so that proofs do not spell it.
unfoldable pub text : String → Bytes
text s = codes s

-- `operator==` of two strings
unfoldable pub equal : Bytes → Bytes → Bool
equal [] [] = true
equal (x ∷ xs) (y ∷ ys) = x == y && equal xs ys
equal _ _ = false

pub equal_iff : (a b : Bytes) → (equal a b ≡ true) ↔ (a ≡ b)
unfolding equal
equal_iff [] [] = ground arith
equal_iff (x ∷ a) (y ∷ b) = ground (arith, equal_iff a b)
equal_iff _ _ = ground arith

-- `s.find(prefix) == 0`: the first occurrence is at the start exactly when `prefix` begins `s`
unfoldable pub begins_with : Bytes → Bytes → Bool
begins_with s [] = true
begins_with [] (p ∷ ps) = false
begins_with (c ∷ s) (p ∷ ps) = c == p && begins_with s ps

pub begins_with-split : (s p : Bytes) → begins_with s p ≡ true → s ≡ p ++ drop (length p) s
unfolding begins_with
begins_with-split s [] h = refl
begins_with-split [] (p ∷ ps) h = cc
begins_with-split (c ∷ s) (p ∷ ps) h = ground (arith, begins_with-split s ps)

pub begins_with-append : (p s : Bytes) → begins_with (p ++ s) p ≡ true
unfolding begins_with
begins_with-append [] s = refl
begins_with-append (c ∷ p) s = ground (arith, begins_with-append p s)

-- Two prefixes of one string that are equally long are equal.
pub begins_with-prefixes :
    (s p q : Bytes) → begins_with s p ≡ true → begins_with s q ≡ true → length p ≡ length q → p ≡ q
unfolding begins_with
begins_with-prefixes s [] [] h k e = refl
begins_with-prefixes s [] (y ∷ q) h k e = absurd (omega arith)
begins_with-prefixes s (x ∷ p) [] h k e = absurd (omega arith)
begins_with-prefixes [] (x ∷ p) (y ∷ q) h k e = cc
begins_with-prefixes (c ∷ s) (x ∷ p) (y ∷ q) h k e = ground (arith, begins_with-prefixes s p q)
