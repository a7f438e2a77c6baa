-- ===== src/Dispatch/Target.antt =====
-- The first part of getRequestType, getStaticFilePath and getCrudEntityPath, which each of the
-- three spells out: back to back slashes and trailing slashes are removed from the target.
pub mod Normal
use mathlib.Core.List.{reverse}
use dinner_is_servered.Prelude.{
  ℕ, zero, suc, Bool, true, false, not, ◌&&◌, ◌||◌, ◌≡◌, refl, List, [], ◌∷◌, ◌++◌, Option, none,
  some, Bytes, ◌==◌, if◌then◌else◌, arith, length, ltb, text, drop,
}
use dinner_is_servered.Logging.{info}
use dinner_is_servered.Runtime.{M, ◌>>=◌, ◌>>◌, pure, crash, log}

-- `for (char c : target)`, with `result` and `is_prev_shash`
unfoldable pub squeeze : Bytes → Bool → Bytes → Bytes
squeeze result is_prev_slash [] = result
squeeze result is_prev_slash (c ∷ target) = elim (c == b'/' && is_prev_slash) [
  | true ↦ squeeze result is_prev_slash target
  | false ↦ squeeze (result ++ c ∷ []) (c == b'/') target
]

-- `result.back()`; undefined on the empty string
unfoldable pub back : Bytes → Option ℕ
back [] = none
back (c ∷ []) = some c
back (c ∷ d ∷ s) = back (d ∷ s)

unfoldable pub pop_back : Bytes → Bytes
pop_back [] = []
pop_back (c ∷ []) = []
pop_back (c ∷ d ∷ s) = c ∷ pop_back (d ∷ s)

-- `result.back() == '/' && result.length() > 1`
abbrev ends_in_slash : Bytes → Option ℕ → Option Bool
ends_in_slash result none = none
ends_in_slash result (some c) = some (c == b'/' && ltb 1 (length result))

unfoldable pub trims : Bytes → Option Bool
trims result = ends_in_slash result (back result)

-- The `while` loop. Every round takes a byte away, so the length is enough fuel; `none` is
-- undefined behaviour.
unfoldable pub trim_loop : ℕ → Bytes → Option Bytes
trim_loop zero result = some result
trim_loop (suc fuel) result = elim (trims result) [
  | none ↦ none
  | some true ↦ trim_loop fuel (pop_back result)
  | some false ↦ some result
]

unfoldable pub trim : Bytes → Option Bytes
trim result = trim_loop (suc (length result)) result

-- The path that is looked up, as getStaticFilePath and getCrudEntityPath compute it.
unfoldable pub normalize : Bytes → Option Bytes
normalize target = trim (squeeze [] false target)

-- The same loops with the messages of getRequestType.
unfoldable pub squeeze_logged : Bytes → Bool → Bytes → M Bytes
squeeze_logged result is_prev_slash [] = pure result
squeeze_logged result is_prev_slash (c ∷ target) = elim (c == b'/' && is_prev_slash) [
  | true ↦ (do
    log info (text "Found multiple slashes in a row")
    squeeze_logged result is_prev_slash target)
  | false ↦ squeeze_logged (result ++ c ∷ []) (c == b'/') target
]

unfoldable pub trim_logged : ℕ → Bytes → M Bytes
trim_logged zero result = pure result
trim_logged (suc fuel) result = elim (trims result) [
  | none ↦ crash
  | some true ↦ (do log info (text "Found trailing slash"); trim_logged fuel (pop_back result))
  | some false ↦ pure result
]
