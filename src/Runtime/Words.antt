-- ===== src/Runtime/Words.antt =====
-- `stream >> word`, over a whole file, and std::stoull.
use dinner_is_servered.Prelude.{
  ℕ, ◌-◌, ◌%◌, ◌^◌, Bool, true, false, List, [], ◌∷◌, ◌++◌, Option, none, some, Bytes, ◌==◌, ltb,
  if◌then◌else◌,
}
use dinner_is_servered.Runtime.Numbers.{is_blank, leading_digits, unblank}

-- The words, with the word so far.
unfoldable pub words_from : Bytes → Bytes → List Bytes
words_from [] [] = []
words_from (w ∷ ws) [] = (w ∷ ws) ∷ []
words_from [] (c ∷ s) = elim (is_blank c) [ true ↦ words_from [] s | false ↦ words_from (c ∷ []) s ]
words_from (w ∷ ws) (c ∷ s) = elim (is_blank c) [
  | true ↦ (w ∷ ws) ∷ words_from [] s
  | false ↦ words_from (w ∷ (ws ++ c ∷ [])) s
]

unfoldable pub words : Bytes → List Bytes
words s = words_from [] s

pub data ParsedSize : Type 0 where
  parsed : ℕ → ParsedSize
  invalid too_large : ParsedSize

-- The magnitude as a 64-bit number; a minus sign takes it from 2 ^ 64.
unfoldable pub unsigned : Bool → Option ℕ → ParsedSize
unsigned negative none = invalid
unsigned negative (some n) =
    if ltb n (2 ^ 64) then parsed (if negative then (2 ^ 64 - n) % 2 ^ 64 else n) else too_large

unfoldable pub unsigned_of : Bytes → ParsedSize
unsigned_of [] = invalid
unsigned_of (c ∷ s) =
    if c == b'-'
    then unsigned true (leading_digits s)
    else if c == b'+'
    then unsigned false (leading_digits s)
    else unsigned false (leading_digits (c ∷ s))

unfoldable pub stoull : Bytes → ParsedSize
stoull s = unsigned_of (unblank s)
