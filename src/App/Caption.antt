-- ===== src/App/Caption.antt =====
-- process_post: the caption as a string of the JSON text of the response.
use dinner_is_servered.Prelude.{
  ℕ, Bool, true, false, not, ◌||◌, ◌&&◌, ltb, [], ◌∷◌, ◌++◌, Option, none, some, Bytes, ◌==◌,
  if◌then◌else◌,
}

-- '\n', '\r' or '\t'
abbrev pub is_dropped : ℕ → Bool
is_dropped c = c == b'\n' || c == b'\r' || c == b'\t'

-- What the loop appends for a byte.
unfoldable pub escaped_byte : ℕ → Bytes
escaped_byte c =
    if c == b'"'
    then b'\\' ∷ b'"' ∷ []
    else if c == b'\\'
    then b'\\' ∷ b'\\' ∷ []
    else if is_dropped c
    then []
    else c ∷ []

-- `for (char c : caption)`, with `special_character_escaped_caption` so far
unfoldable pub escape_loop : Bytes → Bytes → Bytes
escape_loop out [] = out
escape_loop out (c ∷ caption) = escape_loop (out ++ escaped_byte c) caption

abbrev then_read : ℕ → Option (Bytes × Bytes) → Option (Bytes × Bytes)
then_read c none = none
then_read c (some (value, rest)) = some (c ∷ value, rest)

-- The strings of RFC 8259, read behind the opening quote: the value, and what comes behind the
-- closing quote. The flag is whether a backslash stands before. Of the escapes, those of the quote
-- and of the backslash are read, and no other is taken; a control character, which is a byte below
-- 32, has to be escaped.
unfoldable pub read_string : Bool → Bytes → Option (Bytes × Bytes)
read_string escaped [] = none
read_string true (c ∷ s) =
    let rest = read_string false s in if c == b'"' || c == b'\\' then then_read c rest else none
read_string false (c ∷ s) =
    let rest = read_string false s in
    let behind = read_string true s in
    if c == b'"'
    then some ([], s)
    else if c == b'\\'
    then behind
    else if ltb c 32
    then none
    else then_read c rest

-- The caption without the bytes that are left out.
abbrev pub kept : Bytes → Bytes
kept [] = []
kept (c ∷ s) = let rest = kept s in if is_dropped c then rest else c ∷ rest

abbrev escaped : Bytes → Bytes
escaped [] = []
escaped (c ∷ s) = escaped_byte c ++ escaped s

-- Whether a control character is left in the caption.
abbrev pub has_control : Bytes → Bool
has_control [] = false
has_control (c ∷ s) = let rest = has_control s in (not (is_dropped c) && ltb c 32) || rest

-- One byte of the caption, in front of a text that is read.
abbrev with_byte : ℕ → Option (Bytes × Bytes) → Option (Bytes × Bytes)
with_byte c o = if is_dropped c then o else if ltb c 32 then none else then_read c o

abbrev expected : Bytes → Bytes → Option (Bytes × Bytes)
expected s rest = if has_control s then none else some (kept s, rest)
