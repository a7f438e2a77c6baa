-- ===== src/Config/Lexer.antt =====
-- NginxConfigParser::ParseToken, its token types and its states. The stream is the list of the
-- bytes that are left; `get` at its end makes the stream bad and ends the loop.
pub mod Sound
use dinner_is_servered.Prelude.{ℕ, Bool, ◌||◌, [], ◌∷◌, ◌++◌, ◌==◌, if◌then◌else◌, Bytes}

pub data TokenType : Type 0 where
  start normal start_block end_block comment statement_end eof error : TokenType

pub data TokenParserState : Type 0 where
  initial_whitespace single_quote double_quote in_comment in_normal : TokenParserState

-- What one round of the loop does with a byte: `continue` with a state and a value, return a token
-- type with a value, or `unget` the byte and return.
pub data Round : Type 0 where
  continue : TokenParserState → Bytes → Round
  give : TokenType → Bytes → Round
  give_back : TokenType → Bytes → Round

abbrev pub is_space : ℕ → Bool
is_space c = c == b' ' || c == b'\t' || c == b'\n' || c == b'\r'

-- The bytes that end a token in the state TOKEN_STATE_TOKEN_TYPE_NORMAL. The source names '\t'
-- twice here, and not '\r'.
abbrev pub ends_normal : ℕ → Bool
ends_normal c =
    c == b' ' || c == b'\t' || c == b'\n' || c == b'\t' || c == b';' || c == b'{' || c == b'}'

initial_round : Bytes → ℕ → Round
initial_round value c =
    if c == b'{'
    then give start_block (c ∷ [])
    else if c == b'}'
    then give end_block (c ∷ [])
    else if c == b'#'
    then continue in_comment (c ∷ [])
    else if c == b'"'
    then continue double_quote (c ∷ [])
    else if c == b'\''
    then continue single_quote (c ∷ [])
    else if c == b';'
    then give statement_end (c ∷ [])
    else if is_space c
    then continue initial_whitespace value
    else continue in_normal (value ++ c ∷ [])

unfoldable pub round : TokenParserState → Bytes → ℕ → Round
unfolding initial_round
round initial_whitespace value c = initial_round value c
round single_quote value c =
    if c == b'\'' then give normal (value ++ c ∷ []) else continue single_quote (value ++ c ∷ [])
round double_quote value c =
    if c == b'"' then give normal (value ++ c ∷ []) else continue double_quote (value ++ c ∷ [])
round in_comment value c =
    if c == b'\n' || c == b'\r' then give comment value else continue in_comment (value ++ c ∷ [])
round in_normal value c =
    if ends_normal c then give_back normal value else continue in_normal (value ++ c ∷ [])

-- Behind the loop, at the end of the file.
abbrev at_end : TokenParserState → TokenType
at_end single_quote = error
at_end double_quote = error
at_end _ = eof

pub record Token : Type 0 where
  pub type : TokenType
  pub value : Bytes
  pub rest : Bytes

unfoldable pub token_loop : TokenParserState → Bytes → Bytes → Token
token_loop state value [] = record { type = at_end state; value = value; rest = [] }
token_loop state value (c ∷ cs) = elim (round state value c) [
  | continue state' value' ↦ token_loop state' value' cs
  | give type value' ↦ record { type = type; value = value'; rest = cs }
  | give_back type value' ↦ record { type = type; value = value'; rest = c ∷ cs }
]

unfoldable pub parse_token : Bytes → Token
parse_token input = token_loop initial_whitespace [] input
