-- ===== src/Config/Parser.antt =====
-- NginxConfigParser::Parse over a stream, and TokenTypeAsString. `config_stack` holds pointers
-- into the tree that is being built; here it is the list of those open configs, the top first,
-- and a config is put under the statement that owns it when it is popped.
pub mod Total
pub mod Levels
pub mod Sound
pub mod Rooted
use dinner_is_servered.Prelude.{
  ℕ, zero, suc, Option, none, some, List, [], ◌∷◌, ◌++◌, Bytes, text, length,
}
use dinner_is_servered.Config.Syntax.{
  NginxConfigStatement, NginxConfig, plain, block, nil, config_of,
}
use dinner_is_servered.Config.Lexer.{
  TokenType, start, normal, start_block, end_block, comment, statement_end, eof, error, Token,
  parse_token,
}

unfoldable pub token_type_as_string : TokenType → Bytes
token_type_as_string start = text "TOKEN_TYPE_START"
token_type_as_string normal = text "TOKEN_TYPE_NORMAL"
token_type_as_string start_block = text "TOKEN_TYPE_START_BLOCK"
token_type_as_string end_block = text "TOKEN_TYPE_END_BLOCK"
token_type_as_string comment = text "TOKEN_TYPE_COMMENT"
token_type_as_string statement_end = text "TOKEN_TYPE_STATEMENT_END"
token_type_as_string eof = text "TOKEN_TYPE_EOF"
token_type_as_string error = text "TOKEN_TYPE_ERROR"

-- How a parse ends. `undefined` is a use of `top`, `pop` or `back` on an empty container; the fuel
-- is the model's own.
pub data Verdict : Type 0 where
  accepted : NginxConfig → Verdict
  rejected : Verdict
  undefined : Verdict
  out_of_fuel : Verdict

abbrev pub Level : Type 0
Level = List NginxConfigStatement

pub record ParserState : Type 0 where
  pub config_stack : List Level
  pub last_token_type : TokenType

-- `statements_.back()`, changed in place; `none` where the vector is empty
unfoldable pub update_back : (NginxConfigStatement → NginxConfigStatement) → Level → Option Level
update_back f [] = none
update_back f (s ∷ []) = some (f s ∷ [])
update_back f (s ∷ t ∷ ss) = elim (update_back f (t ∷ ss)) [ none ↦ none | some l ↦ some (s ∷ l) ]

abbrev pub push_token : Bytes → NginxConfigStatement → NginxConfigStatement
push_token token (plain ts) = plain (ts ++ token ∷ [])
push_token token (block ts child) = block (ts ++ token ∷ []) child

-- `child_block_.reset(config)`
abbrev pub reset_child : NginxConfig → NginxConfigStatement → NginxConfigStatement
reset_child config (plain ts) = block ts config
reset_child config (block ts child) = block ts config

-- `config_stack.top()`, changed in place; `none` on an empty stack, or where the change is
abbrev pub update_top : (Level → Option Level) → List Level → Option (List Level)
update_top f [] = none
update_top f (top ∷ below) = elim (f top) [ none ↦ none | some top' ↦ some (top' ∷ below) ]

-- What one round of the `while` loop does after ParseToken.
pub data Action : Type 0 where
  proceed : ParserState → Action
  stop : Verdict → Action

abbrev next : TokenType → Option (List Level) → Action
next type none = stop undefined
next type (some stack) = proceed (record { config_stack = stack; last_token_type = type })

abbrev emplace_back : Level → Option Level
emplace_back l = some (l ++ plain [] ∷ [])

add_to_statement : List Level → Bytes → Action
add_to_statement stack token = next normal (update_top (update_back (push_token token)) stack)

new_statement : List Level → Bytes → Action
unfolding add_to_statement
new_statement stack token = elim (update_top emplace_back stack) [
  | none ↦ stop undefined
  | some stack' ↦ add_to_statement stack' token
]

on_normal : TokenType → List Level → Bytes → Action
unfolding new_statement add_to_statement
on_normal start stack token = new_statement stack token
on_normal statement_end stack token = new_statement stack token
on_normal start_block stack token = new_statement stack token
on_normal end_block stack token = new_statement stack token
on_normal normal stack token = add_to_statement stack token
on_normal _ stack token = stop rejected

on_statement_end : TokenType → List Level → Action
on_statement_end normal stack =
    proceed (record { config_stack = stack; last_token_type = statement_end })
on_statement_end _ stack = stop rejected

-- the new config becomes the child of the last statement, and the top of the stack
push_config : Option (List Level) → Action
push_config none = stop undefined
push_config (some stack) =
    proceed (record { config_stack = [] ∷ stack; last_token_type = start_block })

on_start_block : TokenType → List Level → Action
unfolding push_config
on_start_block normal stack = push_config (update_top (update_back (reset_child nil)) stack)
on_start_block _ stack = stop rejected

-- `pop`: what was filled through the pointer is now in the owner's `child_block_`. The root config
-- has no owner.
pop_config : List Level → Action
pop_config [] = stop undefined
pop_config (top ∷ []) = proceed (record { config_stack = []; last_token_type = end_block })
pop_config (top ∷ owner ∷ below) =
    next end_block (update_top (update_back (reset_child (config_of top))) (owner ∷ below))

on_end_block : TokenType → List Level → Action
unfolding pop_config
on_end_block statement_end stack = pop_config stack
on_end_block end_block stack = pop_config stack
on_end_block start_block stack = pop_config stack
on_end_block _ stack = stop rejected

-- `config_stack.size() != 1`
accept_root : List Level → Action
accept_root (root ∷ []) = stop (accepted (config_of root))
accept_root _ = stop rejected

on_eof : TokenType → List Level → Action
unfolding accept_root
on_eof statement_end stack = accept_root stack
on_eof end_block stack = accept_root stack
on_eof _ stack = stop rejected

unfoldable pub handle_token : ParserState → TokenType → Bytes → Action
unfolding on_normal on_statement_end on_start_block on_end_block on_eof
handle_token p error token = stop rejected
handle_token p comment token = proceed p
handle_token p start token = stop rejected
handle_token p normal token = on_normal p.last_token_type p.config_stack token
handle_token p statement_end token = on_statement_end p.last_token_type p.config_stack
handle_token p start_block token = on_start_block p.last_token_type p.config_stack
handle_token p end_block token = on_end_block p.last_token_type p.config_stack
handle_token p eof token = on_eof p.last_token_type p.config_stack

-- `while (true)`. Each round takes a byte or ends, so one more than the input's length is enough.
unfoldable pub parse_loop : ℕ → ParserState → Bytes → Verdict
parse_loop zero p input = out_of_fuel
parse_loop (suc fuel) p input =
    let token = parse_token input in
    elim (handle_token p token.type token.value) [
      | proceed q ↦ parse_loop fuel q token.rest
      | stop verdict ↦ verdict
    ]

abbrev pub initial : ParserState
initial = record { config_stack = [] ∷ []; last_token_type = start }

unfoldable pub run : ParserState → Bytes → Verdict
run p input = parse_loop (suc (length input)) p input

unfoldable pub parse : Bytes → Verdict
parse input = run initial input
