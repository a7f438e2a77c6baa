-- ===== src/Config/Printer/RoundTrip.antt =====
-- Parse on what ToString writes, with and without something behind it.
use dinner_is_servered.Prelude.{
  ℕ, ◌≡◌, ◌≢◌, refl, ap, ◌∙◌, true, [], ◌∷◌, ◌++◌, append-nil, Bytes, All, arith,
}
use dinner_is_servered.Config.Syntax.{
  NginxConfig, nil, cons, statements, config_of, config_of-statements, NginxConfigStatement, plain,
  block,
}
use dinner_is_servered.Config.Lexer.{
  TokenType, start, statement_end, end_block, parse_token, token_loop, round, eof, in_normal,
}
use dinner_is_servered.Config.Parser.{handle_token, run, parse, accepted, undefined, Level, proceed}
use dinner_is_servered.Config.Parser.Rooted.{parse-ne-accepted_nil}
use dinner_is_servered.Config.Parser.Sound.{parse-IsPrintable}
use dinner_is_servered.Config.Parser.Total.{resume, run_lem}
use dinner_is_servered.Config.Printable.{IsPrintable, begins_normal, StaysNormal}
use dinner_is_servered.Config.Printer.{to_string}
use dinner_is_servered.Config.Printer.Statements.{at, last_type, run-config, end_type}

-- The token types on which the end of the file is accepted.
abbrev Accepts : TokenType → Type 0
Accepts statement_end = Unit
Accepts end_block = Unit
Accepts _ = ⊥

end_type-Accepts : (s : NginxConfigStatement) → Accepts (end_type s)
end_type-Accepts (plain ts) = tt
end_type-Accepts (block ts child) = tt

last_type-Accepts : (type : TokenType) (c : NginxConfig) → Accepts type → Accepts (last_type type c)
last_type-Accepts type nil e = e
last_type-Accepts type (cons s c) e = last_type-Accepts (end_type s) c (end_type-Accepts s)

-- A file that has been read up to a text that holds no token.
run_eof :
    (type : TokenType) (l : Level) (rest : Bytes)
    → Accepts type
    → (parse_token rest).type ≡ eof
    → run (at (l ∷ []) type) rest ≡ accepted (config_of l)
unfolding handle_token
run_eof statement_end l rest a e = run_lem _ rest ∙ rw e
run_eof end_block l rest a e = run_lem _ rest ∙ rw e
run_eof start l rest a e = elim a [ ]
run_eof _ l rest a e = elim a [ ]

parse-to_string-append :
    (c : NginxConfig) (depth : ℕ) (rest : Bytes)
    → IsPrintable c
    → c ≢ nil
    → (parse_token rest).type ≡ eof
    → parse (to_string depth c ++ rest) ≡ accepted c
unfolding parse
parse-to_string-append nil depth rest h ne e = absurd (ne refl)
parse-to_string-append (cons s c) depth rest h ne e =
    run-config (cons s c) depth [] [] start rest tt h
    ∙ run_eof (last_type (end_type s) c) (statements (cons s c)) rest
        (last_type-Accepts (end_type s) c (end_type-Accepts s)) e
    ∙ ap accepted (config_of-statements (cons s c))

-- A config that is not empty, whose statements have readable tokens, is read back from its text.
pub parse-to_string :
    (c : NginxConfig) (depth : ℕ) → IsPrintable c → c ≢ nil → parse (to_string depth c) ≡ accepted c
unfolding parse_token token_loop
parse-to_string c depth h ne =
    rw (← append-nil (to_string depth c)) (parse-to_string-append c depth [] h ne refl)

token_loop_unfinished :
    (cs value : Bytes) → All StaysNormal cs → (token_loop in_normal value cs).type ≡ eof
unfolding token_loop round
token_loop_unfinished [] value a = refl
token_loop_unfinished (c ∷ cs) value (k, a) =
    rw (k, token_loop, round) (token_loop_unfinished cs (value ++ c ∷ []) a)

unfinished_word :
    (c : ℕ) (cs : Bytes)
    → begins_normal c ≡ true
    → All StaysNormal cs
    → (parse_token (c ∷ cs)).type ≡ eof
unfolding parse_token token_loop round
unfinished_word c cs b a = ground (arith, token_loop_unfinished cs (c ∷ []) a)

-- A last statement that is one word with nothing behind it is dropped, and the file is accepted.
pub parse_drops_last_word :
    (c : NginxConfig) (depth b : ℕ) (bs : Bytes)
    → IsPrintable c
    → c ≢ nil
    → begins_normal b ≡ true
    → All StaysNormal bs
    → parse (to_string depth c ++ b ∷ bs) ≡ accepted c
parse_drops_last_word c depth b bs h ne w a =
    parse-to_string-append c depth (b ∷ bs) h ne (unfinished_word b bs w a)

handle_extra_close :
    (type : TokenType) (root : Level) (token : Bytes)
    → Accepts type
    → handle_token (at (root ∷ []) type) end_block token ≡ proceed (at [] end_block)
unfolding handle_token
handle_extra_close statement_end root token a = refl
handle_extra_close end_block root token a = refl
handle_extra_close start root token a = elim a [ ]
handle_extra_close _ root token a = elim a [ ]

run_extra_closes :
    (type : TokenType) (l : Level) (rest : Bytes)
    → Accepts type
    → run (at (l ∷ []) type) (b'}' ∷ b'}' ∷ rest) ≡ undefined
unfolding handle_token parse_token token_loop round
run_extra_closes type l rest a =
    run_lem _ (b'}' ∷ b'}' ∷ rest)
    ∙ ap (resume (b'}' ∷ rest)) (handle_extra_close type l (b'}' ∷ []) a)
    ∙ run_lem (at [] end_block) (b'}' ∷ rest)

-- Two closing brackets too many pop the empty stack, whatever follows: the behaviour is undefined
-- where the file should be refused.
pub parse_extra_brackets :
    (c : NginxConfig) (depth : ℕ) (rest : Bytes)
    → IsPrintable c
    → c ≢ nil
    → parse (to_string depth c ++ b'}' ∷ b'}' ∷ rest) ≡ undefined
unfolding parse
parse_extra_brackets nil depth rest h ne = absurd (ne refl)
parse_extra_brackets (cons s c) depth rest h ne =
    run-config (cons s c) depth [] [] start _ tt h
    ∙ run_extra_closes (last_type (end_type s) c) _ rest
        (last_type-Accepts (end_type s) c (end_type-Accepts s))

-- What Parse accepts, printed by ToString and parsed again, is the same config.
pub parse-to_string-parse :
    (input : Bytes) (c : NginxConfig) (depth : ℕ)
    → parse input ≡ accepted c
    → parse (to_string depth c) ≡ accepted c
parse-to_string-parse input c depth e =
    parse-to_string c depth (parse-IsPrintable input c e)
      (λ z. parse-ne-accepted_nil input (e ∙ ap accepted z))
