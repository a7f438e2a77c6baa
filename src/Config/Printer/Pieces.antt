-- ===== src/Config/Printer/Pieces.antt =====
-- ParseToken and the loop of Parse over one piece of the printed text: a space, a token, a mark of
-- punctuation, with any rest behind it.

use dinner_is_servered.Prelude.{
  ℕ, zero, suc, ◌≡◌, inl, inr, refl, sym, subst, ◌∙◌, true, false, [], ◌∷◌, ◌++◌, append-nil,
  append_assoc, arith, ◌==◌, Bytes, All, some,
}
use dinner_is_servered.Config.Syntax.{NginxConfigStatement}
use dinner_is_servered.Config.Lexer.{
  TokenType, normal, start_block, end_block, statement_end, is_space, ends_normal, single_quote,
  double_quote, in_normal, round, Token, token_loop, parse_token,
}
use dinner_is_servered.Config.Parser.{Level, ParserState, handle_token, update_back, run}
use dinner_is_servered.Config.Parser.Total.{resume, run_lem}
use dinner_is_servered.Config.Printable.{begins_normal, StaysNormal, IsToken, word, quoted, IsQuote}
use dinner_is_servered.Config.Printer.{indent}

abbrev token : TokenType → Bytes → Bytes → Token
token type value rest = record { type = type; value = value; rest = rest }

parse_token_space :
    (c : ℕ) (rest : Bytes) → is_space c ≡ true → parse_token (c ∷ rest) ≡ parse_token rest
unfolding parse_token token_loop round
parse_token_space c rest h = ground arith

token_loop_normal :
    (cs value rest : Bytes) (d : ℕ)
    → All StaysNormal cs
    → ends_normal d ≡ true
    → token_loop in_normal value (cs ++ d ∷ rest) ≡ token normal (value ++ cs) (d ∷ rest)
unfolding token_loop round
token_loop_normal [] value rest d a e = rw (append-nil, e, token_loop, round)
token_loop_normal (c ∷ cs) value rest d (k, a) e =
    rw (k, token_loop, round) (token_loop_normal cs (value ++ c ∷ []) rest d a e ∙ rw append_assoc)

parse_token_word :
    (c : ℕ) (cs rest : Bytes) (d : ℕ)
    → begins_normal c ≡ true
    → All StaysNormal cs
    → ends_normal d ≡ true
    → parse_token (c ∷ (cs ++ d ∷ rest)) ≡ token normal (c ∷ cs) (d ∷ rest)
unfolding parse_token token_loop round
parse_token_word c cs rest d b a e = ground (arith, token_loop_normal cs (c ∷ []) rest d a e)

token_loop_single :
    (body value rest : Bytes)
    → All (λ d. (d == b'\'') ≡ false) body
    → token_loop single_quote value ((body ++ b'\'' ∷ []) ++ rest)
      ≡ token normal (value ++ (body ++ b'\'' ∷ [])) rest
unfolding token_loop round
token_loop_single [] value rest a = refl
token_loop_single (c ∷ cs) value rest (k, a) =
    rw (k, token_loop, round) (token_loop_single cs (value ++ c ∷ []) rest a ∙ rw append_assoc)

token_loop_double :
    (body value rest : Bytes)
    → All (λ d. (d == b'"') ≡ false) body
    → token_loop double_quote value ((body ++ b'"' ∷ []) ++ rest)
      ≡ token normal (value ++ (body ++ b'"' ∷ [])) rest
unfolding token_loop round
token_loop_double [] value rest a = refl
token_loop_double (c ∷ cs) value rest (k, a) =
    rw (k, token_loop, round) (token_loop_double cs (value ++ c ∷ []) rest a ∙ rw append_assoc)

parse_token_quoted :
    (q : ℕ) (body rest : Bytes)
    → IsQuote q
    → All (λ d. (d == q) ≡ false) body
    → parse_token (q ∷ ((body ++ q ∷ []) ++ rest)) ≡ token normal (q ∷ (body ++ q ∷ [])) rest
unfolding parse_token token_loop round
parse_token_quoted q body rest (inl e) a =
    subst
      (λ (q : ℕ).
        All (λ d. (d == q) ≡ false) body
        → parse_token (q ∷ ((body ++ q ∷ []) ++ rest)) ≡ token normal (q ∷ (body ++ q ∷ [])) rest)
      (sym e) (λ a. token_loop_double body (b'"' ∷ []) rest a) a
parse_token_quoted q body rest (inr e) a =
    subst
      (λ (q : ℕ).
        All (λ d. (d == q) ≡ false) body
        → parse_token (q ∷ ((body ++ q ∷ []) ++ rest)) ≡ token normal (q ∷ (body ++ q ∷ [])) rest)
      (sym e) (λ a. token_loop_single body (b'\'' ∷ []) rest a) a

-- Any readable token, with a byte behind it that ends a word.
parse_token-IsToken :
    {t : Bytes} (d : ℕ) (rest : Bytes)
    → IsToken t
    → ends_normal d ≡ true
    → parse_token (t ++ d ∷ rest) ≡ token normal t (d ∷ rest)
parse_token-IsToken d rest (word {c} {cs} b a) e = parse_token_word c cs rest d b a e
parse_token-IsToken d rest (quoted q body w a) e = parse_token_quoted q body (d ∷ rest) w a

pub run_space :
    (p : ParserState) (c : ℕ) (rest : Bytes) → is_space c ≡ true → run p (c ∷ rest) ≡ run p rest
run_space p c rest h = run_lem p (c ∷ rest) ∙ rw (parse_token_space c rest h) (sym (run_lem p rest))

pub run-indent :
    (p : ParserState) (depth : ℕ) (rest : Bytes) → run p (indent depth ++ rest) ≡ run p rest
unfolding indent
run-indent p zero rest = refl
run-indent p (suc depth) rest =
    run_space p b' ' _ refl ∙ run_space p b' ' _ refl ∙ run-indent p depth rest

pub run-IsToken :
    {t : Bytes} (p : ParserState) (d : ℕ) (rest : Bytes)
    → IsToken t
    → ends_normal d ≡ true
    → run p (t ++ d ∷ rest) ≡ resume (d ∷ rest) (handle_token p normal t)
run-IsToken p d rest h e = run_lem p _ ∙ rw (parse_token-IsToken d rest h e)

pub run_punctuation :
    (p : ParserState) (rest : Bytes)
    → (run p (b';' ∷ rest) ≡ resume rest (handle_token p statement_end (b';' ∷ [])))
      × (run p (b'{' ∷ rest) ≡ resume rest (handle_token p start_block (b'{' ∷ [])))
      × (run p (b'}' ∷ rest) ≡ resume rest (handle_token p end_block (b'}' ∷ [])))
unfolding parse_token token_loop round
run_punctuation p rest = (run_lem p _, run_lem p _, run_lem p _)

pub update_back-concat :
    (f : NginxConfigStatement → NginxConfigStatement) (l : Level) (s : NginxConfigStatement)
    → update_back f (l ++ s ∷ []) ≡ some (l ++ f s ∷ [])
unfolding update_back
update_back-concat f [] s = refl
update_back-concat f (x ∷ []) s = refl
update_back-concat f (x ∷ y ∷ l) s = rw (update_back-concat f (y ∷ l) s, update_back)
