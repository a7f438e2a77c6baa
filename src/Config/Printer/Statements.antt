-- ===== src/Config/Printer/Statements.antt =====
-- The parser over a printed statement and a printed config, with any rest behind it.
use dinner_is_servered.Prelude.{
  ℕ, suc, ◌≡◌, refl, ap, ◌∙◌, true, false, List, [], ◌∷◌, ◌++◌, append-nil, append_assoc, arith,
  Bytes, All,
}
use dinner_is_servered.Config.Syntax.{
  NginxConfigStatement, NginxConfig, plain, block, nil, cons, statements, config_of,
  config_of-statements,
}
use dinner_is_servered.Config.Lexer.{
  TokenType, start, normal, start_block, end_block, statement_end, ends_normal,
}
use dinner_is_servered.Config.Parser.{
  Level, ParserState, proceed, handle_token, push_token, reset_child, run,
}
use dinner_is_servered.Config.Parser.Total.{resume}
use dinner_is_servered.Config.Printable.{IsToken, AreTokens, IsPrintableStatement, IsPrintable}
use dinner_is_servered.Config.Printer.{tokens_to_string, statement_to_string, to_string}
use dinner_is_servered.Config.Printer.Pieces.{
  run_space, run-indent, run-IsToken, run_punctuation, update_back-concat,
}

abbrev pub at : List Level → TokenType → ParserState
at stack type = record { config_stack = stack; last_token_type = type }

-- The token types after which a new statement may begin.
abbrev pub Begins : TokenType → Type 0
Begins start = Unit
Begins statement_end = Unit
Begins start_block = Unit
Begins end_block = Unit
Begins _ = ⊥

-- What follows a token ends it.
more_tokens-ends_normal :
    (more : List Bytes) (d : ℕ) (rest : Bytes)
    → ends_normal d ≡ true
    → (d' : ℕ) × (rest' : Bytes) × (tokens_to_string false more ++ d ∷ rest ≡ d' ∷ rest')
      × (ends_normal d' ≡ true)
unfolding tokens_to_string
more_tokens-ends_normal [] d rest e = (d, rest, refl, e)
more_tokens-ends_normal (t ∷ more) d rest e = (b' ', _, refl, refl)

module _ (l : Level) (below : List Level) where
  handle_first :
      (type : TokenType) (t : Bytes)
      → Begins type
      → handle_token (at (l ∷ below) type) normal t
        ≡ proceed (at ((l ++ plain (t ∷ []) ∷ []) ∷ below) normal)
  unfolding handle_token
  handle_first start t b = ground (arith, update_back-concat (push_token t) l (plain []))
  handle_first statement_end t b = ground (arith, update_back-concat (push_token t) l (plain []))
  handle_first start_block t b = ground (arith, update_back-concat (push_token t) l (plain []))
  handle_first end_block t b = ground (arith, update_back-concat (push_token t) l (plain []))
  handle_first normal t b = elim b [ ]
  handle_first _ t b = elim b [ ]

  handle_more :
      (ts : List Bytes) (t : Bytes)
      → handle_token (at ((l ++ plain ts ∷ []) ∷ below) normal) normal t
        ≡ proceed (at ((l ++ plain (ts ++ t ∷ []) ∷ []) ∷ below) normal)
  unfolding handle_token
  handle_more ts t = ground (arith, update_back-concat (push_token t) l (plain ts))

  -- A token and what follows it, where the action on the token is known.
  run_token :
      (p q : ParserState) (t : Bytes) (more : List Bytes) (d : ℕ) (rest : Bytes)
      → IsToken t
      → ends_normal d ≡ true
      → handle_token p normal t ≡ proceed q
      → run p ((t ++ tokens_to_string false more) ++ d ∷ rest)
        ≡ run q (tokens_to_string false more ++ d ∷ rest)
  run_token p q t more d rest h e k =
      let (d', rest', split, e') = more_tokens-ends_normal more d rest e in
      rw append_assoc (rw split (run-IsToken p d' rest' h e' ∙ rw k))

  run-more_tokens :
      (more ts : List Bytes) (d : ℕ) (rest : Bytes)
      → All IsToken more
      → ends_normal d ≡ true
      → run (at ((l ++ plain ts ∷ []) ∷ below) normal) (tokens_to_string false more ++ d ∷ rest)
        ≡ run (at ((l ++ plain (ts ++ more) ∷ []) ∷ below) normal) (d ∷ rest)
  unfolding tokens_to_string
  run-more_tokens [] ts d rest a e = rw append-nil
  run-more_tokens (t ∷ more) ts d rest (h, a) e =
      unfold tokens_to_string in
      run_space _ b' ' _ refl
      ∙ run_token _ _ t more d rest h e (handle_more ts t)
      ∙ run-more_tokens more (ts ++ t ∷ []) d rest a e
      ∙ rw append_assoc

  -- The tokens of a statement, read where a statement may begin.
  run_tokens :
      (type : TokenType) (ts : List Bytes) (d : ℕ) (rest : Bytes)
      → Begins type
      → AreTokens ts
      → ends_normal d ≡ true
      → run (at (l ∷ below) type) (tokens_to_string true ts ++ d ∷ rest)
        ≡ run (at ((l ++ plain ts ∷ []) ∷ below) normal) (d ∷ rest)
  run_tokens type [] d rest b a e = elim a [ ]
  run_tokens type (t ∷ ts) d rest b (h, a) e =
      unfold tokens_to_string in
      run_token _ _ t ts d rest h e (handle_first type t b) ∙ run-more_tokens ts (t ∷ []) d rest a e

-- The type of the last token of a statement, and of a config that is read after a token.
abbrev pub end_type : NginxConfigStatement → TokenType
end_type (plain ts) = statement_end
end_type (block ts child) = end_block

abbrev pub last_type : TokenType → NginxConfig → TokenType
last_type type nil = type
last_type type (cons s c) = last_type (end_type s) c

end_type-Begins : (s : NginxConfigStatement) → Begins (end_type s)
end_type-Begins (plain ts) = tt
end_type-Begins (block ts child) = tt

abbrev Ends : TokenType → Type 0
Ends statement_end = Unit
Ends start_block = Unit
Ends end_block = Unit
Ends _ = ⊥

last_type-Ends : (type : TokenType) (c : NginxConfig) → Ends type → Ends (last_type type c)
last_type-Ends type nil e = e
last_type-Ends type (cons (plain ts) c) e = last_type-Ends statement_end c tt
last_type-Ends type (cons (block ts child) c) e = last_type-Ends end_block c tt

module _ (l : Level) (below : List Level) where
  run_semicolon :
      (ts : List Bytes) (rest : Bytes)
      → run (at ((l ++ plain ts ∷ []) ∷ below) normal) (b';' ∷ b'\n' ∷ rest)
        ≡ run (at ((l ++ plain ts ∷ []) ∷ below) statement_end) rest
  unfolding handle_token
  run_semicolon ts rest = (run_punctuation _ _).0 ∙ run_space _ b'\n' rest refl

  handle_open :
      (ts : List Bytes) (token : Bytes)
      → handle_token (at ((l ++ plain ts ∷ []) ∷ below) normal) start_block token
        ≡ proceed (at ([] ∷ (l ++ block ts nil ∷ []) ∷ below) start_block)
  unfolding handle_token
  handle_open ts token = ground (arith, update_back-concat (reset_child nil) l (plain ts))

  run_open :
      (ts : List Bytes) (rest : Bytes)
      → run (at ((l ++ plain ts ∷ []) ∷ below) normal) (b' ' ∷ b'{' ∷ b'\n' ∷ rest)
        ≡ run (at ([] ∷ (l ++ block ts nil ∷ []) ∷ below) start_block) rest
  run_open ts rest =
      run_space _ b' ' _ refl
      ∙ (run_punctuation _ _).1
      ∙ ap (resume (b'\n' ∷ rest)) (handle_open ts _)
      ∙ run_space _ b'\n' rest refl

  handle_close :
      (type : TokenType) (inner : Level) (ts : List Bytes) (token : Bytes)
      → Ends type
      → handle_token (at (inner ∷ (l ++ block ts nil ∷ []) ∷ below) type) end_block token
        ≡ proceed (at ((l ++ block ts (config_of inner) ∷ []) ∷ below) end_block)
  unfolding handle_token
  handle_close statement_end inner ts token e =
      ground (arith, update_back-concat (reset_child (config_of inner)) l (block ts nil))
  handle_close start_block inner ts token e =
      ground (arith, update_back-concat (reset_child (config_of inner)) l (block ts nil))
  handle_close end_block inner ts token e =
      ground (arith, update_back-concat (reset_child (config_of inner)) l (block ts nil))
  handle_close start inner ts token e = elim e [ ]
  handle_close _ inner ts token e = elim e [ ]

  run_close :
      (type : TokenType) (inner : Level) (ts : List Bytes) (rest : Bytes)
      → Ends type
      → run (at (inner ∷ (l ++ block ts nil ∷ []) ∷ below) type) (b'}' ∷ b'\n' ∷ rest)
        ≡ run (at ((l ++ block ts (config_of inner) ∷ []) ∷ below) end_block) rest
  run_close type inner ts rest e =
      (run_punctuation _ _).2
      ∙ ap (resume (b'\n' ∷ rest)) (handle_close type inner ts _ e)
      ∙ run_space _ b'\n' rest refl

-- The parser over a printed statement, and over a printed config.
mutual
  unfolding to_string

  run-statement :
      (s : NginxConfigStatement) (depth : ℕ) (l : Level) (below : List Level) (type : TokenType)
      (rest : Bytes)
      → Begins type
      → IsPrintableStatement s
      → run (at (l ∷ below) type) (statement_to_string depth s ++ rest)
        ≡ run (at ((l ++ s ∷ []) ∷ below) (end_type s)) rest
  run-statement (plain ts) depth l below type rest b h = simp append_assoc (
      run-indent _ depth _
      ∙ run_tokens l below type ts b';' (b'\n' ∷ rest) b h refl
      ∙ run_semicolon l below ts rest)
  run-statement (block ts child) depth l below type rest b h = simp append_assoc (
      run-indent _ depth _
      ∙ run_tokens l below type ts b' ' _ b h.0 refl
      ∙ run_open l below ts _
      ∙ run-config child (suc depth) [] ((l ++ block ts nil ∷ []) ∷ below) start_block _ tt h.1
      ∙ run-indent _ depth _
      ∙ run_close l below (last_type start_block child) (statements child) ts rest
          (last_type-Ends start_block child tt)
      ∙ rw config_of-statements)

  pub run-config :
      (c : NginxConfig) (depth : ℕ) (l : Level) (below : List Level) (type : TokenType)
      (rest : Bytes)
      → Begins type
      → IsPrintable c
      → run (at (l ∷ below) type) (to_string depth c ++ rest)
        ≡ run (at ((l ++ statements c) ∷ below) (last_type type c)) rest
  run-config nil depth l below type rest b h = rw append-nil
  run-config (cons s c) depth l below type rest b h = rw append_assoc (
      run-statement s depth l below type _ b h.0
      ∙ run-config c depth (l ++ s ∷ []) below (end_type s) rest (end_type-Begins s) h.1
      ∙ rw append_assoc)
