-- ===== src/Config/Lexer/Sound.antt =====
-- The tokens of the type NORMAL that ParseToken returns.
use dinner_is_servered.Prelude.{
  ℕ, ◌≡◌, ◌⊎◌, inl, inr, refl, subst, true, false, [], ◌∷◌, ◌++◌, arith, ◌==◌, Bytes, All,
  All-append, Bool-cases,
}
use dinner_is_servered.Config.Lexer.{
  TokenType, normal, TokenParserState, initial_whitespace, single_quote, double_quote, in_comment,
  in_normal, Round, continue, give, give_back, round, ends_normal, token_loop, parse_token,
}
use dinner_is_servered.Config.Parser.Total.{Round-cases}
use dinner_is_servered.Config.Printable.{StaysNormal, IsToken, word, quoted, begins_normal}

-- What is known of the value in each state of ParseToken.
data QuoteBody (q : ℕ) : Bytes → Type 0 where
  body : (b : Bytes) → All (λ d. (d == q) ≡ false) b → QuoteBody q (q ∷ b)

data WordPart : Bytes → Type 0 where
  part : {c : ℕ} {cs : Bytes} → begins_normal c ≡ true → All StaysNormal cs → WordPart (c ∷ cs)

abbrev ValueInv : TokenParserState → Bytes → Type 0
ValueInv initial_whitespace value = value ≡ []
ValueInv single_quote value = QuoteBody b'\'' value
ValueInv double_quote value = QuoteBody b'"' value
ValueInv in_comment value = Unit
ValueInv in_normal value = WordPart value

abbrev pub TokenInv : TokenType → Bytes → Type 0
TokenInv normal value = IsToken value
TokenInv _ value = Unit

abbrev RoundInv : Round → Type 0
RoundInv (continue s v) = ValueInv s v
RoundInv (give t v) = TokenInv t v
RoundInv (give_back t v) = TokenInv t v

QuoteBody-concat :
    (q c : ℕ) {v : Bytes} → QuoteBody q v → (c == q) ≡ false → QuoteBody q (v ++ c ∷ [])
QuoteBody-concat q c (body b a) h = body (b ++ c ∷ []) (All-append _ b (c ∷ []) a (h, tt))

QuoteBody-close :
    {q : ℕ} {v : Bytes} → (q ≡ b'"') ⊎ (q ≡ b'\'') → QuoteBody q v → IsToken (v ++ q ∷ [])
QuoteBody-close {q} w (body b a) = quoted q b w a

WordPart-concat : (c : ℕ) {v : Bytes} → WordPart v → StaysNormal c → WordPart (v ++ c ∷ [])
WordPart-concat c (part {cs = cs} b a) h = part b (All-append StaysNormal cs (c ∷ []) a (h, tt))

WordPart-IsToken : {v : Bytes} → WordPart v → IsToken v
WordPart-IsToken (part b a) = word b a

QuoteBody-open : (q c : ℕ) → c ≡ q → QuoteBody q (c ∷ [])
QuoteBody-open q c e = rw e (body [] tt)

WordPart-open : (c : ℕ) (v : Bytes) → v ≡ [] → begins_normal c ≡ true → WordPart (v ++ c ∷ [])
WordPart-open c v e b = rw e (part b tt)

close_single : (v : Bytes) (c : ℕ) → QuoteBody b'\'' v → c ≡ b'\'' → IsToken (v ++ c ∷ [])
close_single v c i e = rw e (QuoteBody-close (inr refl) i)

close_double : (v : Bytes) (c : ℕ) → QuoteBody b'"' v → c ≡ b'"' → IsToken (v ++ c ∷ [])
close_double v c i e = rw e (QuoteBody-close (inl refl) i)

round-RoundInv : (s : TokenParserState) (v : Bytes) (c : ℕ) → ValueInv s v → RoundInv (round s v c)
unfolding round
round-RoundInv initial_whitespace v c i =
    ground (arith, QuoteBody-open b'"' c, QuoteBody-open b'\'' c, WordPart-open c v i)
round-RoundInv single_quote v c i = ground (arith, close_single v c i, QuoteBody-concat b'\'' c i)
round-RoundInv double_quote v c i = ground (arith, close_double v c i, QuoteBody-concat b'"' c i)
round-RoundInv in_comment v c i = ground arith
round-RoundInv in_normal v c i = elim (Bool-cases (ends_normal c)) [
  | inl e ↦ rw (e, round) (WordPart-IsToken i)
  | inr e ↦ rw (e, round) (WordPart-concat c i e)
]

token_loop-TokenInv :
    (s : TokenParserState) (v input : Bytes)
    → ValueInv s v
    → TokenInv (token_loop s v input).type (token_loop s v input).value
unfolding token_loop
token_loop-TokenInv initial_whitespace v [] i = tt
token_loop-TokenInv single_quote v [] i = tt
token_loop-TokenInv double_quote v [] i = tt
token_loop-TokenInv in_comment v [] i = tt
token_loop-TokenInv in_normal v [] i = tt
token_loop-TokenInv s v (c ∷ cs) i = elim (Round-cases (round s v c)) [
  | inl (s', v', e) ↦
      rw (e, token_loop) (token_loop-TokenInv s' v' cs (subst RoundInv e (round-RoundInv s v c i)))
  | inr (inl (t, v', e)) ↦ rw (e, token_loop) (subst RoundInv e (round-RoundInv s v c i))
  | inr (inr (t, v', e)) ↦ rw (e, token_loop) (subst RoundInv e (round-RoundInv s v c i))
]

-- A token of the type NORMAL is a word or a quoted text.
pub parse_token-TokenInv :
    (input : Bytes) → TokenInv (parse_token input).type (parse_token input).value
unfolding parse_token
parse_token-TokenInv input = token_loop-TokenInv initial_whitespace [] input refl
