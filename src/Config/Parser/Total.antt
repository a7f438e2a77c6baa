-- ===== src/Config/Parser/Total.antt =====
-- The loop of Parse, its fuel, and the loop as an equation without fuel.
use dinner_is_servered.Prelude.{
  ℕ, zero, suc, ◌≤◌, ◌<◌, ◌≡◌, ◌≢◌, ◌⊎◌, inl, inr, refl, sym, ◌∙◌, [], ◌∷◌, List, arith, Bytes,
  length, ap, subst, List,
}
use dinner_is_servered.Config.Lexer.{
  TokenType, TokenParserState, initial_whitespace, Round, continue, give, give_back, round,
  token_loop, parse_token,
}
use dinner_is_servered.Config.Parser.{
  Verdict, rejected, out_of_fuel, Level, update_back, on_eof, ParserState, Action, proceed, stop,
  handle_token, parse_loop, run, parse,
}

pub Round-cases :
    (r : Round)
    → ((s : TokenParserState) × (v : Bytes) × (r ≡ continue s v))
      ⊎ ((t : TokenType) × (v : Bytes) × (r ≡ give t v))
      ⊎ ((t : TokenType) × (v : Bytes) × (r ≡ give_back t v))
Round-cases (continue s v) = inl (s, v, refl)
Round-cases (give t v) = inr (inl (t, v, refl))
Round-cases (give_back t v) = inr (inr (t, v, refl))

token_loop-rest-le :
    (state : TokenParserState) (value input : Bytes)
    → length (token_loop state value input).rest ≤ length input
unfolding token_loop
token_loop-rest-le state value [] = omega arith
token_loop-rest-le state value (c ∷ cs) = elim (Round-cases (round state value c)) [
  | inl (s, v, e) ↦ rw (e, token_loop) (omega (arith, token_loop-rest-le s v cs))
  | inr (inl (t, v, e)) ↦ rw (e, token_loop) (omega arith)
  | inr (inr (t, v, e)) ↦ rw (e, token_loop) (omega arith)
]

round_initial-ne-give_back :
    (c : ℕ) (value : Bytes) (t : TokenType) (v : Bytes)
    → round initial_whitespace value c ≢ give_back t v
unfolding round
round_initial-ne-give_back c value t v h = ground arith

-- A token that is read from a byte takes that byte at least.
parse_token-rest-lt : (c : ℕ) (cs : Bytes) → length (parse_token (c ∷ cs)).rest ≤ length cs
unfolding parse_token token_loop
parse_token-rest-lt c cs = elim (Round-cases (round initial_whitespace [] c)) [
  | inl (s, v, e) ↦ rw (e, token_loop) (token_loop-rest-le s v cs)
  | inr (inl (t, v, e)) ↦ rw (e, token_loop) (omega arith)
  | inr (inr (t, v, e)) ↦ absurd (round_initial-ne-give_back c [] t v e)
]

abbrev action : ParserState → Bytes → Action
action p input = handle_token p (parse_token input).type (parse_token input).value

-- No action of the code stops with the model's own verdict, and at the end of the input the
-- action is to stop.
abbrev IsSettled : Action → Type 0
IsSettled (proceed q) = Unit
IsSettled (stop v) = v ≢ out_of_fuel

on_eof-stop : (t : TokenType) (stack : List Level) → (v : Verdict) × (on_eof t stack ≡ stop v)
unfolding on_eof
on_eof-stop TokenType.statement_end [] = (rejected, refl)
on_eof-stop TokenType.statement_end (root ∷ []) = (_, refl)
on_eof-stop TokenType.statement_end (root ∷ below ∷ stack) = (rejected, refl)
on_eof-stop TokenType.end_block [] = (rejected, refl)
on_eof-stop TokenType.end_block (root ∷ []) = (_, refl)
on_eof-stop TokenType.end_block (root ∷ below ∷ stack) = (rejected, refl)
on_eof-stop _ stack = (rejected, refl)

action_of_nil : (p : ParserState) → (v : Verdict) × (action p [] ≡ stop v)
unfolding parse_token token_loop handle_token
action_of_nil p = on_eof-stop p.last_token_type p.config_stack

handle_token-IsSettled :
    (p : ParserState) (t : TokenType) (token : Bytes) → IsSettled (handle_token p t token)
unfolding handle_token update_back
handle_token-IsSettled p TokenType.normal token = ground arith
handle_token-IsSettled p _ token = ground arith

abbrev after : ℕ → Bytes → Action → Verdict
after fuel rest (proceed q) = parse_loop fuel q rest
after fuel rest (stop v) = v

parse_loop-suc :
    (fuel : ℕ) (p : ParserState) (input : Bytes)
    → parse_loop (suc fuel) p input ≡ after fuel (parse_token input).rest (action p input)
unfolding parse_loop
parse_loop-suc fuel p input = ground arith

after-fuel :
    (f g : ℕ) (rest : Bytes) (a : Action)
    → ((q : ParserState) → parse_loop f q rest ≡ parse_loop g q rest)
    → after f rest a ≡ after g rest a
after-fuel f g rest (proceed q) h = h q
after-fuel f g rest (stop v) h = refl

-- With more fuel than bytes, the fuel does not matter.
parse_loop-fuel :
    (f g : ℕ) (p : ParserState) (input : Bytes)
    → length input < f
    → length input < g
    → parse_loop f p input ≡ parse_loop g p input
parse_loop-fuel zero g p input h k = absurd (omega arith)
parse_loop-fuel (suc f) zero p input h k = absurd (omega arith)
parse_loop-fuel (suc f) (suc g) p [] h k =
    let (v, e) = action_of_nil p in
    parse_loop-suc f p [] ∙ ap (after f _) e ∙ sym (ap (after g _) e) ∙ sym (parse_loop-suc g p [])
parse_loop-fuel (suc f) (suc g) p (c ∷ cs) h k =
    parse_loop-suc f p (c ∷ cs)
    ∙ after-fuel f g _ (action p (c ∷ cs)) (λ q.
      parse_loop-fuel f g q (parse_token (c ∷ cs)).rest (omega (arith, parse_token-rest-lt c cs))
        (omega (arith, parse_token-rest-lt c cs)))
    ∙ sym (parse_loop-suc g p (c ∷ cs))

-- The loop as an equation without fuel.
abbrev pub resume : Bytes → Action → Verdict
resume rest (proceed q) = run q rest
resume rest (stop v) = v

pub run_lem :
    (p : ParserState) (input : Bytes)
    → run p input
      ≡ resume
          (parse_token input).rest
          (handle_token p (parse_token input).type (parse_token input).value)
unfolding run
run_lem p [] =
    let (v, e) = action_of_nil p in parse_loop-suc _ p [] ∙ ap (after _ _) e ∙ sym (ap (resume _) e)
run_lem p (c ∷ cs) = parse_loop-suc (suc (length cs)) p (c ∷ cs) ∙ go (action p (c ∷ cs))
  where
    go :
        (a : Action)
        → after (suc (length cs)) (parse_token (c ∷ cs)).rest a
          ≡ resume (parse_token (c ∷ cs)).rest a
    go (proceed q) = parse_loop-fuel _ _ q _ (omega (arith, parse_token-rest-lt c cs)) (omega arith)
    go (stop v) = refl

after-ne-out_of_fuel :
    (f : ℕ) (rest : Bytes) (a : Action)
    → IsSettled a
    → ((q : ParserState) → parse_loop f q rest ≢ out_of_fuel)
    → after f rest a ≢ out_of_fuel
after-ne-out_of_fuel f rest (proceed q) s h = h q
after-ne-out_of_fuel f rest (stop v) s h = s

parse_loop-ne-out_of_fuel :
    (f : ℕ) (p : ParserState) (input : Bytes)
    → length input < f
    → parse_loop f p input ≢ out_of_fuel
parse_loop-ne-out_of_fuel zero p input h = absurd (omega arith)
parse_loop-ne-out_of_fuel (suc f) p [] h =
    let (v, e) = action_of_nil p in
    let settled : v ≢ out_of_fuel = subst IsSettled e (handle_token-IsSettled p _ _) in
    λ z. settled (sym (ap (after f _) e) ∙ sym (parse_loop-suc f p []) ∙ z)
parse_loop-ne-out_of_fuel (suc f) p (c ∷ cs) h =
    let tail = λ (q : ParserState).
      parse_loop-ne-out_of_fuel f q (parse_token (c ∷ cs)).rest
        (omega (arith, parse_token-rest-lt c cs)) in
    λ z.
      after-ne-out_of_fuel f _ _ (handle_token-IsSettled p _ _) tail
        (sym (parse_loop-suc f p (c ∷ cs)) ∙ z)

-- Parse always ends with a verdict of the code.
pub parse-ne-out_of_fuel : (input : Bytes) → parse input ≢ out_of_fuel
unfolding parse run
parse-ne-out_of_fuel input = parse_loop-ne-out_of_fuel _ _ input (omega arith)
