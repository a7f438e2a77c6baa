-- ===== src/Config/Parser/Sound.antt =====
-- The configs that Parse accepts: their statements and tokens.
use dinner_is_servered.Prelude.{
  ℕ, zero, suc, ◌≡◌, ◌⊎◌, inl, inr, refl, subst, List, [], ◌∷◌, ◌++◌, Bytes, Option-cases,
}
use dinner_is_servered.Config.Syntax.{NginxConfig, plain, nil, config_of}
use dinner_is_servered.Config.Lexer.{
  TokenType, start, normal, start_block, end_block, comment, statement_end, eof, error, parse_token,
}
use dinner_is_servered.Config.Lexer.Sound.{TokenInv, parse_token-TokenInv}
use dinner_is_servered.Config.Parser.{
  Level, ParserState, initial, Action, proceed, stop, handle_token, update_back, push_token,
  reset_child, parse_loop, run, parse, accepted, Verdict, update_top, next, on_normal, on_eof,
  on_statement_end, on_start_block, on_end_block, new_statement, add_to_statement, pop_config,
  accept_root, push_config,
}
use dinner_is_servered.Config.Printable.{IsToken, IsPrintable}
use dinner_is_servered.Config.Parser.Levels.{
  OkLevel, OkStack, OkVerdict, OkAction, config_of-IsPrintable, push_token-Ok, reset_child-Ok,
  OkSome, update_back-Ok, first_token-Ok, next-Ok,
}

new_statement-Ok :
    (stack : List Level) (t : Bytes) → IsToken t → OkStack stack → OkAction (new_statement stack t)
unfolding new_statement
new_statement-Ok [] t k h = tt
new_statement-Ok (top ∷ below) t k (p, h) =
    elim (Option-cases (update_back (push_token t) (top ++ plain [] ∷ []))) [
      | inl e ↦ rw (e, next) tt
      | inr (l', e) ↦ rw (e, next) (subst (OkSome OkLevel) e (first_token-Ok t top k p), h)
    ]

add_to_statement-Ok :
    (stack : List Level) (t : Bytes)
    → IsToken t
    → OkStack stack
    → OkAction (add_to_statement stack t)
unfolding add_to_statement
add_to_statement-Ok stack t k h =
    next-Ok normal _ stack (λ l. update_back-Ok (push_token t) l (λ s. push_token-Ok t s k)) h

pop_config-Ok : (stack : List Level) → OkStack stack → OkAction (pop_config stack)
unfolding pop_config
pop_config-Ok [] h = tt
pop_config-Ok (top ∷ []) h = tt
pop_config-Ok (top ∷ owner ∷ below) (p, h) =
    next-Ok end_block _ (owner ∷ below)
      (λ l.
        update_back-Ok (reset_child (config_of top)) l
          (λ s. reset_child-Ok _ s (config_of-IsPrintable top p)))
      h

push_config-Ok :
    (stack : List Level)
    → OkStack stack
    → OkAction (push_config (update_top (update_back (reset_child nil)) stack))
unfolding push_config
push_config-Ok [] h = tt
push_config-Ok (top ∷ below) (p, h) = elim (Option-cases (update_back (reset_child nil) top)) [
  | inl e ↦ rw (e, push_config) tt
  | inr (l, e) ↦
      rw (e, push_config)
        (tt, (subst (OkSome OkLevel) e (update_back-Ok _ top (λ s. reset_child-Ok nil s tt) p), h))
]

on_normal-Ok :
    (type : TokenType) (stack : List Level) (t : Bytes)
    → IsToken t
    → OkStack stack
    → OkAction (on_normal type stack t)
unfolding on_normal
on_normal-Ok start stack t = new_statement-Ok stack t
on_normal-Ok statement_end stack t = new_statement-Ok stack t
on_normal-Ok start_block stack t = new_statement-Ok stack t
on_normal-Ok end_block stack t = new_statement-Ok stack t
on_normal-Ok normal stack t = add_to_statement-Ok stack t
on_normal-Ok _ stack t = λ _ _. tt

accept_root-Ok : (stack : List Level) → OkStack stack → OkAction (accept_root stack)
unfolding accept_root
accept_root-Ok [] h = tt
accept_root-Ok (root ∷ []) h = config_of-IsPrintable root h.0
accept_root-Ok (root ∷ x ∷ below) h = tt

on_start_block-Ok :
    (type : TokenType) (stack : List Level) → OkStack stack → OkAction (on_start_block type stack)
unfolding on_start_block
on_start_block-Ok normal stack h = push_config-Ok stack h
on_start_block-Ok _ stack h = tt

on_statement_end-Ok :
    (type : TokenType) (stack : List Level) → OkStack stack → OkAction (on_statement_end type stack)
unfolding on_statement_end
on_statement_end-Ok normal stack h = h
on_statement_end-Ok _ stack h = tt

on_end_block-Ok :
    (type : TokenType) (stack : List Level) → OkStack stack → OkAction (on_end_block type stack)
unfolding on_end_block
on_end_block-Ok statement_end stack h = pop_config-Ok stack h
on_end_block-Ok end_block stack h = pop_config-Ok stack h
on_end_block-Ok start_block stack h = pop_config-Ok stack h
on_end_block-Ok _ stack h = tt

on_eof-Ok : (type : TokenType) (stack : List Level) → OkStack stack → OkAction (on_eof type stack)
unfolding on_eof
on_eof-Ok statement_end stack h = accept_root-Ok stack h
on_eof-Ok end_block stack h = accept_root-Ok stack h
on_eof-Ok _ stack h = tt

handle_token-Ok :
    (p : ParserState) (type : TokenType) (t : Bytes)
    → TokenInv type t
    → OkStack p.config_stack
    → OkAction (handle_token p type t)
unfolding handle_token
handle_token-Ok p start t k h = tt
handle_token-Ok p normal t k h = on_normal-Ok p.last_token_type p.config_stack t k h
handle_token-Ok p start_block t k h = on_start_block-Ok p.last_token_type p.config_stack h
handle_token-Ok p end_block t k h = on_end_block-Ok p.last_token_type p.config_stack h
handle_token-Ok p comment t k h = h
handle_token-Ok p statement_end t k h = on_statement_end-Ok p.last_token_type p.config_stack h
handle_token-Ok p eof t k h = on_eof-Ok p.last_token_type p.config_stack h
handle_token-Ok p error t k h = tt

pub Action-cases :
    (a : Action) → ((q : ParserState) × (a ≡ proceed q)) ⊎ ((v : Verdict) × (a ≡ stop v))
Action-cases (proceed q) = inl (q, refl)
Action-cases (stop v) = inr (v, refl)

parse_loop-Ok :
    (fuel : ℕ) (p : ParserState) (input : Bytes)
    → OkStack p.config_stack
    → OkVerdict (parse_loop fuel p input)
unfolding parse_loop
parse_loop-Ok zero p input h = tt
parse_loop-Ok (suc fuel) p input h =
    let token = parse_token input in
    let kept = handle_token-Ok p token.type token.value (parse_token-TokenInv input) h in
    elim (Action-cases (handle_token p token.type token.value)) [
      | inl (q, e) ↦
          rw (e, parse_loop) (parse_loop-Ok fuel q (parse_token input).rest (subst OkAction e kept))
      | inr (v, e) ↦ rw (e, parse_loop) (subst OkAction e kept)
    ]

-- In a config that Parse accepts every statement, at every depth, has a token, and every token is
-- a word or a quoted text.
pub parse-IsPrintable : (input : Bytes) (c : NginxConfig) → parse input ≡ accepted c → IsPrintable c
unfolding parse run
parse-IsPrintable input c e = subst OkVerdict e (parse_loop-Ok _ initial input (tt, tt))
