-- ===== src/Config/Parser/Rooted.antt =====
-- Parse on a file with no statement.
use dinner_is_servered.Prelude.{
  ℕ, zero, suc, ◌≡◌, ◌≢◌, inl, inr, refl, sym, subst, List, [], ◌∷◌, ◌++◌, Bytes, Option-cases,
}
use dinner_is_servered.Config.Syntax.{NginxConfigStatement, plain, nil, config_of}
use dinner_is_servered.Config.Lexer.{
  TokenType, start, normal, start_block, end_block, comment, statement_end, eof, error, parse_token,
}
use dinner_is_servered.Config.Parser.{
  Level, ParserState, initial, Action, proceed, stop, handle_token, update_back, push_token,
  reset_child, parse_loop, run, parse, accepted, Verdict, update_top, next, on_normal, on_eof,
  on_statement_end, on_start_block, on_end_block, new_statement, add_to_statement, pop_config,
  accept_root, push_config,
}
use dinner_is_servered.Config.Parser.Levels.{OkSome}
use dinner_is_servered.Config.Parser.Sound.{Action-cases}

abbrev HasStatement : Level → Type 0
HasStatement [] = ⊥
HasStatement (s ∷ l) = Unit

abbrev RootOk : List Level → Type 0
RootOk [] = Unit
RootOk (root ∷ []) = HasStatement root
RootOk (l ∷ m ∷ below) = RootOk (m ∷ below)

abbrev Rooted : TokenType → List Level → Type 0
Rooted start stack = stack ≡ [] ∷ []
Rooted _ stack = RootOk stack

abbrev RootedVerdict : Verdict → Type 0
RootedVerdict (accepted nil) = ⊥
RootedVerdict _ = Unit

abbrev RootedAction : Action → Type 0
RootedAction (proceed p) = Rooted p.last_token_type p.config_stack
RootedAction (stop v) = RootedVerdict v

update_back-HasStatement :
    (f : NginxConfigStatement → NginxConfigStatement) (l : Level)
    → OkSome HasStatement (update_back f l)
unfolding update_back
update_back-HasStatement f [] = tt
update_back-HasStatement f (s ∷ []) = tt
update_back-HasStatement f (s ∷ t ∷ l) = elim (Option-cases (update_back f (t ∷ l))) [
  | inl e ↦ rw (e, update_back) tt
  | inr (l', e) ↦ rw (e, update_back) tt
]

RootOk-top :
    (l l' : Level) (below : List Level) → HasStatement l' → RootOk (l ∷ below) → RootOk (l' ∷ below)
RootOk-top l l' [] h k = h
RootOk-top l l' (m ∷ below) h k = k

add_to_statement-Rooted :
    (stack : List Level) (t : Bytes) → RootOk stack → RootedAction (add_to_statement stack t)
unfolding add_to_statement
add_to_statement-Rooted [] t h = tt
add_to_statement-Rooted (l ∷ below) t h = elim (Option-cases (update_back (push_token t) l)) [
  | inl e ↦ rw (e, next) tt
  | inr (l', e) ↦
      rw (e, next)
        (RootOk-top l l' below (subst (OkSome HasStatement) e (update_back-HasStatement _ l)) h)
]

HasStatement-concat : (l : Level) (s : NginxConfigStatement) → HasStatement (l ++ s ∷ [])
HasStatement-concat [] s = tt
HasStatement-concat (x ∷ l) s = tt

new_statement-Rooted :
    (stack : List Level) (t : Bytes) → RootOk stack → RootedAction (new_statement stack t)
unfolding new_statement
new_statement-Rooted [] t h = tt
new_statement-Rooted (l ∷ below) t h =
    add_to_statement-Rooted ((l ++ plain [] ∷ []) ∷ below) t
      (RootOk-top l _ below (HasStatement-concat l _) h)

first_statement-Rooted :
    (stack : List Level) (t : Bytes) → stack ≡ [] ∷ [] → RootedAction (new_statement stack t)
unfolding new_statement update_back
first_statement-Rooted stack t e = subst (λ s. RootedAction (new_statement s t)) (sym e) tt

on_normal-Rooted :
    (type : TokenType) (stack : List Level) (t : Bytes)
    → Rooted type stack
    → RootedAction (on_normal type stack t)
unfolding on_normal
on_normal-Rooted start stack t h = first_statement-Rooted stack t h
on_normal-Rooted statement_end stack t h = new_statement-Rooted stack t h
on_normal-Rooted start_block stack t h = new_statement-Rooted stack t h
on_normal-Rooted end_block stack t h = new_statement-Rooted stack t h
on_normal-Rooted normal stack t h = add_to_statement-Rooted stack t h
on_normal-Rooted _ stack t h = tt

push_config-Rooted :
    (stack : List Level)
    → RootOk stack
    → RootedAction (push_config (update_top (update_back (reset_child nil)) stack))
unfolding push_config
push_config-Rooted [] h = tt
push_config-Rooted (l ∷ below) h = elim (Option-cases (update_back (reset_child nil) l)) [
  | inl e ↦ rw (e, push_config) tt
  | inr (l', e) ↦
      rw (e, push_config)
        (RootOk-top l l' below (subst (OkSome HasStatement) e (update_back-HasStatement _ l)) h)
]

pop_config-Rooted : (stack : List Level) → RootOk stack → RootedAction (pop_config stack)
unfolding pop_config
pop_config-Rooted [] h = tt
pop_config-Rooted (top ∷ []) h = tt
pop_config-Rooted (top ∷ l ∷ below) h =
    elim (Option-cases (update_back (reset_child (config_of top)) l)) [
      | inl e ↦ rw (e, next) tt
      | inr (l', e) ↦
          rw (e, next)
            (RootOk-top l l' below (subst (OkSome HasStatement) e (update_back-HasStatement _ l)) h)
    ]

accept_root-Rooted : (stack : List Level) → RootOk stack → RootedAction (accept_root stack)
unfolding accept_root
accept_root-Rooted [] h = tt
accept_root-Rooted ([] ∷ []) h = elim h [ ]
accept_root-Rooted ((s ∷ l) ∷ []) h = tt
accept_root-Rooted (root ∷ x ∷ below) h = tt

handle_token-Rooted :
    (p : ParserState) (type : TokenType) (t : Bytes)
    → Rooted p.last_token_type p.config_stack
    → RootedAction (handle_token p type t)
unfolding handle_token
handle_token-Rooted p start t h = tt
handle_token-Rooted p normal t h = on_normal-Rooted p.last_token_type p.config_stack t h
handle_token-Rooted p start_block t h = go p.last_token_type h
  where
    go :
        (type : TokenType)
        → Rooted type p.config_stack
        → RootedAction (on_start_block type p.config_stack)
    go normal h = push_config-Rooted p.config_stack h
    go _ h = tt
handle_token-Rooted p end_block t h = go p.last_token_type h
  where
    go :
        (type : TokenType)
        → Rooted type p.config_stack
        → RootedAction (on_end_block type p.config_stack)
    go statement_end h = pop_config-Rooted p.config_stack h
    go end_block h = pop_config-Rooted p.config_stack h
    go start_block h = pop_config-Rooted p.config_stack h
    go _ h = tt
handle_token-Rooted p comment t h = h
handle_token-Rooted p statement_end t h = go p.last_token_type h
  where
    go :
        (type : TokenType)
        → Rooted type p.config_stack
        → RootedAction (on_statement_end type p.config_stack)
    go normal h = h
    go _ h = tt
handle_token-Rooted p eof t h = go p.last_token_type h
  where
    go : (type : TokenType) → Rooted type p.config_stack → RootedAction (on_eof type p.config_stack)
    go statement_end h = accept_root-Rooted p.config_stack h
    go end_block h = accept_root-Rooted p.config_stack h
    go _ h = tt
handle_token-Rooted p error t h = tt

parse_loop-Rooted :
    (fuel : ℕ) (p : ParserState) (input : Bytes)
    → Rooted p.last_token_type p.config_stack
    → RootedVerdict (parse_loop fuel p input)
unfolding parse_loop
parse_loop-Rooted zero p input h = tt
parse_loop-Rooted (suc fuel) p input h =
    let token = parse_token input in
    let kept = handle_token-Rooted p token.type token.value h in
    elim (Action-cases (handle_token p token.type token.value)) [
      | inl (q, e) ↦
          rw (e, parse_loop)
            (parse_loop-Rooted fuel q (parse_token input).rest (subst RootedAction e kept))
      | inr (v, e) ↦ rw (e, parse_loop) (subst RootedAction e kept)
    ]

-- A file with no statement is not accepted.
pub parse-ne-accepted_nil : (input : Bytes) → parse input ≢ accepted nil
unfolding parse run
parse-ne-accepted_nil input e = subst RootedVerdict e (parse_loop-Rooted _ initial input refl)
