-- ===== src/Config/Parser/Levels.antt =====
-- The operations of Parse on the open configs, and the predicates on configs that go with them.
use dinner_is_servered.Prelude.{
  inl, inr, subst, List, [], ◌∷◌, ◌++◌, Bytes, All, All-append, Option, none, some, Option-cases,
}
use dinner_is_servered.Config.Syntax.{NginxConfigStatement, NginxConfig, plain, block, config_of}
use dinner_is_servered.Config.Lexer.{TokenType}
use dinner_is_servered.Config.Parser.{
  Level, Action, proceed, stop, update_back, push_token, reset_child, accepted, Verdict, update_top,
  next,
}
use dinner_is_servered.Config.Printable.{IsToken, AreTokens, IsPrintableStatement, IsPrintable}

abbrev pub OkLevel : Level → Type 0
OkLevel = All IsPrintableStatement

abbrev pub OkStack : List Level → Type 0
OkStack = All OkLevel

-- What is accepted is printable and not empty; the statement of the state is on every open config.
abbrev pub OkVerdict : Verdict → Type 0
OkVerdict (accepted c) = IsPrintable c
OkVerdict _ = Unit

abbrev pub OkAction : Action → Type 0
OkAction (proceed p) = OkStack p.config_stack
OkAction (stop v) = OkVerdict v

pub config_of-IsPrintable : (l : Level) → OkLevel l → IsPrintable (config_of l)
config_of-IsPrintable [] h = tt
config_of-IsPrintable (s ∷ l) (p, h) = (p, config_of-IsPrintable l h)

AreTokens-concat :
    (ts : List Bytes) (t : Bytes) → All IsToken ts → IsToken t → AreTokens (ts ++ t ∷ [])
AreTokens-concat [] t h k = (k, tt)
AreTokens-concat (u ∷ ts) t (p, h) k = (p, All-append IsToken ts (t ∷ []) h (k, tt))

All-of_AreTokens : (ts : List Bytes) → AreTokens ts → All IsToken ts
All-of_AreTokens [] h = tt
All-of_AreTokens (t ∷ ts) h = h

pub push_token-Ok :
    (t : Bytes) (s : NginxConfigStatement)
    → IsToken t
    → IsPrintableStatement s
    → IsPrintableStatement (push_token t s)
push_token-Ok t (plain ts) k h = AreTokens-concat ts t (All-of_AreTokens ts h) k
push_token-Ok t (block ts child) k h = (AreTokens-concat ts t (All-of_AreTokens ts h.0) k, h.1)

pub reset_child-Ok :
    (c : NginxConfig) (s : NginxConfigStatement)
    → IsPrintable c
    → IsPrintableStatement s
    → IsPrintableStatement (reset_child c s)
reset_child-Ok c (plain ts) k h = (h, k)
reset_child-Ok c (block ts child) k h = (h.0, k)

abbrev pub OkSome {ℓ κ} : {A : Type ℓ} → (A → Type κ) → Option A → Type κ
OkSome P none = Unit
OkSome P (some a) = P a

-- An operation on the last statement keeps what it keeps of one statement.
pub update_back-Ok :
    (f : NginxConfigStatement → NginxConfigStatement) (l : Level)
    → ((s : NginxConfigStatement) → IsPrintableStatement s → IsPrintableStatement (f s))
    → OkLevel l
    → OkSome OkLevel (update_back f l)
unfolding update_back
update_back-Ok f [] k h = tt
update_back-Ok f (s ∷ []) k (p, h) = (k s p, tt)
update_back-Ok f (s ∷ t ∷ l) k (p, h) = elim (Option-cases (update_back f (t ∷ l))) [
  | inl e ↦ rw (e, update_back) tt
  | inr (l', e) ↦ rw (e, update_back) (p, subst (OkSome OkLevel) e (update_back-Ok f (t ∷ l) k h))
]

-- A new statement with its first token.
pub first_token-Ok :
    (t : Bytes) (l : Level)
    → IsToken t
    → OkLevel l
    → OkSome OkLevel (update_back (push_token t) (l ++ plain [] ∷ []))
unfolding update_back
first_token-Ok t [] k h = ((k, tt), tt)
first_token-Ok t (s ∷ []) k (p, h) = (p, ((k, tt), tt))
first_token-Ok t (s ∷ u ∷ l) k (p, h) =
    elim (Option-cases (update_back (push_token t) (u ∷ (l ++ plain [] ∷ [])))) [
      | inl e ↦ rw (e, update_back) tt
      | inr (l', e) ↦
          rw (e, update_back) (p, subst (OkSome OkLevel) e (first_token-Ok t (u ∷ l) k h))
    ]

pub next-Ok :
    (type : TokenType) (f : Level → Option Level) (stack : List Level)
    → ((l : Level) → OkLevel l → OkSome OkLevel (f l))
    → OkStack stack
    → OkAction (next type (update_top f stack))
next-Ok type f [] k h = tt
next-Ok type f (top ∷ below) k (p, h) = elim (Option-cases (f top)) [
  | inl e ↦ rw (e, next) tt
  | inr (l', e) ↦ rw (e, next) (subst (OkSome OkLevel) e (k top p), h)
]
