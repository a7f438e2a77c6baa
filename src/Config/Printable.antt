-- ===== src/Config/Printable.antt =====
-- The tokens that ParseToken can return, and the configs that are made of them.
use dinner_is_servered.Prelude.{
  ℕ, ◌≡◌, ◌⊎◌, Bool, true, false, ◌||◌, not, List, [], ◌∷◌, ◌++◌, ◌==◌, Bytes, All,
}
use dinner_is_servered.Config.Syntax.{NginxConfigStatement, NginxConfig, plain, block, nil, cons}
use dinner_is_servered.Config.Lexer.{is_space, ends_normal}

abbrev pub begins_normal : ℕ → Bool
begins_normal c =
    not (c == b'{' || c == b'}' || c == b'#' || c == b'"' || c == b'\'' || c == b';' || is_space c)

abbrev pub StaysNormal : ℕ → Type 0
StaysNormal c = ends_normal c ≡ false

abbrev pub IsQuote : ℕ → Type 0
IsQuote q = (q ≡ b'"') ⊎ (q ≡ b'\'')

-- A word, or a text between two quotes of one kind.
pub data IsToken : Bytes → Type 0 where
  word : {c : ℕ} {cs : Bytes} → begins_normal c ≡ true → All StaysNormal cs → IsToken (c ∷ cs)
  quoted :
      (q : ℕ) (body : Bytes)
      → IsQuote q
      → All (λ d. (d == q) ≡ false) body
      → IsToken (q ∷ (body ++ q ∷ []))

abbrev pub AreTokens : List Bytes → Type 0
AreTokens [] = ⊥
AreTokens (t ∷ ts) = IsToken t × All IsToken ts

-- Every statement, at every depth, has a token, and every token is one that can be read.
abbrev mutual
  pub IsPrintableStatement : NginxConfigStatement → Type 0
  IsPrintableStatement (plain ts) = AreTokens ts
  IsPrintableStatement (block ts child) = AreTokens ts × IsPrintable child

  pub IsPrintable : NginxConfig → Type 0
  IsPrintable nil = Unit
  IsPrintable (cons s c) = IsPrintableStatement s × IsPrintable c
