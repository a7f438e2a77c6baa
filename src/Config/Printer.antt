-- ===== src/Config/Printer.antt =====
-- NginxConfig::ToString and NginxConfigStatement::ToString.
mod Pieces
mod Statements
pub mod RoundTrip
use dinner_is_servered.Prelude.{
  ℕ, zero, suc, Bool, true, false, List, [], ◌∷◌, ◌++◌, Bytes, if◌then◌else◌,
}
use dinner_is_servered.Config.Syntax.{NginxConfigStatement, NginxConfig, plain, block, nil, cons}

-- `for (int i = 0; i < depth; ++i)`
unfoldable pub indent : ℕ → Bytes
indent zero = []
indent (suc depth) = b' ' ∷ b' ' ∷ indent depth

-- the loop over `tokens_`; the flag is `i == 0`
unfoldable pub tokens_to_string : Bool → List Bytes → Bytes
tokens_to_string first [] = []
tokens_to_string first (t ∷ ts) =
    (if first then [] else b' ' ∷ []) ++ (t ++ tokens_to_string false ts)

unfoldable mutual
  pub statement_to_string : ℕ → NginxConfigStatement → Bytes
  statement_to_string depth (plain ts) =
      indent depth ++ (tokens_to_string true ts ++ b';' ∷ b'\n' ∷ [])
  statement_to_string depth (block ts child) =
      indent depth
      ++ (tokens_to_string true ts
          ++ (b' '
              ∷ b'{'
              ∷ b'\n'
              ∷ (to_string (suc depth) child ++ (indent depth ++ b'}' ∷ b'\n' ∷ []))))

  pub to_string : ℕ → NginxConfig → Bytes
  to_string depth nil = []
  to_string depth (cons s c) = statement_to_string depth s ++ to_string depth c
