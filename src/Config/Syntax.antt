-- ===== src/Config/Syntax.antt =====
-- The parsed representation: NginxConfigStatement and NginxConfig of include/config_parser.h.
-- A statement whose `child_block_` is null is `plain`, one that owns a config is `block`.
use dinner_is_servered.Prelude.{◌≡◌, refl, List, [], ◌∷◌, Bytes}

mutual
  pub data NginxConfigStatement : Type 0 where
    plain : List Bytes → NginxConfigStatement
    block : List Bytes → NginxConfig → NginxConfigStatement

  -- `statements_`
  pub data NginxConfig : Type 0 where
    nil : NginxConfig
    cons : NginxConfigStatement → NginxConfig → NginxConfig

abbrev pub tokens : NginxConfigStatement → List Bytes
tokens (plain ts) = ts
tokens (block ts child) = ts

-- The statements of a config that is still being filled, and the config that holds them.
abbrev pub statements : NginxConfig → List NginxConfigStatement
statements nil = []
statements (cons s c) = s ∷ statements c

abbrev pub config_of : List NginxConfigStatement → NginxConfig
config_of [] = nil
config_of (s ∷ ss) = cons s (config_of ss)

pub config_of-statements : (c : NginxConfig) → config_of (statements c) ≡ c
config_of-statements nil = refl
config_of-statements (cons s c) = λ i. cons s (config_of-statements c i)
