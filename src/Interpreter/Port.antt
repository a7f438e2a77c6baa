-- ===== src/Interpreter/Port.antt =====
-- getPort on configs whose statements have tokens and whose server statements have blocks.
use dinner_is_servered.Prelude.{leb}
use dinner_is_servered.Runtime.Numbers.{Parsed, parsed, invalid, too_large, stoi}
use dinner_is_servered.Interpreter.{or_default}
use dinner_is_servered.Prelude.{
  ◌≤◌, ◌≡◌, inl, inr, refl, sym, ap, ◌∙◌, false, List, [], ◌∷◌, ◌++◌, Bytes, arith, text, equal,
  if◌then◌else◌, Bool-cases, All, All-append,
}
use dinner_is_servered.Config.Syntax.{
  NginxConfigStatement, NginxConfig, plain, block, nil, cons, tokens,
}
use dinner_is_servered.Config.Printable.{IsPrintableStatement, IsPrintable}
use dinner_is_servered.Runtime.{returns}
use dinner_is_servered.Runtime.Numbers.{ℤ, pos, negsuc}
use dinner_is_servered.Interpreter.{
  token_at, child_block, default_port, check_range, listen_port, listen_loop, server_port,
  port_loop, get_port,
}

abbrev pub first_token : List Bytes → Bytes
first_token [] = []
first_token (t ∷ ts) = t

pub token_at-first :
    (s : NginxConfigStatement)
    → IsPrintableStatement s
    → token_at (tokens s) 0 ≡ returns (first_token (tokens s))
unfolding token_at
token_at-first (plain []) h = elim h [ ]
token_at-first (plain (t ∷ ts)) h = refl
token_at-first (block [] child) h = elim h.0 [ ]
token_at-first (block (t ∷ ts) child) h = refl

-- Every `server` statement of the config has a block.
abbrev pub IsServerBlock : NginxConfigStatement → Type 0
IsServerBlock (plain ts) = equal (first_token ts) (text "server") ≡ false
IsServerBlock (block ts child) = Unit

abbrev pub AreServerBlocks : NginxConfig → Type 0
AreServerBlocks nil = Unit
AreServerBlocks (cons s c) = IsServerBlock s × AreServerBlocks c

-- The port of a `listen` statement: what std::stoi reads of the second token, from 0 to 65535, or 80.
abbrev in_range : Parsed → ℤ
in_range (parsed (pos n)) = if leb n 65535 then pos n else pos 80
in_range _ = pos 80

abbrev told_port : List Bytes → ℤ
told_port (listen ∷ port ∷ ts) = in_range (stoi port)
told_port _ = pos 80

parsed_port-in_range : (p : Parsed) → check_range (or_default p) ≡ in_range p
parsed_port-in_range (parsed (pos n)) = ground arith
parsed_port-in_range (parsed (negsuc n)) = refl
parsed_port-in_range invalid = refl
parsed_port-in_range too_large = refl

listen_port-told_port : (ts : List Bytes) → listen_port ts ≡ told_port ts
unfolding listen_port token_at
listen_port-told_port [] = refl
listen_port-told_port (listen ∷ []) = refl
listen_port-told_port (listen ∷ port ∷ ts) = parsed_port-in_range (stoi port)

-- The ports of the `listen` statements of a server block, and of all server blocks, in order. A
-- port is what std::stoi reads of the second token, which may have more behind the number; one that
-- begins with no number, or is out of range or missing, counts as 80.
abbrev block_ports : NginxConfig → List ℤ
block_ports nil = []
block_ports (cons s c) =
    (if equal (first_token (tokens s)) (text "listen") then told_port (tokens s) ∷ [] else [])
    ++ block_ports c

abbrev child_ports : NginxConfigStatement → List ℤ
child_ports (plain ts) = []
child_ports (block ts child) = block_ports child

abbrev pub ports : NginxConfig → List ℤ
ports nil = []
ports (cons s c) =
    (if equal (first_token (tokens s)) (text "server") then child_ports s else []) ++ ports c

abbrev pub last_or : ℤ → List ℤ → ℤ
last_or d [] = d
last_or d (p ∷ ps) = last_or p ps

last_or-append : (d : ℤ) (ps qs : List ℤ) → last_or d (ps ++ qs) ≡ last_or (last_or d ps) qs
last_or-append d [] qs = refl
last_or-append d (p ∷ ps) qs = last_or-append p ps qs

listen_loop-last :
    (c : NginxConfig) (port : ℤ)
    → IsPrintable c
    → listen_loop c port ≡ returns (last_or port (block_ports c))
unfolding listen_loop
listen_loop-last nil port h = refl
listen_loop-last (cons s c) port (h, k) =
    elim (Bool-cases (equal (first_token (tokens s)) (text "listen"))) [
      | inl e ↦ rw (token_at-first s h) (
          rw e
            (rw (listen_port-told_port (tokens s)) (listen_loop-last c (told_port (tokens s)) k)))
      | inr e ↦ rw (token_at-first s h) (rw e (listen_loop-last c port k))
    ]

server_port-last :
    (s : NginxConfigStatement) (port : ℤ)
    → IsPrintableStatement s
    → IsServerBlock s
    → server_port s (first_token (tokens s)) port
      ≡ returns (
          last_or port
            (if equal (first_token (tokens s)) (text "server") then child_ports s else []))
unfolding server_port child_block
server_port-last (plain ts) port h b = rw b
server_port-last (block ts child) port h b =
    elim (Bool-cases (equal (first_token ts) (text "server"))) [
      | inl e ↦ rw e (listen_loop-last child port h.1)
      | inr e ↦ rw e
    ]

port_loop-last :
    (c : NginxConfig) (port : ℤ)
    → IsPrintable c
    → AreServerBlocks c
    → port_loop c port ≡ returns (last_or port (ports c))
unfolding port_loop
port_loop-last nil port h b = refl
port_loop-last (cons s c) port (h, k) (b, d) = rw (token_at-first s h) (
    rw (server_port-last s port h b) (
      port_loop-last c _ k d
      ∙ ap returns (
          sym (
            last_or-append port
              (if equal (first_token (tokens s)) (text "server") then child_ports s else [])
              (ports c)))))

-- A port number.
abbrev pub IsPort : ℤ → Type 0
IsPort (pos n) = n ≤ 65535
IsPort (negsuc n) = ⊥

in_range-IsPort : (p : Parsed) → IsPort (in_range p)
in_range-IsPort (parsed (pos n)) = ground arith
in_range-IsPort _ = omega arith

told_port-IsPort : (ts : List Bytes) → IsPort (told_port ts)
told_port-IsPort (listen ∷ port ∷ ts) = in_range-IsPort (stoi port)
told_port-IsPort _ = omega arith

last_or-IsPort : (d : ℤ) (ps : List ℤ) → IsPort d → All IsPort ps → IsPort (last_or d ps)
last_or-IsPort d [] h a = h
last_or-IsPort d (p ∷ ps) h (k, a) = last_or-IsPort p ps k a

block_ports-IsPort : (c : NginxConfig) → All IsPort (block_ports c)
block_ports-IsPort nil = tt
block_ports-IsPort (cons s c) = elim (Bool-cases (equal (first_token (tokens s)) (text "listen"))) [
  | inl e ↦ rw e (told_port-IsPort (tokens s), block_ports-IsPort c)
  | inr e ↦ rw e (block_ports-IsPort c)
]

child_ports-IsPort : (s : NginxConfigStatement) → All IsPort (child_ports s)
child_ports-IsPort (plain ts) = tt
child_ports-IsPort (block ts child) = block_ports-IsPort child

ports-IsPort : (c : NginxConfig) → All IsPort (ports c)
ports-IsPort nil = tt
ports-IsPort (cons s c) = elim (Bool-cases (equal (first_token (tokens s)) (text "server"))) [
  | inl e ↦
      rw e (All-append IsPort (child_ports s) (ports c) (child_ports-IsPort s) (ports-IsPort c))
  | inr e ↦ rw e (ports-IsPort c)
]

-- On a config whose statements have tokens and whose server statements have blocks, getPort returns
-- the port of the last listen statement of a server block, or 80 where there is none; the port is
-- the number that std::stoi reads at the front of the second token, whatever stands behind it, or 80
-- where there is none or it is not from 0 to 65535, and so at most 65535.
pub get_port-last :
    (c : NginxConfig)
    → IsPrintable c
    → AreServerBlocks c
    → (get_port c ≡ returns (last_or (pos 80) (ports c))) × IsPort (last_or (pos 80) (ports c))
unfolding get_port
get_port-last c h b = (
  port_loop-last c default_port h b,
  last_or-IsPort (pos 80) (ports c) (omega arith) (ports-IsPort c),
)
