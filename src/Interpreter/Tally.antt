-- ===== src/Interpreter/Tally.antt =====
-- How often a location stands in the paths that a location statement of setServerPaths fills.
use dinner_is_servered.Prelude.{
  ℕ, ◌+◌, ◌≤◌, ◌≡◌, inl, inr, sym, Bool, true, false, List, [], ◌∷◌, ◌++◌, Bytes, arith, text,
  equal, if◌then◌else◌, Bool-cases,
}
use dinner_is_servered.Config.Syntax.{NginxConfigStatement, NginxConfig, nil, cons, tokens}
use dinner_is_servered.Runtime.{World, ServerPaths, returns}
use dinner_is_servered.Runtime.Dictionary.{StringMap, less, assign, keys}
use dinner_is_servered.Runtime.Inversion.{
  and_then-returns, steps-returns, lift-returns, pure-returns,
}
use dinner_is_servered.Interpreter.{token_at, child_block, directory_loop, app_loop, register}

-- How often a location stands in a list, and in all lists and maps of the paths.
abbrev pub tally : Bytes → Bytes → ℕ
tally x y = if equal x y then 1 else 0

abbrev pub count : Bytes → List Bytes → ℕ
count x [] = 0
count x (y ∷ ys) = tally x y + count x ys

abbrev pub total : Bytes → ServerPaths → ℕ
total x paths =
    count x paths.echo
    + count x (keys paths.static)
    + count x (keys paths.crud)
    + count x paths.health
    + count x paths.sleep
    + count x paths.app

count-append : (x y : Bytes) (ys : List Bytes) → count x (ys ++ y ∷ []) ≡ count x ys + tally x y
count-append x y [] = omega arith
count-append x y (z ∷ ys) = omega (arith, count-append x y ys)

count-assign :
    (x key value : Bytes) (m : StringMap)
    → count x (keys (assign key value m)) ≤ tally x key + count x (keys m)
unfolding assign
count-assign x key value [] = omega arith
count-assign x key value ((k, v) ∷ m) = elim (Bool-cases (equal k key)) [
  | inl e ↦ rw e (omega arith)
  | inr e ↦ elim (Bool-cases (less key k)) [
    | inl f ↦ rw (e, f) (omega arith)
    | inr f ↦ rw (e, f) (omega (arith, count-assign x key value m))
  ]
]

-- The loop over a block assigns at most one path, to its location.
directory_loop-count :
    (x keyword location : Bytes) (c : NginxConfig) (m m' : StringMap) (found : Bool)
    → directory_loop keyword location c m found ≡ returns m'
    → count x (keys m') ≤ (if found then 0 else tally x location) + count x (keys m)
unfolding directory_loop
directory_loop-count x keyword location nil m m' found h =
    let e : m ≡ m' = cc in rw (sym e) (omega arith)
directory_loop-count x keyword location (cons s c) m m' found h =
    let (t, e, rest) = and_then-returns (token_at (tokens s) 0) _ m' h in
    elim (Bool-cases (equal t keyword)) [
      | inr k ↦ directory_loop-count x keyword location c m m' found (rw k at rest)
      | inl k ↦ elim (Bool-cases found) [
        | inl f ↦ let z = rw (k, f) at rest in absurd cc
        | inr f ↦
            let (path, _, last) =
              and_then-returns (token_at (tokens s) 1) _ m' (rw (k, f) at rest) in
            rw f (
              omega (
                arith,
                directory_loop-count x keyword location c (assign location path m) m' true last,
                count-assign x location path m,
              ))
      ]
    ]

-- A location statement adds at most one path, its location.
pub register-count :
    (x location location_type : Bytes) (s : NginxConfigStatement) (paths paths' : ServerPaths)
    (w : World)
    → (register location location_type s paths w).0 ≡ returns paths'
    → total x paths' ≤ tally x location + total x paths
unfolding register
register-count x location location_type s paths paths' w h =
    elim (Bool-cases (equal location_type (text "EchoHandler"))) [
      | inl a ↦
          let e = pure-returns _ w paths' (rw a at h) in
          rw (sym e) (omega (arith, count-append x location paths.echo))
      | inr a ↦ elim (Bool-cases (equal location_type (text "StaticHandler"))) [
        | inl b ↦
            let (child, _, h1) = lift-returns (child_block s) _ w paths' (rw (a, b) at h) in
            let (map, k, h2) =
              lift-returns (directory_loop (text "root") location child paths.static false) _ w
                paths' h1 in
            let e = pure-returns _ w paths' h2 in
            rw (sym e) (
              omega (
                arith,
                directory_loop-count x (text "root") location child paths.static map false k,
              ))
        | inr b ↦ elim (Bool-cases (equal location_type (text "CrudHandler"))) [
          | inl c ↦
              let (child, _, h1) = lift-returns (child_block s) _ w paths' (rw (a, b, c) at h) in
              let (map, k, h2) =
                lift-returns (directory_loop (text "data_path") location child paths.crud false) _ w
                  paths' h1 in
              let e = pure-returns _ w paths' h2 in
              rw (sym e) (
                omega (
                  arith,
                  directory_loop-count x (text "data_path") location child paths.crud map false k,
                ))
          | inr c ↦ elim (Bool-cases (equal location_type (text "HealthHandler"))) [
            | inl d ↦
                let e = pure-returns _ w paths' (rw (a, b, c, d) at h) in
                rw (sym e) (omega (arith, count-append x location paths.health))
            | inr d ↦ elim (Bool-cases (equal location_type (text "SleepHandler"))) [
              | inl f ↦
                  let e = pure-returns _ w paths' (rw (a, b, c, d, f) at h) in
                  rw (sym e) (omega (arith, count-append x location paths.sleep))
              | inr f ↦ elim (Bool-cases (equal location_type (text "AppHandler"))) [
                | inl g ↦
                    let (child, _, h1) =
                      lift-returns (child_block s) _ w paths' (rw (a, b, c, d, f, g) at h) in
                    let (_, _, h2) = steps-returns (app_loop child false false) _ w paths' h1 in
                    let e = pure-returns _ _ paths' h2 in
                    rw (sym e) (omega (arith, count-append x location paths.app))
                | inr g ↦
                    let e = pure-returns _ w paths' (rw (a, b, c, d, f, g) at h) in
                    rw (sym e) (omega arith)
              ]
            ]
          ]
        ]
      ]
    ]
