-- ===== src/Interpreter/Distinct.antt =====
-- The locations that setServerPaths registers.
use dinner_is_servered.Prelude.{
  ℕ, ◌+◌, ◌≤◌, ◌≡◌, inl, inr, refl, sym, ap, ◌∙◌, false, ◌||◌, List, [], ◌∷◌, Bytes, arith, text,
  equal, if◌then◌else◌, Bool-cases, equal_iff,
}
use dinner_is_servered.Config.Syntax.{NginxConfigStatement, NginxConfig, nil, cons, tokens}
use dinner_is_servered.Runtime.{World, returns, raise, update}
use dinner_is_servered.Runtime.Inversion.{>>=-returns, steps-returns, lift-returns, pure-returns}
use dinner_is_servered.Interpreter.{
  token_at, child_block, no_paths, set_server_paths, Locations, is_used, register, check_unused,
  add_location, location_statement, location_loop, server_block, server_statement, server_loop,
}
use dinner_is_servered.Interpreter.Tally.{tally, total, register-count}

-- A location stands in the paths once at most, and only if it is used.
abbrev IsOnce : Locations → Type 0
IsOnce l = (x : Bytes) → total x l.paths ≤ (if is_used x l.used_locations then 1 else 0)

check_unused-fresh :
    (location : Bytes) (used : List Bytes) (w : World)
    → (check_unused location used w).0 ≡ returns tt
    → is_used location used ≡ false
unfolding check_unused raise
check_unused-fresh location used w h = elim (Bool-cases (is_used location used)) [
  | inl e ↦ let z = rw e at h in absurd cc
  | inr e ↦ e
]

is_used-cons :
    (x location : Bytes) (used : List Bytes)
    → is_used x (location ∷ used) ≡ (equal x location || is_used x used)
unfolding is_used
is_used-cons x location used = refl

total-fresh :
    (x location : Bytes) (used : List Bytes) (n m : ℕ)
    → is_used location used ≡ false
    → n ≤ (if is_used x used then 1 else 0)
    → m ≤ tally x location + n
    → m ≤ (if is_used x (location ∷ used) then 1 else 0)
total-fresh x location used n m fresh h k = elim (Bool-cases (equal x location)) [
  | inl e ↦
      let f : is_used x used ≡ false =
        ap (λ l. is_used l used) ((equal_iff x location).0 e) ∙ fresh in
      rw (is_used-cons x location used) (rw e (omega (arith, rw f at h, rw e at k)))
  | inr e ↦ rw (is_used-cons x location used) (rw e (omega (arith, h, rw e at k)))
]

add_location-IsOnce :
    (s : NginxConfigStatement) (l l' : Locations) (w : World)
    → IsOnce l
    → (add_location s l w).0 ≡ returns l'
    → IsOnce l'
unfolding add_location
add_location-IsOnce s l l' w once h =
    let (location, _, h1) = lift-returns (token_at (tokens s) 1) _ w l' h in
    let (location_type, _, h2) = lift-returns (token_at (tokens s) 2) _ w l' h1 in
    let (_, free, h3) = steps-returns (check_unused location l.used_locations) _ w l' h2 in
    let (paths, added, h4) = steps-returns (register location location_type s l.paths) _ _ l' h3 in
    let e = pure-returns _ _ l' h4 in
    let fresh = check_unused-fresh location l.used_locations w free in
    rw (sym e) (λ x.
      total-fresh x location l.used_locations (total x l.paths) (total x paths) fresh (once x)
        (register-count x location location_type s l.paths paths _ added))

location_statement-IsOnce :
    (t : Bytes) (s : NginxConfigStatement) (l l' : Locations) (w : World)
    → IsOnce l
    → (location_statement t s l w).0 ≡ returns l'
    → IsOnce l'
unfolding location_statement
location_statement-IsOnce t s l l' w once h = elim (Bool-cases (equal t (text "location"))) [
  | inl e ↦ add_location-IsOnce s l l' w once (rw e at h)
  | inr e ↦ let z = pure-returns l w l' (rw e at h) in rw (sym z) once
]

location_loop-IsOnce :
    (c : NginxConfig) (l l' : Locations) (w : World)
    → IsOnce l
    → (location_loop c l w).0 ≡ returns l'
    → IsOnce l'
unfolding location_loop
location_loop-IsOnce nil l l' w once h = let e = pure-returns l w l' h in rw (sym e) once
location_loop-IsOnce (cons s c) l l' w once h =
    let (t, _, h1) = lift-returns (token_at (tokens s) 0) _ w l' h in
    let (m, k, h2) = steps-returns (location_statement t s l) _ w l' h1 in
    location_loop-IsOnce c m l' _ (location_statement-IsOnce t s l m w once k) h2

server_statement-IsOnce :
    (t : Bytes) (s : NginxConfigStatement) (l l' : Locations) (w : World)
    → IsOnce l
    → (server_statement t s l w).0 ≡ returns l'
    → IsOnce l'
unfolding server_statement server_block
server_statement-IsOnce t s l l' w once h = elim (Bool-cases (equal t (text "server"))) [
  | inl e ↦
      let (child, _, h1) = lift-returns (child_block s) _ w l' (rw e at h) in
      location_loop-IsOnce child l l' w once h1
  | inr e ↦ let z = pure-returns l w l' (rw e at h) in rw (sym z) once
]

server_loop-IsOnce :
    (c : NginxConfig) (l l' : Locations) (w : World)
    → IsOnce l
    → (server_loop c l w).0 ≡ returns l'
    → IsOnce l'
unfolding server_loop
server_loop-IsOnce nil l l' w once h = let e = pure-returns l w l' h in rw (sym e) once
server_loop-IsOnce (cons s c) l l' w once h =
    let (t, _, h1) = lift-returns (token_at (tokens s) 0) _ w l' h in
    let (m, k, h2) = steps-returns (server_statement t s l) _ w l' h1 in
    server_loop-IsOnce c m l' _ (server_statement-IsOnce t s l m w once k) h2

-- When setServerPaths returns, a location stands at most once in all lists and maps of
-- the new server_paths_.
pub set_server_paths-distinct :
    (config : NginxConfig) (w : World)
    → (set_server_paths config w).0 ≡ returns tt
    → (x : Bytes) → total x (set_server_paths config w).1.server_paths ≤ 1
unfolding set_server_paths update
set_server_paths-distinct config w h x =
    let start : Locations = record { paths = no_paths; used_locations = [] } in
    let (l, k, e) = >>=-returns (server_loop config start) _ w tt h in
    let z = server_loop-IsOnce config start l w (λ y. omega arith) k x in rw e (ground (arith, z))
