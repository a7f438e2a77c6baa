-- ===== src/Interpreter.antt =====
-- src/config_interpreter.cc: getPort, setServerPaths and the getters. The messages of
-- BOOST_LOG_TRIVIAL are not modelled.
pub mod Port
pub mod Tally
pub mod Distinct
pub mod Atomic
use dinner_is_servered.Prelude.{
  ℕ, zero, suc, Bool, true, false, ◌||◌, List, [], ◌∷◌, ◌++◌, Bytes, text, equal, ltb,
  if◌then◌else◌, ◌==◌,
}
use dinner_is_servered.Config.Syntax.{
  NginxConfigStatement, NginxConfig, plain, block, nil, cons, tokens,
}
use dinner_is_servered.Runtime.{
  and_then, World, ServerPaths, Exception, out_of_range, runtime_error, Outcome, returns, throws,
  undefined, M, ◌>>=◌, ◌>>◌, pure, raise, gets, lift, update,
}
use dinner_is_servered.Runtime.Dictionary.{StringMap, assign}
use dinner_is_servered.Runtime.Numbers.{ℤ, pos, negsuc, Parsed, parsed, invalid, too_large, stoi}

-- `tokens_.at(i)`
unfoldable pub token_at : List Bytes → ℕ → Outcome Bytes
token_at [] i = throws out_of_range
token_at (t ∷ ts) zero = returns t
token_at (t ∷ ts) (suc i) = token_at ts i

-- `*child_block_`
unfoldable pub child_block : NginxConfigStatement → Outcome NginxConfig
child_block (plain ts) = undefined
child_block (block ts child) = returns child

abbrev pub default_port : ℤ
default_port = pos 80

-- `std::stoi(tokens_.at(1))` in the `try` block; `at` throws std::out_of_range, which is caught too
abbrev or_default : Parsed → ℤ
or_default (parsed port) = port
or_default invalid = default_port
or_default too_large = default_port

abbrev parsed_port : Outcome Bytes → ℤ
parsed_port (returns t) = or_default (stoi t)
parsed_port _ = default_port

-- `port < MINIMUM_VALID_PORT || port > MAXIMUM_VALID_PORT`
abbrev check_range : ℤ → ℤ
check_range (pos n) = if ltb 65535 n then default_port else pos n
check_range (negsuc n) = default_port

unfoldable pub listen_port : List Bytes → ℤ
unfolding token_at
listen_port ts = check_range (parsed_port (token_at ts 1))

-- The nested loop, over the statements of a server block.
unfoldable pub listen_loop : NginxConfig → ℤ → Outcome ℤ
listen_loop nil port = returns port
listen_loop (cons s c) port =
    and_then (token_at (tokens s) 0)
      (λ t. listen_loop c (if equal t (text "listen") then listen_port (tokens s) else port))

unfoldable pub server_port : NginxConfigStatement → Bytes → ℤ → Outcome ℤ
server_port s t port =
    if equal t (text "server")
    then and_then (child_block s) (λ child. listen_loop child port)
    else returns port

unfoldable pub port_loop : NginxConfig → ℤ → Outcome ℤ
port_loop nil port = returns port
port_loop (cons s c) port =
    and_then (token_at (tokens s) 0) (λ t. and_then (server_port s t port) (port_loop c))

unfoldable pub get_port : NginxConfig → Outcome ℤ
get_port config = port_loop config default_port

-- The local variables of setServerPaths. `paths` holds the lists and maps that are put into
-- `server_paths_` at the end.
pub record Locations : Type 0 where
  pub paths : ServerPaths
  pub used_locations : List Bytes

-- `used_locations.find(location) != used_locations.end()`
unfoldable pub is_used : Bytes → List Bytes → Bool
is_used location [] = false
is_used location (l ∷ ls) = equal location l || is_used location ls

-- The loop over the block of a StaticHandler or a CrudHandler, which looks for `keyword`.
unfoldable pub directory_loop : Bytes → Bytes → NginxConfig → StringMap → Bool → Outcome StringMap
directory_loop keyword location nil paths found_server_file = returns paths
directory_loop keyword location (cons s c) paths found_server_file =
    and_then (token_at (tokens s) 0) (λ t. elim (equal t keyword) [
      | false ↦ directory_loop keyword location c paths found_server_file
      | true ↦ elim found_server_file [
        | true ↦ throws (runtime_error (text "Duplicate server file location"))
        | false ↦
            and_then (token_at (tokens s) 1)
              (λ path. directory_loop keyword location c (assign location path paths) true)
      ]
    ])

-- The loop over the block of an AppHandler. The static members change as it goes.
unfoldable pub app_loop : NginxConfig → Bool → Bool → M (Unit {0})
app_loop nil found_gpt_url found_api_key = pure tt
app_loop (cons s c) found_gpt_url found_api_key = do
  t ← lift (token_at (tokens s) 0)
  elim (equal t (text "api_key")) [
    | true ↦ elim found_api_key [
      | true ↦ raise (runtime_error (text "Duplicate API key"))
      | false ↦ (do
        value ← lift (token_at (tokens s) 1)
        update (λ w. record w { api_key = value })
        app_loop c found_gpt_url true)
    ]
    | false ↦ elim (equal t (text "chatgpt_url")) [
      | false ↦ app_loop c found_gpt_url found_api_key
      | true ↦ elim found_gpt_url [
        | true ↦ raise (runtime_error (text "Duplicate GPT url"))
        | false ↦ (do
          value ← lift (token_at (tokens s) 1)
          update (λ w. record w { chatgpt_url = value })
          app_loop c true found_api_key)
      ]
    ]
  ]

-- The handler types that a location statement can name.
unfoldable pub register : Bytes → Bytes → NginxConfigStatement → ServerPaths → M ServerPaths
register location location_type s paths =
    if equal location_type (text "EchoHandler")
    then pure (record paths { echo = paths.echo ++ location ∷ [] })
    else if equal location_type (text "StaticHandler")
    then (do
      child ← lift (child_block s)
      map ← lift (directory_loop (text "root") location child paths.static false)
      pure (record paths { static = map }))
    else if equal location_type (text "CrudHandler")
    then (do
      child ← lift (child_block s)
      map ← lift (directory_loop (text "data_path") location child paths.crud false)
      pure (record paths { crud = map }))
    else if equal location_type (text "HealthHandler")
    then pure (record paths { health = paths.health ++ location ∷ [] })
    else if equal location_type (text "SleepHandler")
    then pure (record paths { sleep = paths.sleep ++ location ∷ [] })
    else if equal location_type (text "AppHandler")
    then (do
      child ← lift (child_block s)
      app_loop child false false
      pure (record paths { app = paths.app ++ location ∷ [] }))
    else pure paths

-- The `throw` on a location that an earlier statement names.
unfoldable pub check_unused : Bytes → List Bytes → M (Unit {0})
check_unused location used =
    if is_used location used
    then raise (
        runtime_error
          (text "The same location (" ++ (location ++ text ") is specified for multiple handlers")))
    else pure tt

-- A statement whose first token is `location`.
unfoldable pub add_location : NginxConfigStatement → Locations → M Locations
add_location s l = do
  location ← lift (token_at (tokens s) 1)
  location_type ← lift (token_at (tokens s) 2)
  check_unused location l.used_locations
  paths ← register location location_type s l.paths
  pure (record { paths = paths; used_locations = location ∷ l.used_locations })

-- A statement of a server block.
unfoldable pub location_statement : Bytes → NginxConfigStatement → Locations → M Locations
location_statement t s l = if equal t (text "location") then add_location s l else pure l

unfoldable pub location_loop : NginxConfig → Locations → M Locations
location_loop nil l = pure l
location_loop (cons s c) l = do
  t ← lift (token_at (tokens s) 0)
  l' ← location_statement t s l
  location_loop c l'

unfoldable pub server_block : NginxConfigStatement → Locations → M Locations
server_block s l = do child ← lift (child_block s); location_loop child l

-- A statement of the config.
unfoldable pub server_statement : Bytes → NginxConfigStatement → Locations → M Locations
server_statement t s l = if equal t (text "server") then server_block s l else pure l

unfoldable pub server_loop : NginxConfig → Locations → M Locations
server_loop nil l = pure l
server_loop (cons s c) l = do
  t ← lift (token_at (tokens s) 0)
  l' ← server_statement t s l
  server_loop c l'

abbrev pub no_paths : ServerPaths
no_paths = record { echo = []; static = []; crud = []; health = []; sleep = []; app = [] }

unfoldable pub set_server_paths : NginxConfig → M (Unit {0})
set_server_paths config = do
  l ← server_loop config (record { paths = no_paths; used_locations = [] })
  update (λ w. record w { server_paths = l.paths })

-- The overload that takes the paths, and the getters.
unfoldable pub assign_server_paths : ServerPaths → M (Unit {0})
assign_server_paths server_paths = update (λ w. record w { server_paths = server_paths })

unfoldable pub get_server_paths : M ServerPaths
get_server_paths = gets (λ w. w.server_paths)

unfoldable pub get_api_key : M Bytes
get_api_key = gets (λ w. w.api_key)

unfoldable pub get_chatgpt_url : M Bytes
get_chatgpt_url = gets (λ w. w.chatgpt_url)
