-- ===== src/Tests/Main.antt =====
-- Runs of main.
use dinner_is_servered.Prelude.{false, ℕ, ◌≡◌, refl, true, List, [], ◌∷◌, Bytes, text, equal}
use dinner_is_servered.Config.Syntax.{NginxConfig, plain, block, nil, cons}
use dinner_is_servered.Config.Lexer.{round, token_loop, parse_token}
use dinner_is_servered.Config.Parser.{parse, run, parse_loop, handle_token, update_back, accepted}
use dinner_is_servered.Config.File.{parse_file, parse_opened}
use dinner_is_servered.Runtime.{Outcome, returns, lift, update, pure, ◌>>=◌}
use dinner_is_servered.Runtime.Files.{
  FileSystem, regular, open_in, parts_of, same_path, entry, status,
}
use dinner_is_servered.Runtime.Numbers.{
  ℤ, pos, stoi, unblank, with_sign, signed, leading_digits, digits_from,
}
use dinner_is_servered.Interpreter.{
  set_server_paths, server_loop, server_statement, server_block, location_loop, location_statement,
  token_at, child_block, listen_port,
}
use dinner_is_servered.Interpreter.Port.{ports, last_or}
use dinner_is_servered.Server.{Server}
use dinner_is_servered.Main.{
  main, is_usage, config_file, initial_world, enable_file_logging, joins, exits,
}
use dinner_is_servered.Logger.{initialize_logging}
use dinner_is_servered.Main.Serves.{IsListening, main-IsListening}
use dinner_is_servered.Tests.Handlers.{library}

abbrev beyond : ℤ → Bytes
beyond port = []

abbrev bind : ℕ → Outcome (Unit {0})
bind port = returns tt

-- `server { listen 81; }`
abbrev config_text : Bytes
config_text = text "server { listen 81; }"

abbrev config : NginxConfig
config = cons (block (text "server" ∷ []) (cons (plain (text "listen" ∷ text "81" ∷ [])) nil)) nil

abbrev files : FileSystem
files = ((b'c' ∷ []) ∷ [], regular config_text) ∷ []

abbrev argv : List Bytes
argv = (b's' ∷ []) ∷ (b'c' ∷ []) ∷ []

argv-usage : is_usage argv ≡ true
unfolding is_usage
argv-usage = refl

config-parsed : parse_file files (config_file argv) ≡ accepted config
unfolding parse_file parse_opened open_in parts_of same_path entry status text equal parse run
    parse_loop handle_token parse_token token_loop round update_back
config-parsed = refl

config-taken : (set_server_paths config (initial_world files)).0 ≡ returns tt
unfolding set_server_paths server_loop server_statement server_block location_loop
    location_statement token_at child_block lift update pure ◌>>=◌ text equal
config-taken = refl

main-IsListening_example :
    (s : Server library) × (n : ℕ) × (last_or (pos 80) (ports config) ≡ pos n)
    × (main library beyond false bind files argv
        ≡ joins (initialize_logging (enable_file_logging argv)) s)
    × IsListening library beyond false bind s n (set_server_paths config (initial_world files)).1
main-IsListening_example =
    main-IsListening library beyond false bind files argv config argv-usage config-parsed
      config-taken (tt, tt) (λ n e. refl)

config-port : last_or (pos 80) (ports config) ≡ pos 81
unfolding listen_port token_at text equal stoi unblank with_sign signed leading_digits digits_from
config-port = refl

-- Without a config file.
no_config : main library beyond false bind files ((b's' ∷ []) ∷ []) ≡ exits 1
unfolding main is_usage
no_config = refl
