-- ===== src/Tests/Interpreter.antt =====
-- Runs of getPort and setServerPaths.
use dinner_is_servered.Prelude.{◌≤◌, ◌≡◌, ◌≢◌, refl, sym, ◌∙◌, List, [], ◌∷◌, Bytes, text, equal}
use dinner_is_servered.Config.Syntax.{NginxConfigStatement, NginxConfig, plain, block, nil, cons}
use dinner_is_servered.Config.Printable.{word, IsPrintable}
use dinner_is_servered.Logging.{logging_buffer}
use dinner_is_servered.Runtime.{
  World, returns, throws, runtime_error, lift, update, pure, raise, ◌>>=◌,
}
use dinner_is_servered.Runtime.Dictionary.{assign, less}
use dinner_is_servered.Runtime.Numbers.{pos, stoi}
use dinner_is_servered.Interpreter.{
  get_port, port_loop, server_port, listen_loop, listen_port, token_at, child_block,
  set_server_paths, server_loop, server_statement, server_block, location_loop, location_statement,
  add_location, check_unused, is_used, register, directory_loop, app_loop, no_paths,
}
use dinner_is_servered.Interpreter.Port.{get_port-last, ports, last_or, IsPort}
use dinner_is_servered.Interpreter.Tally.{total}
use dinner_is_servered.Interpreter.Distinct.{set_server_paths-distinct}
use dinner_is_servered.Interpreter.Atomic.{set_server_paths-failed}

abbrev listen : List Bytes
listen = text "listen" ∷ text "8080" ∷ []

abbrev location : Bytes → Bytes → NginxConfig → NginxConfigStatement
location path type child = block (text "location" ∷ path ∷ type ∷ []) child

abbrev slash_a : Bytes
slash_a = b'/' ∷ b'a' ∷ []

abbrev slash_b : Bytes
slash_b = b'/' ∷ b'b' ∷ []

abbrev server : NginxConfig → NginxConfig
server child = cons (block (text "server" ∷ []) child) nil

abbrev good : NginxConfig
good = server (
    cons (plain listen) (
      cons (location slash_a (text "EchoHandler") nil) (
        cons
          (location slash_b (text "StaticHandler") (cons (plain (text "root" ∷ slash_a ∷ [])) nil))
          nil)))

abbrev doubled : NginxConfig
doubled = server (
    cons (location slash_a (text "EchoHandler") nil)
      (cons (location slash_a (text "HealthHandler") nil) nil))

abbrev world : World
world = record {
  logging_buffer = logging_buffer [] [];
  files = [];
  server_paths = no_paths;
  api_key = [];
  chatgpt_url = [];
}

good-returns : (set_server_paths good world).0 ≡ returns tt
unfolding set_server_paths server_loop server_statement server_block location_loop
    location_statement add_location check_unused is_used register directory_loop app_loop token_at
    child_block lift update pure raise ◌>>=◌ text equal assign less
good-returns = refl

good-paths :
    (set_server_paths good world).1.server_paths
    ≡ record no_paths { echo = slash_a ∷ []; static = (slash_b, slash_a) ∷ [] }
unfolding set_server_paths server_loop server_statement server_block location_loop
    location_statement add_location check_unused is_used register directory_loop app_loop token_at
    child_block lift update pure raise ◌>>=◌ text equal assign less
good-paths = refl

-- A location with two handlers.
doubled-throws :
    (set_server_paths doubled world).0
    ≡ throws (runtime_error (text "The same location (/a) is specified for multiple handlers"))
unfolding set_server_paths server_loop server_statement server_block location_loop
    location_statement add_location check_unused is_used register directory_loop app_loop token_at
    child_block lift update pure raise ◌>>=◌ text equal assign less
doubled-throws = refl

doubled-ne-returns : (set_server_paths doubled world).0 ≢ returns tt
doubled-ne-returns e =
    let z : throws
          (runtime_error (text "The same location (/a) is specified for multiple handlers"))
        ≡ returns tt =
      sym doubled-throws ∙ e in
    absurd cc

-- An app handler that comes before the statement that is refused has changed api_key_ already.
abbrev key_then_doubled : NginxConfig
key_then_doubled = server (
    cons (location slash_b (text "AppHandler") (cons (plain (text "api_key" ∷ slash_b ∷ [])) nil))
      (cons (location slash_b (text "EchoHandler") nil) nil))

key_then_doubled-key : (set_server_paths key_then_doubled world).1.api_key ≡ slash_b
unfolding set_server_paths server_loop server_statement server_block location_loop
    location_statement add_location check_unused is_used register directory_loop app_loop token_at
    child_block lift update pure raise ◌>>=◌ text equal assign less
key_then_doubled-key = refl

good-port : get_port good ≡ returns (pos 8080)
unfolding get_port port_loop server_port listen_loop listen_port token_at child_block text equal
    stoi
good-port = refl

-- A port with letters behind the number is the number, and 0 is a port.
letters_behind : listen_port (text "listen" ∷ text "8080abc" ∷ []) ≡ pos 8080
unfolding listen_port token_at text stoi
letters_behind = refl

zero_port : listen_port (text "listen" ∷ text "0" ∷ []) ≡ pos 0
unfolding listen_port token_at text stoi
zero_port = refl

set_server_paths-distinct_example : total slash_b (set_server_paths good world).1.server_paths ≤ 1
set_server_paths-distinct_example = set_server_paths-distinct good world good-returns slash_b

set_server_paths-failed_example :
    (set_server_paths doubled world).1.server_paths ≡ world.server_paths
set_server_paths-failed_example = set_server_paths-failed doubled world doubled-ne-returns

-- The same shape in short words: `get_port` reads the statements of every server block.
abbrev small : NginxConfig
small =
    cons (block ((b's' ∷ []) ∷ []) nil)
      (cons (block (text "server" ∷ []) (cons (plain listen) nil)) nil)

small-IsPrintable : IsPrintable small
unfolding text
small-IsPrintable = (
  ((word refl tt, tt), tt),
  (
    (
      (word refl (refl, (refl, (refl, (refl, (refl, tt))))), tt),
      (
        (
          word refl (refl, (refl, (refl, (refl, (refl, tt))))),
          (word refl (refl, (refl, (refl, tt))), tt),
        ),
        tt,
      ),
    ),
    tt,
  ),
)

get_port-last_example :
    (get_port small ≡ returns (last_or (pos 80) (ports small)))
    × IsPort (last_or (pos 80) (ports small))
get_port-last_example = get_port-last small small-IsPrintable (tt, (tt, tt))
