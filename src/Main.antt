-- ===== src/Main.antt =====
-- src/_main.cc: main, up to the `join` of the threads of the pool. Whether the acceptor can be bound
-- to a port is a parameter, and so is what stands behind a literal in memory. The
-- messages of BOOST_LOG_TRIVIAL are left out.
pub mod Serves
use dinner_is_servered.Prelude.{
  ℕ, Bool, true, false, not, List, [], ◌∷◌, Bytes, text, equal, if◌then◌else◌,
}
use dinner_is_servered.Config.Syntax.{NginxConfig}
use dinner_is_servered.Config.Parser.{Verdict, accepted, rejected, out_of_fuel}
use dinner_is_servered.Config.Parser
use dinner_is_servered.Config.File.{parse_file}
use dinner_is_servered.Logging.{logging_buffer}
use dinner_is_servered.Runtime.{
  World, Outcome, returns, throws, undefined, M, ◌>>=◌, ◌>>◌, lift, and_then,
}
use dinner_is_servered.Runtime.Files.{FileSystem}
use dinner_is_servered.Runtime.Numbers.{ℤ}
use dinner_is_servered.Interpreter.{get_port, set_server_paths, no_paths}
use dinner_is_servered.Logger.{Sink, initialize_logging}
use dinner_is_servered.Http.{Http}
use dinner_is_servered.Server.{Server, short_of_int, port_of_short, make_server, run}

-- How `main` goes: it returns an exit code, or waits for the threads of the pool, with the sinks of
-- the log. `crashes` is the
-- use of a null pointer.
pub data Ending (http : Http) : Type 0 where
  exits : ℕ → Ending http
  joins : List Sink → Server http → Ending http
  crashes : Ending http

-- `argc ==2 || (argc==3 && std::string(argv[2]) == "--disable-file-logging")`
unfoldable pub is_usage : List Bytes → Bool
is_usage (program ∷ config ∷ []) = true
is_usage (program ∷ config ∷ option ∷ []) = equal option (text "--disable-file-logging")
is_usage argv = false

-- `enable_file_logging`
unfoldable pub enable_file_logging : List Bytes → Bool
enable_file_logging (program ∷ config ∷ option ∷ []) =
    not (equal option (text "--disable-file-logging"))
enable_file_logging argv = true

-- `argv[1]`
abbrev pub config_file : List Bytes → Bytes
config_file (program ∷ config ∷ argv) = config
config_file argv = []

-- the static members, and the buffer that `main` makes
abbrev pub initial_world : FileSystem → World
initial_world files = record {
  logging_buffer = logging_buffer [] [];
  files = files;
  server_paths = no_paths;
  api_key = [];
  chatgpt_url = [];
}

module _ (http : Http) (beyond : ℤ → Bytes) (raced : Bool) (bind : ℕ → Outcome (Unit {0})) where
  -- the constructor of the server, whose acceptor is bound first, and `s.run()`
  unfoldable pub launch : ℤ → M (Server http)
  launch port w =
      let s = short_of_int port in
      (
        and_then (bind (port_of_short s))
            (λ bound. returns (run http (make_server http beyond raced w s))),
        w,
      )

  unfoldable pub serve_config : NginxConfig → M (Server http)
  serve_config config = do set_server_paths config; port ← lift (get_port config); launch port

  -- the `catch` of std::exception
  unfoldable pub caught : List Sink → Outcome (Server http) → Ending http
  caught sinks (returns s) = joins sinks s
  caught sinks (throws e) = exits 1
  caught sinks undefined = crashes

  -- Parse never runs out of fuel.
  unfoldable pub with_config : List Sink → World → Verdict → Ending http
  with_config sinks w (accepted config) = caught sinks (serve_config config w).0
  with_config sinks w rejected = exits 1
  with_config sinks w Parser.undefined = crashes
  with_config sinks w out_of_fuel = exits 1

  unfoldable pub main : FileSystem → List Bytes → Ending http
  main files argv =
      if is_usage argv
      then with_config (initialize_logging (enable_file_logging argv)) (initial_world files)
          (parse_file files (config_file argv))
      else exits 1
