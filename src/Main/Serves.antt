-- ===== src/Main/Serves.antt =====
-- main on a config that can be served.
use dinner_is_servered.Prelude.{
  Bool, ℕ, ◌≡◌, refl, ap, ◌∙◌, true, List, [], Bytes, ◌≤◌, arith, Option, none, some, if◌then◌else◌,
}
use dinner_is_servered.Config.Syntax.{NginxConfig}
use dinner_is_servered.Config.Parser.{accepted}
use dinner_is_servered.Config.Parser.Sound.{parse-IsPrintable}
use dinner_is_servered.Config.Printable.{IsPrintable}
use dinner_is_servered.Config.File.{parse_opened, parse_file}
use dinner_is_servered.Runtime.{World, Outcome, returns, lift, and_then}
use dinner_is_servered.Runtime.Files.{FileSystem, Node, directory, regular, open_in}
use dinner_is_servered.Runtime.Numbers.{ℤ, pos, negsuc}
use dinner_is_servered.Runtime.Quiet.{bind_returns}
use dinner_is_servered.Interpreter.{get_port, set_server_paths}
use dinner_is_servered.Interpreter.Port.{get_port-last, ports, last_or, IsPort, AreServerBlocks}
use dinner_is_servered.Logger.{initialize_logging}
use dinner_is_servered.Http.{Http}
use dinner_is_servered.Server.{Server, short_of_int, make_server, run, log_line, start_accept}
use dinner_is_servered.Server.Ports.{port_of_short-short_of_int}
use dinner_is_servered.Server.Service.{content_of}
use dinner_is_servered.Main
use dinner_is_servered.Main.{
  joins, is_usage, config_file, initial_world, enable_file_logging, launch, serve_config, caught,
  with_config, main,
}

parse_opened-IsPrintable :
    (o : Option Node) (c : NginxConfig) → parse_opened o ≡ accepted c → IsPrintable c
unfolding parse_opened
parse_opened-IsPrintable none c h = absurd cc
parse_opened-IsPrintable (some directory) c h = parse-IsPrintable [] c h
parse_opened-IsPrintable (some (regular content)) c h = parse-IsPrintable content c h

module _ (http : Http) (beyond : ℤ → Bytes) (raced : Bool) (bind : ℕ → Outcome (Unit {0})) where
  -- The server waits for connections on the endpoint of the port, with the settings of the world.
  pub record IsListening (s : Server http) (port : ℕ) (w : World) : Type 0 where
    pub port_is : s.port ≡ port
    pub content_is : content_of s.world ≡ content_of w
    pub accepts : s.accepting ≡ true
    pub none_yet : s.sessions ≡ []

  launch-IsListening :
      (n : ℕ) (w : World)
      → n ≤ 65535
      → bind n ≡ returns tt
      → (s : Server http) × (launch http beyond raced bind (pos n) w ≡ (returns s, w))
        × IsListening s n w
  unfolding launch make_server run log_line start_accept
  launch-IsListening n w h b =
      let port = port_of_short-short_of_int n (omega (arith, h)) in
      let s = run http (make_server http beyond raced w (short_of_int (pos n))) in
      (
        s,
        ap (λ o. (and_then o (λ bound. returns s), w)) (ap bind port ∙ b),
        record { port_is = port; content_is = refl; accepts = refl; none_yet = refl },
      )

  with_port :
      (p : ℤ) (w : World)
      → IsPort p
      → ((n : ℕ) → p ≡ pos n → bind n ≡ returns tt)
      → (s : Server http) × (n : ℕ) × (p ≡ pos n)
        × (launch http beyond raced bind p w ≡ (returns s, w))
        × IsListening s n w
  with_port (pos n) w h b =
      let (s, e, l) = launch-IsListening n w h (b n refl) in (s, n, refl, e, l)
  with_port (negsuc n) w h b = absurd h

  -- Called as its message on the usage says, on a file that Parse accepts, whose statements
  -- setServerPaths takes and whose server statements have blocks, and with a port that can be bound,
  -- main waits on a server that accepts connections, with no session yet, on the endpoint of the port
  -- that getPort returns, which is not changed by the `short` of the constructor, and with the paths
  -- and the settings that setServerPaths leaves. That port is the one of the last listen statement,
  -- read as std::stoi does, or 80; the port 0 leaves the choice of a free one to the system. The
  -- sinks of the log are those of initialize_logging for the option.
  pub main-IsListening :
      (files : FileSystem) (argv : List Bytes) (c : NginxConfig)
      → is_usage argv ≡ true
      → parse_file files (config_file argv) ≡ accepted c
      → (set_server_paths c (initial_world files)).0 ≡ returns tt
      → AreServerBlocks c
      → ((n : ℕ) → last_or (pos 80) (ports c) ≡ pos n → bind n ≡ returns tt)
      → (s : Server http) × (n : ℕ) × (last_or (pos 80) (ports c) ≡ pos n)
        × (main http beyond raced bind files argv
            ≡ joins (initialize_logging (enable_file_logging argv)) s)
        × IsListening s n (set_server_paths c (initial_world files)).1
  unfolding main with_config caught serve_config lift parse_file
  main-IsListening files argv c usage parsed paths blocks can_bind =
      let printable = parse_opened-IsPrintable (open_in files (config_file argv)) c parsed in
      let (got, is_port) = get_port-last c printable blocks in
      let sinks = initialize_logging (enable_file_logging argv) in
      let w = initial_world files in
      let w₁ = (set_server_paths c w).1 in
      let (s, n, e, launched, listens) =
        with_port (last_or (pos 80) (ports c)) w₁ is_port can_bind in
      let steps : serve_config http beyond raced bind c w ≡ (returns s, w₁) =
        bind_returns (set_server_paths c) _ w tt paths
        ∙ bind_returns (lift (get_port c)) _ w₁ (last_or (pos 80) (ports c)) got
        ∙ launched in
      (
        s,
        n,
        e,
        ap
              (λ b.
                if b
                then with_config http beyond raced bind sinks w
                    (parse_file files (config_file argv))
                else Main.exits 1)
              usage
            ∙ ap (with_config http beyond raced bind sinks w) parsed
            ∙ ap (λ r. caught http beyond raced bind sinks r.0) steps,
        listens,
      )
