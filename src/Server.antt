-- ===== src/Server.antt =====
-- src/server.cc: the server's state, and its handlers. A handler that boost::asio calls is one step;
-- the two threads of the pool run handlers one after another.
pub mod Ports
pub mod Steps
pub mod Service
pub mod Sessions
pub mod Answered
pub mod Refines
pub mod Shutdown
use dinner_is_servered.Prelude.{
  ℕ, zero, suc, Bool, true, false, not, ◌||◌, ◌+◌, ◌-◌, ◌%◌, ◌^◌, List, [], ◌∷◌, ◌++◌, Option, none,
  some, Bytes, text, ltb, if◌then◌else◌, length, drop,
}
use dinner_is_servered.Logging.{
  LogSeverity, info, LoggingBuffer, LogRecord, add_to_buffer, write_to_log, empty,
}
use dinner_is_servered.Runtime.{World}
use dinner_is_servered.Runtime.Numbers.{ℤ, pos, negsuc}
use dinner_is_servered.Http.{Http}
use dinner_is_servered.Session.{Session, new_session, start}

-- the members of `server`, with the world that it runs in, the sink of the log, and whether an
-- exception has left a thread of the pool, which ends the program; `port` is that of the endpoint that
-- the acceptor is bound to, where 0 leaves the choice of a free one to the system
pub record Server (http : Http) : Type 0 where
  pub world : World
  pub sink : List LogRecord
  pub port : ℕ
  pub sessions : List (Session http)
  pub accepting : Bool
  pub io_stopped : Bool
  pub program_terminated : Bool
  pub logging_ended : Bool
  pub aborted : Bool

-- an `int` as a `short`, and a `short` as the unsigned number of a port
unfoldable pub short_of_int : ℤ → ℤ
short_of_int (pos n) =
    let m = n % 2 ^ 16 in if ltb m (2 ^ 15) then pos m else negsuc (2 ^ 16 - 1 - m)
short_of_int (negsuc n) =
    let m = n % 2 ^ 16 in if ltb m (2 ^ 15) then negsuc m else pos (2 ^ 16 - 1 - m)

unfoldable pub port_of_short : ℤ → ℕ
port_of_short (pos n) = n % 2 ^ 16
port_of_short (negsuc n) = 2 ^ 16 - 1 - n % 2 ^ 16

-- `"Starting server on port " + port`, a place in the literal, or behind or before it: what stands
-- there is `beyond`
unfoldable pub start_message : (ℤ → Bytes) → ℤ → Bytes
start_message beyond (negsuc n) = beyond (negsuc n)
start_message beyond (pos n) =
    let literal = text "Starting server on port " in
    if ltb (length literal) n then beyond (pos n) else drop n literal

module _ (http : Http) where
  unfoldable pub log_line : Bytes → Server http → Server http
  log_line message s =
      let w = s.world in
      record s {
        world = record w { logging_buffer = (add_to_buffer w.logging_buffer info message).0 };
      }

  -- The session that is made here is the one that is started once it is accepted.
  unfoldable pub start_accept : Server http → Server http × Bool
  start_accept s = (record s { accepting = true }, true)

  -- The flag is the error.
  unfoldable pub handle_accept : Bool → Server http → Server http
  handle_accept true s = (start_accept (record s { accepting = false })).0
  handle_accept false s =
      let started = (start http (new_session http)).0 in
      (start_accept (record s { accepting = false; sessions = s.sessions ++ started ∷ [] })).0

  -- The constructor, for a `short`. The thread of handle_logging is started before
  -- program_terminated_ has its value: `raced` is whether it read the flag as true there, and
  -- ended.
  unfoldable pub make_server : (ℤ → Bytes) → Bool → World → ℤ → Server http
  make_server beyond raced world port =
      let s : Server http = record {
        world = world;
        sink = [];
        port = port_of_short port;
        sessions = [];
        accepting = false;
        io_stopped = false;
        program_terminated = false;
        logging_ended = raced;
        aborted = false;
      } in
      (start_accept (log_line (start_message beyond port) s)).0

  -- run, up to the `join` of the threads of the pool
  unfoldable pub run : Server http → Server http
  run s =
      log_line (text "Joining threadpool threads")
        (log_line (text "Creating threadpool") (log_line (text "Running the server") s))

  -- The flag is whether the loop in handle_logging goes on.
  unfoldable pub log_once : Bool → Server http → Option (Server http)
  log_once false s = none
  log_once true s =
      let w = s.world in
      let logged = write_to_log w.logging_buffer s.sink in
      some (record s { world = record w { logging_buffer = logged.0 }; sink = logged.1 })

  -- One test and one round of the loop; `none` where it ends.
  unfoldable pub logging_round : Server http → Option (Server http)
  logging_round s = log_once (not s.program_terminated || not (empty s.world.logging_buffer)) s

  -- handle_logging with no other thread in between; `none` where the fuel is used up
  unfoldable pub handle_logging : ℕ → Server http → Option (Server http)
  handle_logging zero s = none
  handle_logging (suc fuel) s = elim (logging_round s) [
    | none ↦ some (record s { logging_ended = true })
    | some t ↦ handle_logging fuel t
  ]

  -- kill_server, up to the `join` of the logging thread
  unfoldable pub kill_server : Server http → Server http
  kill_server s = record (log_line (text "Recieved interupt signal. Terminating") s) {
    io_stopped = true;
    program_terminated = true;
  }
