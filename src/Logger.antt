-- ===== src/Logger.antt =====
-- src/logger.cc and src/signal_handler.cc: the sinks of the log, and a handler of signals that `main`
-- does not install.
use dinner_is_servered.Prelude.{
  ℕ, Bool, List, [], ◌∷◌, ◌++◌, ◌*◌, Option, none, some, Bytes, text, ◌==◌, if◌then◌else◌,
}
use dinner_is_servered.Logging.{LogRecord, log_fatal}

-- A sink of boost::log: a file with its name, its size and the time of day at which the next one is
-- begun, or the console; both with the format of a line.
pub data Sink : Type 0 where
  file_log : (file_name : Bytes) (rotation_size hour minute : ℕ) (format : Bytes) → Sink
  console_log : Bytes → Sink

abbrev line_format : Bytes
line_format = text "[%TimeStamp%] [%ThreadID%] [%Severity%] [%ProcessID%]: %Message%"

-- the sinks that are added
unfoldable pub initialize_logging : Bool → List Sink
initialize_logging enable_file_logging =
    (if enable_file_logging
      then file_log (text "logs/server_%Y-%m-%d_%H-%M-%S.log") (10 * 1024 * 1024) 0 0 line_format
        ∷ []
      else [])
    ++ console_log line_format ∷ []

-- SIGINT
abbrev sigint : ℕ
sigint = 2

-- The line that is logged, and the code of `exit`; `none` where the handler returns.
unfoldable pub sig_handler : ℕ → Option (LogRecord × ℕ)
sig_handler sig =
    if sig == sigint
    then some (log_fatal (text "Recieved interupt signal. Terminating"), sigint)
    else none
