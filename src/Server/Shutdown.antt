-- ===== src/Server/Shutdown.antt =====
-- kill_server, and the end of the logging thread.
use mathlib.Core.List.{map}
use dinner_is_servered.Prelude.{
  ℕ, zero, suc, ◌≡◌, refl, sym, ap, ◌∙◌, Bool, Bool-cases, inl, inr, true, false, not, ◌||◌, List,
  [], ◌∷◌, ◌++◌, append-nil, Option, none, some, Bytes, text, arith,
}
use dinner_is_servered.Logging.{
  LogSeverity, info, BufferEntry, LoggingBuffer, add_to_buffer, write_to_log, empty, log_entry,
}
use dinner_is_servered.Logging.Interleaving.{pending, entry}
use dinner_is_servered.Logging.Flush.{IsSettled, write_to_log_flushes}
use dinner_is_servered.Http.{Http}
use dinner_is_servered.Server.{
  Server, log_line, log_once, logging_round, handle_logging, kill_server,
}

-- One more message, behind what is pending.
add_to_buffer-IsSettled :
    (b : LoggingBuffer) (severity : LogSeverity) (message : Bytes)
    → IsSettled b
    → IsSettled (add_to_buffer b severity message).0
      × (pending (add_to_buffer b severity message).0 ≡ pending b ++ entry severity message ∷ [])
unfolding add_to_buffer
add_to_buffer-IsSettled b severity message h = ground (arith, h.index, h.drained)

module _ (http : Http) where
  -- The loop ended, with the lines of `entries` behind what was logged.
  pub record HasEnded (s : Server http) (entries : List BufferEntry) (o : Option (Server http))
      : Type 0 where
    pub server : Server http
    pub ended : o ≡ some server
    pub flag : server.logging_ended ≡ true
    pub logged : server.sink ≡ s.sink ++ map log_entry entries
    pub emptied : empty server.world.logging_buffer ≡ true

  goes_on : (p q : Bool) → p ≡ true → q ≡ true → (not p || not q) ≡ false
  goes_on p q h k = ground (arith, h, k)

  round-ends :
      (s : Server http)
      → s.program_terminated ≡ true
      → empty s.world.logging_buffer ≡ true
      → logging_round http s ≡ none
  unfolding logging_round log_once
  round-ends s p e =
      ap (λ b. log_once http b s) (goes_on s.program_terminated (empty s.world.logging_buffer) p e)

  ended_now :
      (fuel : ℕ) (s : Server http)
      → s.program_terminated ≡ true
      → empty s.world.logging_buffer ≡ true
      → handle_logging http (suc fuel) s ≡ some (record s { logging_ended = true })
  unfolding handle_logging
  ended_now fuel s p e = rw (round-ends s p e, handle_logging) refl

  -- The server behind one round.
  abbrev logged_server : Server http → Server http
  logged_server s =
      let w = s.world in
      let l = write_to_log w.logging_buffer s.sink in
      record s { world = record w { logging_buffer = l.0 }; sink = l.1 }

  once_more :
      (fuel : ℕ) (s : Server http)
      → (not s.program_terminated || not (empty s.world.logging_buffer)) ≡ true
      → handle_logging http (suc fuel) s ≡ handle_logging http fuel (logged_server s)
  unfolding handle_logging logging_round log_once
  once_more fuel s h = rw (ap (λ b. log_once http b s) h, handle_logging) refl

  nothing_pending : (b : LoggingBuffer) → empty b ≡ true → pending b ≡ []
  unfolding empty
  nothing_pending b h = ground (arith, h)

  handle_logging-HasEnded :
      (fuel : ℕ) (s : Server http)
      → IsSettled s.world.logging_buffer
      → s.program_terminated ≡ true
      → HasEnded s (pending s.world.logging_buffer) (handle_logging http (suc (suc fuel)) s)
  handle_logging-HasEnded fuel s h p = elim (Bool-cases (empty s.world.logging_buffer)) [
    | inl e ↦ record {
      server = record s { logging_ended = true };
      ended = ended_now (suc fuel) s p e;
      flag = refl;
      logged = sym (
          ap (λ l. s.sink ++ map log_entry l) (nothing_pending s.world.logging_buffer e)
          ∙ append-nil s.sink);
      emptied = e;
    }
    | inr e ↦
        let (sink, clear, _) = write_to_log_flushes s.world.logging_buffer s.sink h in
        record {
          server = record (logged_server s) { logging_ended = true };
          ended =
              once_more (suc fuel) s (ground (arith, e)) ∙ ended_now fuel (logged_server s) p clear;
          flag = refl;
          logged = sink;
          emptied = clear;
        }
  ]

  -- Without the flag the loop does not end.
  handle_logging-goes_on :
      (fuel : ℕ) (s : Server http)
      → s.program_terminated ≡ false
      → handle_logging http fuel s ≡ none
  unfolding handle_logging
  handle_logging-goes_on zero s p = refl
  handle_logging-goes_on (suc fuel) s p =
      once_more fuel s (ground (arith, p)) ∙ handle_logging-goes_on fuel (logged_server s) p

  -- Of a logging thread that is in its loop, with the flag program_terminated_ false and a buffer as it
  -- is between two calls of writeToLog, and with no other thread that logs or sets the flag: before
  -- kill_server the loop does not end, however long it runs. Behind kill_server it ends in its second
  -- round at the latest: all that was buffered is logged, in order, and the line of kill_server
  -- last, and both queues are empty.
  pub kill_server-HasEnded :
      (fuel : ℕ) (s : Server http)
      → IsSettled s.world.logging_buffer
      → s.program_terminated ≡ false
      → (handle_logging http fuel s ≡ none)
        × HasEnded s
            (pending s.world.logging_buffer
              ++ entry info (text "Recieved interupt signal. Terminating") ∷ [])
            (handle_logging http (suc (suc fuel)) (kill_server http s))
  unfolding kill_server log_line
  kill_server-HasEnded fuel s h p =
      let line = text "Recieved interupt signal. Terminating" in
      let (settled, more) = add_to_buffer-IsSettled s.world.logging_buffer info line h in
      let e = handle_logging-HasEnded fuel (kill_server http s) settled refl in
      (
        handle_logging-goes_on fuel s p,
        record {
          server = e.server;
          ended = e.ended;
          flag = e.flag;
          logged = e.logged ∙ ap (λ l. s.sink ++ map log_entry l) more;
          emptied = e.emptied;
        },
      )
