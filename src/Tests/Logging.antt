-- ===== src/Tests/Logging.antt =====
-- A run of two threads that log and of the logging thread.
use mathlib.Core.List.{map}
use dinner_is_servered.Prelude.{◌≡◌, refl, true, [], ◌∷◌, ◌++◌, Bytes}
use dinner_is_servered.Logging.{
  info, error, buffer1, buffer2, log_info, log_error, LoggingBuffer, log_entry, write_to_log, empty,
  add_to_buffer, switch_buffer, logging_buffer,
}
use dinner_is_servered.Logging.Interleaving.{
  draining, idle, System, Reach, here, later, initial, pending, add, choose, switch, log, finish,
}
use dinner_is_servered.Logging.Interleaving.Ordered.{logged_in_order, empty-all_logged}
use dinner_is_servered.Logging.Flush.{IsSettled, write_to_log_flushes}

abbrev m1 : Bytes
m1 = b'a' ∷ []

abbrev m2 : Bytes
m2 = b'b' ∷ []

-- One message, the switch to the other queue, a message while the first queue is emptied, and the
-- first message logged.
abbrev seen : System
seen = record {
  buffer = record {
    queue1 = [];
    queue2 = record { severity = error; message = m2 } ∷ [];
    available_buffer = buffer2;
    available_buffer_index = 2;
  };
  phase = draining buffer1;
  sink = log_info m1 ∷ [];
  history =
      record { severity = info; message = m1 } ∷ record { severity = error; message = m2 } ∷ [];
}

run_seen : Reach initial seen
unfolding add_to_buffer switch_buffer log_entry
run_seen =
    later
      (later (later (later (later here (add info m1)) (choose refl refl)) (switch buffer1 refl))
        (add error m2))
      (log buffer1 _ [] refl refl)

-- The rest of the run, up to the end of the second call of writeToLog.
abbrev ended : System
ended = record {
  buffer = record {
    queue1 = [];
    queue2 = [];
    available_buffer = buffer1;
    available_buffer_index = 1;
  };
  phase = idle;
  sink = log_info m1 ∷ log_error m2 ∷ [];
  history =
      record { severity = info; message = m1 } ∷ record { severity = error; message = m2 } ∷ [];
}

run_ended : Reach initial ended
unfolding add_to_buffer switch_buffer log_entry
run_ended =
    later
      (later
        (later (later (later run_seen (finish buffer1 refl refl)) (choose refl refl))
          (switch buffer2 refl))
        (log buffer2 _ [] refl refl))
      (finish buffer2 refl refl)

ended-empty : empty ended.buffer ≡ true
unfolding empty
ended-empty = refl

logged_in_order_example :
    seen.sink ++ map log_entry (pending seen.buffer) ≡ map log_entry seen.history
logged_in_order_example = logged_in_order run_seen

empty-all_logged_example : ended.sink ≡ map log_entry ended.history
empty-all_logged_example = empty-all_logged run_ended ended-empty

abbrev full : LoggingBuffer
full =
    logging_buffer
      (record { severity = info; message = m1 } ∷ record { severity = error; message = m2 } ∷ []) []

full-IsSettled : IsSettled full
full-IsSettled = record { index = refl; drained = refl }

write_to_log_flushes_example :
    ((write_to_log full []).1 ≡ [] ++ map log_entry (pending full))
    × (empty (write_to_log full []).0 ≡ true)
    × IsSettled (write_to_log full []).0
write_to_log_flushes_example = write_to_log_flushes full [] full-IsSettled
