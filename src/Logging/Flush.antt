-- ===== src/Logging/Flush.antt =====
-- One call of writeToLog with no other thread in between, against a queue that is emptied whole.
use mathlib.Core.List.{map}
use dinner_is_servered.Prelude.{
  ◌≡◌, sym, ◌∙◌, true, List, [], ◌∷◌, ◌++◌, append-nil, append_assoc, arith,
}
use dinner_is_servered.Logging.{
  BufferEntry, LoggingBuffer, LogRecord, queue_at, switch_buffer, log_entry, drain, write_to_log,
  empty,
}
use dinner_is_servered.Logging.Interleaving.{other, pending, index_of}

drain-eq :
    (queue : List BufferEntry) (sink : List LogRecord)
    → drain queue sink ≡ sink ++ map log_entry queue
unfolding drain
drain-eq [] sink = sym (append-nil sink)
drain-eq (top ∷ queue) sink =
    drain-eq queue (sink ++ log_entry top ∷ []) ∙ append_assoc sink (log_entry top ∷ []) _

-- A buffer between two calls of writeToLog: the index is in step with the pointer, and the queue
-- that takes no messages is empty.
pub record IsSettled (b : LoggingBuffer) : Type 0 where
  pub index : b.available_buffer_index ≡ index_of b.available_buffer
  pub drained : queue_at b (other b.available_buffer) ≡ []

-- On a buffer whose index is in step with its pointer and whose other queue is empty, and with no
-- other thread in between, a call logs all that is buffered, in order, leaves both queues empty, and
-- the buffer as it was wanted, for a next call.
pub write_to_log_flushes :
    (b : LoggingBuffer) (sink : List LogRecord)
    → IsSettled b
    → ((write_to_log b sink).1 ≡ sink ++ map log_entry (pending b))
      × (empty (write_to_log b sink).0 ≡ true)
      × IsSettled (write_to_log b sink).0
unfolding write_to_log switch_buffer empty
write_to_log_flushes b sink h = ground (
  arith,
  drain-eq b.queue1 sink,
  drain-eq b.queue2 sink,
  append-nil sink,
  append-nil b.queue1,
  append-nil b.queue2,
)
