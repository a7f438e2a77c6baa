-- ===== src/Logging/Interleaving.antt =====
-- The logging thread and any number of threads that log, step by step. A step is what one thread
-- does between two points where another may run: an `addToBuffer`, which is one step under the
-- lock, or a part of `writeToLog`. The test `available_buffer_->empty()`, which the source makes
-- outside the lock, is taken as one step.
pub mod Ordered
use mathlib.Core.List.{map, map-append}
use dinner_is_servered.Prelude.{
  ℕ, ◌≡◌, refl, sym, ap, subst, ◌∙◌, true, false, List, [], ◌∷◌, ◌++◌, append-nil, append_assoc,
  arith, Bytes,
}
use dinner_is_servered.Logging.{
  LogSeverity, BufferEntry, QueuePointer, buffer1, buffer2, LoggingBuffer, LogRecord, queue_at,
  set_queue, is_empty, add_to_buffer, switch_buffer, log_entry, empty, logging_buffer,
}

-- Where the logging thread is: outside writeToLog or waiting, behind the test with the pointer
-- `queue` in hand, or in the loop that empties `queue`.
pub data Phase : Type 0 where
  idle : Phase
  chosen : QueuePointer → Phase
  draining : QueuePointer → Phase

pub record System : Type 0 where
  pub buffer : LoggingBuffer
  pub phase : Phase
  pub sink : List LogRecord
  -- every message that was added, in the order of the calls
  pub history : List BufferEntry

abbrev pub entry : LogSeverity → Bytes → BufferEntry
entry severity message = record { severity = severity; message = message }

pub data Step (s : System) : System → Type 0 where
  add :
      (severity : LogSeverity) (message : Bytes)
      → Step s (record s {
        buffer = (add_to_buffer s.buffer severity message).0;
        history = s.history ++ entry severity message ∷ [];
      })
  choose :
      s.phase ≡ idle
      → is_empty (queue_at s.buffer s.buffer.available_buffer) ≡ false
      → Step s (record s { phase = chosen s.buffer.available_buffer })
  switch :
      (queue : QueuePointer)
      → s.phase ≡ chosen queue
      → Step s (record s { buffer = switch_buffer s.buffer; phase = draining queue })
  log :
      (queue : QueuePointer) (top : BufferEntry) (rest : List BufferEntry)
      → s.phase ≡ draining queue
      → queue_at s.buffer queue ≡ top ∷ rest
      → Step s
          (record s { buffer = set_queue s.buffer queue rest; sink = s.sink ++ log_entry top ∷ [] })
  finish :
      (queue : QueuePointer)
      → s.phase ≡ draining queue
      → queue_at s.buffer queue ≡ []
      → Step s (record s { phase = idle })

pub data Reach (s : System) : System → Type 0 where
  here : Reach s s
  later : {t u : System} → Reach s t → Step t u → Reach s u

abbrev pub initial : System
initial = record { buffer = logging_buffer [] []; phase = idle; sink = []; history = [] }

abbrev pub other : QueuePointer → QueuePointer
other buffer1 = buffer2
other buffer2 = buffer1

abbrev pub index_of : QueuePointer → ℕ
index_of buffer1 = 1
index_of buffer2 = 2

-- What is still to be logged, in the order in which it will be: the queue that takes no messages
-- comes first.
abbrev pub pending : LoggingBuffer → List BufferEntry
pending b = queue_at b (other b.available_buffer) ++ queue_at b b.available_buffer
